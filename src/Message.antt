-- ===== src/Message.antt =====
-- chitchat/src/message.rs: the messages of the gossip handshake and their wire format.
pub mod RoundTrip
pub mod Length
use scuttlebutt.Prelude.{
  ℕ, ◌+◌, Bool, Option, none, some, List, [], ◌∷◌, ◌++◌, length, if◌then◌else◌, ◌==◌, ltb,
}
use scuttlebutt.Ids.{Str}
use scuttlebutt.Wire.{Parser, ◌>>=◌, pure, fail, lift}
use scuttlebutt.Wire.Ints.{serialize_u16, deserialize_u16, serialize_u8, deserialize_u8}
use scuttlebutt.Wire.Text.{serialize_str, serialized_len_str, deserialize_str}
use scuttlebutt.Digest.{Digest, serialize_digest, serialized_len_digest, deserialize_digest}
use scuttlebutt.Stream.{Compressor}
use scuttlebutt.Delta.{Delta}
use scuttlebutt.Delta.Codec.{serialize_delta, deserialize_delta}

abbrev pub magic_number : ℕ
magic_number = 45139

pub data ChitchatMessage : Type 0 where
  syn : Str → Digest → ChitchatMessage
  syn_ack : Digest → Delta → ChitchatMessage
  ack : Delta → ChitchatMessage
  bad_cluster : ChitchatMessage

-- `ProtocolVersion::from_code`; there is one version, V0.
abbrev pub version_of_code : ℕ → Option (Unit {0})
version_of_code c = if c == 0 then some tt else none

pub data MessageType : Type 0 where
  syn syn_ack ack bad_cluster : MessageType

abbrev pub type_of_code : ℕ → Option MessageType
type_of_code c =
    if c == 0
    then some MessageType.syn
    else if c == 1
    then some MessageType.syn_ack
    else if c == 2
    then some MessageType.ack
    else if c == 3
    then some MessageType.bad_cluster
    else none

abbrev pub code_of_type : MessageType → ℕ
code_of_type MessageType.syn = 0
code_of_type MessageType.syn_ack = 1
code_of_type MessageType.ack = 2
code_of_type MessageType.bad_cluster = 3

-- The magic number, the protocol version and the type.
unfoldable pub serialize_header : MessageType → List ℕ
serialize_header t = serialize_u16 magic_number ++ (serialize_u8 0 ++ serialize_u8 (code_of_type t))

module _ (z : Compressor) where
  abbrev pub prefixed : List ℕ → Option (List ℕ) → Option (List ℕ)
  prefixed front none = none
  prefixed front (some bytes) = some (front ++ bytes)

  -- `none` where the assertion of the delta's serialization fails.
  unfoldable pub serialize_message : ChitchatMessage → Option (List ℕ)
  serialize_message (ChitchatMessage.syn cluster_id digest) =
      some
        (serialize_header MessageType.syn ++ (serialize_digest digest ++ serialize_str cluster_id))
  serialize_message (ChitchatMessage.syn_ack digest delta) =
      prefixed (serialize_header MessageType.syn_ack ++ serialize_digest digest)
        (serialize_delta z delta)
  serialize_message (ChitchatMessage.ack delta) =
      prefixed (serialize_header MessageType.ack) (serialize_delta z delta)
  serialize_message ChitchatMessage.bad_cluster = some (serialize_header MessageType.bad_cluster)

  abbrev pub body : MessageType → Parser ChitchatMessage
  body MessageType.syn = do
    digest ← deserialize_digest
    cluster_id ← deserialize_str
    pure (ChitchatMessage.syn cluster_id digest)
  body MessageType.syn_ack = do
    digest ← deserialize_digest
    delta ← deserialize_delta z
    pure (ChitchatMessage.syn_ack digest delta)
  body MessageType.ack = do delta ← deserialize_delta z; pure (ChitchatMessage.ack delta)
  body MessageType.bad_cluster = pure ChitchatMessage.bad_cluster

  abbrev pub checked_magic : ℕ → Parser (Unit {0})
  checked_magic n = if n == magic_number then pure tt else fail

  abbrev pub after_length : Parser ChitchatMessage
  after_length = do
    magic ← deserialize_u16
    ok ← checked_magic magic
    version ← deserialize_u8
    known ← lift (version_of_code version)
    code ← deserialize_u8
    message_type ← lift (type_of_code code)
    body message_type

  unfoldable pub deserialize_message : Parser ChitchatMessage
  deserialize_message buf = if ltb (length buf) 3 then none else after_length buf

unfoldable pub serialized_len_message : ChitchatMessage → ℕ
serialized_len_message (ChitchatMessage.syn cluster_id digest) =
    2 + 1 + (1 + serialized_len_str cluster_id + serialized_len_digest digest)
serialized_len_message (ChitchatMessage.syn_ack digest delta) =
    2 + 1 + (1 + serialized_len_digest digest + delta.serialized_len)
serialized_len_message (ChitchatMessage.ack delta) = 2 + 1 + (1 + delta.serialized_len)
serialized_len_message ChitchatMessage.bad_cluster = 2 + 1 + 1
