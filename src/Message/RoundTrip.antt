-- ===== src/Message/RoundTrip.antt =====
-- Reading a serialized message: chitchat/src/message.rs.
use scuttlebutt.Prelude.{
  ℕ, ◌≤◌, ◌≡◌, refl, ap, ◌∙◌, Option, none, some, List, [], ◌∷◌, ◌++◌, length, length-append, Bool,
  le→ltb, if◌then◌else◌, arith,
}
use mathlib.Core.List.{append_assoc}
use scuttlebutt.Wire.{feed, lift}
use scuttlebutt.Wire.Ints.{
  serialize_u16, serialize_u8, deserialize_u16_lem, deserialize_u8_lem, length-serialize_u16,
}
use scuttlebutt.Wire.Text.{IsStr, serialize_str, deserialize_str_lem}
use scuttlebutt.Digest.{IsDigest, serialize_digest, deserialize_digest_lem}
use scuttlebutt.Stream.{Compressor}
use scuttlebutt.Delta.Codec.{IsDelta, serialize_delta, deserialize_delta_lem}
use scuttlebutt.Message.{
  ChitchatMessage, MessageType, magic_number, serialize_header, serialize_message, prefixed, body,
  type_of_code, code_of_type, after_length, deserialize_message,
}

module _ (z : Compressor) where
  -- What the format can carry.
  abbrev pub IsMessage : ChitchatMessage → Type 0
  IsMessage (ChitchatMessage.syn cluster_id digest) = IsStr cluster_id × IsDigest digest
  IsMessage (ChitchatMessage.syn_ack digest delta) = IsDigest digest × IsDelta z delta
  IsMessage (ChitchatMessage.ack delta) = IsDelta z delta
  IsMessage ChitchatMessage.bad_cluster = Unit

  read_type :
      (t : MessageType) (rest : List ℕ) → lift (type_of_code (code_of_type t)) rest ≡ some (t, rest)
  read_type MessageType.syn rest = refl
  read_type MessageType.syn_ack rest = refl
  read_type MessageType.ack rest = refl
  read_type MessageType.bad_cluster rest = refl

  after_length_lem :
      (t : MessageType) (rest : List ℕ)
      → after_length z (serialize_header t ++ rest) ≡ body z t rest
  unfolding serialize_header serialize_u8
  after_length_lem t rest =
      rw (append_assoc, deserialize_u16_lem magic_number (omega arith), feed)
        (rw (deserialize_u8_lem 0 (code_of_type t ∷ rest), feed)
          (rw (deserialize_u8_lem (code_of_type t) rest, feed)
            (ap (feed (body z)) (read_type t rest))))

  -- The header leads to the body of its type.
  read_header :
      (t : MessageType) (rest : List ℕ)
      → deserialize_message z (serialize_header t ++ rest) ≡ body z t rest
  unfolding deserialize_message serialize_header serialize_u8
  read_header t rest =
      let len : 3 ≤ length (serialize_header t ++ rest) = omega (
        arith,
        length-append {0} (serialize_header t) rest,
        length-append {0} (serialize_u16 magic_number) (0 ∷ code_of_type t ∷ []),
        length-serialize_u16 magic_number,
      ) in
      ap (λ (b : Bool). if b then none else after_length z (serialize_header t ++ rest))
        (le→ltb 3 (length (serialize_header t ++ rest)) len)
      ∙ after_length_lem t rest

  pub behind :
      (front payload : List ℕ) (o : Option (List ℕ))
      → prefixed z front o ≡ some payload
      → (bytes : List ℕ) × (o ≡ some bytes) × (payload ≡ front ++ bytes)
  behind front payload none e = cc
  behind front payload (some bytes) e = (bytes, refl, cc)

  -- A message that the format can carry, once serialized, is read back, whatever follows it.
  pub deserialize_message_lem :
      (m : ChitchatMessage) (payload rest : List ℕ)
      → IsMessage m
      → serialize_message z m ≡ some payload
      → deserialize_message z (payload ++ rest) ≡ some (m, rest)
  unfolding serialize_message
  deserialize_message_lem (ChitchatMessage.syn cluster_id digest) payload rest h e =
      let split : payload
          ≡ serialize_header MessageType.syn
            ++ (serialize_digest digest ++ serialize_str cluster_id) =
        cc in
      rw (split, append_assoc, read_header, append_assoc)
        (rw (deserialize_digest_lem digest h.1 (serialize_str cluster_id ++ rest), feed)
          (rw (deserialize_str_lem cluster_id h.0 rest, feed) refl))
  deserialize_message_lem (ChitchatMessage.syn_ack digest delta) payload rest h e =
      let (bytes, written, split) =
        behind (serialize_header MessageType.syn_ack ++ serialize_digest digest) payload
          (serialize_delta z delta) e in
      rw (split, append_assoc, append_assoc, read_header)
        (rw (deserialize_digest_lem digest h.0 (bytes ++ rest), feed)
          (rw (deserialize_delta_lem z delta bytes rest h.1 written, feed) refl))
  deserialize_message_lem (ChitchatMessage.ack delta) payload rest h e =
      let (bytes, written, split) =
        behind (serialize_header MessageType.ack) payload (serialize_delta z delta) e in
      rw (split, append_assoc, read_header)
        (rw (deserialize_delta_lem z delta bytes rest h written, feed) refl)
  deserialize_message_lem ChitchatMessage.bad_cluster payload rest h e =
      let split : payload ≡ serialize_header MessageType.bad_cluster = cc in
      rw (split, read_header) refl
