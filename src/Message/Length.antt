-- ===== src/Message/Length.antt =====
-- The announced length of a message: chitchat/src/message.rs.
use scuttlebutt.Prelude.{
  ℕ, ◌≡◌, some, Option-cases, inl, inr, List, ◌++◌, length, length-append, arith,
}
use scuttlebutt.Wire.Ints.{serialize_u16, serialize_u8, length-serialize_u16}
use scuttlebutt.Wire.Text.{serialize_str, length-serialize_str}
use scuttlebutt.Digest.{serialize_digest, length-serialize_digest}
use scuttlebutt.Stream.{Compressor, with_block_threshold}
use scuttlebutt.Stream.Items.{append_all}
use scuttlebutt.Delta.{Delta, operations}
use scuttlebutt.Delta.Ops.{op_serde}
use scuttlebutt.Delta.Codec.{serialize_delta}
use scuttlebutt.Message.{
  ChitchatMessage, MessageType, serialize_header, code_of_type, magic_number, serialize_message,
  serialized_len_message,
}
use scuttlebutt.Message.RoundTrip.{IsMessage, behind}

length-serialize_header : (t : MessageType) → length (serialize_header t) ≡ 4
unfolding serialize_header serialize_u8
length-serialize_header t = omega (
  arith,
  length-append {0} (serialize_u16 magic_number) (serialize_u8 0 ++ serialize_u8 (code_of_type t)),
  length-serialize_u16 magic_number,
)

module _ (z : Compressor) where
  length-serialize_delta :
      (d : Delta) (bytes : List ℕ)
      → serialize_delta z d ≡ some bytes
      → length bytes ≡ d.serialized_len
  unfolding serialize_delta
  length-serialize_delta d bytes e =
      elim (Option-cases
        (append_all z op_serde (operations d.node_deltas) (with_block_threshold 16384))) [
          | inl panic ↦ cc (panic, e)
          | inr (w, filled) ↦ ground (arith, filled, e)
        ]

  -- What a message is serialized to has the length that it announces.
  pub length-serialize_message :
      (m : ChitchatMessage) (payload : List ℕ)
      → IsMessage z m
      → serialize_message z m ≡ some payload
      → length payload ≡ serialized_len_message m
  unfolding serialize_message serialized_len_message
  length-serialize_message (ChitchatMessage.syn cluster_id digest) payload h e =
      let split : payload
          ≡ serialize_header MessageType.syn
            ++ (serialize_digest digest ++ serialize_str cluster_id) =
        cc in
      rw split (
        omega (
          arith,
          length-append {0} (serialize_header MessageType.syn)
              (serialize_digest digest ++ serialize_str cluster_id),
          length-append {0} (serialize_digest digest) (serialize_str cluster_id),
          length-serialize_header MessageType.syn,
          length-serialize_digest digest h.1,
          length-serialize_str cluster_id,
        ))
  length-serialize_message (ChitchatMessage.syn_ack digest delta) payload h e =
      let (bytes, written, split) =
        behind z (serialize_header MessageType.syn_ack ++ serialize_digest digest) payload
          (serialize_delta z delta) e in
      rw split (
        omega (
          arith,
          length-append {0} (serialize_header MessageType.syn_ack ++ serialize_digest digest) bytes,
          length-append {0} (serialize_header MessageType.syn_ack) (serialize_digest digest),
          length-serialize_header MessageType.syn_ack,
          length-serialize_digest digest h.0,
          length-serialize_delta delta bytes written,
        ))
  length-serialize_message (ChitchatMessage.ack delta) payload h e =
      let (bytes, written, split) =
        behind z (serialize_header MessageType.ack) payload (serialize_delta z delta) e in
      rw split (
        omega (
          arith,
          length-append {0} (serialize_header MessageType.ack) bytes,
          length-serialize_header MessageType.ack,
          length-serialize_delta delta bytes written,
        ))
  length-serialize_message ChitchatMessage.bad_cluster payload h e =
      let split : payload ≡ serialize_header MessageType.bad_cluster = cc in
      rw split (length-serialize_header MessageType.bad_cluster)
