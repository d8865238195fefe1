-- ===== src/Examples/WireTests.antt =====
-- The theorems on streams, deltas and messages at concrete values: chitchat/src/serialize.rs,
-- chitchat/src/delta.rs, chitchat/src/digest.rs and chitchat/src/message.rs.
use scuttlebutt.Prelude.{
  ℕ, ◌≡◌, ◌<◌, refl, Option, none, some, List, [], ◌∷◌, ◌++◌, length, All, arith,
}
use scuttlebutt.Stream
use scuttlebutt.Stream
use scuttlebutt.Stream.{
  append, flush_while, flush_block, serialize_block_type, append, flush_while, flush_block,
  serialize_block_type, CompressedStreamWriter, with_block_threshold, append_bytes, finish,
  upperbound_after,
}
use scuttlebutt.Stream.Exceeded.{NoneCompresses, upperbound_exceeded}
use scuttlebutt.Stream.Items.{append_all, IsItem}
use scuttlebutt.Wire.Text.{is_utf8, utf8_run, continuation, serialize_str}
use scuttlebutt.Wire.Address.{serialize_addr, serialize_ip, IsId, serialize_id}
use scuttlebutt.Wire.Ints.{serialize_u8, serialize_u16, serialize_u64, to_le_bytes}
use scuttlebutt.Wire.Values.{serialize_mutation, serialize_status, IsMutation}
use scuttlebutt.Digest.{IsDigest}
use scuttlebutt.Delta.{operations, node_ops, contains}
use scuttlebutt.Delta.Ops.{op_serde, serialized_len_op, serialize_op}
use scuttlebutt.Delta.Codec.{IsDelta, serialize_delta}
use scuttlebutt.Message.{ChitchatMessage, serialize_message, deserialize_message}
use scuttlebutt.Message.RoundTrip.{deserialize_message_lem}
use scuttlebutt.Examples.{no_zstd, node_a, increment, write_l, sample_delta, sample_digest}

-- A writer with blocks of two bytes, and five bytes for it.
abbrev pairs : CompressedStreamWriter
pairs = record { output = []; uncompressed_block = []; block_threshold = 2 }

abbrev five : List ℕ
five = 1 ∷ 2 ∷ 3 ∷ 4 ∷ 5 ∷ []

upperbound_exceeded_example : 12 < length (finish no_zstd (append_bytes no_zstd five pairs))
unfolding upperbound_after NoneCompresses
upperbound_exceeded_example =
    upperbound_exceeded no_zstd five pairs 12
      ((λ p. refl), ((λ p. refl), ((λ p. refl), ((λ p. refl), ((λ p. refl), ((λ p. refl), tt))))))
      (omega arith) (omega arith) (omega arith) refl

node_a-IsId : IsId node_a
unfolding is_utf8 utf8_run continuation
node_a-IsId = ((refl, omega arith), omega arith, (refl, omega arith))

sample_digest-IsDigest : IsDigest sample_digest
sample_digest-IsDigest = record {
  sorted = (tt, tt);
  entries = ((node_a-IsId, (omega arith, omega arith, omega arith)), tt);
  short = omega arith;
}

write_l-IsMutation : IsMutation write_l
unfolding is_utf8 utf8_run continuation
write_l-IsMutation = ((refl, omega arith), (refl, omega arith), omega arith)

ops-IsItem : All (IsItem no_zstd op_serde) (operations (increment ∷ []))
unfolding operations node_ops op_serde serialized_len_op
ops-IsItem = (
  ((node_a-IsId, omega arith, omega arith), omega arith, omega arith),
  ((write_l-IsMutation, omega arith, omega arith), tt),
)

sample_delta-IsDelta : IsDelta no_zstd sample_delta
unfolding contains
sample_delta-IsDelta = record {
  distinct = (refl, tt);
  ascending = ((refl, tt), tt);
  items = ops-IsItem;
}

-- The bytes of the sample delta.
abbrev bytes_of : Option (List ℕ) → List ℕ
bytes_of none = []
bytes_of (some bytes) = bytes

abbrev delta_bytes : List ℕ
delta_bytes = bytes_of (serialize_delta no_zstd sample_delta)

delta_written : serialize_delta no_zstd sample_delta ≡ some delta_bytes
unfolding serialize_delta append_all append append_bytes flush_while flush_block Stream.finish
    with_block_threshold operations node_ops op_serde serialize_op serialized_len_op serialize_id
    serialize_addr serialize_ip serialize_str serialize_u8 serialize_u16 serialize_u64 to_le_bytes
    serialize_mutation serialize_status serialize_block_type
delta_written = refl

abbrev reply : ChitchatMessage
reply = ChitchatMessage.syn_ack sample_digest sample_delta

abbrev reply_bytes : List ℕ
reply_bytes = bytes_of (serialize_message no_zstd reply)

reply_written : serialize_message no_zstd reply ≡ some reply_bytes
unfolding serialize_message
reply_written = rw delta_written

deserialize_message_lem_example : deserialize_message no_zstd (reply_bytes ++ []) ≡ some (reply, [])
deserialize_message_lem_example =
    deserialize_message_lem no_zstd reply reply_bytes []
      (sample_digest-IsDigest, sample_delta-IsDelta) reply_written
