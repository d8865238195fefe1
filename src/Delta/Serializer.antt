-- ===== src/Delta/Serializer.antt =====
-- `DeltaSerializer` of chitchat/src/delta.rs: it takes operations as long as the payload stays within
-- the `mtu`.
pub mod Bound
pub mod Taken
use scuttlebutt.Prelude.{
  ℕ, ◌≤◌, Bool, true, false, Option, none, some, List, length, if◌then◌else◌, ltb, leb, min,
}
use scuttlebutt.Ids.{Str, ChitchatId}
use scuttlebutt.Types.{VersionedValue, KeyValueMutation, from_status}
use scuttlebutt.Stream
use scuttlebutt.Stream.{
  Compressor, CompressedStreamWriter, with_block_threshold, upperbound_after, append,
}
use scuttlebutt.Delta.{Delta, DeltaOp, DeltaBuilder, new_builder, apply_op}
use scuttlebutt.Delta
use scuttlebutt.Delta.Ops.{op_serde, serialized_len_op}

pub record DeltaSerializer : Type 0 where
  pub mtu : ℕ
  pub delta_builder : DeltaBuilder
  pub compressed_stream_writer : CompressedStreamWriter

abbrev pub block_threshold : ℕ
block_threshold = 16384

unfoldable pub with_mtu : ℕ → Option DeltaSerializer
with_mtu mtu =
    if leb 100 mtu
    then some (record {
      mtu = mtu;
      delta_builder = new_builder;
      compressed_stream_writer = with_block_threshold (min block_threshold mtu);
    })
    else none

-- `From` of a versioned value, as `try_add_kv` builds it.
abbrev pub mutation_of : Str → VersionedValue → KeyValueMutation
mutation_of key v = record {
  key = key;
  value = v.value;
  version = v.version;
  status = from_status v.status;
}

module _ (z : Compressor) where
  abbrev pub Outcome : Type 0
  Outcome = Option (DeltaSerializer × Bool)

  abbrev added : DeltaSerializer → Option CompressedStreamWriter → Option DeltaBuilder → Outcome
  added s (some w) (some b) =
      some (record s { delta_builder = b; compressed_stream_writer = w }, true)
  added s _ _ = none

  abbrev within : DeltaOp → DeltaSerializer → Option ℕ → Outcome
  within op s none = none
  within op s (some bound) =
      if ltb s.mtu bound
      then some (s, false)
      else added s (append z op_serde op s.compressed_stream_writer) (apply_op op s.delta_builder)

  -- `none` is a panic: an empty item, an item over 65535 bytes, or an operation that the builder
  -- refuses.
  unfoldable pub try_add_op : DeltaOp → DeltaSerializer → Outcome
  try_add_op op s = within op s (upperbound_after (serialized_len_op op) s.compressed_stream_writer)

  unfoldable pub try_set_max_version : ℕ → DeltaSerializer → Outcome
  try_set_max_version v s = try_add_op (DeltaOp.set_max_version v) s

  unfoldable pub try_add_kv : Str → VersionedValue → DeltaSerializer → Outcome
  try_add_kv key v s = try_add_op (DeltaOp.key_value (mutation_of key v)) s

  unfoldable pub try_add_node : ChitchatId → ℕ → ℕ → DeltaSerializer → Outcome
  try_add_node id gc from s = try_add_op (DeltaOp.node id gc from) s

  unfoldable pub finish : DeltaSerializer → Delta
  finish s = Delta.finish (length (Stream.finish z s.compressed_stream_writer)) s.delta_builder
