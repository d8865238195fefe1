-- ===== src/Delta/Ops.antt =====
-- The wire format of the operations of a delta: chitchat/src/delta.rs.
use scuttlebutt.Prelude.{
  ℕ, ◌+◌, ◌≡◌, Option, none, some, List, ◌∷◌, ◌++◌, length, length-append, if◌then◌else◌, ◌==◌,
  arith,
}
use mathlib.Core.List.{append_assoc}
use scuttlebutt.Wire.{Parser, ◌>>=◌, pure, fail, Serde}
use scuttlebutt.Wire.Ints.{
  deserialize_u8, deserialize_u8_lem, serialize_u64, deserialize_u64, IsU64, deserialize_u64_lem,
  length-serialize_u64,
}
use scuttlebutt.Wire.Address.{
  serialize_id, serialized_len_id, deserialize_id, IsId, length-serialize_id, deserialize_id_lem,
}
use scuttlebutt.Wire.Values.{
  serialize_mutation, serialized_len_mutation, deserialize_mutation, IsMutation,
  length-serialize_mutation, deserialize_mutation_lem,
}
use scuttlebutt.Delta.{DeltaOp}

pub data DeltaOpTag : Type 0 where
  node key_value set_max_version : DeltaOpTag

-- `TryFrom<u8>` and the cast to `u8`
abbrev pub tag_of_byte : ℕ → Option DeltaOpTag
tag_of_byte b =
    if b == 0
    then some DeltaOpTag.node
    else if b == 1
    then some DeltaOpTag.key_value
    else if b == 2
    then some DeltaOpTag.set_max_version
    else none

abbrev pub byte_of_tag : DeltaOpTag → ℕ
byte_of_tag DeltaOpTag.node = 0
byte_of_tag DeltaOpTag.key_value = 1
byte_of_tag DeltaOpTag.set_max_version = 2

unfoldable pub serialize_op : DeltaOp → List ℕ
serialize_op (DeltaOp.node id gc from) =
    byte_of_tag DeltaOpTag.node ∷ (serialize_id id ++ (serialize_u64 gc ++ serialize_u64 from))
serialize_op (DeltaOp.key_value kv) = byte_of_tag DeltaOpTag.key_value ∷ serialize_mutation kv
serialize_op (DeltaOp.set_max_version v) = byte_of_tag DeltaOpTag.set_max_version ∷ serialize_u64 v

unfoldable pub serialized_len_op : DeltaOp → ℕ
serialized_len_op (DeltaOp.node id gc from) = 1 + (serialized_len_id id + 8 + 8)
serialized_len_op (DeltaOp.key_value kv) = 1 + serialized_len_mutation kv
serialized_len_op (DeltaOp.set_max_version v) = 1 + 8

abbrev pub op_of_tag : Option DeltaOpTag → Parser DeltaOp
op_of_tag none = fail
op_of_tag (some DeltaOpTag.node) = do
  id ← deserialize_id
  gc ← deserialize_u64
  from ← deserialize_u64
  pure (DeltaOp.node id gc from)
op_of_tag (some DeltaOpTag.key_value) = do kv ← deserialize_mutation; pure (DeltaOp.key_value kv)
op_of_tag (some DeltaOpTag.set_max_version) = do
  v ← deserialize_u64
  pure (DeltaOp.set_max_version v)

unfoldable pub deserialize_op : Parser DeltaOp
deserialize_op = do byte ← deserialize_u8; op_of_tag (tag_of_byte byte)

abbrev pub IsOp : DeltaOp → Type 0
IsOp (DeltaOp.node id gc from) = IsId id × IsU64 gc × IsU64 from
IsOp (DeltaOp.key_value kv) = IsMutation kv
IsOp (DeltaOp.set_max_version v) = IsU64 v

pub length-serialize_op : (op : DeltaOp) → IsOp op → length (serialize_op op) ≡ serialized_len_op op
unfolding serialize_op serialized_len_op
length-serialize_op (DeltaOp.node id gc from) h = omega (
  arith,
  length-append {0} (serialize_id id) (serialize_u64 gc ++ serialize_u64 from),
  length-append {0} (serialize_u64 gc) (serialize_u64 from),
  length-serialize_id id h.0,
  length-serialize_u64 gc,
  length-serialize_u64 from,
)
length-serialize_op (DeltaOp.key_value kv) h = omega (arith, length-serialize_mutation kv)
length-serialize_op (DeltaOp.set_max_version v) h = omega (arith, length-serialize_u64 v)

pub deserialize_op_lem :
    (op : DeltaOp)
    → IsOp op
    → (rest : List ℕ) → deserialize_op (serialize_op op ++ rest) ≡ some (op, rest)
unfolding deserialize_op serialize_op
deserialize_op_lem (DeltaOp.node id gc from) h rest = simp (
  append_assoc,
  deserialize_u8_lem 0,
  deserialize_id_lem id h.0,
  deserialize_u64_lem gc h.1,
  deserialize_u64_lem from h.2,
)
deserialize_op_lem (DeltaOp.key_value kv) h rest =
    simp (deserialize_u8_lem 1, deserialize_mutation_lem kv h)
deserialize_op_lem (DeltaOp.set_max_version v) h rest =
    simp (deserialize_u8_lem 2, deserialize_u64_lem v h)

unfoldable pub op_serde : Serde DeltaOp
op_serde = record {
  serialize = serialize_op;
  serialized_len = serialized_len_op;
  deserialize = deserialize_op;
  IsWire = IsOp;
  length-serialize = length-serialize_op;
  deserialize-serialize = deserialize_op_lem;
}
