-- ===== src/Wire/Values.antt =====
-- The wire format of deletion statuses and mutations: chitchat/src/types.rs.
use scuttlebutt.Prelude.{ℕ, ◌+◌, ◌≡◌, some, List, ◌∷◌, [], ◌++◌, length, length-append, arith}
use mathlib.Core.List.{append_assoc}
use scuttlebutt.Types.{DeletionStatusMutation, status_of_code, code_of_status, KeyValueMutation}
use scuttlebutt.Wire.{Parser, ◌>>=◌, pure, lift, feed}
use scuttlebutt.Wire.Ints.{
  deserialize_u8, deserialize_u8_lem, serialize_u64, deserialize_u64, IsU64, deserialize_u64_lem,
  length-serialize_u64,
}
use scuttlebutt.Wire.Text.{
  serialize_str, serialized_len_str, deserialize_str, IsStr, length-serialize_str,
  deserialize_str_lem,
}

unfoldable pub serialize_status : DeletionStatusMutation → List ℕ
serialize_status s = code_of_status s ∷ []

unfoldable pub deserialize_status : Parser DeletionStatusMutation
deserialize_status = do code ← deserialize_u8; lift (status_of_code code)

unfoldable pub serialize_mutation : KeyValueMutation → List ℕ
serialize_mutation kv =
    serialize_str kv.key
    ++ (serialize_str kv.value ++ (serialize_u64 kv.version ++ serialize_status kv.status))

abbrev pub serialized_len_mutation : KeyValueMutation → ℕ
serialized_len_mutation kv = serialized_len_str kv.key + serialized_len_str kv.value + 8 + 1

unfoldable pub deserialize_mutation : Parser KeyValueMutation
deserialize_mutation = do
  key ← deserialize_str
  value ← deserialize_str
  version ← deserialize_u64
  status ← deserialize_status
  pure (record { key = key; value = value; version = version; status = status })

abbrev pub IsMutation : KeyValueMutation → Type 0
IsMutation kv = IsStr kv.key × IsStr kv.value × IsU64 kv.version

pub deserialize_status_lem :
    (s : DeletionStatusMutation) (rest : List ℕ)
    → deserialize_status (serialize_status s ++ rest) ≡ some (s, rest)
unfolding deserialize_status serialize_status
deserialize_status_lem DeletionStatusMutation.set rest = rw (deserialize_u8_lem 0 rest, feed)
deserialize_status_lem DeletionStatusMutation.delete rest = rw (deserialize_u8_lem 1 rest, feed)
deserialize_status_lem DeletionStatusMutation.delete_after_ttl rest =
    rw (deserialize_u8_lem 2 rest, feed)

pub length-serialize_mutation :
    (kv : KeyValueMutation) → length (serialize_mutation kv) ≡ serialized_len_mutation kv
unfolding serialize_mutation serialize_status
length-serialize_mutation kv =
    let tail = serialize_u64 kv.version ++ (code_of_status kv.status ∷ []) in
    omega (
      arith,
      length-append {0} (serialize_str kv.key) (serialize_str kv.value ++ tail),
      length-append {0} (serialize_str kv.value) tail,
      length-append {0} (serialize_u64 kv.version) (code_of_status kv.status ∷ []),
      length-serialize_str kv.key,
      length-serialize_str kv.value,
      length-serialize_u64 kv.version,
    )

-- A mutation is read back, whatever follows it.
pub deserialize_mutation_lem :
    (kv : KeyValueMutation)
    → IsMutation kv
    → (rest : List ℕ) → deserialize_mutation (serialize_mutation kv ++ rest) ≡ some (kv, rest)
unfolding deserialize_mutation serialize_mutation
deserialize_mutation_lem kv h rest = simp (
  append_assoc,
  deserialize_str_lem kv.key h.0,
  deserialize_str_lem kv.value h.1,
  deserialize_u64_lem kv.version h.2,
  deserialize_status_lem kv.status,
)
