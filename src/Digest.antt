-- ===== src/Digest.antt =====
-- chitchat/src/digest.rs: what a node knows of each node, and its wire format.
use scuttlebutt.Prelude.{
  ℕ, zero, suc, ◌+◌, ◌%◌, ◌^◌, ◌<◌, ◌≡◌, refl, some, List, [], ◌∷◌, ◌++◌, length, length-append,
  All, arith,
}
use scuttlebutt.Prelude.Maps
use scuttlebutt.Prelude.Maps.{Map}
use mathlib.Core.List.{append_assoc, append-nil}
use native.Mathlib.Nat.{mod-eq_of_lt}
use scuttlebutt.Ids.{ChitchatId, id_ord}
use scuttlebutt.Wire.{Parser, ◌>>=◌, pure, feed}
use scuttlebutt.Wire.Ints.{
  serialize_u16, deserialize_u16, deserialize_u16_lem, length-serialize_u16, serialize_u64,
  deserialize_u64, IsU64, deserialize_u64_lem, length-serialize_u64,
}
use scuttlebutt.Wire.Address.{
  serialize_id, serialized_len_id, deserialize_id, IsId, length-serialize_id, deserialize_id_lem,
}

pub record NodeDigest : Type 0 where
  pub heartbeat : ℕ
  pub last_gc_version : ℕ
  pub max_version : ℕ

pub record Digest : Type 0 where
  pub node_digests : Map ChitchatId NodeDigest

unfoldable pub serialize_node_digest : NodeDigest → List ℕ
serialize_node_digest d =
    serialize_u64 d.heartbeat ++ (serialize_u64 d.last_gc_version ++ serialize_u64 d.max_version)

abbrev pub serialized_len_node_digest : NodeDigest → ℕ
serialized_len_node_digest d = 8 + 8 + 8

unfoldable pub deserialize_node_digest : Parser NodeDigest
deserialize_node_digest = do
  heartbeat ← deserialize_u64
  last_gc_version ← deserialize_u64
  max_version ← deserialize_u64
  pure (record {
    heartbeat = heartbeat;
    last_gc_version = last_gc_version;
    max_version = max_version;
  })

unfoldable pub serialize_entries : Map ChitchatId NodeDigest → List ℕ
serialize_entries [] = []
serialize_entries ((id, d) ∷ m) =
    serialize_id id ++ (serialize_node_digest d ++ serialize_entries m)

unfoldable pub serialize_digest : Digest → List ℕ
serialize_digest d =
    serialize_u16 (length d.node_digests % 2 ^ 16) ++ serialize_entries d.node_digests

unfoldable pub serialized_len_entries : Map ChitchatId NodeDigest → ℕ
serialized_len_entries [] = 0
serialized_len_entries ((id, d) ∷ m) =
    serialized_len_id id + serialized_len_node_digest d + serialized_len_entries m

unfoldable pub serialized_len_digest : Digest → ℕ
serialized_len_digest d = 2 + serialized_len_entries d.node_digests

-- The loop over `0..num_nodes`.
unfoldable pub deserialize_entries :
    ℕ → Map ChitchatId NodeDigest → Parser (Map ChitchatId NodeDigest)
deserialize_entries zero m = pure m
deserialize_entries (suc n) m = do
  id ← deserialize_id
  d ← deserialize_node_digest
  deserialize_entries n (Maps.insert id d m)

unfoldable pub deserialize_digest : Parser Digest
deserialize_digest = do
  num_nodes ← deserialize_u16
  node_digests ← deserialize_entries num_nodes []
  pure (record { node_digests = node_digests })

abbrev pub IsNodeDigest : NodeDigest → Type 0
IsNodeDigest d = IsU64 d.heartbeat × IsU64 d.last_gc_version × IsU64 d.max_version

-- The keys are in order, as in any `BTreeMap`, and the number of nodes fits its prefix.
pub record IsDigest (d : Digest) : Type 0 where
  pub sorted : Maps.IsSorted d.node_digests
  pub entries : All (λ e. IsId e.0 × IsNodeDigest e.1) d.node_digests
  pub short : length d.node_digests < 2 ^ 16

length-serialize_node_digest :
    (d : NodeDigest) → length (serialize_node_digest d) ≡ serialized_len_node_digest d
unfolding serialize_node_digest
length-serialize_node_digest d = omega (
  arith,
  length-append {0} (serialize_u64 d.heartbeat)
      (serialize_u64 d.last_gc_version ++ serialize_u64 d.max_version),
  length-append {0} (serialize_u64 d.last_gc_version) (serialize_u64 d.max_version),
  length-serialize_u64 d.heartbeat,
  length-serialize_u64 d.last_gc_version,
  length-serialize_u64 d.max_version,
)

length-serialize_entries :
    (m : Map ChitchatId NodeDigest)
    → All (λ e. IsId e.0 × IsNodeDigest e.1) m
    → length (serialize_entries m) ≡ serialized_len_entries m
unfolding serialize_entries serialized_len_entries
length-serialize_entries [] h = refl
length-serialize_entries ((id, d) ∷ m) h = omega (
  arith,
  length-append {0} (serialize_id id) (serialize_node_digest d ++ serialize_entries m),
  length-append {0} (serialize_node_digest d) (serialize_entries m),
  length-serialize_id id h.0.0,
  length-serialize_node_digest d,
  length-serialize_entries m h.1,
)

-- The announced length is the length that is written.
pub length-serialize_digest :
    (d : Digest) → IsDigest d → length (serialize_digest d) ≡ serialized_len_digest d
unfolding serialize_digest serialized_len_digest
length-serialize_digest d h = omega (
  arith,
  length-append {0} (serialize_u16 (length d.node_digests % 2 ^ 16))
      (serialize_entries d.node_digests),
  length-serialize_u16 (length d.node_digests % 2 ^ 16),
  length-serialize_entries d.node_digests h.entries,
)

deserialize_node_digest_lem :
    (d : NodeDigest)
    → IsNodeDigest d
    → (rest : List ℕ) → deserialize_node_digest (serialize_node_digest d ++ rest) ≡ some (d, rest)
unfolding deserialize_node_digest serialize_node_digest
deserialize_node_digest_lem d h rest = simp (
  append_assoc,
  deserialize_u64_lem d.heartbeat h.0,
  deserialize_u64_lem d.last_gc_version h.1,
  deserialize_u64_lem d.max_version h.2,
)

-- The loop puts the entries behind those that it has.
deserialize_entries_lem :
    (m seen : Map ChitchatId NodeDigest)
    → Maps.IsSorted (seen ++ m)
    → All (λ e. IsId e.0 × IsNodeDigest e.1) m
    → (rest : List ℕ)
    → deserialize_entries (length m) seen (serialize_entries m ++ rest) ≡ some (seen ++ m, rest)
unfolding deserialize_entries serialize_entries
deserialize_entries_lem [] seen s h rest = rw append-nil
deserialize_entries_lem ((id, d) ∷ m) seen s h rest =
    simp
      (
        append_assoc,
        deserialize_id_lem id h.0.0,
        deserialize_node_digest_lem d h.0.1,
        Maps.insert-append id d seen m s,
      )
      (rw (deserialize_entries_lem m (seen ++ ((id, d) ∷ [])) (rw append_assoc s) h.1 rest)
        (rw append_assoc))

-- A digest of fewer than 65536 nodes in order, of identifiers and numbers that the format can carry,
-- is read back, whatever follows it.
pub deserialize_digest_lem :
    (d : Digest)
    → IsDigest d
    → (rest : List ℕ) → deserialize_digest (serialize_digest d ++ rest) ≡ some (d, rest)
unfolding deserialize_digest serialize_digest
deserialize_digest_lem d h rest =
    let n = length d.node_digests % 2 ^ 16 in
    rw (append_assoc, deserialize_u16_lem n (omega arith), feed)
      (rw (
        mod-eq_of_lt h.short,
        deserialize_entries_lem d.node_digests [] h.sorted h.entries rest,
        feed,
      ))
