-- ===== src/NodeState/Valid.antt =====
-- The invariant of `NodeState`, and that the methods of chitchat/src/state.rs keep it.
use scuttlebutt.Prelude.{
  ℕ, ◌+◌, ◌≤◌, ◌<◌, ◌≡◌, Option-cases, some, inl, inr, List, [], ◌∷◌, All, All-keep, max, list_ord,
  nat_ord, arith,
}
use scuttlebutt.Prelude.Maps
use scuttlebutt.Prelude.Maps.{Map}
use scuttlebutt.Ids.{Str, ChitchatId}
use scuttlebutt.Types.{
  inc_u64, u64_mod, VersionedValue, KeyValueMutation, KeyChangeEvent, is_deleted,
}
use scuttlebutt.NodeDelta.{NodeDelta}
use scuttlebutt.NodeState.{
  NodeState, new, set_versioned_value, try_set_versioned_value, set_with_version, set, set_with_ttl,
  delete, delete_after_ttl, remove_key_value_internal,
}
use scuttlebutt.NodeState.Gc.{gc_keys_marked_for_deletion}
use scuttlebutt.NodeState.Collect.{survives, retain-keep}
use scuttlebutt.NodeState.Apply.{
  reset, prepare_apply_delta, apply_mutation, apply_mutations, apply_delta, versioned,
}

-- Versions are at most `n`.
abbrev pub Below : ℕ → Map Str VersionedValue → Type 0
Below n m = All (λ e. e.1.version ≤ n) m

-- The keys are in order and no version passes `max_version`.
pub record IsValid (s : NodeState) : Type 0 where
  pub sorted : Maps.IsSorted s.key_values
  pub bounded : Below s.max_version s.key_values

pub Below-mono : (n m : ℕ) (kvs : Map Str VersionedValue) → n ≤ m → Below n kvs → Below m kvs
Below-mono n m [] h b = tt
Below-mono n m (e ∷ kvs) h b = (omega arith, Below-mono n m kvs h b.1)

pub new-IsValid : (id : ChitchatId) (l : List KeyChangeEvent) → IsValid (new id l)
unfolding new
new-IsValid id l = record { sorted = tt; bounded = tt }

pub insert-IsValid :
    (s : NodeState) (key : Str) (v : VersionedValue) (n : ℕ)
    → IsValid s
    → s.max_version ≤ n
    → v.version ≤ n
    → Maps.IsSorted (Maps.insert key v s.key_values) × Below n (Maps.insert key v s.key_values)
insert-IsValid s key v n h p q = (
  Maps.insert-IsSorted key v s.key_values h.sorted,
  Maps.All-insert (λ e. e.1.version ≤ n) key v s.key_values q
      (Below-mono s.max_version n s.key_values p h.bounded),
)

pub set_versioned_value-IsValid :
    (key : Str) (v : VersionedValue) (s : NodeState)
    → IsValid s
    → IsValid (set_versioned_value key v s)
unfolding set_versioned_value
set_versioned_value-IsValid key v s h =
    let n = max v.version s.max_version in
    ground (
      arith,
      insert-IsValid s key v n h,
      Below-mono s.max_version n s.key_values,
      h.sorted,
      h.bounded,
    )

-- What a write that does not panic leaves.
pub try-set_versioned_value :
    (key : Str) (v : VersionedValue) (s t : NodeState)
    → try_set_versioned_value key v s ≡ some t
    → set_versioned_value key v s ≡ t
unfolding try_set_versioned_value
try-set_versioned_value key v s t e = ground arith

-- Every writing method keeps the invariant, as long as a version is left for it.
pub set-IsValid :
    (key value : Str) (s t : NodeState) → IsValid s → set key value s ≡ some t → IsValid t
unfolding set set_with_version
set-IsValid key value s t h e =
    let v : VersionedValue = record {
      value = value;
      version = inc_u64 s.max_version;
      status = scuttlebutt.Types.DeletionStatus.set;
    } in
    ground (arith, try-set_versioned_value key v s t, set_versioned_value-IsValid key v s)

pub set_with_ttl-IsValid :
    (now : ℕ) (key value : Str) (s t : NodeState)
    → IsValid s
    → set_with_ttl now key value s ≡ some t
    → IsValid t
unfolding set_with_ttl
set_with_ttl-IsValid now key value s t h e =
    let v : VersionedValue = record {
      value = value;
      version = inc_u64 s.max_version;
      status = scuttlebutt.Types.DeletionStatus.delete_after_ttl now;
    } in
    ground (arith, try-set_versioned_value key v s t, set_versioned_value-IsValid key v s)

inc_u64_lem : (n : ℕ) → n + 1 < u64_mod → inc_u64 n ≡ n + 1
inc_u64_lem n h = omega arith

-- A write of one entry under a new greatest version.
write-IsValid :
    (key : Str) (v : VersionedValue) (n : ℕ) (s : NodeState)
    → IsValid s
    → s.max_version ≤ n
    → v.version ≤ n
    → IsValid (record s { max_version = n; key_values = Maps.insert key v s.key_values })
write-IsValid key v n s h p q =
    let w = insert-IsValid s key v n h p q in record { sorted = w.0; bounded = w.1 }

module _ (now : ℕ) (key : Str) (s : NodeState) (h : IsValid s)
    (room : s.max_version + 1 < u64_mod) where
  -- As long as a version is left below the largest `u64`, `delete` keeps the invariant that the keys
  -- are in order and no version is above `max_version`.
  pub delete-IsValid : IsValid (delete now key s)
  unfolding delete
  delete-IsValid = elim (Option-cases (Maps.get key s.key_values)) [
    | inl absent ↦ rw (absent, delete) h
    | inr (v, present) ↦
        rw (present, delete)
          (write-IsValid key _ (inc_u64 s.max_version) s h (omega arith) (omega arith))
  ]

  pub delete_after_ttl-IsValid : IsValid (delete_after_ttl now key s)
  unfolding delete_after_ttl
  delete_after_ttl-IsValid = elim (Option-cases (Maps.get key s.key_values)) [
    | inl absent ↦ rw (absent, delete_after_ttl) h
    | inr (v, present) ↦
        rw (present, delete_after_ttl)
          (write-IsValid key _ (inc_u64 s.max_version) s h (omega arith) (omega arith))
  ]

pub remove_key_value_internal-IsValid :
    (key : Str) (s : NodeState) → IsValid s → IsValid (remove_key_value_internal key s)
unfolding remove_key_value_internal
remove_key_value_internal-IsValid key s h = record {
  sorted = Maps.remove-IsSorted key s.key_values h.sorted;
  bounded = Maps.All-remove (λ e. e.1.version ≤ s.max_version) key s.key_values h.bounded;
}

-- Garbage collection keeps the invariant.
pub gc-IsValid :
    (now grace : ℕ) (s : NodeState) → IsValid s → IsValid (gc_keys_marked_for_deletion now grace s)
unfolding gc_keys_marked_for_deletion
gc-IsValid now grace s h = rw retain-keep (record {
  sorted = Maps.keep-IsSorted (survives now grace) s.key_values h.sorted;
  bounded = All-keep (λ e. e.1.version ≤ s.max_version) (survives now grace) s.key_values h.bounded;
})

pub reset-IsValid : (d : NodeDelta) (s : NodeState) → IsValid (reset d s)
unfolding reset new
reset-IsValid d s = record { sorted = tt; bounded = tt }

prepare-IsValid : (d : NodeDelta) (s : NodeState) → IsValid s → IsValid (prepare_apply_delta d s).0
unfolding prepare_apply_delta
prepare-IsValid d s h = ground (arith, reset-IsValid d s)

pub apply_mutation-IsValid :
    (now floor : ℕ) (kv : KeyValueMutation) (s : NodeState)
    → IsValid s
    → IsValid (apply_mutation now floor kv s)
unfolding apply_mutation
apply_mutation-IsValid now floor kv s h =
    ground (arith, set_versioned_value-IsValid kv.key (versioned now kv) s)

pub apply_mutations-IsValid :
    (now floor : ℕ) (kvs : List KeyValueMutation) (s : NodeState)
    → IsValid s
    → IsValid (apply_mutations now floor kvs s)
unfolding apply_mutations
apply_mutations-IsValid now floor [] s h = h
apply_mutations-IsValid now floor (kv ∷ kvs) s h =
    apply_mutations-IsValid now floor kvs (apply_mutation now floor kv s)
      (apply_mutation-IsValid now floor kv s h)

-- Any delta, well formed or not, keeps the invariant that the keys are in order and no version is
-- above `max_version`.
pub apply_delta-IsValid :
    (now : ℕ) (d : NodeDelta) (s : NodeState) → IsValid s → IsValid (apply_delta now d s)
unfolding apply_delta
apply_delta-IsValid now d s h =
    let p = (prepare_apply_delta d s).0 in
    ground (arith, prepare-IsValid d s h, apply_mutations-IsValid now p.max_version d.key_values p)
