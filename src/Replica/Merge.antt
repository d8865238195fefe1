-- ===== src/Replica/Merge.antt =====
-- What a list of mutations makes of one key of a replica: `apply_delta` of chitchat/src/state.rs.
use scuttlebutt.Prelude.{
  In, ℕ, ◌≤◌, ◌<◌, ◌≡◌, refl, sym, ap, Bool, true, false, Bool-cases, ◌&&◌, ◌⊎◌, inl, inr, Option,
  none, some, List, [], ◌∷◌, All, same, same_refl, leb, max, list_ord, nat_ord, arith,
}
use mathlib.Core.Path.{subst}
use scuttlebutt.Prelude.Maps
use scuttlebutt.Ids.{Str}
use scuttlebutt.Types.{
  VersionedValue, KeyValueMutation, DeletionStatusMutation, scheduled_for_deletion, from_status,
  into_status,
}
use scuttlebutt.NodeState.{NodeState, set_versioned_value, get_versioned}
use scuttlebutt.NodeState.Apply.{versioned, apply_mutation, apply_mutations}
use scuttlebutt.NodeState.Valid.{IsValid, apply_mutation-IsValid}
use scuttlebutt.NodeState.Reads.{key_values-set_versioned_value}
use scuttlebutt.NodeState.Reset.{get_versioned-set_versioned_value_ne}
use scuttlebutt.Delta.Serializer.{mutation_of}

-- An entry as it is sent.
abbrev pub shown : Str → Option VersionedValue → Option KeyValueMutation
shown k none = none
shown k (some v) = some (mutation_of k v)

-- A receiver takes no mutation for a deletion that its `last_gc_version` covers.
abbrev pub is_covered : KeyValueMutation → NodeState → Bool
is_covered g s = scheduled_for_deletion g.status && leb g.version s.last_gc_version

-- The state has the mutation's entry, or need not have it.
abbrev pub Has : KeyValueMutation → NodeState → Type 0
Has g s = (shown g.key (get_versioned g.key s) ≡ some g) ⊎ (is_covered g s ≡ true)

-- The mutation is about another key, or is `g`, or is older.
abbrev pub IsOlder : KeyValueMutation → KeyValueMutation → Type 0
IsOlder g kv = (same g.key kv.key ≡ false) ⊎ ((kv ≡ g) ⊎ (kv.version < g.version))

-- Versions grow, from above `b`.
abbrev pub Climbing : ℕ → List KeyValueMutation → Type 0
Climbing b [] = Unit
Climbing b (kv ∷ kvs) = (b < kv.version) × Climbing kv.version kvs

status_back : (m : DeletionStatusMutation) (now : ℕ) → from_status (into_status m now) ≡ m
status_back DeletionStatusMutation.set now = refl
status_back DeletionStatusMutation.delete now = refl
status_back DeletionStatusMutation.delete_after_ttl now = refl

pub mutation_of-versioned :
    (now : ℕ) (g : KeyValueMutation) → mutation_of g.key (versioned now g) ≡ g
mutation_of-versioned now g =
    ap (λ (m : DeletionStatusMutation). record g { status = m }) (status_back g.status now)

get_versioned-set_versioned_value_self :
    (key : Str) (v : VersionedValue) (s : NodeState)
    → IsValid s
    → s.max_version < v.version
    → get_versioned key (set_versioned_value key v s) ≡ some v
unfolding get_versioned
get_versioned-set_versioned_value_self key v s h fresh =
    rw (key_values-set_versioned_value key v s h fresh, Maps.get-insert, same_refl key)

module _ (now floor : ℕ) (kv : KeyValueMutation) (s : NodeState) (b : ℕ) (up : b < kv.version) where
  apply_mutation_room :
      floor ≤ s.max_version
      → s.max_version ≤ max floor b
      → (floor ≤ (apply_mutation now floor kv s).max_version)
        × ((apply_mutation now floor kv s).max_version ≤ max floor kv.version)
        × ((apply_mutation now floor kv s).last_gc_version ≡ s.last_gc_version)
  unfolding apply_mutation
  apply_mutation_room low high = ground arith

  -- A mutation leaves an entry that is at or behind the place that has been reached.
  Has-apply_mutation :
      (g : KeyValueMutation)
      → g.version ≤ max floor b
      → IsOlder g kv
      → Has g s
      → Has g (apply_mutation now floor kv s)
  unfolding apply_mutation
  Has-apply_mutation g reached older has =
      ground (arith, get_versioned-set_versioned_value_ne kv.key g.key (versioned now kv) s)

  -- The entry of a mutation that is ahead is there afterwards.
  Has-apply_mutation_self :
      floor < kv.version
      → IsValid s
      → s.max_version ≤ max floor b
      → Has kv (apply_mutation now floor kv s)
  Has-apply_mutation_self above valid high = elim (Bool-cases (is_covered kv s)) [
    | inl covered ↦ inr (unfold apply_mutation in ground (arith, covered))
    | inr free ↦
        let written : apply_mutation now floor kv s
            ≡ set_versioned_value kv.key (versioned now kv) s =
          unfold apply_mutation in ground (arith, free) in
        inl (
          rw
            (
              written,
              get_versioned-set_versioned_value_self kv.key (versioned now kv) s valid
                  (ground arith),
            )
            (ap some (mutation_of-versioned now kv)))
  ]

module _ (now floor : ℕ) (g : KeyValueMutation) where
  pub Has-apply_mutations :
      (b : ℕ) (kvs : List KeyValueMutation) (s : NodeState)
      → Climbing b kvs
      → g.version ≤ max floor b
      → All (IsOlder g) kvs
      → Has g s
      → Has g (apply_mutations now floor kvs s)
  unfolding apply_mutations
  Has-apply_mutations b [] s up reached older has = has
  Has-apply_mutations b (kv ∷ kvs) s up reached older has =
      Has-apply_mutations kv.version kvs (apply_mutation now floor kv s) up.1 (ground arith) older.1
        (Has-apply_mutation now floor kv s b up.0 g reached older.0 has)

  pub Has-apply_mutations-In :
      (b : ℕ) (kvs : List KeyValueMutation) (s : NodeState)
      → Climbing b kvs
      → floor < g.version
      → In g kvs
      → All (IsOlder g) kvs
      → IsValid s
      → floor ≤ s.max_version
      → s.max_version ≤ max floor b
      → Has g (apply_mutations now floor kvs s)
  unfolding apply_mutations
  Has-apply_mutations-In b [] s up above i older valid low high = absurd i
  Has-apply_mutations-In b (kv ∷ kvs) s up above (inl here) older valid low high =
      let s' = apply_mutation now floor kv s in
      Has-apply_mutations kv.version kvs s' up.1 (ground arith) older.1 (
        subst (λ (x : KeyValueMutation). Has x s') (sym here)
          (Has-apply_mutation_self now floor kv s b up.0 (ground arith) valid high))
  Has-apply_mutations-In b (kv ∷ kvs) s up above (inr later) older valid low high =
      let room = apply_mutation_room now floor kv s b up.0 low high in
      Has-apply_mutations-In kv.version kvs (apply_mutation now floor kv s) up.1 above later older.1
        (apply_mutation-IsValid now floor kv s valid) room.0 room.1
