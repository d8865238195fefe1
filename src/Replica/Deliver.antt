-- ===== src/Replica/Deliver.antt =====
-- A delta reaches a replica: `apply_delta` of chitchat/src/state.rs.
use scuttlebutt.Prelude.{
  In, ℕ, ◌≤◌, ◌<◌, ◌≡◌, refl, sym, Bool-cases, ◌⊎◌, inl, inr, Option, none, some, List, [], ◌∷◌,
  All, leb, max, arith,
}
use mathlib.Core.Path.{subst}
use native.Mathlib.Nat.{le_refl}
use scuttlebutt.Ids.{Str}
use scuttlebutt.Types.{VersionedValue, KeyValueMutation}
use scuttlebutt.NodeDelta.{NodeDelta}
use scuttlebutt.NodeState.{NodeState, get_versioned}
use scuttlebutt.NodeState.Apply.{
  max_from, delta_max_version, or_max_version, reset_max_version, reset, prepare_apply_delta,
  apply_mutation, apply_mutations, apply_delta,
}
use scuttlebutt.NodeState.Valid.{IsValid, reset-IsValid}
use scuttlebutt.Delta.Serializer.{mutation_of}
use scuttlebutt.Replica.Merge.{Has, IsOlder, Climbing, Has-apply_mutations, Has-apply_mutations-In}

-- The version that a delta leads to.
abbrev pub top_from : ℕ → Option ℕ → ℕ
top_from from none = from
top_from from (some v) = v

abbrev pub top : NodeDelta → ℕ
top d = top_from d.from_version_excluded (delta_max_version d)

-- The replica has all that the owner has up to the replica's `max_version`.
abbrev pub Faithful : NodeState → NodeState → Type 0
Faithful r o =
    (k : Str) (v : VersionedValue)
    → get_versioned k o ≡ some v
    → v.version ≤ r.max_version
    → Has (mutation_of k v) r

-- The delta has all that the owner has between the versions that it starts from and leads to, and
-- nothing newer than what the owner has.
pub record IsSound (d : NodeDelta) (o : NodeState) : Type 0 where
  pub climbing : Climbing d.from_version_excluded d.key_values
  pub older :
      (k : Str) (v : VersionedValue)
      → get_versioned k o ≡ some v
      → All (IsOlder (mutation_of k v)) d.key_values
  pub full :
      (k : Str) (v : VersionedValue)
      → get_versioned k o ≡ some v
      → d.from_version_excluded < v.version
      → v.version ≤ top d
      → In (mutation_of k v) d.key_values
  pub capped : All (λ (kv : KeyValueMutation). kv.version ≤ o.max_version) d.key_values
  pub below : top d ≤ o.max_version

-- Where the delta is an increment, the receiver refuses it or takes it without a reset.
abbrev pub IsApplicable : NodeDelta → NodeState → Type 0
IsApplicable d s =
    (d.from_version_excluded ≡ 0)
    ⊎ ((s.max_version < d.from_version_excluded)
        ⊎ ((d.last_gc_version < s.max_version) ⊎ (d.last_gc_version ≤ s.last_gc_version)))

max_from-max :
    (a b : ℕ) (kvs : List KeyValueMutation) → max_from (max a b) kvs ≡ max a (max_from b kvs)
max_from-max a b [] = refl
max_from-max a b (kv ∷ kvs) = ground (arith, max_from-max a (max b kv.version) kvs)

apply_mutation-le :
    (now floor : ℕ) (kv : KeyValueMutation) (s : NodeState)
    → (apply_mutation now floor kv s).max_version ≤ max s.max_version kv.version
unfolding apply_mutation
apply_mutation-le now floor kv s = ground arith

max_from_mono : (a b : ℕ) (kvs : List KeyValueMutation) → a ≤ b → max_from a kvs ≤ max_from b kvs
max_from_mono a b [] h = h
max_from_mono a b (kv ∷ kvs) h =
    max_from_mono (max a kv.version) (max b kv.version) kvs (ground arith)

apply_mutations-le :
    (now floor : ℕ) (kvs : List KeyValueMutation) (s : NodeState)
    → (apply_mutations now floor kvs s).max_version ≤ max_from s.max_version kvs
unfolding apply_mutations
apply_mutations-le now floor [] s = le_refl s.max_version
apply_mutations-le now floor (kv ∷ kvs) s =
    let s' = apply_mutation now floor kv s in
    omega (
      arith,
      apply_mutations-le now floor kvs s',
      max_from_mono s'.max_version (max s.max_version kv.version) kvs
          (apply_mutation-le now floor kv s),
    )

-- A delta changes nothing, is merged into the state, or is merged into a state that has been reset.
outcome :
    (now : ℕ) (d : NodeDelta) (s : NodeState)
    → (apply_delta now d s ≡ s)
      ⊎ (((d.from_version_excluded ≤ s.max_version)
            × (apply_delta now d s ≡ apply_mutations now s.max_version d.key_values s))
          ⊎ ((d.from_version_excluded ≤ s.max_version)
              × (s.max_version ≤ d.last_gc_version)
              × (s.last_gc_version < d.last_gc_version)
              × (apply_delta now d s
                  ≡ apply_mutations now (reset d s).max_version d.key_values (reset d s))))
unfolding apply_delta prepare_apply_delta
outcome now d s = ground arith

merged_from-le :
    (now floor from : ℕ) (announced : Option ℕ) (kvs : List KeyValueMutation) (s : NodeState)
    → (apply_mutations now floor kvs s).max_version
      ≤ max s.max_version (top_from from (or_max_version announced kvs))
unfolding apply_mutations
merged_from-le now floor from announced [] s = ground arith
merged_from-le now floor from announced (kv ∷ kvs) s =
    ground
      (arith, apply_mutations-le now floor (kv ∷ kvs) s, max_from-max s.max_version kv.version kvs)

-- Merging into a state leads no further than the delta or the state.
merged-le :
    (now floor : ℕ) (d : NodeDelta) (s : NodeState)
    → (apply_mutations now floor d.key_values s).max_version ≤ max s.max_version (top d)
merged-le now floor d s =
    merged_from-le now floor d.from_version_excluded d.max_version d.key_values s

-- A state that has been reset has reached a version only where no mutation is to come.
reset_reached :
    (n from : ℕ) (announced : Option ℕ) (kvs : List KeyValueMutation)
    → 0 < n
    → n ≤ reset_max_version announced kvs
    → (kvs ≡ []) × (n ≤ top_from from (or_max_version announced kvs))
reset_reached n from none kvs pos h = absurd (omega arith)
reset_reached n from (some x) [] pos h = (refl, h)
reset_reached n from (some x) (kv ∷ kvs) pos h = absurd (omega arith)

none-In : (g : KeyValueMutation) (kvs : List KeyValueMutation) → kvs ≡ [] → In g kvs → ⊥
none-In g [] e i = i
none-In g (kv ∷ kvs) e i = cc

reset_top_from :
    (from : ℕ) (announced : Option ℕ) (kvs : List KeyValueMutation)
    → reset_max_version announced kvs ≤ top_from from (or_max_version announced kvs)
reset_top_from from none [] = omega arith
reset_top_from from (some x) [] = le_refl x
reset_top_from from none (kv ∷ kvs) = omega arith
reset_top_from from (some x) (kv ∷ kvs) = omega arith

reset-top : (d : NodeDelta) (s : NodeState) → (reset d s).max_version ≤ top d
unfolding reset
reset-top d s = reset_top_from d.from_version_excluded d.max_version d.key_values

module _ (now : ℕ) (d : NodeDelta) (o : NodeState) (sound : IsSound d o) where
  -- Merging into a valid state that is faithful from the delta's start on.
  merged-Faithful :
      (s : NodeState)
      → IsValid s
      → ((k : Str) (v : VersionedValue)
          → get_versioned k o ≡ some v
          → v.version ≤ s.max_version
          → Has (mutation_of k v) s)
      → ((v : VersionedValue) → s.max_version < v.version → d.from_version_excluded < v.version)
      → Faithful (apply_mutations now s.max_version d.key_values s) o
  merged-Faithful s valid has start k v e reached =
      let g = mutation_of k v in
      let older = sound.older k v e in
      elim (Bool-cases (leb v.version s.max_version)) [
        | inl old ↦
            Has-apply_mutations now s.max_version g d.from_version_excluded d.key_values s
              sound.climbing (ground arith) older (has k v e (ground arith))
        | inr ahead ↦
            Has-apply_mutations-In now s.max_version g d.from_version_excluded d.key_values s
              sound.climbing (ground arith)
              (sound.full k v e (start v (ground arith))
                (ground (arith, merged-le now s.max_version d s)))
              older valid (le_refl s.max_version) (ground arith)
      ]

  reset-Faithful :
      (s : NodeState)
      → d.from_version_excluded ≡ 0
      → ((k : Str) (v : VersionedValue) → get_versioned k o ≡ some v → 0 < v.version)
      → Faithful (apply_mutations now (reset d s).max_version d.key_values (reset d s)) o
  reset-Faithful s zero positive =
      merged-Faithful (reset d s) (reset-IsValid d s)
        (λ k v e reached.
          let r =
            reset_reached v.version d.from_version_excluded d.max_version d.key_values
              (positive k v e) (unfold reset in reached) in
          absurd (
            none-In (mutation_of k v) d.key_values r.0
              (sound.full k v e (ground (arith, positive k v e)) r.1)))
        (λ v ahead. omega arith)

  -- A sound delta keeps a replica faithful, unless it is an increment that the replica takes as a
  -- reset.
  pub apply_delta-Faithful :
      (s : NodeState)
      → IsValid s
      → ((k : Str) (v : VersionedValue) → get_versioned k o ≡ some v → 0 < v.version)
      → IsApplicable d s
      → Faithful s o
      → Faithful (apply_delta now d s) o
  apply_delta-Faithful s valid positive applicable faithful = elim (outcome now d s) [
    | inl ignored ↦ subst (λ t. Faithful t o) (sym ignored) faithful
    | inr (inl (low, merged)) ↦
        subst (λ t. Faithful t o) (sym merged)
          (merged-Faithful s valid faithful (λ v ahead. omega arith))
    | inr (inr (low, high, behind, merged)) ↦
        subst (λ t. Faithful t o) (sym merged) (reset-Faithful s (ground arith) positive)
  ]

  -- A delta takes a replica no further than itself.
  pub apply_delta-le :
      (s : NodeState) → (apply_delta now d s).max_version ≤ max s.max_version (top d)
  apply_delta-le s = elim (outcome now d s) [
    | inl ignored ↦ rw ignored (ground arith)
    | inr (inl (low, merged)) ↦ rw merged (merged-le now s.max_version d s)
    | inr (inr (low, high, behind, merged)) ↦
        rw merged
          (ground (arith, merged-le now (reset d s).max_version d (reset d s), reset-top d s))
  ]
