-- ===== src/NodeState/Progress.antt =====
-- Deltas that come late, twice or out of order: `apply_delta` of chitchat/src/state.rs and its effect
-- on (`last_gc_version`, `max_version`).
use scuttlebutt.Prelude.{
  ℕ, ◌≤◌, ◌<◌, ◌≡◌, refl, ap, ◌∙◌, true, false, Bool-cases, ◌⊎◌, inl, inr, List, [], ◌∷◌, All,
  arith, leb, ◌&&◌,
}
use native.Mathlib.Nat.{le_refl}
use scuttlebutt.Types.{KeyValueMutation, scheduled_for_deletion}
use scuttlebutt.NodeDelta.{NodeDelta}
use scuttlebutt.NodeState.{NodeState}
use scuttlebutt.NodeState.Apply.{prepare_apply_delta, apply_mutation, apply_mutations, apply_delta}

-- The lexicographic order of (`last_gc_version`, `max_version`).
abbrev pub LexLe : ℕ → ℕ → ℕ → ℕ → Type 0
LexLe a b c d = (a < c) ⊎ ((a ≡ c) × (b ≤ d))

-- The mutation is behind the state: a later copy would be skipped.
abbrev pub IsTaken : NodeState → KeyValueMutation → Type 0
IsTaken t kv =
    (leb kv.version t.max_version ≡ true)
    ⊎ ((scheduled_for_deletion kv.status && leb kv.version t.last_gc_version) ≡ true)

-- A mutation keeps `last_gc_version`, never lowers `max_version`, and takes its version in unless
-- it is skipped.
module _ (now floor : ℕ) (kv : KeyValueMutation) (s : NodeState) where
  pub apply_mutation_versions :
      ((apply_mutation now floor kv s).last_gc_version ≡ s.last_gc_version)
      × (s.max_version ≤ (apply_mutation now floor kv s).max_version)
  unfolding apply_mutation
  apply_mutation_versions = ground arith

  apply_mutation-IsTaken : floor ≤ s.max_version → IsTaken (apply_mutation now floor kv s) kv
  unfolding apply_mutation
  apply_mutation-IsTaken h = ground arith

pub apply_mutations_versions :
    (now floor : ℕ) (kvs : List KeyValueMutation) (s : NodeState)
    → ((apply_mutations now floor kvs s).last_gc_version ≡ s.last_gc_version)
      × (s.max_version ≤ (apply_mutations now floor kvs s).max_version)
unfolding apply_mutations
apply_mutations_versions now floor [] s = omega arith
apply_mutations_versions now floor (kv ∷ kvs) s =
    let t = apply_mutation now floor kv s in
    omega (arith, apply_mutation_versions now floor kv s, apply_mutations_versions now floor kvs t)

-- A delta that can be applied meets the state at or behind its versions; a reset raises
-- `last_gc_version`.
prepare_versions :
    (d : NodeDelta) (s : NodeState)
    → LexLe s.last_gc_version s.max_version
        (prepare_apply_delta d s).0.last_gc_version
        (prepare_apply_delta d s).0.max_version
unfolding prepare_apply_delta
prepare_versions d s = ground arith

-- Applying any delta to any state never moves (`last_gc_version`, `max_version`) back in lexicographic
-- order.
pub apply_delta_progress :
    (now : ℕ) (d : NodeDelta) (s : NodeState)
    → LexLe s.last_gc_version s.max_version
        (apply_delta now d s).last_gc_version
        (apply_delta now d s).max_version
unfolding apply_delta
apply_delta_progress now d s =
    let p = (prepare_apply_delta d s).0 in
    ground (arith, prepare_versions d s, apply_mutations_versions now p.max_version d.key_values p)

IsTaken-later :
    (kv : KeyValueMutation) (t u : NodeState)
    → u.last_gc_version ≡ t.last_gc_version
    → t.max_version ≤ u.max_version
    → IsTaken t kv
    → IsTaken u kv
IsTaken-later kv t u gc le h = ground arith

apply_mutations-IsTaken :
    (now floor : ℕ) (kvs : List KeyValueMutation) (s : NodeState)
    → floor ≤ s.max_version
    → All (IsTaken (apply_mutations now floor kvs s)) kvs
unfolding apply_mutations
apply_mutations-IsTaken now floor [] s h = tt
apply_mutations-IsTaken now floor (kv ∷ kvs) s h =
    let t = apply_mutation now floor kv s in
    let later = apply_mutations_versions now floor kvs t in
    (
      IsTaken-later kv t (apply_mutations now floor kvs t) later.0 later.1
          (apply_mutation-IsTaken now floor kv s h),
      apply_mutations-IsTaken now floor kvs t
          (omega (arith, apply_mutation_versions now floor kv s)),
    )

skip_mutation :
    (now : ℕ) (kv : KeyValueMutation) (t : NodeState)
    → IsTaken t kv
    → apply_mutation now t.max_version kv t ≡ t
unfolding apply_mutation
skip_mutation now kv t h = ground arith

skip_taken :
    (now : ℕ) (kvs : List KeyValueMutation) (t : NodeState)
    → All (IsTaken t) kvs
    → apply_mutations now t.max_version kvs t ≡ t
unfolding apply_mutations
skip_taken now [] t h = refl
skip_taken now (kv ∷ kvs) t h =
    ap (apply_mutations now t.max_version kvs) (skip_mutation now kv t h.0)
    ∙ skip_taken now kvs t h.1

-- Preparing for a delta that has been applied changes nothing.
prepare_again :
    (d : NodeDelta) (s t : NodeState)
    → (prepare_apply_delta d s).1 ≡ true
    → t.last_gc_version ≡ (prepare_apply_delta d s).0.last_gc_version
    → (prepare_apply_delta d s).0.max_version ≤ t.max_version
    → (prepare_apply_delta d t).0 ≡ t
unfolding prepare_apply_delta
prepare_again d s t ok gc le = ground arith

apply_nothing :
    (now : ℕ) (d : NodeDelta) (t : NodeState)
    → (prepare_apply_delta d t).0 ≡ t
    → All (IsTaken t) d.key_values
    → apply_delta now d t ≡ t
unfolding apply_delta
apply_nothing now d t same taken = ground (arith, skip_taken now d.key_values t taken)

refuse_twice :
    (now : ℕ) (d : NodeDelta) (s : NodeState)
    → (prepare_apply_delta d s).1 ≡ false
    → apply_delta now d s ≡ s
unfolding apply_delta prepare_apply_delta
refuse_twice now d s h = ground arith

accepted :
    (now : ℕ) (d : NodeDelta) (s : NodeState)
    → (prepare_apply_delta d s).1 ≡ true
    → apply_delta now d s
      ≡ apply_mutations now
          (prepare_apply_delta d s).0.max_version
          d.key_values
          (prepare_apply_delta d s).0
unfolding apply_delta
accepted now d s h = ground arith

-- Applying the same delta again at once, at any later instant, changes nothing.
pub apply_delta_idempotent :
    (now later : ℕ) (d : NodeDelta) (s : NodeState)
    → apply_delta later d (apply_delta now d s) ≡ apply_delta now d s
apply_delta_idempotent now later d s = elim (Bool-cases (prepare_apply_delta d s).1) [
  | inl ok ↦
      let p = (prepare_apply_delta d s).0 in
      let versions = apply_mutations_versions now p.max_version d.key_values p in
      rw (accepted now d s ok) (
        apply_nothing later d (apply_mutations now p.max_version d.key_values p)
          (prepare_again d s _ ok versions.0 versions.1)
          (apply_mutations-IsTaken now p.max_version d.key_values p (le_refl p.max_version)))
  | inr refused ↦ rw (refuse_twice now d s refused) (refuse_twice later d s refused)
]
