-- ===== src/Replica/Owner.antt =====
-- The node that owns a state, and what its own operations change: chitchat/src/state.rs.
use mathlib.Core.Path.{subst}
use scuttlebutt.Prelude.{
  ℕ, ◌+◌, ◌≤◌, ◌<◌, ◌≡◌, ◌≢◌, refl, sym, ◌⊎◌, inl, inr, Bool, Bool-cases, some, Option-cases, List,
  [], ◌∷◌, All, All-keep, keep, same, list_ord, nat_ord, arith,
}
use scuttlebutt.Prelude.Maps
use scuttlebutt.Prelude.Maps.{Map}
use scuttlebutt.Ids.{Str, ChitchatId}
use scuttlebutt.Types.{VersionedValue, DeletionStatus, KeyChangeEvent, inc_u64, u64_mod}
use scuttlebutt.NodeState.{
  NodeState, new, get_versioned, set_versioned_value, set_with_version, set, set_with_ttl, delete,
  delete_after_ttl, is_unchanged, is_set, is_ttl,
}
use scuttlebutt.NodeState.Gc.{gc_keys_marked_for_deletion}
use scuttlebutt.NodeState.Collect.{survives, retain-keep, get_versioned-gc}
use scuttlebutt.NodeState.Valid.{
  try-set_versioned_value, IsValid, insert-IsValid, Below, gc-IsValid,
}
use scuttlebutt.NodeState.Reads.{key_values-set_versioned_value}

-- No two entries have the same version.
abbrev pub NoRepeat : Map Str VersionedValue → Type 0
NoRepeat [] = Unit
NoRepeat (e ∷ m) = All (λ (f : Str × VersionedValue). f.1.version ≢ e.1.version) m × NoRepeat m

-- What the owner keeps besides: its versions start from 1 and are used once.
pub record IsOwner (o : NodeState) : Type 0 where
  pub valid : IsValid o
  pub positive : All (λ (e : Str × VersionedValue). 0 < e.1.version) o.key_values
  pub unique : NoRepeat o.key_values

-- Each entry is an old one or has a new version.
pub record Evolves (o t : NodeState) : Type 0 where
  pub entries :
      (k : Str) (v : VersionedValue)
      → get_versioned k t ≡ some v
      → (get_versioned k o ≡ some v) ⊎ (o.max_version < v.version)
  pub forward : o.max_version ≤ t.max_version

pub Evolves-refl : (o : NodeState) → Evolves o o
Evolves-refl o = record { entries = λ k v e. inl e; forward = omega arith }

pub new-IsOwner : (id : ChitchatId) (l : List KeyChangeEvent) → IsOwner (new id l)
unfolding new
new-IsOwner id l = record {
  valid = record { sorted = tt; bounded = tt };
  positive = tt;
  unique = tt;
}

fresh-All :
    (n m : ℕ) (kvs : Map Str VersionedValue)
    → n < m
    → Below n kvs
    → All (λ (f : Str × VersionedValue). f.1.version ≢ m) kvs
fresh-All n m [] h b = tt
fresh-All n m (e ∷ kvs) h b = (λ same. omega arith, fresh-All n m kvs h b.1)

insert-NoRepeat :
    (k : Str) (v : VersionedValue) (n : ℕ) (kvs : Map Str VersionedValue)
    → n < v.version
    → Below n kvs
    → NoRepeat kvs
    → NoRepeat (Maps.insert k v kvs)
unfolding Maps.insert
insert-NoRepeat k v n [] h b u = (tt, tt)
insert-NoRepeat k v n ((j, w) ∷ kvs) h b u = ground (
  arith,
  insert-NoRepeat k v n kvs h b.1 u.1,
  fresh-All n v.version kvs h b.1,
  Maps.All-insert (λ (f : Str × VersionedValue). f.1.version ≢ w.version) k v kvs
      (λ (e : v.version ≡ w.version). omega arith) u.0,
)

pub keep-NoRepeat :
    (p : Str × VersionedValue → Bool) (kvs : Map Str VersionedValue)
    → NoRepeat kvs
    → NoRepeat (keep p kvs)
keep-NoRepeat p [] u = tt
keep-NoRepeat p (e ∷ kvs) u = ground (
  arith,
  keep-NoRepeat p kvs u.1,
  All-keep (λ (f : Str × VersionedValue). f.1.version ≢ e.1.version) p kvs u.0,
)

-- A write of one entry under a new greatest version.
module _ (key : Str) (v : VersionedValue) (o t : NodeState) (h : IsOwner o)
    (written : t.key_values ≡ Maps.insert key v o.key_values) (leads : t.max_version ≡ v.version)
    (ahead : o.max_version < v.version) where
  write-IsOwner : IsOwner t
  write-IsOwner =
      let w = insert-IsValid o key v v.version h.valid (omega arith) (omega arith) in
      record {
        valid = record {
          sorted = subst Maps.IsSorted (sym written) w.0;
          bounded = subst (λ m. Below t.max_version m) (sym written) (rw leads w.1);
        };
        positive =
            subst (λ m. All (λ (e : Str × VersionedValue). 0 < e.1.version) m) (sym written)
              (Maps.All-insert (λ (e : Str × VersionedValue). 0 < e.1.version) key v o.key_values
                (omega arith) h.positive);
        unique =
            subst NoRepeat (sym written)
              (insert-NoRepeat key v o.max_version o.key_values ahead h.valid.bounded h.unique);
      }

  write-Evolves : Evolves o t
  write-Evolves = record {
    entries = λ k w e.
        unfold get_versioned in
        elim (Bool-cases (same k key)) [
          | inl hit ↦ inr (ground (arith, written, Maps.get-insert key k v o.key_values))
          | inr miss ↦ inl (ground (arith, written, Maps.get-insert key k v o.key_values))
        ];
    forward = omega arith;
  }

abbrev stamped : Str → ℕ → DeletionStatus → VersionedValue
stamped value version status = record { value = value; version = version; status = status }

-- The state is an owner's, and has evolved from the one before it.
abbrev pub IsNext : NodeState → NodeState → Type 0
IsNext o t = IsOwner t × Evolves o t

set_versioned_value-IsNext :
    (key : Str) (v : VersionedValue) (o : NodeState)
    → IsOwner o
    → o.max_version < v.version
    → IsNext o (set_versioned_value key v o)
set_versioned_value-IsNext key v o h ahead =
    let t = set_versioned_value key v o in
    let written = key_values-set_versioned_value key v o h.valid ahead in
    let leads : t.max_version ≡ v.version = unfold set_versioned_value in ground arith in
    (write-IsOwner key v o t h written leads ahead, write-Evolves key v o t h written leads ahead)

-- Each operation of the owner, with a version left for it.
module _ (o : NodeState) (h : IsOwner o) where
  module _ (key : Str) (room : o.max_version + 1 < u64_mod) where
    pub set-IsNext : (value : Str) (t : NodeState) → set key value o ≡ some t → IsNext o t
    unfolding set
    set-IsNext value t e =
        let v = stamped value (inc_u64 o.max_version) DeletionStatus.set in
        elim (Bool-cases (is_unchanged is_set value (get_versioned key o))) [
          | inl old ↦
              let same_state : o ≡ t = unfold set in ground (arith, old) in
              subst (IsNext o) same_state (h, Evolves-refl o)
          | inr changed ↦
              let next =
                try-set_versioned_value key v o t
                  (unfold set_with_version in ground (arith, changed)) in
              subst (IsNext o) next (set_versioned_value-IsNext key v o h (omega arith))
        ]

    pub set_with_ttl-IsNext :
        (now : ℕ) (value : Str) (t : NodeState) → set_with_ttl now key value o ≡ some t → IsNext o t
    unfolding set_with_ttl
    set_with_ttl-IsNext now value t e =
        let v = stamped value (inc_u64 o.max_version) (DeletionStatus.delete_after_ttl now) in
        elim (Bool-cases (is_unchanged is_ttl value (get_versioned key o))) [
          | inl old ↦
              let same_state : o ≡ t = ground (arith, old) in
              subst (IsNext o) same_state (h, Evolves-refl o)
          | inr changed ↦
              let next = try-set_versioned_value key v o t (ground (arith, changed)) in
              subst (IsNext o) next (set_versioned_value-IsNext key v o h (omega arith))
        ]

    pub delete-IsNext : (now : ℕ) → IsNext o (delete now key o)
    unfolding delete
    delete-IsNext now = elim (Option-cases (Maps.get key o.key_values)) [
      | inl absent ↦ rw (absent, delete) (h, Evolves-refl o)
      | inr (v, present) ↦
          let w = stamped [] (inc_u64 o.max_version) (DeletionStatus.deleted now) in
          rw (present, delete)
            (
              write-IsOwner key w o _ h refl refl (omega arith),
              write-Evolves key w o _ h refl refl (omega arith),
            )
    ]

    pub delete_after_ttl-IsNext : (now : ℕ) → IsNext o (delete_after_ttl now key o)
    unfolding delete_after_ttl
    delete_after_ttl-IsNext now = elim (Option-cases (Maps.get key o.key_values)) [
      | inl absent ↦ rw (absent, delete_after_ttl) (h, Evolves-refl o)
      | inr (v, present) ↦
          let w = stamped v.value (inc_u64 o.max_version) (DeletionStatus.delete_after_ttl now) in
          rw (present, delete_after_ttl)
            (
              write-IsOwner key w o _ h refl refl (omega arith),
              write-Evolves key w o _ h refl refl (omega arith),
            )
    ]

  pub gc-IsNext : (now grace : ℕ) → IsNext o (gc_keys_marked_for_deletion now grace o)
  unfolding gc_keys_marked_for_deletion
  gc-IsNext now grace = (
    record {
      valid = gc-IsValid now grace o h.valid;
      positive = rw retain-keep (
          All-keep (λ (e : Str × VersionedValue). 0 < e.1.version) (survives now grace) o.key_values
            h.positive);
      unique = rw retain-keep (keep-NoRepeat (survives now grace) o.key_values h.unique);
    },
    record {
      entries = λ k v e. inl (ground (arith, get_versioned-gc now grace o h.valid.sorted k));
      forward = omega arith;
    },
  )
