-- ===== src/NodeState/Collect.antt =====
-- What the garbage collection of chitchat/src/state.rs removes, and the version that it leaves.
use scuttlebutt.Prelude.{
  ℕ, ◌≤◌, ◌≡◌, refl, Bool, not, Option, none, some, ◌∷◌, [], keep, max, if◌then◌else◌, list_ord,
  nat_ord, arith,
}
use scuttlebutt.Prelude.Maps
use scuttlebutt.Prelude.Maps.{Map}
use scuttlebutt.Ids.{Str}
use scuttlebutt.Types.{VersionedValue}
use scuttlebutt.NodeState.{NodeState, get_versioned}
use scuttlebutt.NodeState.Gc.{retain, is_collectable, gc_keys_marked_for_deletion}

abbrev pub survives : ℕ → ℕ → Str × VersionedValue → Bool
survives now grace e = not (is_collectable now grace e.1)

pub retain-keep :
    (now grace last : ℕ) (m : Map Str VersionedValue)
    → (retain now grace last m).0 ≡ keep (survives now grace) m
unfolding retain
retain-keep now grace last [] = refl
retain-keep now grace last ((k, v) ∷ m) =
    let next = if is_collectable now grace v then max v.version last else last in
    ground (arith, retain-keep now grace next m)

retain-le : (now grace last : ℕ) (m : Map Str VersionedValue) → last ≤ (retain now grace last m).1
unfolding retain
retain-le now grace last [] = omega arith
retain-le now grace last ((k, v) ∷ m) =
    let next = if is_collectable now grace v then max v.version last else last in
    ground (arith, retain-le now grace next m)

-- A found entry that may be collected has at most the version that is left.
retain_covers :
    (now grace last : ℕ) (m : Map Str VersionedValue) (k : Str) (v : VersionedValue)
    → Maps.get k m ≡ some v
    → is_collectable now grace v ≡ Bool.true
    → v.version ≤ (retain now grace last m).1
unfolding retain Maps.get
retain_covers now grace last [] k v h c = cc
retain_covers now grace last ((j, w) ∷ m) k v h c =
    let next = if is_collectable now grace w then max w.version last else last in
    ground (arith, retain_covers now grace next m k v, retain-le now grace next m)

abbrev pub collected : ℕ → ℕ → Option VersionedValue → Option VersionedValue
collected now grace none = none
collected now grace (some v) = if is_collectable now grace v then none else some v

module _ (now grace : ℕ) (s : NodeState) (sorted : Maps.IsSorted s.key_values) where
  -- In a state whose keys are in order, garbage collection removes a key exactly if its entry may be
  -- collected, and leaves every other entry as it is.
  pub get_versioned-gc :
      (k : Str)
      → get_versioned k (gc_keys_marked_for_deletion now grace s)
        ≡ collected now grace (get_versioned k s)
  unfolding get_versioned gc_keys_marked_for_deletion
  get_versioned-gc k =
      rw retain-keep (ground (arith, Maps.get-keep (survives now grace) k s.key_values sorted))

  -- In a state whose keys are in order, for an entry that garbage collection has removed, the new `last_gc_version` is at least the
  -- entry's version and at least the old `last_gc_version`.
  pub gc_covers :
      (k : Str) (v : VersionedValue)
      → get_versioned k s ≡ some v
      → get_versioned k (gc_keys_marked_for_deletion now grace s) ≡ none
      → (v.version ≤ (gc_keys_marked_for_deletion now grace s).last_gc_version)
        × (s.last_gc_version ≤ (gc_keys_marked_for_deletion now grace s).last_gc_version)
  unfolding get_versioned gc_keys_marked_for_deletion
  gc_covers k v e gone =
      let covered = retain_covers now grace s.last_gc_version s.key_values k v e in
      (
        ground (arith, get_versioned-gc k, covered),
        retain-le now grace s.last_gc_version s.key_values,
      )
