-- ===== src/Chitchat/Resets.antt =====
-- What a reset leaves of a node's state: `reset_node_state` of chitchat/src/lib.rs.
use scuttlebutt.Prelude.{
  ℕ, ◌≡◌, refl, ap, ◌∙◌, Bool, false, Bool-cases, inl, inr, ◌||◌, Option, none, some, List, [], ◌∷◌,
  same, same_refl, if◌then◌else◌, leb, max, list_ord, nat_ord, arith,
}
use scuttlebutt.Prelude.Maps
use scuttlebutt.Prelude.Maps.{Map, keys}
use scuttlebutt.Ids.{Str, ChitchatId, id_ord}
use scuttlebutt.Types.{VersionedValue}
use scuttlebutt.NodeState.{
  NodeState, get_versioned, set_versioned_value, set_last_gc_version, remove_key_value_internal,
}
use scuttlebutt.Cluster.{node_state_or_new}
use scuttlebutt.FailureDetector.Window.{Floats}
use scuttlebutt.Chitchat.{Chitchat}
use scuttlebutt.Chitchat.Advance.{node_state_or_new-update_node_state}
use scuttlebutt.Chitchat.Kept.{is_some}
use scuttlebutt.Chitchat.Reset.{set_given, remove_keys, key_set, reset_state, reset_node_state}

abbrev pub has : Str → List Str → Bool
has j [] = false
has j (k ∷ ks) = same j k || has j ks

-- The greatest version of the key-values, and of `n`.
abbrev pub greatest : List (Str × VersionedValue) → ℕ → ℕ
greatest [] n = n
greatest ((k, v) ∷ kvs) n = greatest kvs (max v.version n)

has-keys : {V : Type 0} (j : Str) (m : Map Str V) → has j (keys m) ≡ is_some (Maps.get j m)
unfolding Maps.get
has-keys j [] = refl
has-keys j ((k, v) ∷ m) = ground (arith, has-keys j m)

get-key_set :
    (j : Str) (m : Map Str VersionedValue)
    → is_some (Maps.get j (key_set m)) ≡ is_some (Maps.get j m)
unfolding Maps.get key_set
get-key_set j [] = refl
get-key_set j ((k, v) ∷ m) = ground (arith, get-key_set j m)

get-remove_keys :
    (j : Str) (ks : List Str) (s : NodeState)
    → Maps.get j (remove_keys ks s).key_values
      ≡ (if has j ks then none else Maps.get j s.key_values)
unfolding remove_keys remove_key_value_internal
get-remove_keys j [] s = refl
get-remove_keys j (k ∷ ks) s =
    ground (
      arith,
      get-remove_keys j ks (remove_key_value_internal k s),
      Maps.get-remove k j s.key_values,
    )

remove_keys-max_version :
    (ks : List Str) (s : NodeState) → (remove_keys ks s).max_version ≡ s.max_version
unfolding remove_keys remove_key_value_internal
remove_keys-max_version [] s = refl
remove_keys-max_version (k ∷ ks) s = remove_keys-max_version ks (remove_key_value_internal k s)

get-set_versioned_value :
    (j k : Str) (v : VersionedValue) (s : NodeState)
    → same j k ≡ false
    → Maps.get j (set_versioned_value k v s).key_values ≡ Maps.get j s.key_values
unfolding set_versioned_value
get-set_versioned_value j k v s other = ground (arith, Maps.get-insert k j v s.key_values)

set_versioned_value-max_version :
    (k : Str) (v : VersionedValue) (s : NodeState)
    → (set_versioned_value k v s).max_version ≡ max v.version s.max_version
unfolding set_versioned_value
set_versioned_value-max_version k v s = ground arith

-- A key that is not given stays as it is, and stays one of the previous keys.
get-set_given :
    (j : Str) (kvs : List (Str × VersionedValue)) (m : Map Str (Unit {0})) (s : NodeState)
    → has j (keys kvs) ≡ false
    → (Maps.get j (set_given kvs m s).0 ≡ Maps.get j m)
      × (Maps.get j (set_given kvs m s).1.key_values ≡ Maps.get j s.key_values)
unfolding set_given
get-set_given j [] m s h = (refl, refl)
get-set_given j ((k, v) ∷ kvs) m s h = elim (Bool-cases (same j k)) [
  | inl hit ↦ absurd (ground arith)
  | inr miss ↦
      let rest = get-set_given j kvs (Maps.remove k m) (set_versioned_value k v s) (ground arith) in
      (rest.0 ∙ Maps.get-remove k j m ∙ rw miss refl, rest.1 ∙ get-set_versioned_value j k v s miss)
]

set_given-max_version :
    (kvs : List (Str × VersionedValue)) (m : Map Str (Unit {0})) (s : NodeState)
    → (set_given kvs m s).1.max_version ≡ greatest kvs s.max_version
unfolding set_given
set_given-max_version [] m s = refl
set_given-max_version ((k, v) ∷ kvs) m s =
    set_given-max_version kvs (Maps.remove k m) (set_versioned_value k v s)
    ∙ ap (greatest kvs) (set_versioned_value-max_version k v s)

cleared : (o : Option VersionedValue) → (if is_some o then none else o) ≡ none
cleared none = refl
cleared (some v) = refl

get-reset_state :
    (j : Str) (kvs : List (Str × VersionedValue)) (gc : ℕ) (s : NodeState)
    → has j (keys kvs) ≡ false
    → Maps.get j (reset_state kvs gc s).key_values ≡ none
unfolding reset_state set_last_gc_version
get-reset_state j kvs gc s h =
    let r = set_given kvs (key_set s.key_values) s in
    let kept = get-set_given j kvs (key_set s.key_values) s h in
    get-remove_keys j (keys r.0) r.1
    ∙ rw (has-keys, kept.0, get-key_set, kept.1) (cleared (Maps.get j s.key_values))

reset_state-max_version :
    (kvs : List (Str × VersionedValue)) (gc : ℕ) (s : NodeState)
    → (reset_state kvs gc s).max_version ≡ greatest kvs s.max_version
unfolding reset_state set_last_gc_version
reset_state-max_version kvs gc s =
    let r = set_given kvs (key_set s.key_values) s in
    remove_keys-max_version (keys r.0) r.1 ∙ set_given-max_version kvs (key_set s.key_values) s

module _ (f : Floats) where
  reset_node_state-ahead :
      (id : ChitchatId) (kvs : List (Str × VersionedValue)) (max_version gc : ℕ) (c : Chitchat f)
      → leb max_version (node_state_or_new id c.cluster_state).max_version ≡ false
      → node_state_or_new id (reset_node_state f id kvs max_version gc c).cluster_state
        ≡ reset_state kvs gc (node_state_or_new id c.cluster_state)
  unfolding reset_node_state
  reset_node_state-ahead id kvs max_version gc c ahead = rw ahead (
      node_state_or_new-update_node_state id id (reset_state kvs gc) c.cluster_state
      ∙ ap
          (λ b.
            if b
            then reset_state kvs gc (node_state_or_new id c.cluster_state)
            else node_state_or_new id c.cluster_state)
          (same_refl id))

  -- A reset to a `max_version` above the state's own leaves no key but the given ones and sets `last_gc_version`. The
  -- state's `max_version` becomes the greatest of the given values' versions and its own.
  pub reset_node_state_lem :
      (id : ChitchatId) (kvs : List (Str × VersionedValue)) (max_version gc : ℕ) (c : Chitchat f)
      (j : Str)
      → leb max_version (node_state_or_new id c.cluster_state).max_version ≡ false
      → has j (keys kvs) ≡ false
      → (let t = node_state_or_new id (reset_node_state f id kvs max_version gc c).cluster_state in
          (get_versioned j t ≡ none)
          × (t.last_gc_version ≡ gc)
          × (t.max_version ≡ greatest kvs (node_state_or_new id c.cluster_state).max_version))
  reset_node_state_lem id kvs max_version gc c j ahead h =
      let s = node_state_or_new id c.cluster_state in
      rw (reset_node_state-ahead id kvs max_version gc c ahead) (
        unfold get_versioned in get-reset_state j kvs gc s h,
        unfold reset_state set_last_gc_version in refl,
        reset_state-max_version kvs gc s,
      )
