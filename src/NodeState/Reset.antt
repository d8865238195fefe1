-- ===== src/NodeState/Reset.antt =====
-- What a reset in `prepare_apply_delta` of chitchat/src/state.rs forgets.
use scuttlebutt.Prelude.{
  ℕ, ◌<◌, ◌≡◌, refl, ◌∙◌, false, none, ◌≢◌, List, [], ◌∷◌, All, same, list_ord, nat_ord, arith,
}
use scuttlebutt.Prelude.Maps
use scuttlebutt.Ids.{Str}
use scuttlebutt.Types.{VersionedValue, KeyValueMutation}
use scuttlebutt.NodeDelta.{NodeDelta}
use scuttlebutt.NodeState.{NodeState, new, set_versioned_value, get_versioned}
use scuttlebutt.NodeState.Apply.{
  reset, prepare_apply_delta, apply_mutation, apply_mutations, apply_delta, versioned,
}

-- No mutation is about the key.
abbrev pub Lacks : Str → List KeyValueMutation → Type 0
Lacks key kvs = All (λ (kv : KeyValueMutation). same key kv.key ≡ false) kvs

pub get_versioned-set_versioned_value_ne :
    (key j : Str) (v : VersionedValue) (s : NodeState)
    → same j key ≡ false
    → get_versioned j (set_versioned_value key v s) ≡ get_versioned j s
unfolding get_versioned set_versioned_value
get_versioned-set_versioned_value_ne key j v s h =
    ground (arith, Maps.get-insert key j v s.key_values)

-- A delta changes only the keys that it names.
pub get_versioned-apply_mutations :
    (now floor : ℕ) (key : Str) (kvs : List KeyValueMutation) (s : NodeState)
    → Lacks key kvs
    → get_versioned key (apply_mutations now floor kvs s) ≡ get_versioned key s
unfolding apply_mutations
get_versioned-apply_mutations now floor key [] s h = refl
get_versioned-apply_mutations now floor key (kv ∷ kvs) s h =
    get_versioned-apply_mutations now floor key kvs (apply_mutation now floor kv s) h.1
    ∙ (unfold apply_mutation in
        ground (arith, get_versioned-set_versioned_value_ne kv.key key (versioned now kv) s h.0))

get_versioned-reset :
    (key : Str) (d : NodeDelta) (s : NodeState) → get_versioned key (reset d s) ≡ none
unfolding get_versioned reset new Maps.get
get_versioned-reset key d s = refl

-- Where a delta that starts exactly at the receiver's `max_version` comes from a peer whose
-- `last_gc_version` equals that version and is above the receiver's own, the receiver drops every
-- key that the delta does not carry.
pub boundary_reset_forgets :
    (now : ℕ) (d : NodeDelta) (s : NodeState) (key : Str)
    → d.from_version_excluded ≡ s.max_version
    → d.last_gc_version ≡ s.max_version
    → s.last_gc_version < d.last_gc_version
    → d.key_values ≢ []
    → Lacks key d.key_values
    → get_versioned key (apply_delta now d s) ≡ none
unfolding apply_delta prepare_apply_delta
boundary_reset_forgets now d s key from gc behind some_kvs lacks =
    let r = reset d s in
    ground (
      arith,
      get_versioned-apply_mutations now r.max_version key d.key_values r lacks,
      get_versioned-reset key d s,
    )
