-- ===== src/NodeState/Apply.antt =====
-- `prepare_apply_delta` and `apply_delta` of chitchat/src/state.rs.
use scuttlebutt.Prelude.{
  ℕ, Bool, true, false, ◌&&◌, Option, none, some, List, [], ◌∷◌, if◌then◌else◌, ltb, leb, ◌==◌, max,
}
use scuttlebutt.Types.{VersionedValue, into_status, scheduled_for_deletion, KeyValueMutation}
use scuttlebutt.NodeDelta.{NodeDelta}
use scuttlebutt.NodeState.{NodeState, new, set_versioned_value}

-- `.iter().map(version).max()`, with the greatest version so far
abbrev pub max_from : ℕ → List KeyValueMutation → ℕ
max_from best [] = best
max_from best (kv ∷ kvs) = max_from (max best kv.version) kvs

abbrev pub or_max_version : Option ℕ → List KeyValueMutation → Option ℕ
or_max_version announced [] = announced
or_max_version announced (kv ∷ kvs) = some (max_from kv.version kvs)

abbrev pub delta_max_version : NodeDelta → Option ℕ
delta_max_version d = or_max_version d.max_version d.key_values

-- The order of pairs of versions, `(a, b) <= (c, d)`.
abbrev pub lex_le : ℕ → ℕ → ℕ → ℕ → Bool
lex_le a b c d = if ltb a c then true else a == c && leb b d

-- The announced version is taken only where no key-value comes with it.
abbrev pub reset_max_version : Option ℕ → List KeyValueMutation → ℕ
reset_max_version (some v) [] = v
reset_max_version _ _ = 0

unfoldable pub reset : NodeDelta → NodeState → NodeState
reset d s = record (new d.chitchat_id s.listeners) {
  max_version = reset_max_version d.max_version d.key_values;
  last_gc_version = d.last_gc_version;
}

abbrev pub reset_if_fresher : NodeDelta → NodeState → Option ℕ → NodeState × Bool
reset_if_fresher d s none = (s, false)
reset_if_fresher d s (some v) =
    if lex_le d.last_gc_version v s.last_gc_version s.max_version
    then (s, false)
    else (reset d s, true)

-- The flag says that the delta can be applied.
unfoldable pub prepare_apply_delta : NodeDelta → NodeState → NodeState × Bool
unfolding reset
prepare_apply_delta d s =
    if ltb s.max_version d.from_version_excluded
    then (s, false)
    else if ltb d.last_gc_version s.max_version
    then (s, true)
    else if leb d.last_gc_version s.last_gc_version
    then (s, true)
    else reset_if_fresher d s (delta_max_version d)

abbrev pub versioned : ℕ → KeyValueMutation → VersionedValue
versioned now kv = record {
  value = kv.value;
  version = kv.version;
  status = into_status kv.status now;
}

-- One round of the loop; `floor` is the `current_max_version` from before the loop.
unfoldable pub apply_mutation : ℕ → ℕ → KeyValueMutation → NodeState → NodeState
unfolding set_versioned_value
apply_mutation now floor kv s =
    if leb kv.version floor
    then s
    else if scheduled_for_deletion kv.status && leb kv.version s.last_gc_version
    then s
    else set_versioned_value kv.key (versioned now kv) s

unfoldable pub apply_mutations : ℕ → ℕ → List KeyValueMutation → NodeState → NodeState
unfolding apply_mutation
apply_mutations now floor [] s = s
apply_mutations now floor (kv ∷ kvs) s =
    apply_mutations now floor kvs (apply_mutation now floor kv s)

unfoldable pub apply_delta : ℕ → NodeDelta → NodeState → NodeState
unfolding prepare_apply_delta apply_mutations
apply_delta now d s =
    let (prepared, applicable) = prepare_apply_delta d s in
    if applicable then apply_mutations now prepared.max_version d.key_values prepared else prepared
