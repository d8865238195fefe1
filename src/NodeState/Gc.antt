-- ===== src/NodeState/Gc.antt =====
-- `gc_keys_marked_for_deletion` of chitchat/src/state.rs.
use scuttlebutt.Prelude.{
  ℕ, ◌+◌, Bool, false, not, Option, none, some, [], ◌∷◌, if◌then◌else◌, ltb, max,
}
use scuttlebutt.Prelude.Maps.{Map}
use scuttlebutt.Ids.{Str}
use scuttlebutt.Types.{VersionedValue, time_of_start_scheduled_for_deletion}
use scuttlebutt.NodeState.{NodeState}

abbrev started : ℕ → ℕ → Option ℕ → Bool
started now grace none = false
started now grace (some start) = not (ltb now (start + grace))

-- The grace period of a marked entry has passed.
abbrev pub is_collectable : ℕ → ℕ → VersionedValue → Bool
is_collectable now grace v = started now grace (time_of_start_scheduled_for_deletion v.status)

-- `retain`, with the captured `max_deleted_version`
unfoldable pub retain : ℕ → ℕ → ℕ → Map Str VersionedValue → Map Str VersionedValue × ℕ
retain now grace max_deleted [] = ([], max_deleted)
retain now grace max_deleted ((k, v) ∷ m) =
    let gone = is_collectable now grace v in
    let (rest, last) =
      retain now grace (if gone then max v.version max_deleted else max_deleted) m in
    (if gone then rest else (k, v) ∷ rest, last)

unfoldable pub gc_keys_marked_for_deletion : ℕ → ℕ → NodeState → NodeState
unfolding retain
gc_keys_marked_for_deletion now grace s =
    let (kept, last) = retain now grace s.last_gc_version s.key_values in
    record s { key_values = kept; last_gc_version = last }
