-- ===== src/NodeState.antt =====
-- `struct NodeState` of chitchat/src/state.rs and its methods. A method that mutates returns the new
-- state; a call of `Instant::now()` is the argument `now`; a failed `assert!` and a panic are `none`.
-- The field `listeners` is the record of the events that were triggered through the shared handle.
pub mod Read
pub mod Gc
pub mod Apply
pub mod Valid
pub mod Collect
pub mod Reads
pub mod Progress
pub mod Reset
use scuttlebutt.Prelude.{
  ℕ, ◌≡◌, Bool, true, false, not, ◌&&◌, ◌||◌, arith, Option, none, some, List, [], ◌∷◌, ◌++◌, same,
  list_ord, nat_ord, if◌then◌else◌, ltb, leb, ◌==◌, max,
}
use scuttlebutt.Prelude.Maps
use scuttlebutt.Prelude.Maps.{Map}
use scuttlebutt.Ids.{Str, ChitchatId}
use scuttlebutt.Listener.{is_sliced}
use scuttlebutt.Types.{inc_u64, DeletionStatus, VersionedValue, is_deleted, KeyChangeEvent}

pub record NodeState : Type 0 where
  pub chitchat_id : ChitchatId
  pub heartbeat : ℕ
  pub key_values : Map Str VersionedValue
  pub listeners : List KeyChangeEvent
  pub max_version : ℕ
  pub last_gc_version : ℕ

unfoldable pub new : ChitchatId → List KeyChangeEvent → NodeState
new id listeners = record {
  chitchat_id = id;
  heartbeat = 0;
  key_values = [];
  listeners = listeners;
  max_version = 0;
  last_gc_version = 0;
}

unfoldable pub set_last_gc_version : ℕ → NodeState → NodeState
set_last_gc_version v s = record s { last_gc_version = v }

unfoldable pub set_max_version : ℕ → NodeState → NodeState
set_max_version v s = record s { max_version = v }

-- Reading.
unfoldable pub get_versioned : Str → NodeState → Option VersionedValue
get_versioned key s = Maps.get key s.key_values

abbrev pub live_value : Option VersionedValue → Option Str
live_value none = none
live_value (some v) = if is_deleted v then none else some v.value

unfoldable pub get : Str → NodeState → Option Str
unfolding get_versioned
get key s = live_value (get_versioned key s)

unfoldable pub contains_key : Str → NodeState → Bool
unfolding get
contains_key key s = elim (get key s) [ none ↦ false | some v ↦ true ]

-- Whether an event of the log has a key that cannot be sliced: the listeners panic on it.
unfoldable pub has_panicked : List KeyChangeEvent → Bool
has_panicked [] = false
has_panicked (e ∷ es) = not (is_sliced e.key) || has_panicked es

-- Writing. `trigger_event`, `store` and `set_versioned_value` give the state with the event in the log;
-- the panic of the event is that of `try_set_versioned_value`, or of `has_panicked` on the log.
unfoldable pub trigger_event : KeyChangeEvent → NodeState → NodeState
trigger_event e s = record s { listeners = s.listeners ++ (e ∷ []) }

unfoldable pub store : Str → VersionedValue → NodeState → NodeState
unfolding trigger_event
store key v s =
    let written = record s { key_values = Maps.insert key v s.key_values } in
    if is_deleted v
    then written
    else trigger_event (record { key = key; value = v.value; node = s.chitchat_id }) written

abbrev is_obsolete : VersionedValue → Option VersionedValue → Bool
is_obsolete v none = false
is_obsolete v (some occupied) = leb v.version occupied.version

unfoldable pub set_versioned_value : Str → VersionedValue → NodeState → NodeState
unfolding store
set_versioned_value key v s =
    let bumped = record s { max_version = max v.version s.max_version } in
    if is_obsolete v (Maps.get key s.key_values) then bumped else store key v bumped

-- Whether `set_versioned_value` triggers an event.
unfoldable pub triggers : Str → VersionedValue → NodeState → Bool
triggers key v s = not (is_obsolete v (Maps.get key s.key_values)) && not (is_deleted v)

-- `set_versioned_value`, with the panic of an event whose key cannot be sliced.
unfoldable pub try_set_versioned_value : Str → VersionedValue → NodeState → Option NodeState
unfolding triggers set_versioned_value
try_set_versioned_value key v s =
    if triggers key v s && not (is_sliced key) then none else some (set_versioned_value key v s)

unfoldable pub set_with_version : Str → Str → ℕ → NodeState → Option NodeState
unfolding try_set_versioned_value
set_with_version key value version s =
    if ltb s.max_version version
    then try_set_versioned_value key
        (record { value = value; version = version; status = DeletionStatus.set }) s
    else none

abbrev pub is_set : DeletionStatus → Bool
is_set DeletionStatus.set = true
is_set _ = false

abbrev pub is_ttl : DeletionStatus → Bool
is_ttl (DeletionStatus.delete_after_ttl t) = true
is_ttl _ = false

-- The key holds the value already, under a status of the kind that is asked for.
abbrev pub is_unchanged : (DeletionStatus → Bool) → Str → Option VersionedValue → Bool
is_unchanged kind value none = false
is_unchanged kind value (some v) = same v.value value && kind v.status

unfoldable pub set : Str → Str → NodeState → Option NodeState
unfolding get_versioned set_with_version
set key value s =
    if is_unchanged is_set value (get_versioned key s)
    then some s
    else set_with_version key value (inc_u64 s.max_version) s

unfoldable pub set_with_ttl : ℕ → Str → Str → NodeState → Option NodeState
unfolding get_versioned try_set_versioned_value
set_with_ttl now key value s =
    if is_unchanged is_ttl value (get_versioned key s)
    then some s
    else try_set_versioned_value key
        (record {
          value = value;
          version = inc_u64 s.max_version;
          status = DeletionStatus.delete_after_ttl now;
        })
        s

unfoldable pub delete : ℕ → Str → NodeState → NodeState
delete now key s = elim (Maps.get key s.key_values) [
  | none ↦ s
  | some v ↦ record s {
    max_version = inc_u64 s.max_version;
    key_values =
        Maps.insert key
          (record {
            value = [];
            version = inc_u64 s.max_version;
            status = DeletionStatus.deleted now;
          })
          s.key_values;
  }
]

unfoldable pub delete_after_ttl : ℕ → Str → NodeState → NodeState
delete_after_ttl now key s = elim (Maps.get key s.key_values) [
  | none ↦ s
  | some v ↦ record s {
    max_version = inc_u64 s.max_version;
    key_values =
        Maps.insert key
          (record v {
            version = inc_u64 s.max_version;
            status = DeletionStatus.delete_after_ttl now;
          })
          s.key_values;
  }
]

unfoldable pub remove_key_value_internal : Str → NodeState → NodeState
remove_key_value_internal key s = record s { key_values = Maps.remove key s.key_values }

unfoldable pub inc_heartbeat : NodeState → NodeState
inc_heartbeat s = record s { heartbeat = inc_u64 s.heartbeat }

unfoldable pub try_set_heartbeat : ℕ → NodeState → NodeState × Bool
try_set_heartbeat h s =
    if s.heartbeat == 0
    then (record s { heartbeat = h }, false)
    else if ltb s.heartbeat h
    then (record s { heartbeat = h }, true)
    else (s, false)
