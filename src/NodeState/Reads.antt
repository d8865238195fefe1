-- ===== src/NodeState/Reads.antt =====
-- What a reader sees after each write of chitchat/src/state.rs.
use scuttlebutt.Prelude.{
  ℕ, ◌+◌, ◌<◌, ◌≤◌, ◌≡◌, Option, none, some, inl, inr, Option-cases, Bool-cases, same,
  if◌then◌else◌, same→eq, lt→leb, lt→ltb, list_ord, nat_ord, arith, true, false,
}
use scuttlebutt.Prelude.Maps
use scuttlebutt.Ids.{Str}
use scuttlebutt.Types.{VersionedValue, DeletionStatus, inc_u64, u64_mod}
use scuttlebutt.Listener.{is_sliced}
use scuttlebutt.NodeState.{
  NodeState, set_versioned_value, try_set_versioned_value, set_with_version, set, set_with_ttl,
  delete, delete_after_ttl, get_versioned, get, live_value, is_unchanged, is_set, is_ttl,
  is_obsolete,
}
use scuttlebutt.NodeState.Valid.{IsValid}

-- After `delete` the key reads as absent, and every other key reads as before.
pub get-delete :
    (now : ℕ) (key j : Str) (s : NodeState)
    → get j (delete now key s) ≡ (if same j key then none else get j s)
unfolding get delete
get-delete now key j s = elim (Option-cases (Maps.get key s.key_values)) [
  | inl absent ↦ rw (absent, delete) (ground (arith, same→eq j key))
  | inr (v, present) ↦ rw (present, delete) (rw Maps.get-insert (ground arith))
]

abbrev stored_value : Option VersionedValue → Option Str
stored_value none = none
stored_value (some v) = some v.value

-- After `delete_after_ttl` a stored key reads as its stored value, even where the entry was a
-- tombstone before, and no other key changes.
pub get-delete_after_ttl :
    (now : ℕ) (key j : Str) (s : NodeState)
    → get j (delete_after_ttl now key s)
      ≡ (if same j key then stored_value (get_versioned key s) else get j s)
unfolding get delete_after_ttl
get-delete_after_ttl now key j s = elim (Option-cases (Maps.get key s.key_values)) [
  | inl absent ↦ rw (absent, delete_after_ttl) (ground (arith, same→eq j key))
  | inr (v, present) ↦ rw (present, delete_after_ttl) (rw Maps.get-insert (ground arith))
]

fresh_lem :
    (key : Str) (v : VersionedValue) (s : NodeState)
    → IsValid s
    → s.max_version < v.version
    → is_obsolete v (Maps.get key s.key_values) ≡ false
fresh_lem key v s h fresh = elim (Option-cases (Maps.get key s.key_values)) [
  | inl absent ↦ rw absent
  | inr (w, present) ↦ rw present (
      lt→leb w.version v.version (
        omega (
          arith,
          Maps.All-get (λ e. e.1.version ≤ s.max_version) key s.key_values h.bounded present,
        )))
]

-- A version above all others is written.
pub key_values-set_versioned_value :
    (key : Str) (v : VersionedValue) (s : NodeState)
    → IsValid s
    → s.max_version < v.version
    → (set_versioned_value key v s).key_values ≡ Maps.insert key v s.key_values
unfolding set_versioned_value
key_values-set_versioned_value key v s h fresh = ground (arith, fresh_lem key v s h fresh)

pub get-set_versioned_value :
    (key j : Str) (v : VersionedValue) (s : NodeState)
    → IsValid s
    → s.max_version < v.version
    → get j (set_versioned_value key v s) ≡ (if same j key then live_value (some v) else get j s)
unfolding get
get-set_versioned_value key j v s h fresh =
    rw (key_values-set_versioned_value key v s h fresh, Maps.get-insert) (ground arith)

-- The version that a write uses is one above `max_version`.
next_version : (s : NodeState) → s.max_version + 1 < u64_mod → s.max_version < inc_u64 s.max_version
next_version s room = omega arith

-- What a call that returns leaves: the key reads as the value, and no other key changes.
abbrev pub Reads : Str → Str → NodeState → Option NodeState → Type 0
Reads key value s none = ⊥
Reads key value s (some t) = (j : Str) → get j t ≡ (if same j key then some value else get j s)

abbrev written : Str → ℕ → DeletionStatus → VersionedValue
written value version status = record { value = value; version = version; status = status }

unchanged_set :
    (value : Str) (o : Option VersionedValue)
    → is_unchanged is_set value o ≡ true
    → live_value o ≡ some value
unchanged_set value none h = cc
unchanged_set value (some v) h = ground (arith, same→eq v.value value)

unchanged_ttl :
    (value : Str) (o : Option VersionedValue)
    → is_unchanged is_ttl value o ≡ true
    → live_value o ≡ some value
unchanged_ttl value none h = cc
unchanged_ttl value (some v) h = ground (arith, same→eq v.value value)

unchanged_reads :
    (key value j : Str) (s : NodeState)
    → get key s ≡ some value
    → get j s ≡ (if same j key then some value else get j s)
unchanged_reads key value j s h = elim (Bool-cases (same j key)) [
  | inl hit ↦ rw hit (rw (same→eq j key hit) h)
  | inr miss ↦ rw miss
]

-- The event of a key that can be sliced does not panic.
try-sliced :
    (key : Str) (v : VersionedValue) (s : NodeState)
    → is_sliced key ≡ true
    → try_set_versioned_value key v s ≡ some (set_versioned_value key v s)
unfolding try_set_versioned_value
try-sliced key v s h = ground (arith, h)

-- On a valid state with a version left, and for a key that is empty or whose first character is ASCII,
-- `set` passes its assertion and does not panic, the key then reads as the value and every other key
-- reads as before.
pub get-set :
    (key value : Str) (s : NodeState)
    → IsValid s
    → s.max_version + 1 < u64_mod
    → is_sliced key ≡ true
    → Reads key value s (set key value s)
unfolding set
get-set key value s h room sliced =
    let v = written value (inc_u64 s.max_version) DeletionStatus.set in
    elim (Bool-cases (is_unchanged is_set value (get_versioned key s))) [
      | inl old ↦
          rw (old, set)
            (λ j.
              unchanged_reads key value j s
                (unfold get in unchanged_set value (get_versioned key s) old))
      | inr new ↦
          rw (new, set)
            (unfold set_with_version in
              rw (lt→ltb _ _ (next_version s room), try-sliced key v s sliced)
                (λ j. get-set_versioned_value key j v s h (next_version s room)))
    ]

-- On a valid state with a version left, and for a key that is empty or whose first character is ASCII,
-- `set_with_ttl` does not panic, the key then reads as the value at once and every other key reads as
-- before.
pub get-set_with_ttl :
    (now : ℕ) (key value : Str) (s : NodeState)
    → IsValid s
    → s.max_version + 1 < u64_mod
    → is_sliced key ≡ true
    → Reads key value s (set_with_ttl now key value s)
unfolding set_with_ttl
get-set_with_ttl now key value s h room sliced =
    let v = written value (inc_u64 s.max_version) (DeletionStatus.delete_after_ttl now) in
    elim (Bool-cases (is_unchanged is_ttl value (get_versioned key s))) [
      | inl old ↦
          rw (old, set_with_ttl)
            (λ j.
              unchanged_reads key value j s
                (unfold get in unchanged_ttl value (get_versioned key s) old))
      | inr new ↦
          rw (new, set_with_ttl, try-sliced key v s sliced)
            (λ j. get-set_versioned_value key j v s h (next_version s room))
    ]
