-- ===== src/NodeState/Read.antt =====
-- The iterators of `NodeState`: chitchat/src/state.rs.
use Prim.Native.Nat.{Ordering}
use scuttlebutt.Prelude.{
  ℕ, Bool, true, false, not, ◌&&◌, List, [], ◌∷◌, list_ord, nat_ord, if◌then◌else◌, ltb, ◌==◌, keep,
  length,
}
use scuttlebutt.Prelude.Maps.{Map}
use scuttlebutt.Ids.{Str}
use scuttlebutt.Types.{VersionedValue, is_deleted}
use scuttlebutt.NodeState.{NodeState}

-- `key_values`: the entries that are not deleted, with their values.
unfoldable pub live_key_values : Map Str VersionedValue → List (Str × Str)
live_key_values [] = []
live_key_values ((k, v) ∷ m) =
    let rest = live_key_values m in if is_deleted v then rest else (k, v.value) ∷ rest

unfoldable pub num_key_values : NodeState → ℕ
unfolding live_key_values
num_key_values s = length (live_key_values s.key_values)

-- `str::starts_with`
unfoldable pub starts_with : Str → Str → Bool
starts_with [] s = true
starts_with (p ∷ ps) [] = false
starts_with (p ∷ ps) (c ∷ cs) = p == c && starts_with ps cs

abbrev pub not_before : Str → Str → Bool
not_before p k = elim (list_ord.cmp k p) [ Ordering.lt ↦ false | _ ↦ true ]

-- `range(prefix..)`: the keys that do not come before the prefix
unfoldable pub from_key : Str → Map Str VersionedValue → Map Str VersionedValue
unfolding list_ord nat_ord
from_key p m = keep (λ e. not_before p e.0) m

unfoldable pub take_while_prefix : Str → Map Str VersionedValue → Map Str VersionedValue
unfolding starts_with
take_while_prefix p [] = []
take_while_prefix p ((k, v) ∷ m) =
    let rest = take_while_prefix p m in if starts_with p k then (k, v) ∷ rest else []

unfoldable pub iter_prefix : Str → NodeState → Map Str VersionedValue
unfolding from_key take_while_prefix
iter_prefix p s = keep (λ e. not (is_deleted e.1)) (take_while_prefix p (from_key p s.key_values))

-- Entries above a floor version, deleted ones included.
unfoldable pub stale_key_values : ℕ → NodeState → Map Str VersionedValue
stale_key_values floor s = keep (λ e. ltb floor e.1.version) s.key_values
