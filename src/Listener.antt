-- ===== src/Listener.antt =====
-- chitchat/src/listener.rs: the callbacks that are called for the keys with a prefix, and
-- `strip_key_prefix` of chitchat/src/lib.rs. A callback is a value of any type, and an event results
-- in the list of the calls. `none` is a panic. The lock and the handle's `Weak` pointer are left out:
-- dropping a handle is `drop_handle`, and `forever` keeps it from being dropped.
pub mod Handle
pub mod Reference
use scuttlebutt.Prelude.{
  ℕ, ◌+◌, Bool, true, false, not, ◌&&◌, ◌||◌, Option, none, some, List, [], ◌∷◌, ◌++◌, keep, same,
  if◌then◌else◌, leb, ltb, list_ord, nat_ord, Ord,
}
use Prim.Native.Nat.{Ordering}
use scuttlebutt.Prelude.Maps
use scuttlebutt.Prelude.Maps.{Map}
use scuttlebutt.Ids.{Str}
use scuttlebutt.Types.{inc_u64, KeyChangeEvent}

-- `str::strip_prefix`
unfoldable pub strip_prefix : Str → Str → Option Str
strip_prefix [] s = some s
strip_prefix (p ∷ ps) [] = none
strip_prefix (p ∷ ps) (c ∷ s) = let rest = strip_prefix ps s in if same p c then rest else none

abbrev pub with_key : KeyChangeEvent → Option Str → Option KeyChangeEvent
with_key e none = none
with_key e (some key) = some (record e { key = key })

unfoldable pub strip_key_prefix : Str → KeyChangeEvent → Option KeyChangeEvent
unfolding strip_prefix
strip_key_prefix prefix e = with_key e (strip_prefix prefix e.key)

-- `a <= b` on strings
abbrev pub at_most : Str → Str → Bool
at_most a b = elim (list_ord.cmp a b) [ Ordering.gt ↦ false | _ ↦ true ]

-- Whether the second byte is the start of a character, or the end.
abbrev pub is_start : Str → Bool
is_start [] = true
is_start (c ∷ s) = ltb c 128 || leb 192 c

-- Whether the key is empty or its first byte is a whole character.
abbrev pub is_sliced : Str → Bool
is_sliced [] = true
is_sliced (b ∷ s) = is_start s

-- `&key[0..1]` of a key that is not empty
unfoldable pub first_slice : ℕ → Str → Option Str
first_slice b s = if is_start s then some (b ∷ []) else none

module _ (C : Type 0) where
  pub record InnerListeners : Type 0 where
    pub listeners : Map Str (Map ℕ C)
    pub listener_idx : ℕ

  unfoldable pub no_listeners : InnerListeners
  no_listeners = record { listeners = []; listener_idx = 0 }

  pub record ListenerHandle : Type 0 where
    pub prefix : Str
    pub listener_id : ℕ

  abbrev pub callbacks_or_new : Option (Map ℕ C) → Map ℕ C
  callbacks_or_new none = []
  callbacks_or_new (some m) = m

  unfoldable pub insert_listener : Str → ℕ → C → InnerListeners → InnerListeners
  insert_listener prefix idx callback l = record l {
    listeners =
        Maps.insert prefix
          (Maps.insert idx callback (callbacks_or_new (Maps.get prefix l.listeners))) l.listeners;
  }

  unfoldable pub subscribe_event : Str → C → InnerListeners → InnerListeners × ListenerHandle
  unfolding insert_listener
  subscribe_event prefix callback l = (
    insert_listener prefix l.listener_idx callback
        (record l { listener_idx = inc_u64 l.listener_idx }),
    record { prefix = prefix; listener_id = l.listener_idx },
  )

  abbrev pub without : ℕ → Str → Map Str (Map ℕ C) → Option (Map ℕ C) → Map Str (Map ℕ C)
  without idx prefix m none = m
  without idx prefix m (some callbacks) = Maps.insert prefix (Maps.remove idx callbacks) m

  unfoldable pub remove_listener : Str → ℕ → InnerListeners → InnerListeners
  remove_listener prefix idx l = record l {
    listeners = without idx prefix l.listeners (Maps.get prefix l.listeners);
  }

  unfoldable pub drop_handle : ListenerHandle → InnerListeners → InnerListeners
  unfolding remove_listener
  drop_handle h l = remove_listener h.prefix h.listener_id l

  abbrev pub Call : Type 0
  Call = C × KeyChangeEvent

  -- Each callback with the event.
  unfoldable pub call_all : KeyChangeEvent → Map ℕ C → List Call
  call_all e [] = []
  call_all e ((i, c) ∷ m) = (c, e) ∷ call_all e m

  abbrev pub call_found : KeyChangeEvent → Option (Map ℕ C) → List Call
  call_found e none = []
  call_found e (some m) = call_all e m

  abbrev pub call_stripped : Map ℕ C → Option KeyChangeEvent → List Call
  call_stripped m none = []
  call_stripped m (some e) = call_all e m

  -- `range`, with both bounds included
  unfoldable pub range : Str → Str → Map Str (Map ℕ C) → Map Str (Map ℕ C)
  range low high m = keep (λ e. at_most low e.0 && at_most e.0 high) m

  -- The loop over the range, with its `break`.
  unfoldable pub call_range : KeyChangeEvent → Map Str (Map ℕ C) → List Call
  unfolding strip_key_prefix call_all
  call_range e [] = []
  call_range e ((p, callbacks) ∷ m) =
      let rest = call_stripped callbacks (strip_key_prefix p e) ++ call_range e m in
      if not (at_most p e.key) then [] else rest

  abbrev pub calls_from : KeyChangeEvent → InnerListeners → Option Str → Option (List Call)
  calls_from e l none = none
  calls_from e l (some low) =
      some (call_found e (Maps.get [] l.listeners) ++ call_range e (range low e.key l.listeners))

  abbrev pub trigger : KeyChangeEvent → InnerListeners → Str → Option (List Call)
  trigger e l [] = some (call_found e (Maps.get [] l.listeners))
  trigger e l (b ∷ s) = calls_from e l (first_slice b s)

  unfoldable pub trigger_event : KeyChangeEvent → InnerListeners → Option (List Call)
  unfolding call_range range first_slice
  trigger_event e l = trigger e l e.key
