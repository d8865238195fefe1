-- ===== src/Examples/ListenerTests.antt =====
-- The theorems on listeners at concrete ones: chitchat/src/listener.rs.
use scuttlebutt.Prelude.{ℕ, ◌≡◌, none, some, [], ◌∷◌, list_ord, nat_ord, arith}
use scuttlebutt.Prelude.Maps
use scuttlebutt.Types.{KeyChangeEvent}
use scuttlebutt.Listener.{
  InnerListeners, call_all, strip_key_prefix, strip_prefix, trigger_event, no_listeners,
  insert_listener, subscribe_event, drop_handle,
}
use scuttlebutt.Listener.Reference.{calls, trigger_event_lem}
use scuttlebutt.Listener.Handle.{
  IsValid, no_listeners-IsValid, subscribe_event-IsValid, drop-subscribe,
}
use scuttlebutt.Examples.{node_a, key_k, key_l, value_v}

-- A callback is a number; one is under the empty prefix, and one under a prefix.
abbrev listening : InnerListeners ℕ
listening = (subscribe_event ℕ [] 7 (subscribe_event ℕ key_k 8 (no_listeners ℕ)).0).0

listening-IsValid : IsValid ℕ listening
unfolding subscribe_event no_listeners
listening-IsValid =
    subscribe_event-IsValid ℕ [] 7 _ (omega arith)
      (subscribe_event-IsValid ℕ key_k 8 (no_listeners ℕ) (omega arith) (no_listeners-IsValid ℕ))

abbrev event : KeyChangeEvent
event = record { key = 107 ∷ 108 ∷ []; value = value_v; node = node_a }

-- The whole key for the first, and what follows the prefix for the second.
trigger_event_lem_example :
    trigger_event ℕ event listening ≡ some ((7, event) ∷ (8, record event { key = key_l }) ∷ [])
unfolding calls subscribe_event insert_listener no_listeners call_all strip_key_prefix strip_prefix
    Maps.insert Maps.get list_ord nat_ord
trigger_event_lem_example = trigger_event_lem ℕ event listening listening-IsValid.sorted

-- The first byte of `é` is no character, so that the slice panics.
accented_panics : trigger_event ℕ (record event { key = 195 ∷ 169 ∷ [] }) (no_listeners ℕ) ≡ none
accented_panics =
    trigger_event_lem ℕ (record event { key = 195 ∷ 169 ∷ [] }) (no_listeners ℕ)
      (no_listeners-IsValid ℕ).sorted

drop-subscribe_example :
    calls ℕ event
      (drop_handle ℕ
        (subscribe_event ℕ key_k 9 listening).1
        (subscribe_event ℕ key_k 9 listening).0).listeners
    ≡ calls ℕ event listening.listeners
drop-subscribe_example = drop-subscribe ℕ event key_k 9 listening listening-IsValid
