-- ===== src/Listener/Reference.antt =====
-- Which listeners an event calls: chitchat/src/listener.rs.
use scuttlebutt.Prelude.{
  ℕ, ◌≡◌, refl, sym, ap, ◌∙◌, ◌⊎◌, true, inl, inr, none, some, List, [], ◌∷◌, ◌++◌, if◌then◌else◌,
  list_ord, nat_ord, arith,
}
use Prim.Native.Nat.{Ordering}
use mathlib.Core.List.{append-nil}
use scuttlebutt.Prelude.Maps
use scuttlebutt.Prelude.Maps.{Map, IsSorted, After}
use scuttlebutt.Ids.{Str}
use scuttlebutt.Types.{KeyChangeEvent}
use scuttlebutt.Listener.{
  InnerListeners, Call, strip_prefix, strip_key_prefix, call_all, call_found, call_stripped, range,
  call_range, trigger, trigger_event, at_most, is_sliced, first_slice,
}

-- A string comes no earlier than its prefixes.
prefix-at_most : (p s : Str) → (strip_prefix p s ≡ none) ⊎ (at_most p s ≡ true)
unfolding strip_prefix list_ord nat_ord
prefix-at_most [] [] = inr refl
prefix-at_most [] (c ∷ s) = inr refl
prefix-at_most (p ∷ ps) [] = inl refl
prefix-at_most (p ∷ ps) (c ∷ s) = ground (arith, prefix-at_most ps s)

-- A prefix that is not empty comes no earlier than the first byte.
first-at_most :
    (b : ℕ) (s p : Str)
    → list_ord.cmp [] p ≡ Ordering.lt
    → (strip_prefix p (b ∷ s) ≡ none) ⊎ (at_most (b ∷ []) p ≡ true)
unfolding strip_prefix list_ord nat_ord
first-at_most b s [] a = cc
first-at_most b s (p ∷ []) a = ground arith
first-at_most b s (p ∷ q ∷ ps) a = ground arith

module _ (C : Type 0) where
  -- Every listener whose prefix the key has, in the order of the prefixes, with the rest of the key.
  unfoldable pub calls : KeyChangeEvent → Map Str (Map ℕ C) → List (Call C)
  calls e [] = []
  calls e ((p, callbacks) ∷ m) = call_stripped C callbacks (strip_key_prefix p e) ++ calls e m

  -- Whether `key[0..1]` is a slice, where it is taken.
  -- An empty key has no listener but that of the empty prefix.
  calls-After :
      (e : KeyChangeEvent) (m : Map Str (Map ℕ C)) → After [] m → e.key ≡ [] → calls e m ≡ []
  unfolding calls strip_key_prefix strip_prefix list_ord
  calls-After e [] a h = refl
  calls-After e (([], c) ∷ m) a h = cc
  calls-After e ((p ∷ ps, c) ∷ m) a h = ground (arith, calls-After e m a.1 h)

  -- The range has every listener that the event calls.
  call_range-After :
      (e : KeyChangeEvent) (b : ℕ) (s : Str) (m : Map Str (Map ℕ C))
      → After [] m
      → e.key ≡ b ∷ s
      → call_range C e (range C (b ∷ []) e.key m) ≡ calls e m
  unfolding calls call_range range strip_key_prefix
  call_range-After e b s [] a h = refl
  call_range-After e b s ((p, c) ∷ m) a h =
      ground
        (arith, call_range-After e b s m a.1 h, prefix-at_most p e.key, first-at_most b s p a.0)

  first-After :
      (p : ℕ) (ps : Str) (c : Map ℕ C) (m : Map Str (Map ℕ C))
      → IsSorted ((p ∷ ps, c) ∷ m)
      → After [] ((p ∷ ps, c) ∷ m)
  unfolding list_ord
  first-After p ps c m s = (refl, Maps.After-trans [] (p ∷ ps) m refl s.0)

  calls-sorted :
      (e : KeyChangeEvent) (m : Map Str (Map ℕ C))
      → IsSorted m
      → e.key ≡ []
      → call_found C e (Maps.get [] m) ≡ calls e m
  unfolding calls strip_key_prefix strip_prefix Maps.get list_ord
  calls-sorted e [] s h = refl
  calls-sorted e (([], c) ∷ m) s h = rw (calls-After e m s.0 h, append-nil (call_all C e c))
  calls-sorted e ((p ∷ ps, c) ∷ m) s h =
      ap (call_found C e) (Maps.get-After [] ((p ∷ ps, c) ∷ m) (first-After p ps c m s))
      ∙ sym (calls-After e ((p ∷ ps, c) ∷ m) (first-After p ps c m s) h)

  call_range-sorted :
      (e : KeyChangeEvent) (b : ℕ) (s : Str) (m : Map Str (Map ℕ C))
      → IsSorted m
      → e.key ≡ b ∷ s
      → call_found C e (Maps.get [] m) ++ call_range C e (range C (b ∷ []) e.key m) ≡ calls e m
  unfolding calls range strip_key_prefix strip_prefix Maps.get list_ord
  call_range-sorted e b s [] o h = unfold call_range in refl
  call_range-sorted e b s (([], c) ∷ m) o h =
      ap (λ r. call_all C e c ++ r) (call_range-After e b s m o.0 h)
  call_range-sorted e b s ((p ∷ ps, c) ∷ m) o h =
      ap (λ o. call_found C e o ++ call_range C e (range C (b ∷ []) e.key ((p ∷ ps, c) ∷ m)))
        (Maps.get-After [] ((p ∷ ps, c) ∷ m) (first-After p ps c m o))
      ∙ call_range-After e b s ((p ∷ ps, c) ∷ m) (first-After p ps c m o) h

  -- Where the listeners are in order, an event calls exactly those whose prefix its key begins with, each
  -- with the rest of the key; it panics where the key is not empty and its first byte is not a whole
  -- character.
  pub trigger_event_lem :
      (e : KeyChangeEvent) (l : InnerListeners C)
      → IsSorted l.listeners
      → trigger_event C e l ≡ (if is_sliced e.key then some (calls e l.listeners) else none)
  unfolding trigger_event first_slice
  trigger_event_lem e l s = triggered e.key refl
    where
      triggered :
          (key : Str)
          → e.key ≡ key
          → trigger C e l key ≡ (if is_sliced key then some (calls e l.listeners) else none)
      triggered [] h = ap some (calls-sorted e l.listeners s h)
      triggered (b ∷ k) h = ground (arith, call_range-sorted e b k l.listeners s h)
