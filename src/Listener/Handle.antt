-- ===== src/Listener/Handle.antt =====
-- The listeners and their handles: `subscribe_event` and `Drop` of chitchat/src/listener.rs.
use scuttlebutt.Prelude.{
  ℕ, ◌+◌, ◌<◌, ◌≡◌, refl, sym, ap, ◌∙◌, inl, inr, Option, none, some, [], ◌∷◌, All, All-imp,
  Option-cases, same→eq, list_ord, nat_ord, Ord, arith,
}
use Prim.Native.Nat.{Ordering}
use mathlib.Core.Path.{subst}
use scuttlebutt.Prelude.Maps
use scuttlebutt.Prelude.Maps.{Map, IsSorted, After}
use scuttlebutt.Ids.{Str}
use scuttlebutt.Types.{u64_mod, inc_u64, KeyChangeEvent}
use scuttlebutt.Listener.{
  InnerListeners, ListenerHandle, call_all, call_stripped, strip_key_prefix, callbacks_or_new,
  no_listeners, insert_listener, subscribe_event, remove_listener, without, drop_handle,
}
use scuttlebutt.Listener.Reference.{calls}

module _ {ℓ κ} {K : Type ℓ} {V : Type κ} ⦃o : Ord K⦄ where
  insert-insert :
      (k : K) (v w : V) (m : Map K V) → Maps.insert k v (Maps.insert k w m) ≡ Maps.insert k v m
  unfolding Maps.insert
  insert-insert k v w [] = ground (arith, o.cmp_refl k)
  insert-insert k v w ((j, u) ∷ m) = ground (arith, insert-insert k v w m, o.cmp_refl k)

  remove-After :
      (k : K) (m : Map K V) → All (λ e. o.cmp k e.0 ≡ Ordering.lt) m → Maps.remove k m ≡ m
  unfolding Maps.remove
  remove-After k [] a = refl
  remove-After k ((j, u) ∷ m) a = ground (arith, remove-After k m a.1)

  remove-insert :
      (k : K) (v : V) (m : Map K V)
      → All (λ e. o.cmp e.0 k ≡ Ordering.lt) m
      → Maps.remove k (Maps.insert k v m) ≡ m
  unfolding Maps.remove Maps.insert
  remove-insert k v [] a = ground (arith, o.cmp_refl k)
  remove-insert k v ((j, u) ∷ m) a = ground (arith, remove-insert k v m a.1, o.cmp_swap j k)

  get-same : (k : K) (v : V) (m : Map K V) → Maps.get k (Maps.insert k v m) ≡ some v
  get-same k v m = ground (arith, Maps.get-insert k k v m, o.cmp_refl k)

module _ (C : Type 0) where
  below-lt :
      (n : ℕ) (m : Map ℕ C)
      → All (λ (c : ℕ × C). c.0 < n) m
      → All (λ (c : ℕ × C). nat_ord.cmp c.0 n ≡ Ordering.lt) m
  below-lt n m a =
      All-imp (λ (c : ℕ × C). c.0 < n) (λ (c : ℕ × C). nat_ord.cmp c.0 n ≡ Ordering.lt)
        (λ c h. unfold nat_ord in ground arith) m a

  -- The callbacks of a prefix are sorted, and their numbers have been given out.
  abbrev IsNumbered : ℕ → Map ℕ C → Type 0
  IsNumbered n m = IsSorted m × All (λ (c : ℕ × C). c.0 < n) m

  pub record IsValid (l : InnerListeners C) : Type 0 where
    pub sorted : IsSorted l.listeners
    pub numbered : All (λ (e : Str × Map ℕ C). IsNumbered l.listener_idx e.1) l.listeners

  no_calls : (r : Option KeyChangeEvent) → call_stripped C [] r ≡ []
  no_calls none = refl
  no_calls (some e) = unfold call_all in refl

  -- Only the callbacks under a prefix count, not whether there is an entry.
  calls-insert :
      (e : KeyChangeEvent) (p : Str) (c : Map ℕ C) (m : Map Str (Map ℕ C))
      → IsSorted m
      → c ≡ callbacks_or_new C (Maps.get p m)
      → calls C e (Maps.insert p c m) ≡ calls C e m
  unfolding calls Maps.get Maps.insert
  calls-insert e p c [] s h = rw (h, no_calls (strip_key_prefix p e))
  calls-insert e p c ((j, d) ∷ m) s h = ground (
    arith,
    same→eq p j,
    no_calls (strip_key_prefix p e),
    Maps.get-After p m,
    Maps.After-trans p j m,
    calls-insert e p c m s.1,
  )

  abbrev IsListed : ℕ → Map Str (Map ℕ C) → Type 0
  IsListed n m = All (λ (e : Str × Map ℕ C). IsNumbered n e.1) m

  found-IsNumbered :
      (n : ℕ) (p : Str) (m : Map Str (Map ℕ C))
      → IsListed n m
      → IsNumbered n (callbacks_or_new C (Maps.get p m))
  found-IsNumbered n p m a = elim (Option-cases (Maps.get p m)) [
    | inl absent ↦ subst (λ o. IsNumbered n (callbacks_or_new C o)) (sym absent) (tt, tt)
    | inr (d, found) ↦
        subst (λ o. IsNumbered n (callbacks_or_new C o)) (sym found)
          (Maps.All-get (λ (e : Str × Map ℕ C). IsNumbered n e.1) p m a found)
  ]

  IsNumbered-suc : (n : ℕ) (m : Map ℕ C) → IsNumbered n m → IsNumbered (n + 1) m
  IsNumbered-suc n m h = (
    h.0,
    All-imp (λ (c : ℕ × C). c.0 < n) (λ (c : ℕ × C). c.0 < n + 1) (λ c a. omega arith) m h.1,
  )

  pub no_listeners-IsValid : IsValid (no_listeners C)
  no_listeners-IsValid = unfold no_listeners in record { sorted = tt; numbered = tt }

  pub subscribe_event-IsValid :
      (p : Str) (c : C) (l : InnerListeners C)
      → l.listener_idx + 1 < u64_mod
      → IsValid l
      → IsValid (subscribe_event C p c l).0
  unfolding subscribe_event insert_listener
  subscribe_event-IsValid p c l room h =
      let new = found-IsNumbered l.listener_idx p l.listeners h.numbered in
      let next : l.listener_idx + 1 ≡ inc_u64 l.listener_idx = omega arith in
      let listed = Maps.insert l.listener_idx c (callbacks_or_new C (Maps.get p l.listeners)) in
      let counted = λ (n : ℕ).
        IsValid (record { listeners = Maps.insert p listed l.listeners; listener_idx = n }) in
      subst counted next (record {
        sorted = Maps.insert-IsSorted p _ l.listeners h.sorted;
        numbered =
            Maps.All-insert (λ (e : Str × Map ℕ C). IsNumbered (l.listener_idx + 1) e.1) p _
              l.listeners
              (
                Maps.insert-IsSorted l.listener_idx c _ new.0,
                Maps.All-insert (λ (c : ℕ × C). c.0 < l.listener_idx + 1) l.listener_idx c _
                    (omega arith) (IsNumbered-suc l.listener_idx _ new).1,
              )
              (All-imp (λ (e : Str × Map ℕ C). IsNumbered l.listener_idx e.1)
                (λ (e : Str × Map ℕ C). IsNumbered (l.listener_idx + 1) e.1)
                (λ e. IsNumbered-suc l.listener_idx e.1) l.listeners h.numbered);
      })

  -- What is put under a prefix is not the callbacks of a prefix that is absent.
  without-IsValid :
      (idx n : ℕ) (p : Str) (m : Map Str (Map ℕ C)) (d : Option (Map ℕ C))
      → Maps.get p m ≡ d
      → IsSorted m
      → IsListed n m
      → IsSorted (without C idx p m d) × IsListed n (without C idx p m d)
  without-IsValid idx n p m none e s a = (s, a)
  without-IsValid idx n p m (some d) e s a =
      let old = Maps.All-get (λ (e : Str × Map ℕ C). IsNumbered n e.1) p m a e in
      (
        Maps.insert-IsSorted p _ m s,
        Maps.All-insert (λ (e : Str × Map ℕ C). IsNumbered n e.1) p _ m
            (Maps.remove-IsSorted idx d old.0, Maps.All-remove (λ (c : ℕ × C). c.0 < n) idx d old.1)
            a,
      )

  pub drop_handle-IsValid :
      (t : ListenerHandle C) (l : InnerListeners C) → IsValid l → IsValid (drop_handle C t l)
  unfolding drop_handle remove_listener
  drop_handle-IsValid t l h =
      let kept =
        without-IsValid t.listener_id l.listener_idx t.prefix l.listeners
          (Maps.get t.prefix l.listeners) refl h.sorted h.numbered in
      record { sorted = kept.0; numbered = kept.1 }

  -- Where the listeners are in order and their numbers have been given out, dropping a handle that was
  -- just given out leaves the listeners that an event calls as they were before.
  pub drop-subscribe :
      (e : KeyChangeEvent) (p : Str) (c : C) (l : InnerListeners C)
      → IsValid l
      → (let subscribed = subscribe_event C p c l in
          calls C e (drop_handle C subscribed.1 subscribed.0).listeners ≡ calls C e l.listeners)
  unfolding drop_handle remove_listener subscribe_event insert_listener
  drop-subscribe e p c l h =
      let old = callbacks_or_new C (Maps.get p l.listeners) in
      let m = Maps.insert p (Maps.insert l.listener_idx c old) l.listeners in
      ap (λ d. calls C e (without C l.listener_idx p m d))
        (get-same p (Maps.insert l.listener_idx c old) l.listeners)
      ∙ ap (calls C e) (
          insert-insert p (Maps.remove l.listener_idx (Maps.insert l.listener_idx c old))
            (Maps.insert l.listener_idx c old) l.listeners)
      ∙ ap (λ d. calls C e (Maps.insert p d l.listeners))
          (remove-insert l.listener_idx c old (
            below-lt l.listener_idx old
              (found-IsNumbered l.listener_idx p l.listeners h.numbered).1))
      ∙ calls-insert e p old l.listeners h.sorted refl
