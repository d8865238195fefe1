-- ===== src/Prelude/Maps.antt =====
-- `BTreeMap` and `HashMap` as association lists in the order of their keys.
use mathlib.Core.Path.{◌≡◌, refl}
use mathlib.Core.Bool.{Bool}
use mathlib.Core.Option.{Option, none, some}
use mathlib.Core.List.{List, [], ◌∷◌, ◌++◌}
use Prim.Native.Nat.Ordering.{lt, eq, gt}
use native.Mathlib.Omega.{arith}
use scuttlebutt.Prelude.Tests.{if◌then◌else◌}
use scuttlebutt.Prelude.Lists.{All, keep, All-keep, All-middle}
use scuttlebutt.Prelude.Order.{Ord, same}

abbrev pub Map {ℓ κ} : Type ℓ → Type κ → Type (ℓ ⊔ κ)
Map K V = List (K × V)

module _ {ℓ κ} {K : Type ℓ} {V : Type κ} ⦃o : Ord K⦄ where
  unfoldable pub get : K → Map K V → Option V
  get k [] = none
  get k ((j, w) ∷ m) = if same k j then some w else get k m

  unfoldable pub insert : K → V → Map K V → Map K V
  insert k v [] = (k, v) ∷ []
  insert k v ((j, w) ∷ m) = elim (o.cmp k j) [
    | lt ↦ (k, v) ∷ (j, w) ∷ m
    | eq ↦ (k, v) ∷ m
    | gt ↦ (j, w) ∷ insert k v m
  ]

  unfoldable pub remove : K → Map K V → Map K V
  remove k [] = []
  remove k ((j, w) ∷ m) = let rest = remove k m in if same k j then rest else (j, w) ∷ rest

  -- Every key comes after `k`.
  abbrev pub After : K → Map K V → Type 0
  After k m = All (λ e. o.cmp k e.0 ≡ lt) m

  abbrev pub IsSorted : Map K V → Type 0
  IsSorted [] = Unit
  IsSorted ((k, v) ∷ m) = After k m × IsSorted m

  pub get-insert :
      (k j : K) (v : V) (m : Map K V)
      → get j (insert k v m) ≡ (if same j k then some v else get j m)
  unfolding get insert
  get-insert k j v [] = refl
  get-insert k j v ((i, w) ∷ m) = ground (
    arith,
    get-insert k j v m,
    o.cmp_eq j k,
    o.cmp_eq k i,
    o.cmp_eq j i,
    o.cmp_refl k,
    o.cmp_refl j,
  )

  pub get-remove :
      (k j : K) (m : Map K V) → get j (remove k m) ≡ (if same j k then none else get j m)
  unfolding get remove
  get-remove k j [] = ground arith
  get-remove k j ((i, w) ∷ m) = ground (
    arith,
    get-remove k j m,
    o.cmp_eq j k,
    o.cmp_eq k i,
    o.cmp_eq j i,
    o.cmp_refl k,
    o.cmp_refl j,
  )

  pub After-trans : (k j : K) (m : Map K V) → o.cmp k j ≡ lt → After j m → After k m
  After-trans k j [] h a = tt
  After-trans k j ((i, w) ∷ m) h a = (o.cmp_trans k j i h a.0, After-trans k j m h a.1)

  module _ {μ} (P : K × V → Type μ) where
    pub All-insert : (k : K) (v : V) (m : Map K V) → P (k, v) → All P m → All P (insert k v m)
    unfolding insert
    All-insert k v [] p a = (p, tt)
    All-insert k v ((j, w) ∷ m) p a = ground (arith, All-insert k v m p a.1)

    pub All-remove : (k : K) (m : Map K V) → All P m → All P (remove k m)
    unfolding remove
    All-remove k [] a = tt
    All-remove k ((j, w) ∷ m) a = ground (arith, All-remove k m a.1)

    -- What holds of every entry holds of the entry that a lookup finds.
    pub All-get : (k : K) (m : Map K V) {v : V} → All P m → get k m ≡ some v → P (k, v)
    unfolding get
    All-get k [] a h = cc
    All-get k ((j, w) ∷ m) {v} a h = ground (arith, o.cmp_eq k j, All-get k m {v = v} a.1)

  pub insert-IsSorted : (k : K) (v : V) (m : Map K V) → IsSorted m → IsSorted (insert k v m)
  unfolding insert
  insert-IsSorted k v [] s = (tt, tt)
  insert-IsSorted k v ((j, w) ∷ m) s = ground (
    arith,
    o.cmp_eq k j,
    o.cmp_swap k j,
    After-trans k j m,
    All-insert (λ e. o.cmp j e.0 ≡ lt) k v m,
    insert-IsSorted k v m s.1,
  )

  pub remove-IsSorted : (k : K) (m : Map K V) → IsSorted m → IsSorted (remove k m)
  unfolding remove
  remove-IsSorted k [] s = tt
  remove-IsSorted k ((j, w) ∷ m) s =
      ground (arith, All-remove (λ e. o.cmp j e.0 ≡ lt) k m s.0, remove-IsSorted k m s.1)

  pub get-After : (k : K) (m : Map K V) → After k m → get k m ≡ none
  unfolding get
  get-After k [] a = refl
  get-After k ((j, w) ∷ m) a = ground (arith, get-After k m a.1)

  lift_get :
      (j : K) (w : V) (rest m : Map K V)
      → After j m
      → All (λ (e : K × V). get e.0 rest ≡ some e.1) m
      → All (λ (e : K × V). get e.0 ((j, w) ∷ rest) ≡ some e.1) m
  unfolding get
  lift_get j w rest [] a h = tt
  lift_get j w rest ((k, v) ∷ m) a h = ground (arith, o.cmp_swap j k, lift_get j w rest m a.1 h.1)

  -- A sorted map has each of its entries under its key.
  pub get-All : (m : Map K V) → IsSorted m → All (λ (e : K × V). get e.0 m ≡ some e.1) m
  unfolding get
  get-All [] s = tt
  get-All ((j, w) ∷ m) s = (ground (arith, o.cmp_refl j), lift_get j w m m s.0 (get-All m s.1))

  -- A key that comes after all others is put at the end.
  pub insert-append :
      (k : K) (v : V) (seen m : Map K V)
      → IsSorted (seen ++ ((k, v) ∷ m))
      → insert k v seen ≡ seen ++ ((k, v) ∷ [])
  unfolding insert
  insert-append k v [] m s = refl
  insert-append k v ((j, w) ∷ seen) m s = ground (
    arith,
    o.cmp_swap j k,
    All-middle (λ e. o.cmp j e.0 ≡ lt) seen (k, v) m s.0,
    insert-append k v seen m s.1,
  )

  module _ (p : K × V → Bool) where
    pub keep-IsSorted : (m : Map K V) → IsSorted m → IsSorted (keep p m)
    keep-IsSorted [] s = tt
    keep-IsSorted ((j, w) ∷ m) s =
        ground (arith, All-keep (λ e. o.cmp j e.0 ≡ lt) p m s.0, keep-IsSorted m s.1)

    abbrev pub pass : K → Option V → Option V
    pass k none = none
    pass k (some v) = if p (k, v) then some v else none

    -- A lookup after `retain`.
    pub get-keep : (k : K) (m : Map K V) → IsSorted m → get k (keep p m) ≡ pass k (get k m)
    unfolding get
    get-keep k [] s = refl
    get-keep k ((j, w) ∷ m) s = ground (
      arith,
      o.cmp_eq k j,
      get-keep k m s.1,
      get-After k m,
      get-After k (keep p m),
      All-keep (λ e. o.cmp j e.0 ≡ lt) p m s.0,
    )

-- `values().cloned()`, `keys()`
abbrev pub keys {ℓ κ} : {K : Type ℓ} {V : Type κ} → Map K V → List K
keys [] = []
keys ((k, v) ∷ m) = k ∷ keys m

abbrev pub values {ℓ κ} : {K : Type ℓ} {V : Type κ} → Map K V → List V
values [] = []
values ((k, v) ∷ m) = v ∷ values m
