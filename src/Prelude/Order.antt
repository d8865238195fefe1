-- ===== src/Prelude/Order.antt =====
-- `Ord` as the standard library asks it, and its instances for numbers, byte strings and tuples.
use Prim.Native.Nat.{ℕ, compare, Ordering}
use Prim.Native.Nat.Ordering.{lt, eq, gt}
use mathlib.Core.Path.{◌≡◌, refl}
use mathlib.Core.Bool.{Bool, true, false}
use mathlib.Core.List.{List, [], ◌∷◌}
use native.Mathlib.Omega.{arith}

abbrev pub reverse : Ordering → Ordering
reverse lt = gt
reverse eq = eq
reverse gt = lt

-- `Ordering::then_with`
abbrev pub then_with : Ordering → Ordering → Ordering
then_with eq next = next
then_with first _ = first

pub record Ord {ℓ} (K : Type ℓ) : Type ℓ where
  pub cmp : K → K → Ordering
  pub cmp_refl : (a : K) → cmp a a ≡ eq
  pub cmp_eq : (a b : K) → cmp a b ≡ eq → a ≡ b
  pub cmp_swap : (a b : K) → cmp b a ≡ reverse (cmp a b)
  pub cmp_trans : (a b c : K) → cmp a b ≡ lt → cmp b c ≡ lt → cmp a c ≡ lt

-- Equality as the order sees it.
abbrev pub same {ℓ} : {K : Type ℓ} ⦃o : Ord K⦄ → K → K → Bool
same ⦃o⦄ a b = elim (o.cmp a b) [ eq ↦ true | _ ↦ false ]

pub same→eq {ℓ} : {K : Type ℓ} ⦃o : Ord K⦄ (a b : K) → same a b ≡ true → a ≡ b
same→eq ⦃o⦄ a b h = ground (arith, o.cmp_eq a b)

pub same_refl {ℓ} : {K : Type ℓ} ⦃o : Ord K⦄ (a : K) → same a a ≡ true
same_refl ⦃o⦄ a = ground (arith, o.cmp_refl a)

pub compare_refl : (a : ℕ) → compare a a ≡ eq
compare_refl a = ground arith

pub compare-eq : (a b : ℕ) → compare a b ≡ eq → a ≡ b
compare-eq a b h = ground arith

pub compare_swap : (a b : ℕ) → compare b a ≡ reverse (compare a b)
compare_swap a b = ground arith

pub compare_trans : (a b c : ℕ) → compare a b ≡ lt → compare b c ≡ lt → compare a c ≡ lt
compare_trans a b c h k = ground arith

instance unfoldable pub nat_ord : Ord ℕ
nat_ord = record {
  cmp = compare;
  cmp_refl = compare_refl;
  cmp_eq = compare-eq;
  cmp_swap = compare_swap;
  cmp_trans = compare_trans;
}

module _ {ℓ κ} {A : Type ℓ} {B : Type κ} ⦃a : Ord A⦄ ⦃b : Ord B⦄ where
  -- Tuples and the fields of a struct with a derived `Ord` compare in order.
  abbrev pub pair_cmp : A × B → A × B → Ordering
  pair_cmp x y = then_with (a.cmp x.0 y.0) (b.cmp x.1 y.1)

  pub pair_refl : (x : A × B) → pair_cmp x x ≡ eq
  pair_refl x = ground (arith, a.cmp_refl x.0, b.cmp_refl x.1)

  pub pair_eq : (x y : A × B) → pair_cmp x y ≡ eq → x ≡ y
  pair_eq x y h = ground (arith, a.cmp_eq x.0 y.0, b.cmp_eq x.1 y.1)

  pub pair_swap : (x y : A × B) → pair_cmp y x ≡ reverse (pair_cmp x y)
  pair_swap x y = ground (arith, a.cmp_swap x.0 y.0, b.cmp_swap x.1 y.1)

  pub pair_trans : (x y z : A × B) → pair_cmp x y ≡ lt → pair_cmp y z ≡ lt → pair_cmp x z ≡ lt
  pair_trans x y z h k =
      grind (
        arith,
        a.cmp_eq x.0 y.0,
        a.cmp_eq y.0 z.0,
        a.cmp_trans x.0 y.0 z.0,
        b.cmp_trans x.1 y.1 z.1,
      )

  instance unfoldable pub pair_ord : Ord (A × B)
  pair_ord = record {
    cmp = pair_cmp;
    cmp_refl = pair_refl;
    cmp_eq = pair_eq;
    cmp_swap = pair_swap;
    cmp_trans = pair_trans;
  }

module _ {ℓ} {A : Type ℓ} ⦃a : Ord A⦄ where
  -- Sequences compare lexicographically, a prefix first.
  pub list_cmp : List A → List A → Ordering
  list_cmp [] [] = eq
  list_cmp [] (y ∷ ys) = lt
  list_cmp (x ∷ xs) [] = gt
  list_cmp (x ∷ xs) (y ∷ ys) = then_with (a.cmp x y) (list_cmp xs ys)

  pub list_refl : (xs : List A) → list_cmp xs xs ≡ eq
  unfolding list_cmp
  list_refl [] = refl
  list_refl (x ∷ xs) = ground (arith, a.cmp_refl x, list_refl xs)

  pub list_eq : (xs ys : List A) → list_cmp xs ys ≡ eq → xs ≡ ys
  unfolding list_cmp
  list_eq [] [] h = refl
  list_eq [] (y ∷ ys) h = cc
  list_eq (x ∷ xs) [] h = cc
  list_eq (x ∷ xs) (y ∷ ys) h = ground (arith, a.cmp_eq x y, list_eq xs ys)

  pub list_swap : (xs ys : List A) → list_cmp ys xs ≡ reverse (list_cmp xs ys)
  unfolding list_cmp
  list_swap [] [] = refl
  list_swap [] (y ∷ ys) = refl
  list_swap (x ∷ xs) [] = refl
  list_swap (x ∷ xs) (y ∷ ys) = ground (arith, a.cmp_swap x y, list_swap xs ys)

  pub list_trans :
      (xs ys zs : List A) → list_cmp xs ys ≡ lt → list_cmp ys zs ≡ lt → list_cmp xs zs ≡ lt
  unfolding list_cmp
  list_trans [] [] zs h k = cc
  list_trans [] (y ∷ ys) [] h k = cc
  list_trans [] (y ∷ ys) (z ∷ zs) h k = refl
  list_trans (x ∷ xs) [] zs h k = cc
  list_trans (x ∷ xs) (y ∷ ys) [] h k = cc
  list_trans (x ∷ xs) (y ∷ ys) (z ∷ zs) h k =
      grind (arith, a.cmp_eq x y, a.cmp_eq y z, a.cmp_trans x y z, list_trans xs ys zs)

  instance unfoldable pub list_ord : Ord (List A)
  unfolding list_cmp
  list_ord = record {
    cmp = list_cmp;
    cmp_refl = list_refl;
    cmp_eq = list_eq;
    cmp_swap = list_swap;
    cmp_trans = list_trans;
  }

-- The order that an injection into an ordered type gives.
module _ {ℓ κ} {A : Type ℓ} {B : Type κ} (b : Ord B) (f : A → B) where
  abbrev pub ord_by : ((x y : A) → f x ≡ f y → x ≡ y) → Ord A
  ord_by injective = record {
    cmp = λ x y. b.cmp (f x) (f y);
    cmp_refl = λ x. b.cmp_refl (f x);
    cmp_eq = λ x y h. injective x y (b.cmp_eq (f x) (f y) h);
    cmp_swap = λ x y. b.cmp_swap (f x) (f y);
    cmp_trans = λ x y z. b.cmp_trans (f x) (f y) (f z);
  }
