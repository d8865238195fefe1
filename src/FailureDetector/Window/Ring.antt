-- ===== src/FailureDetector/Window/Ring.antt =====
-- The ring buffer of a sampling window: chitchat/src/failure_detector.rs.
use scuttlebutt.Prelude.{
  ℕ, zero, suc, ◌+◌, ◌<◌, ◌≡◌, refl, Option, none, some, List, [], ◌∷◌, length, min, arith,
}
use scuttlebutt.FailureDetector.Window.{Floats, read, write, BoundedArrayStats, append, len}

module _ {A : Type 0} where
  read_total : (n : ℕ) (xs : List A) → n < length xs → (x : A) × (read n xs ≡ some x)
  unfolding read
  read_total n [] h = absurd (omega arith)
  read_total zero (x ∷ xs) h = (x, refl)
  read_total (suc n) (x ∷ xs) h = read_total n xs (omega arith)

  write_total :
      (n : ℕ) (y : A) (xs : List A)
      → n < length xs
      → (ys : List A) × (write n y xs ≡ some ys) × (length ys ≡ length xs) × (read n ys ≡ some y)
  unfolding read write
  write_total n y [] h = absurd (omega arith)
  write_total zero y (x ∷ xs) h = (y ∷ xs, refl, refl, refl)
  write_total (suc n) y (x ∷ xs) h =
      let (ys, e, l, r) = write_total n y xs (omega arith) in (x ∷ ys, rw e, omega (arith, l), r)

module _ (f : Floats) where
  -- After an append: one more value up to the capacity, the index within it, and the new value
  -- where the index was.
  abbrev pub Appended : f.F64 → BoundedArrayStats f → Option (BoundedArrayStats f) → Type 0
  Appended interval s none = ⊥
  Appended interval s (some t) =
      (len f t ≡ min (len f s + 1) (length s.values))
      × (t.index < length t.values)
      × (length t.values ≡ length s.values)
      × (read s.index t.values ≡ some interval)

  -- Where the index is within the window's values, an append does not panic, keeps the index within
  -- them and their number, counts one more value up to the capacity, and stores the new value where
  -- the index was.
  pub append_lem :
      (interval : f.F64) (s : BoundedArrayStats f)
      → s.index < length s.values
      → Appended interval s (append f interval s)
  unfolding append len
  append_lem interval s h =
      let (old, e) = read_total s.index s.values h in
      let (values, e', l, r) = write_total s.index interval s.values h in
      rw (e, e') (ground (arith, l, r, h))
