-- ===== src/FailureDetector/Window.antt =====
-- `BoundedArrayStats` and `SamplingWindow` of chitchat/src/failure_detector.rs. The arithmetic of
-- `f64` is a parameter. An index out of bounds is `none`.
pub mod Ring
use scuttlebutt.Prelude.{
  ℕ, zero, suc, ◌+◌, ◌-◌, Bool, true, false, Option, none, some, List, [], ◌∷◌, length,
  if◌then◌else◌, ◌==◌, leb,
}

-- The type `f64`, the conversions of durations (`as_secs_f64`) and of lengths, and the order `<=`.
pub record Floats : Type 1 where
  pub F64 : Type 0
  pub of_secs : ℕ → F64
  pub of_len : ℕ → F64
  pub add : F64 → F64 → F64
  pub sub : F64 → F64 → F64
  pub mul : F64 → F64 → F64
  pub div : F64 → F64 → F64
  pub le : F64 → F64 → Bool
  pub lt : F64 → F64 → Bool
  pub zero : F64
  pub five : F64

module _ {A : Type 0} where
  -- `values[index]`, read and written
  unfoldable pub read : ℕ → List A → Option A
  read n [] = none
  read zero (x ∷ xs) = some x
  read (suc n) (x ∷ xs) = read n xs

  abbrev pub write_tail : A → Option (List A) → Option (List A)
  write_tail x none = none
  write_tail x (some xs) = some (x ∷ xs)

  unfoldable pub write : ℕ → A → List A → Option (List A)
  write n y [] = none
  write zero y (x ∷ xs) = some (y ∷ xs)
  write (suc n) y (x ∷ xs) = write_tail x (write n y xs)

  unfoldable pub repeat : ℕ → A → List A
  repeat zero x = []
  repeat (suc n) x = x ∷ repeat n x

module _ (f : Floats) where
  pub record BoundedArrayStats : Type 0 where
    pub values : List f.F64
    pub is_filled : Bool
    pub index : ℕ
    pub sum : f.F64

  unfoldable pub with_capacity : ℕ → BoundedArrayStats
  unfolding repeat
  with_capacity capacity = record {
    values = repeat capacity f.zero;
    is_filled = false;
    index = 0;
    sum = f.zero;
  }

  -- The sum without the value that is about to be overwritten.
  abbrev pub sum_before : BoundedArrayStats → f.F64 → f.F64
  sum_before s old = if s.is_filled then f.sub s.sum old else s.sum

  abbrev pub stored :
      BoundedArrayStats → f.F64 → Option f.F64 → Option (List f.F64) → Option BoundedArrayStats
  stored s interval (some old) (some values) =
      let last = s.index == length values - 1 in
      some (record {
        values = values;
        is_filled = if last then true else s.is_filled;
        index = if last then 0 else s.index + 1;
        sum = f.add (sum_before s old) interval;
      })
  stored s interval _ _ = none

  unfoldable pub append : f.F64 → BoundedArrayStats → Option BoundedArrayStats
  unfolding read write
  append interval s = stored s interval (read s.index s.values) (write s.index interval s.values)

  unfoldable pub clear : BoundedArrayStats → BoundedArrayStats
  clear s = record s { is_filled = false; index = 0; sum = f.zero }

  unfoldable pub len : BoundedArrayStats → ℕ
  len s = if s.is_filled then length s.values else s.index

  pub record AdditiveSmoothing : Type 0 where
    pub prior_mean : f.F64
    pub prior_weight : f.F64

  unfoldable pub compute_mean : AdditiveSmoothing → ℕ → f.F64 → f.F64
  compute_mean a n sum =
      f.div (f.add sum (f.mul a.prior_weight a.prior_mean)) (f.add (f.of_len n) a.prior_weight)

  pub record SamplingWindow : Type 0 where
    pub intervals : BoundedArrayStats
    pub last_heartbeat : Option ℕ
    pub max_interval : ℕ
    pub additive_smoothing : AdditiveSmoothing

  unfoldable pub new_window : ℕ → ℕ → ℕ → SamplingWindow
  unfolding with_capacity
  new_window window_size max_interval prior_interval = record {
    intervals = with_capacity window_size;
    last_heartbeat = none;
    max_interval = max_interval;
    additive_smoothing = record { prior_mean = f.of_secs prior_interval; prior_weight = f.five };
  }

  abbrev pub beat : ℕ → SamplingWindow → Option BoundedArrayStats → Option SamplingWindow
  beat now w none = none
  beat now w (some intervals) = some (record w { intervals = intervals; last_heartbeat = some now })

  abbrev pub intervals_after : ℕ → SamplingWindow → Option ℕ → Option BoundedArrayStats
  intervals_after now w none = some w.intervals
  intervals_after now w (some last) =
      if leb (now - last) w.max_interval
      then append (f.of_secs (now - last)) w.intervals
      else some w.intervals

  -- `duration_since` is zero where the clock went back.
  unfoldable pub report_window : ℕ → SamplingWindow → Option SamplingWindow
  unfolding append
  report_window now w = beat now w (intervals_after now w w.last_heartbeat)

  unfoldable pub reset_window : SamplingWindow → SamplingWindow
  unfolding clear
  reset_window w = record w { intervals = clear w.intervals }

  abbrev pub phi_since : ℕ → SamplingWindow → Option ℕ → Option f.F64
  phi_since now w none = none
  phi_since now w (some last) = some (
      f.div (f.of_secs (now - last))
        (compute_mean w.additive_smoothing (len w.intervals) w.intervals.sum))

  -- `none` before the first interval.
  unfoldable pub window_phi : ℕ → SamplingWindow → Option f.F64
  unfolding len compute_mean
  window_phi now w = if len w.intervals == 0 then none else phi_since now w w.last_heartbeat
