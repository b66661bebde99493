-- ===== src/Timing/Stats.antt =====
-- `edges_to_timing_stats` and `measure_transition_us` of src/stream_web/timing.py. Means, deviations
-- and roundings are numpy's; the model keeps the samples that they are taken of.
mod Tests
pub mod Totals
use sdr_docker.Base.{
  ℕ, zero, suc, ◌+◌, ◌-◌, ◌*◌, ◌≤◌, ◌<◌, ◌≡◌, refl, Bool, true, false, not, Option, none, some,
  List, [], ◌∷◌, length, drop, take, ltb, arith, if◌then◌else◌, abs_diff, min, ◌⊎◌, inl, inr,
  IsThere,
}
use sdr_docker.Base.Int.{ℤ, pos, negsuc, sub_ℕ, pos_part, neg_part, ◌+ℤ◌, ◌-ℤ◌, +ℤ_parts, int_laws}
use sdr_docker.Base.Floats.{FloatOps}

-- `filtfilt` with a window of so many equal weights pads three windows at each end, and raises on an
-- input that is not longer than its padding.
unfoldable pub filtfilt_takes : (window n : ℕ) → Bool
filtfilt_takes window n = ltb (window * 3) n

-- `e_arr - s_arr` and `s_arr[1:] - e_arr[:-1]`, in samples.
unfoldable pub symbol_samples : List (ℕ × ℕ) → List ℤ
symbol_samples [] = []
symbol_samples ((s, e) ∷ es) = sub_ℕ e s ∷ symbol_samples es

unfoldable pub gap_samples : List (ℕ × ℕ) → List ℤ
gap_samples [] = []
gap_samples (a ∷ []) = []
gap_samples (a ∷ b ∷ es) = sub_ℕ b.0 a.1 ∷ gap_samples (b ∷ es)

module _ (F : FloatOps) where
  open F use {Float, frac, of_int, plus, minus, times, over, magnitude, lt}

  -- numpy's mean and standard deviation, and Python's round to four places.
  pub record Statistics : Type 0 where
    pub mean : List Float → Float
    pub std : List Float → Float
    pub round4 : Float → Float

  pub record TimingStats : Type 0 where
    pub sym_count : ℕ
    pub sym_mean_ms : Option Float
    pub sym_std_ms : Option Float
    pub gap_count : ℕ
    pub gap_mean_ms : Option Float
    pub gap_std_ms : Option Float

  module _ (st : Statistics) (sr : ℕ) where
    open st use {mean, std, round4}

    unfoldable pub to_ms : List ℤ → List Float
    to_ms [] = []
    to_ms (k ∷ ks) = times (over (of_int k) (of_int (pos sr))) (frac 1000 1) ∷ to_ms ks

    abbrev pub of_values : (List Float → Float) → List Float → Option Float
    of_values f [] = none
    of_values f (x ∷ xs) = some (round4 (f (x ∷ xs)))

    unfoldable pub edges_to_timing_stats : List (ℕ × ℕ) → TimingStats
    unfolding to_ms symbol_samples gap_samples
    edges_to_timing_stats edges = record {
      sym_count = length (to_ms (symbol_samples edges));
      sym_mean_ms = of_values mean (to_ms (symbol_samples edges));
      sym_std_ms = of_values std (to_ms (symbol_samples edges));
      gap_count = length (to_ms (gap_samples edges));
      gap_mean_ms = of_values mean (to_ms (gap_samples edges));
      gap_std_ms = of_values std (to_ms (gap_samples edges));
    }

    length-to_ms : (ks : List ℤ) → length (to_ms ks) ≡ length ks
    unfolding to_ms
    length-to_ms [] = refl
    length-to_ms (k ∷ ks) = omega (arith, length-to_ms ks)

  -- The first index from `i` on whose entry passes the test.
  pub first_hit : ℕ → (Float → Bool) → List Float → Option ℕ
  first_hit i test [] = none
  first_hit i test (x ∷ xs) = if test x then some i else first_hit (suc i) test xs

  pub least_from : Float → List Float → Float
  least_from m [] = m
  least_from m (x ∷ xs) = least_from (if lt x m then x else m) xs

  pub greatest_from : Float → List Float → Float
  greatest_from m [] = m
  greatest_from m (x ∷ xs) = greatest_from (if lt m x then x else m) xs

  abbrev pub or_none {ℓ κ} : {A : Type ℓ} {B : Type κ} → Option A → (A → Option B) → Option B
  or_none none f = none
  or_none (some a) f = f a

  -- The crossing indices of a smoothed magnitude: the first entry past the near threshold, then
  -- the first past the far one from there on.
  pub crossing_pair : List Float → Float → Float → Bool → Option (ℕ × ℕ)
  unfolding first_hit
  crossing_pair smoothed thresh_10 thresh_90 rise =
      if rise
      then or_none (first_hit 0 (λ x. lt thresh_10 x) smoothed) (λ i10.
        or_none (first_hit i10 (λ x. lt thresh_90 x) (drop i10 smoothed)) (λ i90. some (i10, i90)))
      else or_none (first_hit 0 (λ x. lt x thresh_90) smoothed) (λ i90.
        or_none (first_hit i90 (λ x. lt x thresh_10) (drop i90 smoothed)) (λ i10. some (i10, i90)))

  -- `smooth window l` is the filtered magnitude of the samples.
  module _ {ℓ} {A : Type ℓ} (smooth : ℕ → List A → List Float) where
    crossings : List Float → Bool → Option (ℕ × ℕ)
    unfolding crossing_pair least_from greatest_from
    crossings [] rise = none
    crossings (x ∷ xs) rise =
        let lo = least_from x xs in
        let hi = greatest_from x xs in
        let span = minus hi lo in
        if lt span (frac 1 1_000_000_000)
        then none
        else crossing_pair (x ∷ xs) (plus lo (times (frac 10 100) span))
            (plus lo (times (frac 90 100) span)) rise

    -- The rise or fall time, or none where it cannot be measured. scipy's `filtfilt` raises on a
    -- span that its padding exceeds: `none`.
    pub measure_transition_us : List A → ℤ → ℤ → ℕ → Bool → ℕ → Option (Option Float)
    unfolding crossings filtfilt_takes
    measure_transition_us iq_seg begin end sr rise smoothing_window =
        let from = pos_part begin in
        let upto = (if ltb (length iq_seg) (pos_part end) then length iq_seg else pos_part end) in
        if ltb upto (from + smoothing_window * 2)
        then some none
        else if filtfilt_takes smoothing_window (upto - from)
        then some (
            or_none (crossings (smooth smoothing_window (drop from (take upto iq_seg))) rise) (λ c.
              some (
                times (over (of_int (pos (abs_diff c.0 c.1))) (of_int (pos sr)))
                  (frac 1_000_000 1))))
        else none

    -- It raises nothing on a span, cut to the segment, that is shorter than two windows or longer
    -- than three.
    pub measure_transition_us-IsThere :
        (iq_seg : List A) (begin end : ℤ) (sr : ℕ) (rise : Bool) (window : ℕ)
        → let upto = min (length iq_seg) (pos_part end) in
          (upto < pos_part begin + window * 2) ⊎ (pos_part begin + window * 3 < upto)
          → IsThere (measure_transition_us iq_seg begin end sr rise window)
    unfolding measure_transition_us filtfilt_takes
    measure_transition_us-IsThere iq_seg begin end sr rise window h =
        let cut : (if ltb (length iq_seg) (pos_part end) then length iq_seg else pos_part end)
            ≡ min (length iq_seg) (pos_part end) =
          ground arith in
        elim h [
          | inl short ↦
              let e : ltb (min (length iq_seg) (pos_part end)) (pos_part begin + window * 2)
                  ≡ true =
                ground arith in
              rw (cut, e) (none, refl)
          | inr long ↦
              let e : ltb (min (length iq_seg) (pos_part end)) (pos_part begin + window * 2)
                  ≡ false =
                ground arith in
              let takes : ltb (window * 3) (min (length iq_seg) (pos_part end) - pos_part begin)
                  ≡ true =
                ground arith in
              rw (cut, e, takes) (_, refl)
        ]
