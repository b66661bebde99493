-- ===== src/Analysis/Windows.antt =====
-- The decoder windows over a recording: `_window_offsets` of src/stream_web/analysis.py.
use sdr_docker.Base.{
  ℕ, zero, suc, ◌+◌, ◌-◌, ◌≤◌, ◌<◌, ◌≡◌, refl, sym, ◌∙◌, Bool, true, ◌&&◌, inl, inr, List, [], ◌∷◌,
  ◌++◌, max, any, leb, ltb, ◌==◌, Bool-cases, arith, if◌then◌else◌, subst,
}
use sdr_docker.Config.{decode_interval_samples}
use sdr_docker.Analysis.{range_from, last_or, window_offsets}

any-last :
    (p : ℕ → Bool) (d x : ℕ) (xs : List ℕ) → p (last_or d (x ∷ xs)) ≡ true → any p (x ∷ xs) ≡ true
any-last p d x [] h = rw (h) refl
any-last p d x (y ∷ ys) h = elim (Bool-cases (p x)) [
  | inl yes_x ↦ rw (yes_x) refl
  | inr no_x ↦ rw (no_x) (any-last p x y ys h)
]

any-append-right : (p : ℕ → Bool) (xs : List ℕ) (y : ℕ) → p y ≡ true → any p (xs ++ (y ∷ [])) ≡ true
any-append-right p [] y h = rw (h) refl
any-append-right p (x ∷ xs) y h = elim (Bool-cases (p x)) [
  | inl yes_x ↦ rw (yes_x) refl
  | inr no_x ↦ rw (no_x) (any-append-right p xs y h)
]

any-append-left : (p : ℕ → Bool) (xs ys : List ℕ) → any p xs ≡ true → any p (xs ++ ys) ≡ true
any-append-left p [] ys h = cc
any-append-left p (x ∷ xs) ys h = elim (Bool-cases (p x)) [
  | inl yes_x ↦ rw (yes_x) refl
  | inr no_x ↦
      let h' : any p xs ≡ true = sym (rw (no_x) refl) ∙ h in rw (no_x) (any-append-left p xs ys h')
]

-- The window at `k` holds the whole span.
abbrev pub covers : (win a l : ℕ) → ℕ → Bool
covers win a l k = leb k a && leb (a + l) (k + win)

module _ (stop step : ℕ) where
  -- The steps reach every place before `stop`.
  range_from-covers :
      (win a l fuel start : ℕ)
      → 1 ≤ step
      → step + l ≤ win + 1
      → stop ≤ fuel + start
      → start ≤ a
      → a < stop
      → any (covers win a l) (range_from stop step fuel start) ≡ true
  unfolding range_from
  range_from-covers win a l zero start pos_step fits enough h k = absurd (omega arith)
  range_from-covers win a l (suc fuel) start pos_step fits enough h k =
      let here : ltb start stop ≡ true = ground arith in
      elim (Bool-cases (covers win a l start)) [
        | inl yes_here ↦ rw (here) (rw (yes_here) refl)
        | inr not_here ↦ rw (here) (
            rw (not_here) (
              let past : start + step ≤ a = ground arith in
              range_from-covers win a l fuel (start + step) pos_step fits (omega arith) past k))
      ]

  range_from-starts :
      (fuel start : ℕ)
      → 1 ≤ fuel
      → start < stop
      → (xs : List ℕ) × (range_from stop step fuel start ≡ start ∷ xs)
  unfolding range_from
  range_from-starts zero start some_fuel h = absurd (omega arith)
  range_from-starts (suc fuel) start some_fuel h =
      let here : ltb start stop ≡ true = ground arith in
      (range_from stop step fuel (start + step), rw (here) refl)

-- The list with `m` at its end, as `_window_offsets` puts it there.
with_last : ℕ → List ℕ → List ℕ
with_last m xs = if last_or 0 xs == m then xs else xs ++ (m ∷ [])

any-with_last_left :
    (p : ℕ → Bool) (m : ℕ) (xs : List ℕ) → any p xs ≡ true → any p (with_last m xs) ≡ true
unfolding with_last
any-with_last_left p m xs h = elim (Bool-cases (last_or 0 xs == m)) [
  | inl same ↦ rw (same) h
  | inr other ↦ rw (other) (any-append-left p xs (m ∷ []) h)
]

any-with_last_right :
    (p : ℕ → Bool) (m x : ℕ) (xs : List ℕ) → p m ≡ true → any p (with_last m (x ∷ xs)) ≡ true
unfolding with_last
any-with_last_right p m x xs h = elim (Bool-cases (last_or 0 (x ∷ xs) == m)) [
  | inl same ↦
      let e : last_or x xs ≡ m = ground arith in
      rw (same) (any-last p 0 x xs (subst (λ k. p k ≡ true) (sym e) h))
  | inr other ↦ rw (other) (any-append-right p (x ∷ xs) m h)
]

-- Every span of a recording that is at most the decode interval (0.6 s) long, longer than the
-- longest packet, lies whole in one of the windows, when a window is at least that long.
pub window_offsets-cover :
    (n win a l : ℕ)
    → decode_interval_samples < win
    → l ≤ decode_interval_samples
    → a + l ≤ n
    → any (covers win a l) (window_offsets n win) ≡ true
unfolding window_offsets with_last
window_offsets-cover n win a l wide short inside = elim (Bool-cases (leb n win)) [
  | inl single ↦ let c : covers win a l 0 ≡ true = ground arith in rw (single) (rw (c) refl)
  | inr many ↦
      let stop = n - win + 1 in
      let step = max 1 (win - decode_interval_samples) in
      let offsets = range_from stop step stop 0 in
      elim (Bool-cases (ltb a stop)) [
        | inl early ↦
            let c : any (covers win a l) offsets ≡ true =
              range_from-covers stop step win a l stop 0 (omega arith) (omega arith) (omega arith)
                (omega arith) (ground arith) in
            rw (many) (any-with_last_left (covers win a l) (n - win) offsets c)
        | inr late ↦
            let c : covers win a l (n - win) ≡ true = ground arith in
            let (xs, starts) = range_from-starts stop step stop 0 (omega arith) (omega arith) in
            let cover : any (covers win a l) (with_last (n - win) offsets) ≡ true =
              subst (λ q. any (covers win a l) (with_last (n - win) q) ≡ true) (sym starts)
                (any-with_last_right (covers win a l) (n - win) 0 xs c) in
            rw (many) cover
      ]
]
