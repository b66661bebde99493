-- ===== src/Capture/Tests.antt =====
-- Captures of src/stream_web/app.py from a radio that receives one level throughout, some samples at
-- every other tick, while a tick takes 50 ms.
use Prim.Native.String.{String}
use native.Mathlib.Nat.{mod-lt}
use sdr_docker.Base.{
  ℕ, zero, suc, ◌+◌, ◌-◌, ◌*◌, ◌%◌, ◌≤◌, ◌<◌, ◌≡◌, refl, ap, ◌∙◌, false, Bool-cases, ◌==◌, ◌⊎◌, inr,
  List, [], ◌∷◌, ◌++◌, Option, some, inl, drop, take, replicate, length-replicate, arith, ◌/◌, ltb,
  leb, le→ltb-false,
}
use sdr_docker.Base.Int.{ℤ, pos, pos_part}
use sdr_docker.Base.Floats.{FloatOps}
use sdr_docker.Config.{sample_rate, iq_buffer_size}
use sdr_docker.IqRing.Window.{window}
use sdr_docker.Capture.{World, done, failed, timed_out, wait, copy, capture_iq, deadline_of}
use sdr_docker.Capture.Stream.{slice, Follows}
use sdr_docker.Capture.Correct.{Captured, capture_iq-Captured, Delivers, capture_iq-slice}
use sdr_docker.Capture.Stalls.{capture_iq_stalled, copy_stale}
use sdr_docker.Capture.Route.{Event, begins, ends, run, open_gate, api_iq_capture, answered}
use sdr_docker.Capture.Route.Laws.{Exclusive, run-Exclusive}
use sdr_docker.Capture.Route.Samples.{capture_at, api_iq_capture-slice}

-- Times in whole milliseconds.
abbrev milliseconds : FloatOps
milliseconds = record {
  Float = ℕ;
  frac = λ n d. n * 1000 / d;
  of_int = λ a. pos_part a * 1000;
  plus = λ a b. a + b;
  minus = λ a b. a - b;
  times = λ a b. a * b / 1000;
  over = λ a b. a * 1000 / b;
  magnitude = λ a. a;
  lt = ltb;
  le = leb;
  truncate = λ a. a / 1000;
  nearest = λ a. (a + 500) / 1000;
}

level : (size step : ℕ) → World milliseconds ℕ
level size step = record {
  ring = λ t. record { iq_buffer = replicate size 7; buf_write_idx = (t / 2 * step) % size };
  clock = λ t. t * 50;
}

abbrev sevens : ℕ → ℕ
sevens t = 7

abbrev every_other : ℕ → ℕ → ℕ
every_other step t = t / 2 * step

every_other_grows :
    (step t : ℕ)
    → (every_other step t ≤ every_other step (suc t))
      × (every_other step (suc t) ≤ every_other step t + step)
every_other_grows step t = elim (Bool-cases (suc t / 2 == t / 2)) [
  | inl same ↦
      let e : suc t / 2 ≡ t / 2 = ground arith in
      let f : every_other step (suc t) ≡ every_other step t = ap (λ k. k * step) e in
      (omega arith, omega arith)
  | inr next ↦
      let e : suc t / 2 ≡ t / 2 + 1 = ground arith in
      let f : every_other step (suc t) ≡ every_other step t + step =
        ap (λ k. k * step) e ∙ grind arith in
      (omega arith, omega arith)
]

-- Twelve deliveries fall into any 25 ticks.
every_other_arrives : (step t : ℕ) → every_other step t + 12 * step ≤ every_other step (t + 25)
every_other_arrives step t =
    let d : ((t + 25) / 2 ≡ t / 2 + 12) ⊎ ((t + 25) / 2 ≡ t / 2 + 13) =
      elim (Bool-cases ((t + 25) / 2 == t / 2 + 12)) [
        | inl e ↦ inl (ground arith)
        | inr e ↦ inr (ground arith)
      ] in
    elim d [
      | inl e ↦
          let f : every_other step (t + 25) ≡ every_other step t + 12 * step =
            ap (λ k. k * step) e ∙ grind arith in
          omega arith
      | inr e ↦
          let f : every_other step (t + 25) ≡ every_other step t + 13 * step =
            ap (λ k. k * step) e ∙ grind arith in
          omega arith
    ]

drop-replicate : (n i : ℕ) (v : ℕ) → drop i (replicate n v) ≡ replicate (n - i) v
drop-replicate n zero v = let e : n ≡ n - 0 = omega arith in ap (λ k. replicate k v) e
drop-replicate zero (suc i) v = let e : 0 ≡ 0 - suc i = omega arith in ap (λ k. replicate k v) e
drop-replicate (suc n) (suc i) v =
    let e : n - i ≡ suc n - suc i = omega arith in drop-replicate n i v ∙ ap (λ k. replicate k v) e

take-replicate : (n i : ℕ) (v : ℕ) → i ≤ n → take i (replicate n v) ≡ replicate i v
take-replicate n zero v h = refl
take-replicate zero (suc i) v h = absurd (omega arith)
take-replicate (suc n) (suc i) v h = ap (◌∷◌ v) (take-replicate n i v (omega arith))

replicate-append : (m n k : ℕ) (v : ℕ) → k ≡ m + n → replicate m v ++ replicate n v ≡ replicate k v
replicate-append zero n k v e = let same : n ≡ k = omega arith in ap (λ j. replicate j v) same
replicate-append (suc m) n zero v e = absurd (omega arith)
replicate-append (suc m) n (suc k) v e = ap (◌∷◌ v) (replicate-append m n k v (omega arith))

turned : (n i v : ℕ) → i ≤ n → drop i (replicate n v) ++ take i (replicate n v) ≡ replicate n v
turned n i v h =
    rw (drop-replicate n i v, take-replicate n i v h) (replicate-append (n - i) i n v (omega arith))

slice-sevens : (c n : ℕ) → replicate n 7 ≡ slice sevens c n
slice-sevens c zero = refl
slice-sevens c (suc n) = ap (◌∷◌ 7) (slice-sevens (suc c) n)

level-Follows :
    (size step : ℕ)
    → 8 ≤ size
    → 8 * step ≤ size
    → Follows milliseconds size (level size step) sevens (every_other step)
unfolding level
level-Follows size step big few = record {
  valid = λ t. record {
    full = length-replicate size 7;
    index = let l : every_other step t % size < size = mod-lt _ (omega arith) in omega arith;
  };
  holds = λ t.
      turned size (every_other step t % size) 7
        (let l : every_other step t % size < size = mod-lt _ (omega arith) in omega arith)
      ∙ slice-sevens (every_other step t) size;
  place = λ t. refl;
  grows = λ t. (every_other_grows step t).0;
  steady = λ t. omega (arith, (every_other_grows step t).1);
}

level-Delivers :
    (size step : ℕ) (big : 8 ≤ size) (few : 8 * step ≤ size)
    → size / 2 ≤ 12 * step
    → Delivers milliseconds size
        (level size step)
        sevens
        (every_other step)
        (level-Follows size step big few)
        25
unfolding level deadline_of
level-Delivers size step big few enough = record {
  arrives = λ t. omega (arith, every_other_arrives step t);
  punctual = λ m t k h. le→ltb-false _ ((t + k) * 50) (omega arith);
}

abbrev small-Follows : Follows milliseconds 8 (level 8 1) sevens (every_other 1)
small-Follows = level-Follows 8 1 (omega arith) (omega arith)

capture_iq-slice_example : capture_iq milliseconds 8 (level 8 1) 26 20 6 ≡ done (slice sevens 11 20)
capture_iq-slice_example =
    capture_iq-slice milliseconds 8 (level 8 1) sevens (every_other 1) small-Follows 25
      (level-Delivers 8 1 (omega arith) (omega arith) (omega arith)) 20 6 (omega arith)

capture_iq-Captured_example :
    Captured milliseconds 8
      (level 8 1)
      sevens
      (every_other 1)
      small-Follows
      3
      20
      (capture_iq milliseconds 8 (level 8 1) 26 20 6)
capture_iq-Captured_example =
    capture_iq-Captured milliseconds 8 (level 8 1) sevens (every_other 1) small-Follows 26 20 6
      (omega arith)

three : String → Option ℤ
three s = some (pos 3)

-- 78124 samples in 100 ms.
abbrev radio : World milliseconds ℕ
radio = level iq_buffer_size 78_124

abbrev radio-Follows : Follows milliseconds iq_buffer_size radio sevens (every_other 78_124)
radio-Follows = level-Follows iq_buffer_size 78_124 (omega arith) (omega arith)

abbrev radio-Delivers :
    Delivers milliseconds iq_buffer_size radio sevens (every_other 78_124) radio-Follows 25
radio-Delivers = level-Delivers iq_buffer_size 78_124 (omega arith) (omega arith) (omega arith)

api_iq_capture-slice_example :
    api_iq_capture three
      (pos 2402000000)
      (some "3")
      (capture_at milliseconds radio sevens (every_other 78_124) radio-Follows 25 radio-Delivers 10)
      false
    ≡ (
      answered (record {
        body = slice sevens (5 * 78_124 + iq_buffer_size) (3 * sample_rate);
        sample_rate_hz = sample_rate;
        center_freq_hz = pos 2402000000;
        duration_s = 3;
        n_samples = 3 * sample_rate;
      }),
      false,
    )
unfolding three
api_iq_capture-slice_example =
    api_iq_capture-slice milliseconds radio sevens (every_other 78_124) radio-Follows 25
      radio-Delivers three "3" 3 10 (pos 2402000000) refl (omega arith) (omega arith)

abbrev requests : List Event
requests = begins 1 ∷ begins 2 ∷ ends 1 ∷ begins 3 ∷ []

run-Exclusive_example : Exclusive (run open_gate requests)
run-Exclusive_example = run-Exclusive requests open_gate (inl (refl, refl))

-- A radio that has stopped at index 3, while the clock goes on in whole seconds.
abbrev stalled : World milliseconds ℕ
stalled = record {
  ring = λ t. record { iq_buffer = replicate 8 7; buf_write_idx = 3 };
  clock = λ t. t * 1000;
}

-- A radio that has stopped at the very end of the buffer.
abbrev at_the_end : World milliseconds ℕ
at_the_end = record {
  ring = λ t. record { iq_buffer = replicate 8 7; buf_write_idx = 8 };
  clock = λ t. t * 1000;
}

copy_stale_example :
    (wait milliseconds 8 at_the_end 10 5000 0 4 1 ≡ done 1)
    × (copy milliseconds 8 at_the_end 0 4 1 ≡ done (take 4 (window (at_the_end.ring 2))))
copy_stale_example =
    copy_stale milliseconds 8 at_the_end 9 4 1 5000
      (λ u. record { full = refl; index = omega arith }) (λ u. refl) (omega arith) (omega arith)

capture_iq_stalled_example : capture_iq milliseconds 8 stalled 7 20 0 ≡ failed timed_out
unfolding deadline_of
capture_iq_stalled_example =
    capture_iq_stalled milliseconds 8 stalled 3 (λ t. refl) 7 20 6 0 (omega arith) (omega arith)
      (omega arith) refl
