-- ===== src/Capture/Stalls.antt =====
-- `_capture_iq` of src/stream_web/app.py where the RX thread stands still, and where it stands at
-- the very end of the buffer.
use sdr_docker.Base.{
  ℕ, zero, suc, ◌+◌, ◌-◌, ◌/◌, ◌≤◌, ◌<◌, ◌≡◌, refl, ◌∙◌, ap, arith, ltb, ◌==◌, min, true, false,
  take, drop, Bool-cases, inl, inr,
}
use sdr_docker.Base.Floats.{FloatOps}
use sdr_docker.IqRing.{samples_advanced}
use sdr_docker.IqRing.Window.{window, IsValid}
use sdr_docker.IqRing.Reads.{samples_advanced_cases, copy_chunk-window}
use sdr_docker.Capture.{
  World, done, failed, timed_out, wait, copy, capture_from, capture_iq, deadline_of,
}

module _ {ℓ} (F : FloatOps) {A : Type ℓ} (size : ℕ) (w : World F A) where
  not_advanced : (i m : ℕ) → 0 < m → ltb (samples_advanced size i i) m ≡ true
  not_advanced i m pos = elim (samples_advanced_cases size i i) [
    | inl a ↦ ground arith
    | inr a ↦ absurd (omega arith)
  ]

  module _ (i : ℕ) (still : (t : ℕ) → (w.ring t).buf_write_idx ≡ i) where
    wait_stalled :
        (fuel k m t : ℕ) (deadline : FloatOps.Float F)
        → 0 < m
        → k < fuel
        → FloatOps.lt F deadline (w.clock (t + k)) ≡ true
        → wait F size w fuel deadline i m t ≡ failed timed_out
    unfolding wait
    wait_stalled zero k m t deadline pos h late = absurd (omega arith)
    wait_stalled (suc fuel) zero m t deadline pos h late =
        let short : ltb (samples_advanced size i (w.ring t).buf_write_idx) m ≡ true =
          rw (still t) (not_advanced i m pos) in
        let here : t + 0 ≡ t = omega arith in
        let now : FloatOps.lt F deadline (w.clock t) ≡ true = rw here at late in
        rw (short, now, wait) refl
    wait_stalled (suc fuel) (suc k) m t deadline pos h late =
        let short : ltb (samples_advanced size i (w.ring t).buf_write_idx) m ≡ true =
          rw (still t) (not_advanced i m pos) in
        let there : t + suc k ≡ suc t + k = omega arith in
        elim (Bool-cases (FloatOps.lt F deadline (w.clock t))) [
          | inl now ↦ rw (short, now, wait) refl
          | inr early ↦
              rw (short, early, wait)
                (wait_stalled fuel k m (suc t) deadline pos (omega arith) (rw there at late))
        ]

    -- A capture from a radio that delivers nothing ends in the timeout, status 504, once the
    -- deadline of its first chunk has passed.
    pub capture_iq_stalled :
        (fuel n k t : ℕ)
        → 2 ≤ size
        → 0 < n
        → k < fuel
        → FloatOps.lt F (deadline_of F size w (min (size / 2) n) (suc t)) (w.clock (suc t + k))
          ≡ true
        → capture_iq F size w fuel n t ≡ failed timed_out
    unfolding capture_iq capture_from
    capture_iq_stalled fuel zero k t big pos h late = absurd (omega arith)
    capture_iq_stalled fuel (suc n) k t big pos h late = rw (still t) (
        let timed = wait_stalled fuel k (min (size / 2) (suc n)) (suc t) _ (omega arith) h late in
        let some_left : (suc n == 0) ≡ false = ground arith in
        rw (some_left, timed, capture_from) refl)

  -- Where a chunk starts at index 0 while the head stands at the very end of the buffer, nothing has
  -- arrived for the chunk, yet the wait ends at once and the copy takes the oldest samples of the
  -- ring, a whole lap old, past the overrun check.
  pub copy_stale :
      (fuel m t : ℕ) (deadline : FloatOps.Float F)
      → ((u : ℕ) → IsValid size (w.ring u))
      → ((u : ℕ) → (w.ring u).buf_write_idx ≡ size)
      → 0 < m
      → m < size
      → (wait F size w (suc fuel) deadline 0 m t ≡ done t)
        × (copy F size w 0 m t ≡ done (take m (window (w.ring (suc t)))))
  unfolding wait copy
  copy_stale fuel m t deadline valid at_end pos below = (
    (let ready : ltb (samples_advanced size 0 (w.ring t).buf_write_idx) m ≡ false = far t in
        rw (ready, wait) refl),
    (let intact : ltb (samples_advanced size 0 (w.ring (suc (suc t))).buf_write_idx) m ≡ false =
          far (suc (suc t)) in
        let head = lap (suc t) in
        rw intact (
          ap done (
            copy_chunk-window size (w.ring (suc t)) 0 m (valid (suc t)) (omega arith) pos below
              (omega (arith, head))
            ∙ (let oldest : size - samples_advanced size 0 (w.ring (suc t)).buf_write_idx ≡ 0 =
                  omega (arith, head) in
                ap (λ d. take m (drop d (window (w.ring (suc t))))) oldest)))),
  )
    where
      lap : (u : ℕ) → samples_advanced size 0 (w.ring u).buf_write_idx ≡ size
      lap u = elim (samples_advanced_cases size 0 (w.ring u).buf_write_idx) [
        | inl a ↦ omega (arith, at_end u)
        | inr a ↦ absurd (omega arith)
      ]

      far : (u : ℕ) → ltb (samples_advanced size 0 (w.ring u).buf_write_idx) m ≡ false
      far u = ground (arith, lap u)
