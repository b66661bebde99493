-- ===== src/Capture.antt =====
-- The forward capture of IQ out of the ring: `_capture_iq` in src/stream_web/app.py. The RX thread
-- and the clock are a world of ticks: what the ring holds and the clock shows at each moment at
-- which the capture looks. A copy of one chunk sees the ring of one tick. The wait loop takes fuel.
mod Tests
pub mod Stream
pub mod Correct
pub mod Stalls
pub mod Route
use sdr_docker.Base.{
  ℕ, zero, suc, ◌+◌, ◌-◌, ◌%◌, ◌/◌, min, Bool, true, false, List, [], ◌++◌, ltb, ◌==◌,
  if◌then◌else◌,
}
use sdr_docker.Base.Int.{pos}
use sdr_docker.Base.Floats.{FloatOps}
use sdr_docker.Config.{sample_rate}
use sdr_docker.IqRing.{Ring, samples_advanced, copy_chunk}

-- `CaptureError`, by its two uses: status 504 and status 500.
pub data CaptureError : Type 0 where
  timed_out overran : CaptureError

pub data Outcome {ℓ} (A : Type ℓ) : Type ℓ where
  done : A → Outcome A
  failed : CaptureError → Outcome A
  out_of_fuel : Outcome A

module _ (F : FloatOps) where
  open F use {Float, frac, of_int, plus, over, lt}

  pub record World {ℓ} (A : Type ℓ) : Type ℓ where
    pub ring : ℕ → Ring A
    pub clock : ℕ → Float

  module _ {ℓ} {A : Type ℓ} (size : ℕ) (w : World A) where
    -- The polling loop: the tick at which enough samples are there.
    pub wait : ℕ → Float → ℕ → ℕ → ℕ → Outcome ℕ
    wait zero deadline chunk_start this_n t = out_of_fuel
    wait (suc fuel) deadline chunk_start this_n t =
        elim (ltb (samples_advanced size chunk_start (w.ring t).buf_write_idx) this_n) [
          | true ↦ elim (lt deadline (w.clock t)) [
            | true ↦ failed timed_out
            | false ↦ wait fuel deadline chunk_start this_n (suc t)
          ]
          | false ↦ done t
        ]

    -- Copy at the tick after the wait, then look at the head once more.
    pub copy : ℕ → ℕ → ℕ → Outcome (List A)
    copy chunk_start this_n t =
        if ltb (samples_advanced size chunk_start (w.ring (suc (suc t))).buf_write_idx) this_n
        then failed overran
        else done (copy_chunk size (w.ring (suc t)).iq_buffer chunk_start this_n)

    abbrev pub prepend : List A → Outcome (List A) → Outcome (List A)
    prepend piece (done rest) = done (piece ++ rest)
    prepend piece (failed e) = failed e
    prepend piece out_of_fuel = out_of_fuel

    pub deadline_of : ℕ → ℕ → Float
    deadline_of this_n t =
        plus (plus (w.clock t) (over (of_int (pos this_n)) (of_int (pos sample_rate)))) (frac 5 1)

    -- `left` samples are still to be filled; `rounds` bounds the chunks.
    pub capture_from : ℕ → ℕ → ℕ → ℕ → ℕ → Outcome (List A)
    unfolding deadline_of
    capture_from fuel zero left chunk_start t = if left == 0 then done [] else out_of_fuel
    capture_from fuel (suc rounds) left chunk_start t =
        let this_n = min (size / 2) left in
        elim (left == 0) [
          | true ↦ done []
          | false ↦ elim (wait fuel (deadline_of this_n t) chunk_start this_n t) [
            | failed e ↦ failed e
            | out_of_fuel ↦ out_of_fuel
            | done t' ↦ elim (copy chunk_start this_n t') [
              | failed e ↦ failed e
              | out_of_fuel ↦ out_of_fuel
              | done piece ↦ prepend piece (
                  capture_from fuel rounds (left - this_n) ((chunk_start + this_n) % size)
                    (suc (suc (suc t'))))
            ]
          ]
        ]

    -- At most one chunk for each sample.
    pub capture_iq : ℕ → ℕ → ℕ → Outcome (List A)
    capture_iq fuel n_samples t =
        capture_from fuel n_samples n_samples (w.ring t).buf_write_idx (suc t)
