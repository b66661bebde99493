-- ===== src/Capture/Route/Samples.antt =====
-- `/api/iq_capture` of src/stream_web/app.py from the query to the body, over a ring that follows a
-- stream of samples.
use Prim.Native.String.{String}
use sdr_docker.Base.{
  ℕ, suc, ◌+◌, ◌*◌, ◌≤◌, ◌≡◌, false, Option, some, List, arith, ltb, le→ltb-false,
}
use sdr_docker.Base.Int.{ℤ, pos}
use sdr_docker.Base.Floats.{FloatOps}
use sdr_docker.Config.{sample_rate, iq_buffer_size, capture_max_seconds}
use sdr_docker.Capture.{World, Outcome, capture_iq}
use sdr_docker.Capture.Stream.{slice, length-slice, Follows}
use sdr_docker.Capture.Correct.{Delivers, capture_iq-slice}
use sdr_docker.Capture.Route.{answered, api_iq_capture, parse_seconds, locked_capture}

module _ {ℓ} (F : FloatOps) {A : Type ℓ} (w : World F A) (stream : ℕ → A) (total : ℕ → ℕ)
    (f : Follows F iq_buffer_size w stream total) (lap : ℕ)
    (d : Delivers F iq_buffer_size w stream total f lap) where
  abbrev pub capture_at : ℕ → ℕ → Outcome (List A)
  capture_at t n = capture_iq F iq_buffer_size w (suc lap) n t

  -- With the lock free and an allowed number of seconds, while any `lap` ticks bring half a buffer or
  -- more, a tick at most an eighth of it, the head is set back to 0 at the end of the buffer, and `lap`
  -- ticks after the start of a chunk its deadline has not passed, the download holds exactly the
  -- samples of that many seconds from the request on, the headers say so, and the lock is free again.
  pub api_iq_capture-slice :
      (to_int : String → Option ℤ) (raw : String) (seconds t : ℕ) (lo : ℤ)
      → to_int raw ≡ some (pos seconds)
      → 1 ≤ seconds
      → seconds ≤ capture_max_seconds
      → api_iq_capture to_int lo (some raw) (capture_at t) false ≡ (
        answered (record {
          body = slice stream (total t + iq_buffer_size) (seconds * sample_rate);
          sample_rate_hz = sample_rate;
          center_freq_hz = lo;
          duration_s = seconds;
          n_samples = seconds * sample_rate;
        }),
        false,
      )
  unfolding api_iq_capture parse_seconds locked_capture
  api_iq_capture-slice to_int raw seconds t lo e least most =
      let up : ltb seconds 1 ≡ false = le→ltb-false seconds 1 least in
      let within : ltb capture_max_seconds seconds ≡ false =
        le→ltb-false capture_max_seconds seconds most in
      let n = seconds * sample_rate in
      let got = capture_iq-slice F iq_buffer_size w stream total f lap d n t (omega arith) in
      rw (
        e,
        up,
        within,
        parse_seconds,
        locked_capture,
        api_iq_capture,
        got,
        length-slice stream (total t + iq_buffer_size) n,
      )
