-- ===== src/Capture/Route.antt =====
-- The capture routes of src/stream_web/app.py: `_parse_seconds`, the capture lock, `/api/iq_capture`,
-- `/api/record_analyze` and `/api/fcc_check` up to their analysis, which is a parameter here.
pub mod Laws
pub mod Samples
use Prim.Native.String.{String}
use sdr_docker.Base.{
  ℕ, ◌+◌, ◌*◌, ◌/◌, Bool, true, false, Option, none, some, List, [], ◌∷◌, ◌⊎◌, inl, inr, length,
  ltb, ◌==◌, if◌then◌else◌, take, drop, keep, any, not,
}
use sdr_docker.Base.Int.{ℤ, pos, negsuc, ltb_ℤ}
use sdr_docker.Config.{
  sample_rate, spec_chunk_samples, capture_default_seconds, capture_max_seconds,
  fcc_check_default_seconds,
}
use sdr_docker.Capture.{Outcome, done, failed, out_of_fuel, CaptureError, timed_out, overran}

-- Why a route answers with an error.
pub data Refusal : Type 0 where
  required not_integer below_one busy too_short : Refusal
  above_maximum : ℕ → Refusal
  capture_error : CaptureError → Refusal

pub status : Refusal → ℕ
status required = 400
status not_integer = 400
status below_one = 400
status busy = 409
status too_short = 400
status (above_maximum n) = 400
status (capture_error timed_out) = 504
status (capture_error overran) = 500

-- `raw` is the query parameter, and `to_int` is Python's `int` on a text.
unfoldable pub parse_seconds : (String → Option ℤ) → Option String → Option ℕ → ℕ → ℕ ⊎ Refusal
parse_seconds to_int none (some default) maximum = inl default
parse_seconds to_int none none maximum = inr required
parse_seconds to_int (some raw) default maximum = elim (to_int raw) [
  | none ↦ inr not_integer
  | some (negsuc n) ↦ inr below_one
  | some (pos n) ↦
      if ltb n 1
      then inr below_one
      else if ltb maximum n
      then inr (above_maximum maximum)
      else inl n
]

-- The answer of a route, and whether `_capture_lock` is held after it. A capture that has not
-- ended yet holds the lock.
pub data Reply {ℓ} (A : Type ℓ) : Type ℓ where
  refused : Refusal → Reply A
  answered : A → Reply A
  capturing : Reply A

module _ {ℓ κ} {A : Type ℓ} {B : Type κ} where
  -- The part the three routes share. `capture n` runs `_capture_iq(n)`, `finish` makes the answer
  -- of the seconds and the segment.
  unfoldable pub locked_capture :
      ℕ ⊎ Refusal → (ℕ → Outcome (List A)) → (ℕ → List A → Reply B) → Bool → Reply B × Bool
  locked_capture (inr e) capture finish locked = (refused e, locked)
  locked_capture (inl seconds) capture finish true = (refused busy, true)
  locked_capture (inl seconds) capture finish false = elim (capture (seconds * sample_rate)) [
    | done segment ↦ (finish seconds segment, false)
    | failed e ↦ (refused (capture_error e), false)
    | out_of_fuel ↦ (capturing, true)
  ]

-- The headers and the body of a download.
pub record Download {ℓ} (A : Type ℓ) : Type ℓ where
  pub body : A
  pub sample_rate_hz : ℕ
  pub center_freq_hz : ℤ
  pub duration_s : ℕ
  pub n_samples : ℕ

module _ {ℓ} {A : Type ℓ} (to_int : String → Option ℤ) (lo_freq_hz : ℤ) where
  abbrev as_download {κ} : {B : Type κ} → (List A → B) → ℕ → List A → Reply (Download B)
  as_download make seconds segment = answered (record {
    body = make segment;
    sample_rate_hz = sample_rate;
    center_freq_hz = lo_freq_hz;
    duration_s = seconds;
    n_samples = length segment;
  })

  unfoldable pub api_iq_capture :
      Option String → (ℕ → Outcome (List A)) → Bool → Reply (Download (List A)) × Bool
  api_iq_capture raw capture =
      locked_capture (parse_seconds to_int raw (some capture_default_seconds) capture_max_seconds)
        capture (as_download (λ segment. segment))

  -- `analyze` stands for the report of the segment (analysis.py), as text.
  pub api_record_analyze :
      (List A → String)
      → Option String
      → (ℕ → Outcome (List A))
      → Bool
      → Reply (Download String) × Bool
  api_record_analyze analyze raw capture =
      locked_capture (parse_seconds to_int raw (some capture_default_seconds) capture_max_seconds)
        capture (as_download analyze)

  -- The segment cut into `n` chunks of the size of one FFT window.
  pub chunks_of : ℕ → List A → List (List A)
  chunks_of ℕ.zero segment = []
  chunks_of (ℕ.suc n) segment =
      take spec_chunk_samples segment ∷ chunks_of n (drop spec_chunk_samples segment)

  -- `verdict` stands for the spectrum of the chunks and its evaluation (see Fcc).
  pub api_fcc_check {κ} :
      {V : Type κ}
      → (ℕ → List (List A) → V)
      → Option String
      → (ℕ → Outcome (List A))
      → Bool
      → Reply V × Bool
  unfolding chunks_of
  api_fcc_check verdict raw capture =
      locked_capture (parse_seconds to_int raw (some fcc_check_default_seconds) capture_max_seconds)
        capture
        λ seconds segment.
          let n_chunks = length segment / spec_chunk_samples in
          if ltb n_chunks 1
          then refused too_short
          else answered (verdict seconds (chunks_of n_chunks segment))

-- The lock among concurrent requests: a request tries it without waiting, and gives it back when its
-- capture returns or raises.
pub record Gate : Type 0 where
  pub locked : Bool
  pub active : List ℕ

pub data Event : Type 0 where
  begins ends : ℕ → Event

pub step : Gate → Event → Gate
step g (begins i) = if g.locked then g else record { locked = true; active = i ∷ g.active }
step g (ends i) =
    if any (λ j. j == i) g.active
    then record { locked = false; active = keep (λ j. not (j == i)) g.active }
    else g

pub run : Gate → List Event → Gate
run g [] = g
run g (e ∷ es) = run (step g e) es

abbrev pub open_gate : Gate
open_gate = record { locked = false; active = [] }
