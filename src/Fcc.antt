-- ===== src/Fcc.antt =====
-- The FCC compliance check: `evaluate_fcc_compliance` and `_interpolate_dc` of
-- src/stream_web/spectrogram.py. A trace is its length and its value at each bin; the median, the
-- arg max and scipy's `find_peaks` are parameters, and so are the configured limits.
mod Tests
pub mod Band
pub mod Scores
pub mod Spectrum
pub mod Overlay
pub mod Agreement
use sdr_docker.Base.{
  ℕ, zero, suc, ◌+◌, ◌-◌, ◌*◌, ◌/◌, max, Bool, true, false, ◌&&◌, ◌||◌, not, Option, none, some,
  List, [], ◌∷◌, ◌++◌, abs_diff, leb, ltb, ◌==◌, if◌then◌else◌,
}
use sdr_docker.Base.Int.{ℤ, pos}
use sdr_docker.Base.Floats.{FloatOps}

module _ (F : FloatOps) where
  open F use {Float, frac, of_int, plus, minus, times, over, lt, le, truncate}

  -- The configured limits: FCC_OVERLAY_MIN_SNR_DB, CHANNEL_SPACING, SPUR_LIMIT_DBC.
  pub record Limits : Type 0 where
    pub min_snr_db : Float
    pub channel_spacing : Float
    pub spur_limit_dbc : Float

  -- What is asked of `find_peaks`: SPUR_MIN_SNR_DB, SPUR_MIN_SEP_KHZ, SPUR_MIN_PROMINENCE_DB.
  pub record SpurSearch : Type 0 where
    pub spur_min_snr_db : Float
    pub spur_min_sep_khz : Float
    pub spur_min_prominence_db : Float

  -- A spectrum: the average power of each bin in dB, and the width of a bin.
  pub record Trace : Type 0 where
    pub bins : ℕ
    pub avg_db : ℕ → Float
    pub freqs_hz : ℕ → Float
    pub bin_hz : Float

  -- Down from `li` while the trace is above the threshold.
  pub walk_left : (ℕ → Float) → Float → ℕ → ℕ
  walk_left avg thr zero = zero
  walk_left avg thr (suc li) =
      let further = walk_left avg thr li in if lt thr (avg (suc li)) then further else suc li

  -- Up from `ri`, at most `left` bins, which are those before the last.
  pub walk_right : (ℕ → Float) → Float → ℕ → ℕ → ℕ
  walk_right avg thr zero ri = ri
  walk_right avg thr (suc left) ri =
      let further = walk_right avg thr left (suc ri) in if lt thr (avg ri) then further else ri

  pub record Spur : Type 0 where
    pub idx : ℕ
    pub freq_hz : Float
    pub power_db : Float
    pub dbc : Float
    pub passes : Bool

  -- The accumulators of the loop over the candidates.
  pub record Spurs : Type 0 where
    pub spurs : List Spur
    pub n_spur_fail : ℕ
    pub worst_dbc : Option Float

  abbrev pub worse : Float → Option Float → Option Float
  worse d none = some d
  worse d (some w) = if lt w d then some d else some w

  module _ (lim : Limits) (t : Trace) where
    -- The loop's body, for the carrier at `peak_idx` and its guard.
    pub score : (peak_idx guard p : ℕ) → Spurs → Spurs
    score peak_idx guard p s =
        let dbc = minus (t.avg_db p) (t.avg_db peak_idx) in
        let spur_ok = le dbc (minus (of_int (pos 0)) lim.spur_limit_dbc) in
        if leb (abs_diff p peak_idx) guard then s else record {
          spurs =
              s.spurs
              ++ (record {
                idx = p;
                freq_hz = t.freqs_hz p;
                power_db = t.avg_db p;
                dbc = dbc;
                passes = spur_ok;
              }
                  ∷ []);
          n_spur_fail = if spur_ok then s.n_spur_fail else suc s.n_spur_fail;
          worst_dbc = worse dbc s.worst_dbc;
        }

    pub score_all : (peak_idx guard : ℕ) → List ℕ → Spurs → Spurs
    score_all peak_idx guard [] s = s
    score_all peak_idx guard (p ∷ ps) s = score_all peak_idx guard ps (score peak_idx guard p s)

  abbrev pub no_spurs : Spurs
  no_spurs = record { spurs = []; n_spur_fail = 0; worst_dbc = none }

  pub record Verdict : Type 0 where
    pub carrier_idx : ℕ
    pub carrier_freq_hz : Float
    pub carrier_power_db : Float
    pub noise_floor_db : Float
    pub snr_db : Float
    pub bw_threshold_db : Float
    pub bw_limit_hz : Float
    pub channel_spacing_hz : Float
    pub spur_limit_dbc : Float
    pub spur_limit_db : Float
    pub bw_lo_idx : ℕ
    pub bw_hi_idx : ℕ
    pub bw_20db_hz : Float
    pub found : Spurs
    pub spacing_ok : Bool
    pub spurs_ok : Bool
    pub overall_ok : Bool

  abbrev pub threshold : Trace → ℕ → Float
  threshold t peak_idx = minus (t.avg_db peak_idx) (frac 20 1)

  abbrev pub guard_of : Limits → Trace → (peak_idx li ri : ℕ) → ℕ
  guard_of lim t peak_idx li ri =
      max (max (peak_idx - li) (ri - peak_idx))
        (truncate (over (over lim.channel_spacing (frac 2 1)) t.bin_hz))
      + 3

  -- What is returned when there is a tone; `cand` are the peaks that `find_peaks` gives.
  pub verdict : Limits → Trace → (noise_db : Float) → (peak_idx : ℕ) → (cand : List ℕ) → Verdict
  verdict lim t noise_db peak_idx cand =
      let thr = threshold t peak_idx in
      let li = walk_left t.avg_db thr peak_idx in
      let ri = walk_right t.avg_db thr (t.bins - 1 - peak_idx) peak_idx in
      let bw_hz = times (of_int (pos (ri - li))) t.bin_hz in
      let spacing_ok = le (times (over (frac 2 1) (frac 3 1)) bw_hz) lim.channel_spacing in
      let found = score_all lim t peak_idx (guard_of lim t peak_idx li ri) cand no_spurs in
      let spurs_ok = found.n_spur_fail == 0 in
      record {
        carrier_idx = peak_idx;
        carrier_freq_hz = t.freqs_hz peak_idx;
        carrier_power_db = t.avg_db peak_idx;
        noise_floor_db = noise_db;
        snr_db = minus (t.avg_db peak_idx) noise_db;
        bw_threshold_db = thr;
        bw_limit_hz = times (frac 15 10) lim.channel_spacing;
        channel_spacing_hz = lim.channel_spacing;
        spur_limit_dbc = lim.spur_limit_dbc;
        spur_limit_db = minus (t.avg_db peak_idx) lim.spur_limit_dbc;
        bw_lo_idx = li;
        bw_hi_idx = ri;
        bw_20db_hz = bw_hz;
        found = found;
        spacing_ok = spacing_ok;
        spurs_ok = spurs_ok;
        overall_ok = spacing_ok && spurs_ok;
      }

  pub evaluate_fcc_compliance :
      Limits → Trace → (noise_db : Float) → (peak_idx : ℕ) → (cand : List ℕ) → Option Verdict
  unfolding verdict
  evaluate_fcc_compliance lim t noise_db peak_idx cand =
      if lt (minus (t.avg_db peak_idx) noise_db) lim.min_snr_db
      then none
      else some (verdict lim t noise_db peak_idx cand)

  -- `_interpolate_dc` on one row of values: bins around the centre are blended from the two just
  -- outside.
  pub interpolate_dc : (half_bins bins : ℕ) → (ℕ → Float) → ℕ → Float
  interpolate_dc half_bins bins spec idx =
      let dc = bins / 2 in
      let lo = dc - half_bins in
      let hi = dc + half_bins in
      let w = over (of_int (pos (idx - lo + 1))) (of_int (pos (hi + 1 - (lo - 1)))) in
      if half_bins == 0 || ltb bins 3
      then spec idx
      else if ltb dc (half_bins + 1) || leb bins (hi + 1)
      then spec idx
      else if leb lo idx && leb idx hi
      then plus (times (minus (frac 1 1) w) (spec (lo - 1))) (times w (spec (hi + 1)))
      else spec idx
