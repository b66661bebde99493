-- ===== src/Fcc/Overlay.antt =====
-- The spectrum view: `_draw_fcc_tone_overlay` and `render_spectrum_image` of
-- src/stream_web/spectrogram.py. A picture is what it says: numbers, texts as their values, and the
-- two colours of a verdict. matplotlib's own drawing is left out.
use sdr_docker.Base.{
  ℕ, ◌-◌, ◌==◌, Bool, true, false, Option, none, some, List, [], ◌∷◌, length, map, if◌then◌else◌,
  ◌>>=◌,
}
use sdr_docker.Base.Int.{ℤ}
use sdr_docker.Base.Floats.{FloatOps}
use sdr_docker.Config.{spectrum_avg_chunks}
use sdr_docker.Results.{last_of}
use sdr_docker.Fcc.{Limits, SpurSearch, Spur, Spurs, Verdict}
use sdr_docker.Fcc.Spectrum.{Routines, Chunk, bins_of, spectrum_traces, freq_at, trace_of, evaluate}

pub data Colour : Type 0 where
  pass_col fail_col : Colour

pub colour_of : Bool → Colour
colour_of true = pass_col
colour_of false = fail_col

module _ (F : FloatOps) where
  open F use {Float, frac, of_int, plus, minus, over, le}

  -- The rows of the text box under its title.
  pub data Row : Type 0 where
    carrier_row : (mhz power_db : Float) → Row
    bandwidth_row : (khz : Float) → Row
    spacing_row : (passes : Bool) → (limit_khz : Float) → Row
    spurs_row : (found : ℕ) → (worst_dbc : Float) → Row
    no_spurs_row : Row
    within_row : (limit_dbc : Float) → Row
    over_row : (failing : ℕ) → (limit_dbc : Float) → Row

  -- The marker of a spur and its text, 1.5 dB above.
  pub record SpurMark : Type 0 where
    pub at_mhz : Float
    pub power_db : Float
    pub text_db : Float
    pub dbc : Float
    pub colour : Colour

  pub record Overlay : Type 0 where
    pub channel_lo_mhz : Float
    pub channel_hi_mhz : Float
    pub channel_colour : Colour
    pub carrier_mhz : Float
    pub threshold_db : Float
    pub band_lo_mhz : Float
    pub band_hi_mhz : Float
    pub limit_db : Float
    pub limit_dbc : Float
    pub spur_marks : List SpurMark
    pub rows : List Row
    pub box_colour : Colour

  abbrev pub million : Float
  million = frac 1_000_000 1

  -- The last two rows. The format of `worst_dbc` raises on None: `none`.
  unfoldable pub spur_rows : (limit_dbc : Float) → Spurs F → Option (List Row)
  spur_rows limit_dbc found = elim found.spurs [
    | [] ↦ some (no_spurs_row ∷ within_row limit_dbc ∷ [])
    | s ∷ ss ↦ found.worst_dbc >>= λ worst. some (
        spurs_row (length found.spurs) worst
        ∷ (if found.n_spur_fail == 0
            then within_row limit_dbc
            else over_row found.n_spur_fail limit_dbc)
        ∷ [])
  ]

  module _ (freqs_mhz : ℕ → Float) where
    unfoldable pub spur_mark : Spur F → SpurMark
    spur_mark s = record {
      at_mhz = freqs_mhz s.idx;
      power_db = s.power_db;
      text_db = plus s.power_db (frac 15 10);
      dbc = s.dbc;
      colour = colour_of s.passes;
    }

    unfoldable pub draw_fcc_tone_overlay : Verdict F → Option Overlay
    unfolding spur_mark spur_rows colour_of
    draw_fcc_tone_overlay fcc =
        let peak_mhz = freqs_mhz fcc.carrier_idx in
        let half_ch_mhz = over (over fcc.channel_spacing_hz (frac 2 1)) million in
        spur_rows fcc.spur_limit_dbc fcc.found >>= λ later. some (record {
          channel_lo_mhz = minus peak_mhz half_ch_mhz;
          channel_hi_mhz = plus peak_mhz half_ch_mhz;
          channel_colour = colour_of fcc.spacing_ok;
          carrier_mhz = peak_mhz;
          threshold_db = fcc.bw_threshold_db;
          band_lo_mhz = freqs_mhz fcc.bw_lo_idx;
          band_hi_mhz = freqs_mhz fcc.bw_hi_idx;
          limit_db = fcc.spur_limit_db;
          limit_dbc = fcc.spur_limit_dbc;
          spur_marks = map spur_mark fcc.found.spurs;
          rows =
              carrier_row peak_mhz fcc.carrier_power_db
              ∷ bandwidth_row (over fcc.bw_20db_hz (frac 1000 1))
              ∷ spacing_row fcc.spacing_ok (over fcc.channel_spacing_hz (frac 1000 1))
              ∷ later;
          box_colour = colour_of fcc.overall_ok;
        })

  pub record Picture : Type 0 where
    pub peak_trace : ℕ → Float
    pub avg_trace : ℕ → Float
    pub center_mhz : Float
    pub y_lo : Float
    pub y_hi : Float
    pub x_lo : Float
    pub x_hi : Float
    pub overlay : Option Overlay

  -- What the rendering gives: no bytes where there are no chunks, an exception, or a picture.
  pub data Rendering : Type 0 where
    empty raised : Rendering
    picture : Picture → Rendering

  module _ (np : Routines F) (percentile_2 : ℕ → (ℕ → Float) → Float)
      (highest : ℕ → (ℕ → Float) → Float) (lim : Limits F) (search : SpurSearch F) where
    abbrev pub mhz_at : List (Chunk F) → ℤ → ℕ → Float
    mhz_at chunks lo_freq_hz i = over (freq_at F np (bins_of F chunks) lo_freq_hz i) million

    -- The view of the chunks that are averaged.
    unfoldable pub view_of : ℤ → List (Chunk F) → Option Overlay → Picture
    view_of lo_freq_hz chunks overlay =
        let n_bins = bins_of F chunks in
        let (avg, peak) = spectrum_traces F np chunks in
        let y_lo = minus (percentile_2 n_bins avg) (frac 5 1) in
        let y_hi = plus (highest n_bins peak) (frac 5 1) in
        record {
          peak_trace = peak;
          avg_trace = avg;
          center_mhz = over (of_int lo_freq_hz) million;
          y_lo = y_lo;
          y_hi = if le y_hi y_lo then plus y_lo (frac 1 1) else y_hi;
          x_lo = mhz_at chunks lo_freq_hz 0;
          x_hi = mhz_at chunks lo_freq_hz (n_bins - 1);
          overlay = overlay;
        }

    unfoldable pub render_spectrum_image : List (Chunk F) → ℤ → Rendering
    render_spectrum_image [] lo_freq_hz = empty
    render_spectrum_image (c ∷ cs) lo_freq_hz =
        let chunks = last_of spectrum_avg_chunks (c ∷ cs) in
        elim (evaluate F np lim search (trace_of F np chunks lo_freq_hz)) [
          | none ↦ picture (view_of lo_freq_hz chunks none)
          | some fcc ↦ elim (draw_fcc_tone_overlay (mhz_at chunks lo_freq_hz) fcc) [
            | none ↦ raised
            | some o ↦ picture (view_of lo_freq_hz chunks (some o))
          ]
        ]
