-- ===== src/Plots/Zoom/Picture.antt =====
-- What the picture of `render_symbol_zoom_plot` in src/stream_web/spectrogram.py says: a mark on each
-- symbol, the box of rise and fall times, and the title. numpy's statistics, the level of the strongest
-- sample, and whether scipy's `spectrogram` takes its arguments are parameters.
pub mod Drawn
use Prim.Native.String.{String}
use sdr_docker.Base.{
  ℕ, ◌*◌, ◌/◌, min, max, Bool, Option, none, some, List, [], ◌∷◌, ◌++◌, length, drop, take, map,
  ltb, if◌then◌else◌, ◌>>=◌,
}
use sdr_docker.Base.Int.{ℤ, pos, negsuc, sub_ℕ}
use sdr_docker.Base.Floats.{FloatOps}
use sdr_docker.Config.{sample_rate}
use sdr_docker.Decoder.{Protocol}
use sdr_docker.Timing.Stats.{filtfilt_takes}
use sdr_docker.Plots.Zoom.{ZoomView, zoom_view, zoom_edges, SymInfo, sym_infos}
use sdr_docker.Plots.TdPlot.{TdInfo, not_empty}

-- The window of the spectrogram and its overlap, for a view of `n` samples.
pub nperseg_sg : ℕ → ℕ
nperseg_sg n = if ltb 128 n then min 128 (n / 4) else max 16 (n / 2)

pub noverlap_sg : ℕ → ℕ
noverlap_sg n = nperseg_sg n * 3 / 4

module _ (p : Protocol) (F : FloatOps) where
  open F use {Float, frac, of_int, plus, minus, times, over, lt}

  -- The body of a symbol, where its number stands, and the times at its edges.
  pub record ZoomMark : Type 0 where
    pub preamble_idx : ℕ
    pub s_us : Float
    pub e_us : Float
    pub text_us : Float
    pub rise_us : Option Float
    pub fall_us : Option Float

  abbrev us_of : ℕ → Float
  us_of k = times (over (of_int (pos k)) (of_int (pos sample_rate))) (frac 1_000_000 1)

  pub zoom_mark : SymInfo p F → ZoomMark
  zoom_mark i = record {
    preamble_idx = i.preamble_idx;
    s_us = us_of i.s;
    e_us = us_of i.e;
    text_us = over (plus (us_of i.s) (us_of i.e)) (frac 2 1);
    rise_us = i.rise_us;
    fall_us = i.fall_us;
  }

  pub data ZoomLine : Type 0 where
    rise_line fall_line : (mean std least greatest : Float) → ZoomLine

  abbrev pub put_known : Option Float → List Float → List Float
  put_known none later = later
  put_known (some x) later = x ∷ later

  -- The values that are there.
  pub known : (SymInfo p F → Option Float) → List (SymInfo p F) → List Float
  known value [] = []
  known value (i ∷ is) = put_known (value i) (known value is)

  -- `Preamble symbols first–last (last count)`, and the chipset.
  pub record ZoomTitle : Type 0 where
    pub first : ℕ
    pub last : ℤ
    pub count : ℕ
    pub chipset : Option String

  pub record ZoomPicture : Type 0 where
    pub marks : List ZoomMark
    pub lines : List ZoomLine
    pub title : ZoomTitle
    pub y_floor : Float
    pub y_mid : Float

  -- `max(-80.0, sig_peak - 40.0)`
  pub y_floor_of : Float → Float
  y_floor_of sig_peak =
      let below = minus sig_peak (frac 40 1) in
      let least = of_int (negsuc 79) in if lt least below then below else least

  pub record ZoomRoutines {ℓ} (A : Type ℓ) : Type ℓ where
    pub mean : List Float → Float
    pub std : List Float → Float
    pub least : List Float → Float
    pub greatest : List Float → Float
    pub peak_dbfs : List A → Float
    -- `runs n nperseg noverlap` is that `spectrogram` does not raise
    pub runs : (n nperseg noverlap : ℕ) → Bool

  module _ {ℓ} {A : Type ℓ} (z : ZoomRoutines A) where
    abbrev pub line_of : ((mean std least greatest : Float) → ZoomLine) → List Float → List ZoomLine
    line_of line [] = []
    line_of line (x ∷ xs) =
        line (z.mean (x ∷ xs)) (z.std (x ∷ xs)) (z.least (x ∷ xs)) (z.greatest (x ∷ xs)) ∷ []

    pub stats_lines : List (SymInfo p F) → List ZoomLine
    unfolding known
    stats_lines is =
        line_of rise_line (known (λ i. i.rise_us) is)
        ++ line_of fall_line (known (λ i. i.fall_us) is)

    pub zoom_picture : List A → ZoomView → List (SymInfo p F) → Option String → ZoomPicture
    unfolding zoom_mark stats_lines y_floor_of
    zoom_picture zoom_seg v is chipset =
        let sig_peak = z.peak_dbfs zoom_seg in
        let y_floor = y_floor_of sig_peak in
        record {
          marks = map zoom_mark is;
          lines = stats_lines is;
          title = record {
            first = v.sym_offset;
            last = sub_ℕ p.preamble_len 1;
            count = v.n_sym;
            chipset = chipset;
          };
          y_floor = y_floor;
          y_mid = over (plus sig_peak y_floor) (frac 2 1);
        }

    module _ (smooth : ℕ → List A → List Float) (above : List A → List Bool) where
      -- The picture of a view, or an exception: of `spectrogram`, or of a filter, on the view or on
      -- the span around an edge.
      pub draw_view : List A → ℕ → Option String → Option ZoomView → Option (Option ZoomPicture)
      unfolding nperseg_sg noverlap_sg zoom_picture filtfilt_takes
      draw_view iq_segment start_sample chipset none = some none
      draw_view iq_segment start_sample chipset (some v) =
          let zoom_seg = drop v.view_start (take v.view_end iq_segment) in
          let n = length zoom_seg in
          let edges = zoom_edges p (above zoom_seg) start_sample v in
          if filtfilt_takes 8 n
          then (sym_infos p F smooth zoom_seg v.sym_offset edges >>= λ is.
              (if z.runs n (nperseg_sg n) (noverlap_sg n)
                then some (some (zoom_picture zoom_seg v is chipset))
                else none))
          else none

      -- The picture, `some none` where it is empty, `none` where an exception is raised.
      pub draw_symbol_zoom : List A → Option (TdInfo F) → ℕ → Option (Option ZoomPicture)
      unfolding draw_view
      draw_symbol_zoom iq_segment none n_symbols = some none
      draw_symbol_zoom iq_segment (some d) n_symbols = elim d.start_sample [
        | none ↦ some none
        | some start ↦
            draw_view iq_segment start (not_empty F d.chipset)
              (zoom_view p (length iq_segment) (some start) n_symbols)
      ]
