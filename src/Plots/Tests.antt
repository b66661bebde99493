-- ===== src/Plots/Tests.antt =====
-- Plots of src/stream_web/spectrogram.py on small segments.
use sdr_docker.Base.Int.{negsuc, ℤ, pos}
use sdr_docker.Base.{
  ◌+◌, ◌-◌, ◌/◌, ◌==◌, if◌then◌else◌, ℕ, ◌≡◌, Bool, true, none, some, List, [], ◌∷◌, map, replicate,
  ltb, arith, refl, inl, drop, take,
}
use sdr_docker.Base.Floats.{milli_floats}
use sdr_docker.Decoder.{Protocol}
use sdr_docker.Plots.Overlay.{channel_at, hop_segments, Tiles, hop_segments-Tiles, Hopping}
use sdr_docker.Plots.Zoom.{CanMeasureAll, zoom_edges, whole_view}
use sdr_docker.Plots.Zoom.Picture.{ZoomRoutines, ZoomPicture, draw_symbol_zoom}
use sdr_docker.Plots.Zoom.Picture.Drawn.{IsZoom, draw_symbol_zoom-IsZoom}
use sdr_docker.Timing.Stats.{Statistics}
use sdr_docker.Processor.History.{Detection}
use sdr_docker.Fcc.Spectrum.{Chunk}
use sdr_docker.Plots.Boxes.{IsInBand, y_center}
use sdr_docker.Plots.SpecImage.{MatrixRoutines, SpecImage, render_spec_image}
use sdr_docker.Plots.SpecImage.Whole.{IsLevelled, IsWhole, render_spec_image-IsWhole}
use sdr_docker.Plots.TdPlot.{TdInfo, TdRoutines}

abbrev channels : ℕ → ℕ
channels k = channel_at (3 ∷ 7 ∷ 1 ∷ []) 1 4 k

hop_segments-Tiles_example :
    Tiles milli_floats channels
      (pos 400_000)
      0
      10
      (hop_segments milli_floats channels (pos 400_000) 10 7 (pos 12_000_000))
hop_segments-Tiles_example =
    hop_segments-Tiles milli_floats channels (pos 400_000) 10 7 (pos 12_000_000)

abbrev flat : ℕ → List ℕ → List ℤ
flat window xs = map pos xs

abbrev timed : Protocol
timed = record {
  preamble_len = 4;
  num_header_syms = 2;
  samples_per_symbol = 3;
  slot = λ v. some 4;
  slot_v1 = 4;
}

abbrev td_info : TdInfo milli_floats
td_info = record {
  start_sample = some 2;
  phy_ver = none;
  num_pdu_symbols = none;
  f0_hz = none;
  decoded = true;
  reason = none;
  seq_num = some 7;
  ntw_id = some (pos 12);
  chipset = some "esp32";
  energy_db = none;
  f63_snr = none;
  measured_synth_res = none;
  header_syms = none;
  header_n_corr = none;
  channel_num = none;
  hop_seq_idx = none;
  pdu_syms_head = none;
}

abbrev first_value : List ℤ → ℤ
first_value [] = pos 0
first_value (x ∷ xs) = x

abbrev plain : Statistics milli_floats
plain = record { mean = first_value; std = first_value; round4 = λ x. x }

abbrev routines : TdRoutines milli_floats plain ℕ
routines = record {
  psd = λ xs. map pos xs;
  fft_freq = λ n k. pos k;
  arg_max = λ xs. 0;
  runs = λ n nperseg noverlap. true;
}

abbrev hopping : Hopping milli_floats
hopping = record {
  hopping_seqs = [];
  num_sym_per_hop = 4;
  channel_spacing = pos 25_750_000;
  synth_res = pos 400_000;
}

abbrev loud : List ℕ → List Bool
loud xs = map (λ x. ltb 0 x) xs

abbrev long_symbols : Protocol
long_symbols = record {
  preamble_len = 3;
  num_header_syms = 2;
  samples_per_symbol = 17;
  slot = λ v. some 20;
  slot_v1 = 20;
}

abbrev zoom_routines : ZoomRoutines long_symbols milli_floats ℕ
zoom_routines = record {
  mean = first_value;
  std = first_value;
  least = first_value;
  greatest = first_value;
  peak_dbfs = λ xs. pos 0;
  runs = λ n nperseg noverlap. true;
}

-- What the view of the last two symbols shows.
abbrev zoomed : List ℕ
zoomed = drop 14 (take 70 (replicate 80 1))

-- Half a gap is one sample: every span has fewer than 64.
small_spans :
    (zoom_seg : List ℕ) (edges : List (ℕ × ℕ))
    → CanMeasureAll long_symbols milli_floats flat zoom_seg edges
small_spans zoom_seg [] = tt
small_spans zoom_seg ((s, e) ∷ edges) =
    ((inl (omega arith), inl (omega arith)), small_spans zoom_seg edges)

draw_symbol_zoom-IsZoom_example :
    (pic : ZoomPicture long_symbols milli_floats) × (draw_symbol_zoom long_symbols milli_floats
        zoom_routines flat loud
        (replicate 80 1)
        (some td_info)
        2
      ≡ some (some pic))
    × IsZoom long_symbols milli_floats 2 pic
draw_symbol_zoom-IsZoom_example =
    draw_symbol_zoom-IsZoom long_symbols milli_floats zoom_routines flat loud (replicate 80 1)
      td_info 2 2 refl (omega arith) (omega arith) (omega arith) (omega arith) (omega arith)
      (λ n w o h k. refl)
      (small_spans zoomed
        (zoom_edges long_symbols (loud zoomed) 2 (whole_view long_symbols milli_floats flat 2 2 1)))

-- Python's `int`, of thousandths.
abbrev int : ℤ → ℤ
int (pos n) = pos (n / 1000)
int (negsuc n) = if (n + 1) / 1000 == 0 then pos 0 else negsuc ((n + 1) / 1000 - 1)

abbrev detection : Detection milli_floats
detection = record {
  offset_from_right = pos 1100;
  freq_hz = negsuc 120_000_000;
  phy_ver = negsuc 0;
  signal_duration_s = pos 300;
  chipset = "esp32";
}

detection-IsInBand : IsInBand milli_floats int detection
unfolding y_center
detection-IsInBand = (omega arith, omega arith)

abbrev matrix_routines : MatrixRoutines milli_floats
matrix_routines = record {
  least = λ bins cols. negsuc 119_999;
  percentile_low = λ bins cols. negsuc 119_999;
  percentile_high = λ bins cols. negsuc 29_999;
}

-- Two columns of 32 bins.
abbrev chunk : Chunk milli_floats
chunk = record {
  n_bins = 32;
  columns = (λ i. negsuc 99_999) ∷ (λ i. if i == 3 then negsuc 29_999 else negsuc 99_999) ∷ [];
}

milli-IsLevelled : IsLevelled milli_floats
milli-IsLevelled = record {
  lowest = omega arith;
  highest = omega arith;
  between = λ x low high. ground arith;
}

render_spec_image-IsWhole_example :
    (image : SpecImage milli_floats) × (render_spec_image milli_floats matrix_routines int
        (chunk ∷ chunk ∷ [])
        (detection ∷ [])
      ≡ some image)
    × IsWhole milli_floats matrix_routines int (chunk ∷ chunk ∷ []) image
render_spec_image-IsWhole_example =
    render_spec_image-IsWhole milli_floats matrix_routines int chunk (chunk ∷ []) (detection ∷ [])
      milli-IsLevelled (detection-IsInBand, tt)
