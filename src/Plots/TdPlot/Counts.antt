-- ===== src/Plots/TdPlot/Counts.antt =====
-- The counts and places of the marks of `render_td_plot` of src/stream_web/spectrogram.py, and its
-- window and segments.
use sdr_docker.Base.{
  ℕ, suc, ◌+◌, ◌-◌, ◌≤◌, ◌<◌, ◌≡◌, refl, max, List, [], ◌∷◌, length, map, All, arith,
}
use sdr_docker.Base.Int.{pos}
use sdr_docker.Base.Floats.{FloatOps}
use sdr_docker.Config.{sample_rate, td_min_symbol}
use sdr_docker.Timing.Stats.{Statistics, edges_to_timing_stats, symbol_samples, gap_samples, to_ms}
use sdr_docker.Plots.Envelope.{InTurn}
use sdr_docker.Plots.TdPlot.{
  nperseg_td, noverlap_td, SymbolMark, symbol_marks, gap_marks, ms_of, sym_durations, gap_durations,
  td_stats,
}

-- The window that is asked of scipy fits a segment of at least 16 samples, and the overlap fits it.
pub window_fits :
    (n : ℕ) → 16 ≤ n → (nperseg_td n ≤ n) × (noverlap_td n < nperseg_td n) × (0 < nperseg_td n)
unfolding nperseg_td noverlap_td
window_fits n h = (ground arith, ground arith, ground arith)

-- A segment of the plot: samples of it, one at least.
abbrev pub IsInside : ℕ → ℕ × ℕ → Type 0
IsInside n seg = (seg.0 < seg.1) × (seg.1 ≤ n)

-- Segments as long as a symbol, in an envelope that is as long as the samples or else shorter than a
-- symbol.
pub InTurn-IsInside :
    (gap lo hi n : ℕ) (segs : List (ℕ × ℕ))
    → hi ≤ max n 234
    → InTurn gap td_min_symbol lo hi segs
    → All (IsInside n) segs
InTurn-IsInside gap lo hi n [] fits h = tt
InTurn-IsInside gap lo hi n ((s, e) ∷ segs) fits (h1, h2, h3, h) =
    ((omega arith, omega arith), InTurn-IsInside gap (e + gap) hi n segs fits h)

module _ (F : FloatOps) where
  open F use {Float}

  sym_durations-to_ms :
      (st : Statistics F) (segs : List (ℕ × ℕ))
      → sym_durations F segs ≡ to_ms F st sample_rate (symbol_samples segs)
  unfolding sym_durations to_ms symbol_samples
  sym_durations-to_ms st [] = refl
  sym_durations-to_ms st ((s, e) ∷ segs) = rw (sym_durations-to_ms st segs)

  gap_durations-to_ms :
      (st : Statistics F) (segs : List (ℕ × ℕ))
      → gap_durations F segs ≡ to_ms F st sample_rate (gap_samples segs)
  unfolding gap_durations to_ms gap_samples
  gap_durations-to_ms st [] = refl
  gap_durations-to_ms st (a ∷ []) = refl
  gap_durations-to_ms st (a ∷ b ∷ segs) = rw (gap_durations-to_ms st (b ∷ segs))

  -- The plot's own statistics are those of timing.py.
  pub td_stats_lem :
      (st : Statistics F) (segs : List (ℕ × ℕ))
      → td_stats F st segs ≡ edges_to_timing_stats F st sample_rate segs
  unfolding td_stats edges_to_timing_stats
  td_stats_lem st segs = rw (sym_durations-to_ms st segs, gap_durations-to_ms st segs)

  pub length-sym_durations : (segs : List (ℕ × ℕ)) → length (sym_durations F segs) ≡ length segs
  unfolding sym_durations
  length-sym_durations [] = refl
  length-sym_durations (seg ∷ segs) = omega (arith, length-sym_durations segs)

  pub length-gap_durations :
      (segs : List (ℕ × ℕ)) → length (gap_durations F segs) ≡ length (gap_marks F segs)
  unfolding gap_durations gap_marks
  length-gap_durations [] = refl
  length-gap_durations (a ∷ []) = refl
  length-gap_durations (a ∷ b ∷ segs) = omega (arith, length-gap_durations (b ∷ segs))

  pub length-gap_marks : (segs : List (ℕ × ℕ)) → length (gap_marks F segs) ≡ length segs - 1
  unfolding gap_marks
  length-gap_marks [] = refl
  length-gap_marks (a ∷ []) = refl
  length-gap_marks (a ∷ b ∷ segs) = omega (arith, length-gap_marks (b ∷ segs))

  -- Where a symbol is marked, in milliseconds.
  abbrev pub marked : SymbolMark F → Float × Float
  marked m = (m.t0_ms, m.t1_ms)

  abbrev pub placed : ℕ × ℕ → Float × Float
  placed seg = (ms_of F (pos seg.0), ms_of F (pos seg.1))

  pub symbol_marks-placed :
      (f0 : Float) (i : ℕ) (segs : List (ℕ × ℕ)) (freqs : List Float)
      → length freqs ≡ length segs
      → map marked (symbol_marks F f0 i segs freqs) ≡ map placed segs
  unfolding symbol_marks
  symbol_marks-placed f0 i [] freqs h = refl
  symbol_marks-placed f0 i (seg ∷ segs) [] h = absurd (omega arith)
  symbol_marks-placed f0 i ((s, e) ∷ segs) (freq ∷ freqs) h =
      rw (symbol_marks-placed f0 (suc i) segs freqs (omega arith))

  pub length-symbol_marks :
      (f0 : Float) (i : ℕ) (segs : List (ℕ × ℕ)) (freqs : List Float)
      → length freqs ≡ length segs
      → length (symbol_marks F f0 i segs freqs) ≡ length segs
  unfolding symbol_marks
  length-symbol_marks f0 i [] freqs h = refl
  length-symbol_marks f0 i (seg ∷ segs) [] h = absurd (omega arith)
  length-symbol_marks f0 i ((s, e) ∷ segs) (freq ∷ freqs) h =
      omega (arith, length-symbol_marks f0 (suc i) segs freqs (omega arith))
