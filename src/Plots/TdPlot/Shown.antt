-- ===== src/Plots/TdPlot/Shown.antt =====
-- `render_td_plot` of src/stream_web/spectrogram.py raises nothing on the segments that the processor
-- gives it, and draws what it counts.
use sdr_docker.Base.{
  ℕ, ◌-◌, ◌<◌, ◌≡◌, Bool, Option, none, some, List, [], ◌∷◌, length, map, All, IsThere, ◌≢◌, ◌⊎◌,
}
use sdr_docker.Base.Int.{ℤ, pos}
use sdr_docker.Base.Floats.{FloatOps}
use sdr_docker.Config.{sample_rate}
use sdr_docker.Decoder.{Protocol, total_symbols}
use sdr_docker.Timing.{correct_symbol_edges}
use sdr_docker.Timing.Stats.{Statistics, TimingStats, edges_to_timing_stats}
use sdr_docker.Plots.Overlay.{Hopping}
use sdr_docker.Plots.Envelope.{envelope_segments}
use sdr_docker.Plots.TdPlot.{TdInfo, TdPicture, TdRoutines}
use sdr_docker.Plots.TdPlot.Counts.{IsInside, marked, placed}

module _ (F : FloatOps) where
  open F use {Float}

  module _ {ℓ} {A : Type ℓ} (st : Statistics F) (np : TdRoutines F st A) where
    module _ (p : Protocol) (c : Hopping F) (above envelope_above : List A → List Bool) where
      -- The version, 1 where it is missing, has a slot.
      abbrev pub IsKnown : Option ℤ → Type 0
      IsKnown none = IsThere (p.slot (pos 1))
      IsKnown (some v) = IsThere (p.slot v)

      -- The segments with a slot that is known.
      abbrev at_slot :
          (bits envelope : List Bool) (start : ℕ) (pdu : Option ℕ) (slot : ℕ) → List (ℕ × ℕ)
      at_slot bits envelope start pdu slot =
          elim (correct_symbol_edges
            (record { n = length bits; slot = slot; sym_len = p.samples_per_symbol }) bits start 0
            (total_symbols p pdu) 0) [ [] ↦ envelope_segments envelope | e ∷ es ↦ e ∷ es ]

      -- Where the start of the packet is known, a version is wanted, and more samples than the filter
      -- of `build_crossings` pads.
      abbrev pub HasVersion : Option (TdInfo F) → ℕ → Type 0
      HasVersion none n = Unit
      HasVersion (some d) n = (d.start_sample ≡ none) ⊎ (IsKnown d.phy_ver × (24 < n))

      -- What is drawn of a segment: symbols that lie in it, one gap between any two neighbours, and
      -- beside it the statistics that timing.py gives of these symbols.
      pub record IsShown (iq : List A) (pic : TdPicture F st) (stats : TimingStats F) : Type 0 where
        pub segs : List (ℕ × ℕ)
        pub inside : All (IsInside (length iq)) segs
        pub symbols : map (marked F) pic.symbols ≡ map (placed F) segs
        pub between : length pic.gaps ≡ length pic.symbols - 1
        pub timing : stats ≡ edges_to_timing_stats F st sample_rate segs
        pub counts_symbols : stats.sym_count ≡ length pic.symbols
        pub counts_gaps : stats.gap_count ≡ length pic.gaps

      -- The count of payload symbols is a number where it is there.
      abbrev pub HasCount : Option (TdInfo F) → Type 0
      HasCount none = Unit
      HasCount (some d) = d.num_pdu_symbols ≢ some none
