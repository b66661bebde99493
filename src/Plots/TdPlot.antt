-- ===== src/Plots/TdPlot.antt =====
-- `render_td_plot` of src/stream_web/spectrogram.py: what its plot says, and the statistics that it
-- returns. numpy's spectrum of a symbol and its arg max, and whether scipy's `spectrogram` takes its
-- arguments, are parameters; the thresholded magnitude and envelope are as in Zoom and Envelope.
pub mod Counts
pub mod Shown
use Prim.Native.String.{String}
use text.Mathlib.Text.{◌==◌ as str_eq}
use sdr_docker.Base.{
  ℕ, zero, suc, ◌+◌, ◌-◌, ◌*◌, ◌/◌, ◌==◌, min, max, Bool, true, false, Option, none, some, List, [],
  ◌∷◌, ◌++◌, length, drop, take, replicate, ltb, if◌then◌else◌, ◌>>=◌,
}
use sdr_docker.Base.Int.{ℤ, pos, sub_ℕ}
use sdr_docker.Base.Floats.{FloatOps}
use sdr_docker.Config.{sample_rate}
use sdr_docker.Decoder.{Protocol, is_text}
use sdr_docker.Timing.Stats.{Statistics, TimingStats, of_values}
use sdr_docker.Plots.Overlay.{Hopping, OverlayInfo, Segment, draw_decoder_overlay}
use sdr_docker.Plots.Zoom.{td_segments}

-- The window of the spectrogram and its overlap, for a segment of `n` samples.
pub nperseg_td : ℕ → ℕ
nperseg_td n = if ltb 256 n then min 256 (n / 4) else max 16 (n / 2)

pub noverlap_td : ℕ → ℕ
noverlap_td n = nperseg_td n * 3 / 4

module _ (F : FloatOps) where
  open F use {Float, frac, of_int, plus, minus, times, over, truncate}

  -- The keys of the decode information that the plot reads by `get`.
  pub record TdInfo : Type 0 where
    pub start_sample : Option ℕ
    pub phy_ver : Option ℤ
    -- the inner `none` is the value `None`
    pub num_pdu_symbols : Option (Option ℕ)
    pub f0_hz : Option Float
    pub decoded : Bool
    pub reason : Option String
    pub seq_num : Option ℕ
    pub ntw_id : Option ℤ
    pub chipset : Option String
    pub energy_db : Option Float
    pub f63_snr : Option Float
    pub measured_synth_res : Option Float
    pub header_syms : Option (List ℕ)
    pub header_n_corr : Option ℕ
    pub channel_num : Option ℕ
    pub hop_seq_idx : Option ℕ
    pub pdu_syms_head : Option (List ℕ)

  -- `get`: `None` where the key is missing.
  abbrev pub value_of : Option (Option ℕ) → Option ℕ
  value_of none = none
  value_of (some v) = v

  -- The lines of the box at the top left. A missing value is printed as a question mark.
  pub data InfoLine : Type 0 where
    decoded_ok : InfoLine
    decode_failed : Option String → InfoLine
    seq_line : ℕ → InfoLine
    id_line : ℤ → InfoLine
    chipset_line : String → InfoLine
    energy_line f0_line : Float → InfoLine
    snr_line : Float → (synth_res : Option Float) → InfoLine
    header_syms_line pdu_line : List ℕ → InfoLine
    header_line : (n_corr : ℕ) → (channel hop pdu_len : Option ℕ) → InfoLine

  abbrev if_there {ℓ} : {A : Type ℓ} → Option A → (A → InfoLine) → List InfoLine
  if_there none line = []
  if_there (some a) line = line a ∷ []

  abbrev pub not_empty : Option String → Option String
  not_empty none = none
  not_empty (some t) = if str_eq t "" then none else some t

  abbrev first_lines : TdInfo → List InfoLine
  first_lines d =
      if d.decoded
      then decoded_ok ∷ (if_there d.seq_num seq_line ++ if_there d.ntw_id id_line)
      else decode_failed d.reason ∷ []

  pub info_lines : TdInfo → List InfoLine
  info_lines d =
      first_lines d
      ++ (if_there (not_empty d.chipset) chipset_line
          ++ (if_there d.energy_db energy_line
              ++ (if_there d.f63_snr (λ snr. snr_line snr d.measured_synth_res)
                  ++ (if_there d.f0_hz f0_line
                      ++ (if_there d.header_syms header_syms_line
                          ++ (if_there d.header_n_corr (λ n.
                                header_line n d.channel_num d.hop_seq_idx
                                  (value_of d.num_pdu_symbols))
                              ++ (if is_text d.reason "pdu_fail"
                                  then if_there d.pdu_syms_head pdu_line
                                  else [])))))))

  -- The text on a symbol: the first is the tone F63 of the preamble, the second F0, and each other
  -- is given by its distance from F0.
  pub data Label : Type 0 where
    f63_label f0_label offset_label : Float → Label

  pub label_of : (f0 : Float) → (i : ℕ) → (freq : Float) → Label
  label_of f0 zero freq = f63_label freq
  label_of f0 (suc zero) freq = f0_label f0
  label_of f0 (suc (suc i)) freq = offset_label (minus freq f0)

  pub record SymbolMark : Type 0 where
    pub t0_ms : Float
    pub t1_ms : Float
    pub label : Label

  -- The position of a sample in the plot.
  abbrev pub ms_of : ℤ → Float
  ms_of k = times (over (of_int k) (of_int (pos sample_rate))) (frac 1000 1)

  pub symbol_marks : (f0 : Float) → ℕ → List (ℕ × ℕ) → List Float → List SymbolMark
  unfolding label_of
  symbol_marks f0 i [] freqs = []
  symbol_marks f0 i (seg ∷ segs) [] = []
  symbol_marks f0 i ((s, e) ∷ segs) (freq ∷ freqs) =
      record { t0_ms = ms_of (pos s); t1_ms = ms_of (pos e); label = label_of f0 i freq }
      ∷ symbol_marks f0 (suc i) segs freqs

  pub gap_marks : List (ℕ × ℕ) → List (Float × Float)
  gap_marks [] = []
  gap_marks (a ∷ []) = []
  gap_marks (a ∷ b ∷ segs) = (ms_of (pos a.1), ms_of (pos b.0)) ∷ gap_marks (b ∷ segs)

  -- `sym_dur_ms` and `gap_dur_ms`.
  pub sym_durations : List (ℕ × ℕ) → List Float
  sym_durations [] = []
  sym_durations ((s, e) ∷ segs) = ms_of (sub_ℕ e s) ∷ sym_durations segs

  pub gap_durations : List (ℕ × ℕ) → List Float
  gap_durations [] = []
  gap_durations (a ∷ []) = []
  gap_durations (a ∷ b ∷ segs) = ms_of (sub_ℕ b.0 a.1) ∷ gap_durations (b ∷ segs)

  -- The lines of the box at the top right.
  pub data StatLine : Type 0 where
    symbols_line gaps_line : (n : ℕ) → (mean std : Float) → StatLine
    drift_line : (drift_ms : Float) → (n_periods : ℕ) → (us_per_period : Float) → StatLine

  -- The start of the last segment.
  pub last_start : ℕ × ℕ → List (ℕ × ℕ) → ℕ
  last_start a [] = a.0
  last_start a (b ∷ segs) = last_start b segs

  module _ (st : Statistics F) where
    open st use {mean, std}

    abbrev stat_line : ((n : ℕ) → (mean std : Float) → StatLine) → List Float → List StatLine
    stat_line line [] = []
    stat_line line (x ∷ xs) = line (length (x ∷ xs)) (mean (x ∷ xs)) (std (x ∷ xs)) ∷ []

    -- The drift against periods of 8.8 ms, of two segments or more.
    pub drift_lines : List (ℕ × ℕ) → List StatLine
    unfolding last_start
    drift_lines [] = []
    drift_lines (a ∷ []) = []
    drift_lines (a ∷ b ∷ segs) =
        let n_periods = length (b ∷ segs) in
        let actual_span = minus (ms_of (pos (last_start b segs))) (ms_of (pos a.0)) in
        let drift_ms = minus actual_span (times (of_int (pos n_periods)) (frac 88 10)) in
        drift_line drift_ms n_periods (times (over drift_ms (of_int (pos n_periods))) (frac 1000 1))
        ∷ []

    pub stat_lines : List (ℕ × ℕ) → List StatLine
    unfolding sym_durations gap_durations drift_lines
    stat_lines segs =
        stat_line symbols_line (sym_durations segs)
        ++ (stat_line gaps_line (gap_durations segs) ++ drift_lines segs)

    -- The statistics that are returned beside the picture.
    pub td_stats : List (ℕ × ℕ) → TimingStats F
    unfolding sym_durations gap_durations
    td_stats segs = record {
      sym_count = length (sym_durations segs);
      sym_mean_ms = of_values F st sample_rate mean (sym_durations segs);
      sym_std_ms = of_values F st sample_rate std (sym_durations segs);
      gap_count = length (gap_durations segs);
      gap_mean_ms = of_values F st sample_rate mean (gap_durations segs);
      gap_std_ms = of_values F st sample_rate std (gap_durations segs);
    }

    pub record TdPicture : Type 0 where
      pub symbols : List SymbolMark
      pub gaps : List (Float × Float)
      pub lines : List StatLine
      pub info : Option (List InfoLine)
      pub overlay : Option (List (Segment F))

    -- `|fft|²` of a symbol's samples and the frequency of a bin of so many; the index of the greatest.
    -- `runs n nperseg noverlap` is that `spectrogram` does not raise.
    pub record TdRoutines {ℓ} (A : Type ℓ) : Type ℓ where
      pub psd : List A → List Float
      pub fft_freq : ℕ → ℕ → Float
      pub arg_max : List Float → ℕ
      pub runs : (n nperseg noverlap : ℕ) → Bool

    module _ {ℓ} {A : Type ℓ} (np : TdRoutines A) where
      -- Nothing is left of the bins around 0, a fiftieth at each end.
      pub blank_dc : List Float → List Float
      blank_dc psd =
          let dc_zone = truncate (times (of_int (pos (length psd))) (frac 2 100)) in
          let kept = take (length psd - dc_zone - dc_zone) (drop dc_zone psd) in
          let zeros = replicate dc_zone (frac 0 1) in
          if ltb 0 dc_zone then zeros ++ (kept ++ zeros) else psd

      -- `np.fft.fft` raises on no samples.
      pub tone_freq : List A → Option Float
      unfolding blank_dc
      tone_freq [] = none
      tone_freq (x ∷ xs) =
          some (np.fft_freq (length (x ∷ xs)) (np.arg_max (blank_dc (np.psd (x ∷ xs)))))

      pub sym_freqs : List A → List (ℕ × ℕ) → Option (List Float)
      unfolding tone_freq
      sym_freqs iq_segment [] = some []
      sym_freqs iq_segment ((s, e) ∷ segs) = tone_freq (drop s (take e iq_segment)) >>= λ freq.
          sym_freqs iq_segment segs >>= λ freqs. some (freq ∷ freqs)

      -- The second symbol's frequency stands for an unknown F0, or else the first's.
      pub reference_f0 : Option Float → List Float → Float
      reference_f0 (some f0) freqs = f0
      reference_f0 none [] = frac 0 1
      reference_f0 none (freq ∷ []) = freq
      reference_f0 none (freq ∷ second ∷ freqs) = second

      module _ (p : Protocol) (c : Hopping F) (above envelope_above : List A → List Bool) where
        pub segments_of : List A → Option TdInfo → Option (List (ℕ × ℕ))
        segments_of iq_segment none =
            td_segments F p (above iq_segment) (envelope_above iq_segment) none none none
        segments_of iq_segment (some d) =
            td_segments F p (above iq_segment) (envelope_above iq_segment) d.start_sample d.phy_ver
              (value_of d.num_pdu_symbols)

        pub overlay_info : TdInfo → OverlayInfo F
        overlay_info d = record {
          f0_hz = d.f0_hz;
          channel_num = d.channel_num;
          hop_seq_idx = d.hop_seq_idx;
          num_pdu_symbols = d.num_pdu_symbols;
        }

        -- The overlay, `some none` where none is drawn, or its exception.
        pub decoder_overlay : Option TdInfo → Option (Option (List (Segment F)))
        unfolding overlay_info
        decoder_overlay none = some none
        decoder_overlay (some d) = elim d.start_sample [
          | none ↦ some none
          | some start ↦ draw_decoder_overlay F p c (overlay_info d)
        ]

        pub picture_of :
            Option TdInfo → Option (List (Segment F)) → List (ℕ × ℕ) → List Float → TdPicture
        unfolding symbol_marks gap_marks stat_lines info_lines reference_f0
        picture_of info drawn segs freqs = record {
          symbols = symbol_marks (reference_f0 (info >>= λ d. d.f0_hz) freqs) 0 segs freqs;
          gaps = gap_marks segs;
          lines = stat_lines segs;
          info = elim info [ none ↦ none | some d ↦ some (info_lines d) ];
          overlay = drawn;
        }

        -- The plot and its statistics, or an exception: an unknown version, a symbol without samples,
        -- a segment without samples or one that a filter or `spectrogram` does not take, or a count of
        -- payload symbols that is `None` where an overlay is drawn.
        pub render_td_plot : List A → Option TdInfo → Option (TdPicture × TimingStats F)
        unfolding segments_of sym_freqs nperseg_td noverlap_td picture_of td_stats decoder_overlay
        render_td_plot [] info = none
        render_td_plot (x ∷ xs) info =
            let n = length (x ∷ xs) in
            segments_of (x ∷ xs) info >>= λ segs. sym_freqs (x ∷ xs) segs >>= λ freqs.
            decoder_overlay info >>= λ drawn.
            if np.runs n (nperseg_td n) (noverlap_td n)
            then some (picture_of info drawn segs freqs, td_stats segs)
            else none
