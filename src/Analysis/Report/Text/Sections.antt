-- ===== src/Analysis/Report/Text/Sections.antt =====
-- The lines of each section of the text that `build_report` of src/stream_web/analysis.py makes.
use sdr_docker.Base.{
  ◌≡◌, refl, ap₂, ◌∙◌, Option, none, some, List, [], ◌∷◌, ◌++◌, length, map, keep, All, IsThere,
  ◌⊎◌, inl, inr, ◌>>=◌, arith, append-nil,
}
use sdr_docker.Base.Floats.{FloatOps}
use sdr_docker.Analysis.Report.Text.{
  SymbolTiming, PacketTiming, Channels, Hops, SymbolAmplitude, Amplitude, ChipsetInfo, Line,
  calibration_line, spacing_line, blank_line, timing_title, hopping_title, hop_lines, channel_lines,
  validation_line, amplitude_title, measured, overall_drift_line, drift_of, timing_lines, timed,
  timing_section, channel_line, channel_section, amplitude_line, amplitude_section,
  frequency_section,
}
use sdr_docker.Analysis.Report.Text.Kinds.{
  keep-append, keep-map, keep-map_none, is_timing, is_channel, is_amplitude, is_row, is_count, both,
  timing_line, IsMeasured,
}

module _ (F : FloatOps) where
  open F use {Float}

  drift_of-both :
      (r : SymbolTiming F)
      → (r.drift_us ≡ none) ⊎ IsThere r.rate_us_per_sym
      → drift_of F r ≡ some (both F r.drift_us r.rate_us_per_sym)
  drift_of-both r h = ground arith

  timing_lines-map :
      (rs : List (SymbolTiming F))
      → All (λ r. (r.drift_us ≡ none) ⊎ IsThere r.rate_us_per_sym) rs
      → timing_lines F rs ≡ some (map (timing_line F) rs)
  unfolding timing_lines timing_line
  timing_lines-map [] h = refl
  timing_lines-map (r ∷ rs) h = rw (drift_of-both r h.0, timing_lines, timing_lines-map rs h.1) refl

  -- The lines of each kind: timings, channels, amplitudes, packets, and the count.
  pub record Holds (lines ts cs as_ rs ns : List (Line F)) : Type 0 where
    pub timings : keep (is_timing F) lines ≡ ts
    pub channels : keep (is_channel F) lines ≡ cs
    pub amplitudes : keep (is_amplitude F) lines ≡ as_
    pub packets : keep (is_row F) lines ≡ rs
    pub count : keep (is_count F) lines ≡ ns

  pub Holds-append :
      (xs ys ts ts' cs cs' as_ as' rs rs' ns ns' : List (Line F))
      → Holds xs ts cs as_ rs ns
      → Holds ys ts' cs' as' rs' ns'
      → Holds (xs ++ ys) (ts ++ ts') (cs ++ cs') (as_ ++ as') (rs ++ rs') (ns ++ ns')
  Holds-append xs ys ts ts' cs cs' as_ as' rs rs' ns ns' h k = record {
    timings = keep-append (is_timing F) xs ys ∙ ap₂ ◌++◌ h.timings k.timings;
    channels = keep-append (is_channel F) xs ys ∙ ap₂ ◌++◌ h.channels k.channels;
    amplitudes = keep-append (is_amplitude F) xs ys ∙ ap₂ ◌++◌ h.amplitudes k.amplitudes;
    packets = keep-append (is_row F) xs ys ∙ ap₂ ◌++◌ h.packets k.packets;
    count = keep-append (is_count F) xs ys ∙ ap₂ ◌++◌ h.count k.count;
  }

  -- Lines of no such kind before others, or after.
  abbrev pub Quiet : List (Line F) → Type 0
  Quiet lines = Holds lines [] [] [] [] []

  pub Holds-Quiet :
      (xs ys ts cs as_ rs ns : List (Line F))
      → Holds xs ts cs as_ rs ns
      → Quiet ys
      → Holds (xs ++ ys) ts cs as_ rs ns
  Holds-Quiet xs ys ts cs as_ rs ns h k = record {
    timings = keep-append (is_timing F) xs ys ∙ (ap₂ ◌++◌ h.timings k.timings ∙ append-nil ts);
    channels = keep-append (is_channel F) xs ys ∙ (ap₂ ◌++◌ h.channels k.channels ∙ append-nil cs);
    amplitudes =
        keep-append (is_amplitude F) xs ys ∙ (ap₂ ◌++◌ h.amplitudes k.amplitudes ∙ append-nil as_);
    packets = keep-append (is_row F) xs ys ∙ (ap₂ ◌++◌ h.packets k.packets ∙ append-nil rs);
    count = keep-append (is_count F) xs ys ∙ (ap₂ ◌++◌ h.count k.count ∙ append-nil ns);
  }

  timed_total :
      (t : PacketTiming F) (rs : List (SymbolTiming F))
      → (rs ≡ []) ⊎ (IsThere t.total_drift_us × IsThere t.drift_us_per_sym)
      → All (λ r. (r.drift_us ≡ none) ⊎ IsThere r.rate_us_per_sym) rs
      → (lines : List (Line F)) × (timed F t rs ≡ some lines)
        × Holds lines (map (timing_line F) rs) [] [] [] []
  unfolding timing_line
  timed_total t [] overall rates = (
    _,
    refl,
    record { timings = refl; channels = refl; amplitudes = refl; packets = refl; count = refl },
  )
  timed_total t (r ∷ rs) (inl empty) rates = cc
  timed_total t (r ∷ rs) (inr ((total, e), (per, k))) rates =
      let lines = map (timing_line F) (r ∷ rs) in
      let symbols : Holds lines lines [] [] [] [] = record {
        timings = keep-map (is_timing F) (timing_line F) (r ∷ rs) (λ x. refl);
        channels = keep-map_none (is_channel F) (timing_line F) (r ∷ rs) (λ x. refl);
        amplitudes = keep-map_none (is_amplitude F) (timing_line F) (r ∷ rs) (λ x. refl);
        packets = keep-map_none (is_row F) (timing_line F) (r ∷ rs) (λ x. refl);
        count = keep-map_none (is_count F) (timing_line F) (r ∷ rs) (λ x. refl);
      } in
      let last = overall_drift_line total per (length (r ∷ rs)) ∷ [] in
      (
        lines ++ last,
        rw (timing_lines-map (r ∷ rs) rates, ◌>>=◌) (rw (e, k, ◌>>=◌) refl),
        Holds-Quiet lines last lines [] [] [] [] symbols (record {
          timings = refl;
          channels = refl;
          amplitudes = refl;
          packets = refl;
          count = refl;
        }),
      )

  -- The lines of the channels, where the decoder gives some.
  abbrev pub channel_lines_of : Option (Channels F) → List (Line F)
  channel_lines_of none = []
  channel_lines_of (some ch) = map (channel_line F) ch.per_symbol

  pub channel_section-Holds :
      (ch : Option (Channels F)) (hops : Option (Hops F))
      → Holds (channel_section F ch hops) [] (channel_lines_of ch) [] [] []
  unfolding channel_section channel_line
  channel_section-Holds ch hops =
      Holds-append (blank_line ∷ hopping_title ∷ hop_lines F hops) (channel_lines F ch) [] [] []
        (channel_lines_of ch) [] [] [] [] [] [] (hops_quiet hops) (channels_Holds ch)
    where
      hops_quiet : (hops : Option (Hops F)) → Quiet (blank_line ∷ hopping_title ∷ hop_lines F hops)
      hops_quiet none = record {
        timings = refl;
        channels = refl;
        amplitudes = refl;
        packets = refl;
        count = refl;
      }
      hops_quiet (some h) = record {
        timings = refl;
        channels = refl;
        amplitudes = refl;
        packets = refl;
        count = refl;
      }

      channels_Holds :
          (ch : Option (Channels F)) → Holds (channel_lines F ch) [] (channel_lines_of ch) [] [] []
      channels_Holds none = record {
        timings = refl;
        channels = refl;
        amplitudes = refl;
        packets = refl;
        count = refl;
      }
      channels_Holds (some c) =
          let lines = map (channel_line F) c.per_symbol in
          let h : Holds lines [] lines [] [] [] = record {
            timings = keep-map_none (is_timing F) (channel_line F) c.per_symbol (λ x. refl);
            channels = keep-map (is_channel F) (channel_line F) c.per_symbol (λ x. refl);
            amplitudes = keep-map_none (is_amplitude F) (channel_line F) c.per_symbol (λ x. refl);
            packets = keep-map_none (is_row F) (channel_line F) c.per_symbol (λ x. refl);
            count = keep-map_none (is_count F) (channel_line F) c.per_symbol (λ x. refl);
          } in
          Holds-Quiet
            (calibration_line c.f0_hz c.step_hz c.channel_width_hz
              ∷ spacing_line c.spacing_hz c.spacing_source
              ∷ lines)
            (validation_line c.all_valid c.n_in_window (length c.per_symbol) ∷ []) [] lines [] [] []
            (record {
              timings = h.timings;
              channels = h.channels;
              amplitudes = h.amplitudes;
              packets = h.packets;
              count = h.count;
            })
            (record {
              timings = refl;
              channels = refl;
              amplitudes = refl;
              packets = refl;
              count = refl;
            })

  pub amplitude_section-Holds :
      (a : Amplitude F)
      → Holds (amplitude_section F a) [] [] (map (amplitude_line F) a.per_symbol) [] []
  unfolding amplitude_section amplitude_line
  amplitude_section-Holds a = measured_Holds a.per_symbol
    where
      measured_Holds :
          (rs : List (SymbolAmplitude F))
          → Holds
              (blank_line ∷ amplitude_title ∷ measured F a rs)
              []
              []
              (map (amplitude_line F) rs)
              []
              []
      measured_Holds [] = record {
        timings = refl;
        channels = refl;
        amplitudes = refl;
        packets = refl;
        count = refl;
      }
      measured_Holds (r ∷ rs) =
          let lines = map (amplitude_line F) (r ∷ rs) in
          let h : Holds lines [] [] lines [] [] = record {
            timings = keep-map_none (is_timing F) (amplitude_line F) (r ∷ rs) (λ x. refl);
            channels = keep-map_none (is_channel F) (amplitude_line F) (r ∷ rs) (λ x. refl);
            amplitudes = keep-map (is_amplitude F) (amplitude_line F) (r ∷ rs) (λ x. refl);
            packets = keep-map_none (is_row F) (amplitude_line F) (r ∷ rs) (λ x. refl);
            count = keep-map_none (is_count F) (amplitude_line F) (r ∷ rs) (λ x. refl);
          } in
          Holds-Quiet (blank_line ∷ amplitude_title ∷ lines) _ [] [] lines [] []
            (record {
              timings = h.timings;
              channels = h.channels;
              amplitudes = h.amplitudes;
              packets = h.packets;
              count = h.count;
            })
            (record {
              timings = refl;
              channels = refl;
              amplitudes = refl;
              packets = refl;
              count = refl;
            })

  pub frequency_section-Quiet :
      (freq_delta_hz : Option Float) (ch : ChipsetInfo F)
      → Quiet (frequency_section F freq_delta_hz ch)
  unfolding frequency_section
  frequency_section-Quiet freq_delta_hz ch = record {
    timings = refl;
    channels = refl;
    amplitudes = refl;
    packets = refl;
    count = refl;
  }

  pub timing_section_total :
      (t : PacketTiming F)
      → IsMeasured F t
      → (lines : List (Line F)) × (timing_section F t ≡ some lines)
        × Holds lines (map (timing_line F) t.per_symbol) [] [] [] []
  unfolding timing_section
  timing_section_total t h =
      let (lines, e, k) = timed_total t t.per_symbol h.overall h.rates in
      (
        blank_line ∷ timing_title ∷ lines,
        rw (e, ◌>>=◌) refl,
        record {
          timings = k.timings;
          channels = k.channels;
          amplitudes = k.amplitudes;
          packets = k.packets;
          count = k.count;
        },
      )
