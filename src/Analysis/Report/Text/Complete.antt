-- ===== src/Analysis/Report/Text/Complete.antt =====
-- The text of `build_report` in src/stream_web/analysis.py tells of every symbol and every packet.
use sdr_docker.Base.{
  ℕ, ◌≡◌, refl, ap, ◌∙◌, Option, none, some, List, [], ◌∷◌, ◌++◌, length, map, IsThere, ◌>>=◌,
  arith, append-nil,
}
use sdr_docker.Base.Floats.{FloatOps}
use sdr_docker.Analysis.Report.{
  Decoded, best_from, quality_of, packet_line, analyze_recording, Report,
}
use sdr_docker.Analysis.Report.Text.{
  PacketTiming, Amplitude, ChipsetInfo, PacketAnalysis, CaptureBlock, Line, blank_line,
  representative_title, info_line, corrections_line, capture_lines, title_line, none_decoded_line,
  packets_line, channel_section, amplitude_line, amplitude_section, frequency_section, snr_of,
  chipset_of, ReportOf, LineOf, table_row, packet_table, representative_lines, build_report,
}
use sdr_docker.Analysis.Report.Text.Kinds.{
  keep-map, keep-map_none, map-map, get_elem?-IsThere, is_timing, is_channel, is_amplitude, is_row,
  is_count, timing_line, IsMeasured, best_from-lt,
}
use sdr_docker.Analysis.Report.Text.Sections.{
  Holds-append, Quiet, Holds, channel_lines_of, timing_section_total, channel_section-Holds,
  amplitude_section-Holds, frequency_section-Quiet,
}

module _ (F : FloatOps) where
  open F use {Float}

  module _ (mean : List ℕ → Float) (round1 round2 round4 : Float → Float)
      (analyze_packet : Decoded F → PacketAnalysis F) where
    abbrev pub report_of : List (Decoded F) → ReportOf F mean round1 round2 round4 analyze_packet
    report_of =
        analyze_recording F mean round1 round2 round4 (PacketAnalysis F) (ChipsetInfo F)
          (snr_of F mean round1 round2 round4 analyze_packet)
          (chipset_of F mean round1 round2 round4 analyze_packet) analyze_packet

    abbrev pub line_of : Decoded F → LineOf F mean round1 round2 round4 analyze_packet
    line_of =
        packet_line F mean round1 round2 round4 (PacketAnalysis F) (ChipsetInfo F)
          (snr_of F mean round1 round2 round4 analyze_packet)
          (chipset_of F mean round1 round2 round4 analyze_packet) analyze_packet

    -- The row of a packet in the table.
    abbrev pub row_of : Decoded F → Line F
    row_of q = table_row F mean round1 round2 round4 analyze_packet (line_of q)

    packet_table-Holds :
        (ps : List (Decoded F))
        → Holds F
            (packet_table F mean round1 round2 round4 analyze_packet (map line_of ps))
            []
            []
            []
            (map row_of ps)
            []
    unfolding packet_table table_row
    packet_table-Holds ps =
        rw (map-map (table_row F mean round1 round2 round4 analyze_packet) line_of ps) (record {
          timings = keep-map_none (is_timing F) row_of ps (λ x. refl);
          channels = keep-map_none (is_channel F) row_of ps (λ x. refl);
          amplitudes = keep-map_none (is_amplitude F) row_of ps (λ x. refl);
          packets = keep-map (is_row F) row_of ps (λ x. refl);
          count = keep-map_none (is_count F) row_of ps (λ x. refl);
        })

    module _ (s : ReportOf F mean round1 round2 round4 analyze_packet)
        (rep : LineOf F mean round1 round2 round4 analyze_packet) (ps : List (Decoded F)) where
      representative_lines_total :
          IsMeasured F (PacketAnalysis.timing rep.line_details)
          → IsThere s.report_chipset
          → IsThere s.corrections
          → s.lines ≡ map line_of ps
          → (lines : List (Line F)) × (representative_lines F mean round1 round2 round4
                analyze_packet s rep
              ≡ some lines)
            × Holds F lines
                (map
                  (timing_line F)
                  (PacketTiming.per_symbol (PacketAnalysis.timing rep.line_details)))
                (channel_lines_of F (PacketAnalysis.channels rep.line_details))
                (map
                  (amplitude_line F)
                  (Amplitude.per_symbol (PacketAnalysis.amplitude rep.line_details)))
                (map row_of ps)
                []
      unfolding representative_lines
      representative_lines_total measured_ (chipset, k) (corrections, c) rows =
          let d = rep.line_details in
          let (timing, e, timing_holds) =
            timing_section_total F (PacketAnalysis.timing d) measured_ in
          let ts = map (timing_line F) (PacketTiming.per_symbol (PacketAnalysis.timing d)) in
          let cs = channel_lines_of F (PacketAnalysis.channels d) in
          let as_ = map (amplitude_line F) (Amplitude.per_symbol (PacketAnalysis.amplitude d)) in
          let table = packet_table F mean round1 round2 round4 analyze_packet (map line_of ps) in
          let frequency = frequency_section F s.freq_delta_hz chipset in
          let h5 = packet_table-Holds ps in
          let rows_ = map row_of ps in
          let tail = blank_line ∷ corrections_line corrections ∷ table in
          let after = frequency ++ tail in
          let amplitude = amplitude_section F (PacketAnalysis.amplitude d) in
          let channel = channel_section F (PacketAnalysis.channels d) (PacketAnalysis.hops d) in
          let h4 =
            Holds-append F frequency tail [] [] [] [] [] [] [] rows_ [] []
              (frequency_section-Quiet F s.freq_delta_hz chipset)
              (record {
                timings = h5.timings;
                channels = h5.channels;
                amplitudes = h5.amplitudes;
                packets = h5.packets;
                count = h5.count;
              }) in
          let h3 =
            Holds-append F amplitude after [] [] [] [] as_ [] [] rows_ [] []
              (amplitude_section-Holds F (PacketAnalysis.amplitude d)) h4 in
          let h2 =
            Holds-append F channel (amplitude ++ after) [] [] cs [] [] (as_ ++ []) [] rows_ [] []
              (channel_section-Holds F (PacketAnalysis.channels d) (PacketAnalysis.hops d)) h3 in
          let h1 =
            Holds-append F timing (channel ++ (amplitude ++ after)) ts [] [] (cs ++ []) []
              (as_ ++ []) [] rows_ [] [] timing_holds h2 in
          (
            blank_line
                ∷ representative_title
                ∷ info_line rep.line_time_s rep.line_channel rep.line_chipset
                ∷ (timing ++ (channel ++ (amplitude ++ after))),
            rw (e, ◌>>=◌) (rw (k, c, ◌>>=◌) (rw (rows) refl)),
            record {
              timings = h1.timings ∙ append-nil ts;
              channels = h1.channels ∙ append-nil cs;
              amplitudes = h1.amplitudes ∙ append-nil as_;
              packets = h1.packets;
              count = h1.count;
            },
          )

    -- What the text of a recording says: nothing but the count of a recording without packets, and of
    -- any other a line for each symbol of the representative, in its timing, its channels and its
    -- amplitudes, and a row for each packet, in order.
    pub Complete : List (Decoded F) → List (Line F) → Type 0
    Complete [] lines = Holds F lines [] [] [] [] (packets_line 0 ∷ [])
    Complete (p ∷ ps) lines =
        (rep : Decoded F) × (let d = analyze_packet rep in
          Holds F lines (map (timing_line F) (PacketTiming.per_symbol (PacketAnalysis.timing d)))
            (channel_lines_of F (PacketAnalysis.channels d))
            (map (amplitude_line F) (Amplitude.per_symbol (PacketAnalysis.amplitude d)))
            (map row_of (p ∷ ps)) (packets_line (length (p ∷ ps)) ∷ []))

    capture-Quiet :
        (capture : Option (CaptureBlock F))
        → Quiet F (title_line ∷ capture_lines F mean round1 round2 round4 analyze_packet capture)
    capture-Quiet none = record {
      timings = refl;
      channels = refl;
      amplitudes = refl;
      packets = refl;
      count = refl;
    }
    capture-Quiet (some c) = record {
      timings = refl;
      channels = refl;
      amplitudes = refl;
      packets = refl;
      count = refl;
    }

    -- The report of packets has one of them for its representative, and what is said beside it.
    record HasRepresentative (p : Decoded F) (ps : List (Decoded F)) : Type 0 where
      rep : Decoded F
      shown : Report.representative_packet (report_of (p ∷ ps)) ≡ some (line_of rep)
      chipset : IsThere (Report.report_chipset (report_of (p ∷ ps)))

    report_of-HasRepresentative : (p : Decoded F) (ps : List (Decoded F)) → HasRepresentative p ps
    unfolding analyze_recording
    report_of-HasRepresentative p ps =
        let quality =
          quality_of F mean round1 round2 round4 (PacketAnalysis F) (ChipsetInfo F)
            (snr_of F mean round1 round2 round4 analyze_packet)
            (chipset_of F mean round1 round2 round4 analyze_packet) analyze_packet in
        let (rep, found) =
          get_elem?-IsThere (p ∷ ps) (best_from F 0 (quality p) 1 (map quality ps))
            (omega (arith, best_from-lt F quality 0 (quality p) 1 ps (omega arith))) in
        record {
          rep = rep;
          shown = rw (found) refl;
          chipset = (PacketAnalysis.chipset_info (analyze_packet rep), rw (found) refl);
        }

    build_report-some :
        (s : ReportOf F mean round1 round2 round4 analyze_packet)
        (rep : LineOf F mean round1 round2 round4 analyze_packet) (lines : List (Line F))
        (capture : Option (CaptureBlock F))
        → s.representative_packet ≡ some rep
        → representative_lines F mean round1 round2 round4 analyze_packet s rep ≡ some lines
        → build_report F mean round1 round2 round4 analyze_packet capture s
          ≡ some (
              title_line
              ∷ (capture_lines F mean round1 round2 round4 analyze_packet capture
                  ++ (packets_line s.packets ∷ lines)))
    unfolding build_report
    build_report-some s rep lines capture shown e = rw (shown, build_report) (rw (e, ◌>>=◌) refl)

    -- The text of every recording is made without an exception, when the decoder's analysis of a packet
    -- gives a drift over all wherever it gives symbols, and a rate with each symbol's drift. A recording
    -- without packets is said to have none; any other text has one line for each symbol of the
    -- representative in its timing, in its channels where it has some, and in its amplitudes, and in its
    -- table one row for each packet, in order.
    pub build_report-Complete :
        (capture : Option (CaptureBlock F)) (packets : List (Decoded F))
        → ((q : Decoded F) → IsMeasured F (PacketAnalysis.timing (analyze_packet q)))
        → (lines : List (Line F)) × (build_report F mean round1 round2 round4 analyze_packet capture
              (report_of packets)
            ≡ some lines)
          × Complete packets lines
    unfolding build_report Complete analyze_recording
    build_report-Complete capture [] h =
        let head = title_line ∷ capture_lines F mean round1 round2 round4 analyze_packet capture in
        let none_left = packets_line 0 ∷ none_decoded_line ∷ [] in
        (
          head ++ none_left,
          refl,
          Holds-append F head none_left [] [] [] [] [] [] [] [] [] (packets_line 0 ∷ [])
              (capture-Quiet capture)
              (record {
                timings = refl;
                channels = refl;
                amplitudes = refl;
                packets = refl;
                count = refl;
              }),
        )
    build_report-Complete capture (p ∷ ps) h =
        let s = report_of (p ∷ ps) in
        let r = report_of-HasRepresentative p ps in
        let head = title_line ∷ capture_lines F mean round1 round2 round4 analyze_packet capture in
        let (lines, e, holds) =
          representative_lines_total s (line_of r.rep) (p ∷ ps) (h r.rep) r.chipset (_, refl)
            refl in
        let count = packets_line (length (p ∷ ps)) in
        (
          head ++ (count ∷ lines),
          build_report-some s (line_of r.rep) lines capture r.shown e,
          (
            r.rep,
            Holds-append F head (count ∷ lines) [] _ [] _ [] _ [] (map row_of (p ∷ ps)) []
                (count ∷ []) (capture-Quiet capture)
                (record {
                  timings = holds.timings;
                  channels = holds.channels;
                  amplitudes = holds.amplitudes;
                  packets = holds.packets;
                  count = ap (◌∷◌ count) holds.count;
                }),
          ),
        )
