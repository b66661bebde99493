-- ===== src/Analysis/Tests.antt =====
-- Recordings of src/stream_web/analysis.py.
use Prim.Native.String.{String}
use sdr_docker.Base.{
  ℕ, length, map, Option, ◌*◌, ◌≡◌, refl, true, any, arith, Bool, none, some, inr, List, [], ◌∷◌,
  ◌==◌, if◌then◌else◌,
}
use sdr_docker.Base.Int.{ℤ, pos}
use sdr_docker.Base.Floats.{milli_floats}
use sdr_docker.Config.{decode_samples}
use sdr_docker.Analysis.{window_offsets, PacketKeys, Layout, Found, decode_packets}
use sdr_docker.Analysis.Windows.{covers, window_offsets-cover}
use sdr_docker.Analysis.Once.{AllDiffer, decode_packets-AllDiffer}
use sdr_docker.Analysis.Report.{Decoded, packet_line, analyze_recording}
use sdr_docker.Analysis.Report.Text.{PacketTiming, PacketAnalysis, Line, build_report}
use sdr_docker.Analysis.Report.Text.Kinds.{IsMeasured}
use sdr_docker.Analysis.Report.Text.Complete.{report_of, Complete, build_report-Complete}
use sdr_docker.Analysis.Report.Best.{IsRanked, IsBest, quality, analyze_recording-IsBest}

window_offsets-cover_example :
    any (covers decode_samples 1400000 400000) (window_offsets 2000000 decode_samples) ≡ true
window_offsets-cover_example =
    window_offsets-cover 2000000 decode_samples 1400000 400000 (omega arith) (omega arith)
      (omega arith)

abbrev numbers : PacketKeys
numbers = record { Key = ℕ; same = λ a b. a == b }

abbrev layout : Layout milli_floats numbers
layout = record { n_sym = 2; slot = 10 }

-- The first window gives two packets, the later one first; the others fail.
abbrev decoded : ℕ → Found milli_floats numbers
decoded offset =
    if offset == 0
    then some ((7, some 500, layout) ∷ (8, some 100, layout) ∷ (9, none, layout) ∷ [])
    else none

abbrev above : ℕ → ℕ → List Bool
above lo hi = []

abbrev time_of : ℕ → ℤ
time_of n = pos n

decode_packets-AllDiffer_example :
    AllDiffer milli_floats numbers 2000 8 above time_of
      (pos 1000)
      (decode_packets milli_floats numbers 2000 8 above time_of (pos 1000) decoded)
decode_packets-AllDiffer_example =
    decode_packets-AllDiffer milli_floats numbers 2000 8 above time_of (pos 1000) decoded

abbrev packet : Option ℕ → ℕ → Decoded milli_floats
packet symbols n = record {
  abs_time_s = pos (1000 * n);
  channel_num = some n;
  chipset = some "esp32";
  num_pdu_symbols = symbols;
  header_n_corr = some 1;
  pdu_n_corr = none;
  freq_delta_hz = some (pos 1500);
}

-- The SNR is 20 from the second packet on.
abbrev snr_db : ℕ → Option ℤ
snr_db n = if n == 0 then none else some (pos 20_000)

abbrev channel_of : Decoded milli_floats → ℕ
channel_of p = elim p.channel_num [ none ↦ 0 | some n ↦ n ]

abbrev total : List ℕ → ℤ
total ns = pos (1000 * length ns)

abbrev own : ℤ → ℤ
own x = x

abbrev milli-IsRanked : IsRanked milli_floats
milli-IsRanked = record { rank = own; lt_rank = λ a b. refl; le_rank = λ a b. refl }

abbrev recorded : List (Decoded milli_floats)
recorded = packet (some 4) 1 ∷ packet (some 9) 2 ∷ packet none 3 ∷ []

analyze_recording-IsBest_example :
    (i : ℕ) × (b : IsBest milli_floats
      (quality milli_floats milli-IsRanked total own own own ℕ
        (Option String)
        snr_db
        (λ n. some "esp32")
        channel_of)
      (packet (some 30) 0 ∷ recorded)
      i)
    × ((analyze_recording milli_floats total own own own ℕ
          (Option String)
          snr_db
          (λ n. some "esp32")
          channel_of
          (packet (some 30) 0 ∷ recorded)).representative_packet
        ≡ some (
            packet_line milli_floats total own own own ℕ
              (Option String)
              snr_db
              (λ n. some "esp32")
              channel_of
              b.best))
    × ((analyze_recording milli_floats total own own own ℕ
          (Option String)
          snr_db
          (λ n. some "esp32")
          channel_of
          (packet (some 30) 0 ∷ recorded)).lines
        ≡ map
            (packet_line milli_floats total own own own ℕ
              (Option String)
              snr_db
              (λ n. some "esp32")
              channel_of)
            (packet (some 30) 0 ∷ recorded))
analyze_recording-IsBest_example =
    analyze_recording-IsBest milli_floats milli-IsRanked total own own own ℕ (Option String) snr_db
      (λ n. some "esp32") channel_of (packet (some 30) 0) recorded

abbrev timing_of : Decoded milli_floats → PacketTiming milli_floats
timing_of p = record {
  per_symbol =
      record {
        idx = 0;
        duration_us = pos 8_000_000;
        gap_us = none;
        drift_us = some (pos 1000);
        rate_us_per_sym = some (pos 10);
      }
      ∷ [];
  total_drift_us = some (pos 1000);
  drift_us_per_sym = some (pos 10);
  sym_mean_ms = none;
  gap_mean_ms = none;
}

-- A packet with one symbol, and no channels.
abbrev analysis : Decoded milli_floats → PacketAnalysis milli_floats
analysis p = record {
  timing = timing_of p;
  amplitude = record {
    per_symbol = record { idx = 0; amp_dbfs = pos 12_000; snr_db = none } ∷ [];
    mean_dbfs = some (pos 12_000);
    dropoff_db = none;
    noise_floor_dbfs = none;
    snr_db = none;
  };
  channels = none;
  hops = none;
  chipset_info = record {
    chipset = p.chipset;
    measured_synth_res = none;
    nominal_synth_res = none;
  };
}

analysis-IsMeasured : (p : Decoded milli_floats) → IsMeasured milli_floats (timing_of p)
analysis-IsMeasured p = record {
  overall = inr ((pos 1000, refl), (pos 10, refl));
  rates = (inr (pos 10, refl), tt);
}

build_report-Complete_example :
    (lines : List (Line milli_floats)) × (build_report milli_floats total own own own analysis none
        (report_of milli_floats total own own own analysis recorded)
      ≡ some lines)
    × Complete milli_floats total own own own analysis recorded lines
build_report-Complete_example =
    build_report-Complete milli_floats total own own own analysis none recorded
      (λ q. analysis-IsMeasured q)
