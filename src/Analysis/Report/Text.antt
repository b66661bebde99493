-- ===== src/Analysis/Report/Text.antt =====
-- `build_report` of src/stream_web/analysis.py: the lines of the text that a customer returns. A line
-- is what it is filled with; the formats of numbers are Python's. A format that None does not take,
-- and a missing key, raise: `none`.
pub mod Kinds
pub mod Sections
pub mod Complete
use Prim.Native.String.{String}
use sdr_docker.Base.{
  ℕ, Bool, true, false, Option, none, some, List, [], ◌∷◌, ◌++◌, length, map, if◌then◌else◌, ◌>>=◌,
}
use sdr_docker.Base.Int.{ℤ}
use sdr_docker.Base.Floats.{FloatOps}
use sdr_docker.Analysis.Report.{
  Decoded, RsCorrections, PacketLine, Report, analyze_recording, packet_line,
}

module _ (F : FloatOps) where
  open F use {Float}

  -- What the decoder's `analyze_packet` gives of a packet: its parts, as the report reads them.
  pub record SymbolTiming : Type 0 where
    pub idx : ℕ
    pub duration_us : Float
    pub gap_us : Option Float
    pub drift_us : Option Float
    pub rate_us_per_sym : Option Float

  pub record PacketTiming : Type 0 where
    pub per_symbol : List SymbolTiming
    pub total_drift_us : Option Float
    pub drift_us_per_sym : Option Float
    pub sym_mean_ms : Option Float
    pub gap_mean_ms : Option Float

  pub record SymbolChannel : Type 0 where
    pub idx : ℕ
    pub channel : ℕ
    pub freq_hz : Float
    pub in_window : Bool
    pub off_by_hz : Float

  pub record Channels : Type 0 where
    pub f0_hz : Float
    pub step_hz : Float
    pub channel_width_hz : Float
    pub spacing_hz : Float
    pub spacing_source : String
    pub per_symbol : List SymbolChannel
    pub all_valid : Bool
    pub n_in_window : ℕ

  pub record Hops : Type 0 where
    pub hop_seq_idx : ℕ
    pub start_channel : ℕ
    pub expected_channels : List ℕ

  pub record SymbolAmplitude : Type 0 where
    pub idx : ℕ
    pub amp_dbfs : Float
    pub snr_db : Option Float

  pub record Amplitude : Type 0 where
    pub per_symbol : List SymbolAmplitude
    pub mean_dbfs : Option Float
    pub dropoff_db : Option Float
    pub noise_floor_dbfs : Option Float
    pub snr_db : Option Float

  pub record ChipsetInfo : Type 0 where
    pub chipset : Option String
    pub measured_synth_res : Option Float
    pub nominal_synth_res : Option Float

  pub record PacketAnalysis : Type 0 where
    pub timing : PacketTiming
    pub amplitude : Amplitude
    pub channels : Option Channels
    pub hops : Option Hops
    pub chipset_info : ChipsetInfo

  -- The `capture` block that the route adds.
  pub record CaptureBlock : Type 0 where
    pub seconds : ℕ
    pub sample_rate_hz : ℕ
    pub center_freq_hz : ℤ
    pub n_samples : ℕ

  pub data Line : Type 0 where
    title_line none_decoded_line blank_line : Line
    capture_line : CaptureBlock → Line
    packets_line : ℕ → Line
    representative_title timing_title hopping_title amplitude_title chipset_title table_title : Line
    info_line : (time_s : Float) → (channel : Option ℕ) → (chipset : Option String) → Line
    no_timing_line no_channels_line no_amplitude_line : Line
    -- the drift and its rate, where they are known
    symbol_timing_line :
        (idx : ℕ)
        → (duration : Float) → (gap : Option Float) → (drift : Option (Float × Float)) → Line
    overall_drift_line : (total per_symbol : Float) → (symbols : ℕ) → Line
    hops_line : Hops → Line
    calibration_line : (f0 step width : Float) → Line
    spacing_line : (spacing : Float) → (source : String) → Line
    -- by how much it is out of its window, where it is
    symbol_channel_line : (idx channel : ℕ) → (freq : Float) → (out_by : Option Float) → Line
    validation_line : (passes : Bool) → (in_window symbols : ℕ) → Line
    symbol_amplitude_line : (idx : ℕ) → (amp : Float) → (snr : Option Float) → Line
    amplitude_summary_line : (mean dropoff floor snr : Option Float) → Line
    offset_line : Option Float → Line
    decoder_chipset_line : Option String → Line
    synth_line : (measured nominal : Option Float) → Line
    corrections_line : RsCorrections F → Line
    packet_row :
        (time_s : Float)
        → (channel : Option ℕ) → (chipset : Option String)
        → (sym_mean gap_mean drift amp snr : Option Float) → Line

  -- A format that None does not take.
  abbrev pub drift_of : SymbolTiming → Option (Option (Float × Float))
  drift_of r = elim r.drift_us [
    | none ↦ some none
    | some d ↦ elim r.rate_us_per_sym [ none ↦ none | some rate ↦ some (some (d, rate)) ]
  ]

  pub timing_lines : List SymbolTiming → Option (List Line)
  timing_lines [] = some []
  timing_lines (r ∷ rs) = drift_of r >>= λ drift. timing_lines rs >>= λ later.
      some (symbol_timing_line r.idx r.duration_us r.gap_us drift ∷ later)

  -- Under the condition that there are symbols.
  abbrev pub timed : PacketTiming → List SymbolTiming → Option (List Line)
  timed t [] = some (no_timing_line ∷ [])
  timed t (r ∷ rs) = timing_lines (r ∷ rs) >>= λ symbols. t.total_drift_us >>= λ total.
      t.drift_us_per_sym >>= λ per_symbol.
      some (symbols ++ (overall_drift_line total per_symbol (length (r ∷ rs)) ∷ []))

  pub timing_section : PacketTiming → Option (List Line)
  unfolding timing_lines
  timing_section t = timed t t.per_symbol >>= λ later. some (blank_line ∷ timing_title ∷ later)

  pub channel_line : SymbolChannel → Line
  channel_line r =
      symbol_channel_line r.idx r.channel r.freq_hz (if r.in_window then none else some r.off_by_hz)

  abbrev hop_lines : Option Hops → List Line
  hop_lines none = []
  hop_lines (some h) = hops_line h ∷ []

  abbrev channel_lines : Option Channels → List Line
  channel_lines none = no_channels_line ∷ []
  channel_lines (some ch) =
      calibration_line ch.f0_hz ch.step_hz ch.channel_width_hz
      ∷ spacing_line ch.spacing_hz ch.spacing_source
      ∷ (map channel_line ch.per_symbol
          ++ (validation_line ch.all_valid ch.n_in_window (length ch.per_symbol) ∷ []))

  pub channel_section : Option Channels → Option Hops → List Line
  unfolding channel_line
  channel_section ch hops = blank_line ∷ hopping_title ∷ (hop_lines hops ++ channel_lines ch)

  pub amplitude_line : SymbolAmplitude → Line
  amplitude_line r = symbol_amplitude_line r.idx r.amp_dbfs r.snr_db

  abbrev measured : Amplitude → List SymbolAmplitude → List Line
  measured a [] = no_amplitude_line ∷ []
  measured a (r ∷ rs) =
      map amplitude_line (r ∷ rs)
      ++ (amplitude_summary_line a.mean_dbfs a.dropoff_db a.noise_floor_dbfs a.snr_db ∷ [])

  pub amplitude_section : Amplitude → List Line
  unfolding amplitude_line
  amplitude_section a = blank_line ∷ amplitude_title ∷ measured a a.per_symbol

  pub frequency_section : Option Float → ChipsetInfo → List Line
  frequency_section freq_delta_hz ch =
      blank_line
      ∷ chipset_title
      ∷ offset_line freq_delta_hz
      ∷ decoder_chipset_line ch.chipset
      ∷ synth_line ch.measured_synth_res ch.nominal_synth_res
      ∷ []

  module _ (mean : List ℕ → Float) (round1 round2 round4 : Float → Float)
      (analyze_packet : Decoded F → PacketAnalysis) where
    abbrev pub snr_of : PacketAnalysis → Option Float
    snr_of a = Amplitude.snr_db (PacketAnalysis.amplitude a)

    abbrev pub chipset_of : PacketAnalysis → ChipsetInfo
    chipset_of a = a.chipset_info

    -- The report of a recording's packets, and a packet's line in it.
    abbrev pub ReportOf : Type 0
    ReportOf =
        Report F mean round1 round2 round4 PacketAnalysis ChipsetInfo snr_of chipset_of
          analyze_packet

    abbrev pub LineOf : Type 0
    LineOf =
        PacketLine F mean round1 round2 round4 PacketAnalysis ChipsetInfo snr_of chipset_of
          analyze_packet

    pub table_row : LineOf → Line
    table_row l =
        let t = PacketAnalysis.timing l.line_details in
        let a = PacketAnalysis.amplitude l.line_details in
        packet_row l.line_time_s l.line_channel l.line_chipset t.sym_mean_ms t.gap_mean_ms
          t.total_drift_us a.mean_dbfs a.snr_db

    pub packet_table : List LineOf → List Line
    unfolding table_row
    packet_table packets = blank_line ∷ table_title ∷ map table_row packets

    abbrev capture_lines : Option CaptureBlock → List Line
    capture_lines none = []
    capture_lines (some c) = capture_line c ∷ []

    -- What follows the count of the packets, where one was decoded.
    pub representative_lines : ReportOf → LineOf → Option (List Line)
    unfolding timing_section channel_section amplitude_section frequency_section packet_table
    representative_lines s rep =
        let d = rep.line_details in
        timing_section d.timing >>= λ timing. s.report_chipset >>= λ chipset.
        s.corrections >>= λ corrections. some (
          blank_line
          ∷ representative_title
          ∷ info_line rep.line_time_s rep.line_channel rep.line_chipset
          ∷ (timing
              ++ (channel_section d.channels d.hops
                  ++ (amplitude_section d.amplitude
                      ++ (frequency_section s.freq_delta_hz chipset
                          ++ (blank_line ∷ corrections_line corrections ∷ packet_table s.lines))))))

    pub build_report : Option CaptureBlock → ReportOf → Option (List Line)
    unfolding representative_lines
    build_report capture s = elim s.representative_packet [
      | none ↦ some (
          title_line ∷ (capture_lines capture ++ (packets_line s.packets ∷ none_decoded_line ∷ [])))
      | some rep ↦ representative_lines s rep >>= λ later.
          some (title_line ∷ (capture_lines capture ++ (packets_line s.packets ∷ later)))
    ]
