-- ===== src/Fcc/Spectrum.antt =====
-- The spectrum that the FCC check is made on: `spectrum_traces` of src/stream_web/spectrogram.py, the
-- frequency axis, and the reply of `/api/fcc_check` of src/stream_web/app.py. numpy's mean, maximum,
-- median and arg max, the powers and logarithms, and scipy's `find_peaks` are parameters.
use sdr_docker.Base.{
  ℕ, ◌+◌, ◌*◌, ◌/◌, max, Bool, Option, none, some, List, [], ◌∷◌, ◌++◌, length, map,
}
use sdr_docker.Base.Int.{ℤ, pos, sub_ℕ}
use sdr_docker.Base.Floats.{FloatOps}
use sdr_docker.Config.{sample_rate, spec_dc_notch_bins}
use sdr_docker.Fcc.{
  Limits, SpurSearch, Trace, Spur, Verdict, evaluate_fcc_compliance, interpolate_dc,
}

module _ (F : FloatOps) where
  open F use {Float, frac, of_int, plus, minus, times, over, truncate}

  -- Rows of numbers are lists; a trace is its length and its value at each bin.
  pub record Routines : Type 0 where
    pub mean : List Float → Float
    pub greatest : List Float → Float
    pub power_of_10 : Float → Float
    pub log10 : Float → Float
    pub median : ℕ → (ℕ → Float) → Float
    pub arg_max : ℕ → (ℕ → Float) → ℕ
    pub find_peaks :
        ℕ → (ℕ → Float) → (height : Float) → (distance : ℕ) → (prominence : Float) → List ℕ

  -- What `compute_spec_chunk` gives: the dB value of each bin, column after column in time.
  pub record Chunk : Type 0 where
    pub n_bins : ℕ
    pub columns : List (ℕ → Float)

  -- `np.concatenate(chunks, axis=1)`.
  pub all_columns : List Chunk → List (ℕ → Float)
  all_columns [] = []
  all_columns (c ∷ cs) = c.columns ++ all_columns cs

  -- `chunks[0].shape[0]`.
  abbrev pub bins_of : List Chunk → ℕ
  bins_of [] = 0
  bins_of (c ∷ cs) = c.n_bins

  pub record AnalysisInfo : Type 0 where
    pub seconds : ℕ
    pub n_chunks : ℕ
    pub nfft : ℕ
    pub bin_hz : Float
    pub span_hz : ℕ
    pub center_freq_hz : ℤ
    pub rx_gain_db : Float
    pub min_snr_db : Float
    pub dc_notch_hz : Float

  pub record CarrierInfo : Type 0 where
    pub freq_hz : Float
    pub offset_from_lo_hz : Float
    pub power_db : Float
    pub snr_db : Float

  pub record OccupiedBandwidth : Type 0 where
    pub passes : Bool
    pub bw_20db_hz : Float
    pub limit_hz : Float
    pub channel_spacing_hz : Float

  pub record SpuriousEmissions : Type 0 where
    pub passes : Bool
    pub n_spurs : ℕ
    pub n_over_limit : ℕ
    pub worst_dbc : Option Float
    pub limit_dbc : Float

  pub record SpurInfo : Type 0 where
    pub freq_hz : Float
    pub power_db : Float
    pub dbc : Float
    pub passes : Bool

  -- The reply about a tone. Its key `state` is `pass` or `fail`, as `passes` is.
  pub record Judgement : Type 0 where
    pub passes : Bool
    pub carrier : CarrierInfo
    pub occupied_bandwidth : OccupiedBandwidth
    pub spurious_emissions : SpuriousEmissions
    pub spurs : List SpurInfo

  -- `no_signal` has a null under `pass`, and only the analysis beside it.
  pub data FccReply : Type 0 where
    no_signal : AnalysisInfo → FccReply
    judged : Judgement → AnalysisInfo → FccReply

  unfoldable pub spur_info : Spur F → SpurInfo
  spur_info s = record {
    freq_hz = s.freq_hz;
    power_db = s.power_db;
    dbc = s.dbc;
    passes = s.passes;
  }

  unfoldable pub judgement : ℤ → Verdict F → Judgement
  unfolding spur_info
  judgement center_freq_hz fcc = record {
    passes = fcc.overall_ok;
    carrier = record {
      freq_hz = fcc.carrier_freq_hz;
      offset_from_lo_hz = minus fcc.carrier_freq_hz (of_int center_freq_hz);
      power_db = fcc.carrier_power_db;
      snr_db = fcc.snr_db;
    };
    occupied_bandwidth = record {
      passes = fcc.spacing_ok;
      bw_20db_hz = fcc.bw_20db_hz;
      limit_hz = fcc.bw_limit_hz;
      channel_spacing_hz = fcc.channel_spacing_hz;
    };
    spurious_emissions = record {
      passes = fcc.spurs_ok;
      n_spurs = length fcc.found.spurs;
      n_over_limit = fcc.found.n_spur_fail;
      worst_dbc = fcc.found.worst_dbc;
      limit_dbc = minus (of_int (pos 0)) fcc.spur_limit_dbc;
    };
    spurs = map spur_info fcc.found.spurs;
  }

  module _ (np : Routines) where
    open np use {mean, greatest, power_of_10, log10, median, arg_max, find_peaks}

    -- The average is that of the linear power.
    pub average_at : List (ℕ → Float) → ℕ → Float
    average_at columns i = times (frac 10 1) (
        log10 (
          plus (mean (map (λ c. power_of_10 (over (c i) (frac 10 1))) columns))
            (frac 1 1_000_000_000_000)))

    pub peak_at : List (ℕ → Float) → ℕ → Float
    peak_at columns i = greatest (map (λ c. c i) columns)

    -- The average and the peak-hold trace.
    pub spectrum_traces : List Chunk → (ℕ → Float) × (ℕ → Float)
    unfolding all_columns average_at peak_at
    spectrum_traces chunks = (
      interpolate_dc F spec_dc_notch_bins (bins_of chunks) (average_at (all_columns chunks)),
      interpolate_dc F spec_dc_notch_bins (bins_of chunks) (peak_at (all_columns chunks)),
    )

    abbrev pub bin_hz_of : ℕ → Float
    bin_hz_of n_bins = over (of_int (pos sample_rate)) (of_int (pos n_bins))

    -- Bins ascend from half the sample rate below the centre.
    pub freq_at : (n_bins : ℕ) → (lo_freq_hz : ℤ) → ℕ → Float
    freq_at n_bins lo_freq_hz i =
        plus (times (of_int (sub_ℕ i (n_bins / 2))) (bin_hz_of n_bins)) (of_int lo_freq_hz)

    unfoldable pub trace_of : List Chunk → ℤ → Trace F
    unfolding spectrum_traces freq_at
    trace_of chunks lo_freq_hz = record {
      bins = bins_of chunks;
      avg_db = (spectrum_traces chunks).0;
      freqs_hz = freq_at (bins_of chunks) lo_freq_hz;
      bin_hz = bin_hz_of (bins_of chunks);
    }

    module _ (lim : Limits F) (search : SpurSearch F) where
      -- `evaluate_fcc_compliance(freqs_hz, avg_dB, bin_hz)`, with the calls of numpy and scipy.
      unfoldable pub evaluate : Trace F → Option (Verdict F)
      evaluate t =
          let noise_db = median t.bins t.avg_db in
          let sep_bins =
            max 1 (truncate (over (times search.spur_min_sep_khz (frac 1000 1)) t.bin_hz)) in
          let cand =
            find_peaks t.bins t.avg_db (plus noise_db search.spur_min_snr_db) sep_bins
              search.spur_min_prominence_db in
          evaluate_fcc_compliance F lim t noise_db (arg_max t.bins t.avg_db) cand

      -- The analysis of `/api/fcc_check`, of the chunks of the capture.
      unfoldable pub fcc_reply : ℤ → (rx_gain_db : Float) → (seconds : ℕ) → List Chunk → FccReply
      fcc_reply center_freq_hz rx_gain_db seconds chunks =
          let info : AnalysisInfo = record {
            seconds = seconds;
            n_chunks = length chunks;
            nfft = bins_of chunks;
            bin_hz = bin_hz_of (bins_of chunks);
            span_hz = sample_rate;
            center_freq_hz = center_freq_hz;
            rx_gain_db = rx_gain_db;
            min_snr_db = lim.min_snr_db;
            dc_notch_hz =
                times (of_int (pos (2 * spec_dc_notch_bins + 1))) (bin_hz_of (bins_of chunks));
          } in
          elim (evaluate (trace_of chunks center_freq_hz)) [
            | none ↦ no_signal info
            | some fcc ↦ judged (judgement center_freq_hz fcc) info
          ]
