-- ===== src/Analysis/Report.antt =====
-- `analyze_recording` of src/stream_web/analysis.py: the packet that represents a recording, and the
-- corrections over all. The decoder's analysis of a packet is a parameter, and is carried.
use Prim.Native.String.{String}
use sdr_docker.Base.{
  ℕ, zero, suc, ◌+◌, ◌≤◌, ◌<◌, ◌≡◌, refl, sym, ap, subst, ◌∙◌, Bool, true, false, not, ◌&&◌, ◌||◌,
  Option, none, some, List, [], ◌∷◌, ◌++◌, length, map, ltb, if◌then◌else◌, arith, All, All-imp,
  All-append, append_assoc, append-nil, length-append, inl, inr, Bool-cases, get_elem?,
}
use sdr_docker.Base.Int.{ℤ, pos, ltb_ℤ, leb_ℤ}
use sdr_docker.Base.Floats.{FloatOps}
use sdr_docker.Decoder.{or_zero}
pub mod Best
pub mod Text

module _ (F : FloatOps) where
  open F use {Float, of_int, lt, le}

  -- `_quality`: the SNR, minus infinity where there is none, and the symbols of the PDU.
  abbrev pub Quality : Type 0
  Quality = Option Float × ℕ

  -- `<` of Python's tuples.
  pub less : Quality → Quality → Bool
  less (none, m) (none, n) = ltb m n
  less (none, m) (some b, n) = true
  less (some a, m) (none, n) = false
  less (some a, m) (some b, n) = if le a b && le b a then ltb m n else lt a b

  -- `max(range(n), key=…)`: the first of the greatest. `i` is the index of the next.
  pub best_from : ℕ → Quality → ℕ → List Quality → ℕ
  unfolding less
  best_from best q i [] = best
  best_from best q i (r ∷ rs) =
      let better = best_from i r (suc i) rs in
      let same = best_from best q (suc i) rs in if less q r then better else same

  pub representative : List Quality → Option ℕ
  unfolding best_from
  representative [] = none
  representative (q ∷ qs) = some (best_from 0 q 1 qs)

  -- What a report needs of a decoded packet.
  pub record Decoded : Type 0 where
    pub abs_time_s : Float
    pub channel_num : Option ℕ
    pub chipset : Option String
    pub num_pdu_symbols : Option ℕ
    pub header_n_corr : Option ℕ
    pub pdu_n_corr : Option ℕ
    pub freq_delta_hz : Option Float

  pub col : (Decoded → Option ℕ) → List Decoded → List ℕ
  col key [] = []
  col key (p ∷ ps) = let rest = col key ps in elim (key p) [ none ↦ rest | some n ↦ n ∷ rest ]

  pub max_of : ℕ → List ℕ → ℕ
  max_of m [] = m
  max_of m (n ∷ ns) = max_of (if ltb m n then n else m) ns

  pub record RsCorrections : Type 0 where
    pub header_mean : Option Float
    pub pdu_mean : Option Float
    pub pdu_max : Option ℕ

  module _ (mean : List ℕ → Float) (round1 round2 round4 : Float → Float) where
    mean_of : List ℕ → Option Float
    mean_of [] = none
    mean_of (n ∷ ns) = some (round2 (mean (n ∷ ns)))

    pub rs_corrections : List Decoded → RsCorrections
    unfolding col max_of mean_of
    rs_corrections packets = record {
      header_mean = mean_of (col (λ p. p.header_n_corr) packets);
      pdu_mean = mean_of (col (λ p. p.pdu_n_corr) packets);
      pdu_max = elim (col (λ p. p.pdu_n_corr) packets) [ [] ↦ none | n ∷ ns ↦ some (max_of n ns) ];
    }

    -- `Details` is the analysis of a packet, with its timing, amplitude, channels and hops.
    module _ (Details Chipset : Type 0) (snr_db : Details → Option Float)
        (chipset_of : Details → Chipset) (analyze_packet : Decoded → Details) where
      pub record PacketLine : Type 0 where
        pub line_time_s : Float
        pub line_channel : Option ℕ
        pub line_chipset : Option String
        pub line_details : Details

      unfoldable pub packet_line : Decoded → PacketLine
      packet_line p = record {
        line_time_s = round4 p.abs_time_s;
        line_channel = p.channel_num;
        line_chipset = p.chipset;
        line_details = analyze_packet p;
      }

      pub quality_of : Decoded → Quality
      quality_of p = (snr_db (analyze_packet p), or_zero p.num_pdu_symbols)

      pub record Report : Type 0 where
        pub packets : ℕ
        pub corrections : Option RsCorrections
        pub report_chipset : Option Chipset
        pub freq_delta_hz : Option Float
        pub representative_packet : Option PacketLine
        pub lines : List PacketLine

      unfoldable pub analyze_recording : List Decoded → Report
      unfolding representative rs_corrections packet_line quality_of
      analyze_recording [] = record {
        packets = 0;
        corrections = none;
        report_chipset = none;
        freq_delta_hz = none;
        representative_packet = none;
        lines = [];
      }
      analyze_recording (p ∷ ps) =
          let rep : Option Decoded = (elim (representative (map quality_of (p ∷ ps))) [
            | none ↦ none
            | some i ↦ get_elem? (p ∷ ps) i
          ]) in
          record {
            packets = length (p ∷ ps);
            corrections = some (rs_corrections (p ∷ ps));
            report_chipset = elim rep [
              | none ↦ none
              | some r ↦ some (chipset_of (analyze_packet r))
            ];
            freq_delta_hz = elim rep [
              | none ↦ none
              | some r ↦ elim r.freq_delta_hz [ none ↦ none | some f ↦ some (round1 f) ]
            ];
            representative_packet = elim rep [ none ↦ none | some r ↦ some (packet_line r) ];
            lines = map packet_line (p ∷ ps);
          }
