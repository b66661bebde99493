-- ===== src/Processor/Entries.antt =====
-- The decode entry of a packet, as `processor_main` in src/stream_web/processor.py makes it for the
-- history, the feed and the annotator, and as `_mock_injector` in src/stream_web/app.py does.
use Prim.Native.String.{String}
use sdr_docker.Base.{
  ℕ, ◌^◌, ltb, not, ◌||◌, ◌≡◌, refl, Bool, true, Option, none, some, List, [], ◌∷◌, length, drop,
  if◌then◌else◌, ◌>>=◌, >>=-eq-some, some-injective, subst, IsThere, All,
}
use sdr_docker.Base.Int.{ℤ, negsuc}
use sdr_docker.Base.Floats.{FloatOps}
use sdr_docker.Base.Digits.{format_hex_ℤ, read_hex_ℤ, read_hex_ℤ-format_hex_ℤ}
use sdr_docker.Config.{sample_rate}
use sdr_docker.Decoder.{Protocol, or_zero, slot_of, total_symbols, Attempt, IsComplete}
use sdr_docker.Timing.{correct_symbol_edges}
use sdr_docker.Timing.Stats.{Statistics, TimingStats, edges_to_timing_stats}
use sdr_docker.TdCapture.{int_eq}

-- `f"0x{ntw_id:09X}"` of a version -1 packet, `f"0x{ntw_id:08X}"` of the others, as code points.
unfoldable pub ntw_id_hex_of : ℤ → ℤ → List ℕ
ntw_id_hex_of ver ntw_id =
    48 ∷ 120 ∷ format_hex_ℤ true (if int_eq ver (negsuc 0) then 9 else 8) ntw_id

abbrev pub read_ntw_id : List ℕ → ℤ
read_ntw_id text = read_hex_ℤ (drop 2 text)

-- The text of a network id, read without its `0x`, is the id, whatever the version.
pub read_ntw_id-ntw_id_hex_of : (ver id : ℤ) → read_ntw_id (ntw_id_hex_of ver id) ≡ id
unfolding ntw_id_hex_of
read_ntw_id-ntw_id_hex_of ver id = read_hex_ℤ-format_hex_ℤ true _ id

-- Whether `/api/packets` can encode the payload: `pv.to_bytes(pb, "big")` raises where it does not
-- fit its bytes, if it has any.
unfoldable pub payload_encodes : Option ℕ → Option ℕ → Bool
payload_encodes none pb = true
payload_encodes (some pv) pb = not (ltb 0 (or_zero pb)) || ltb pv (256 ^ or_zero pb)

module _ (F : FloatOps) where
  open F use {Float, frac, minus}

  -- `rx_start_unix_ts` is missing in the entry of the injector; `timing` is `none` where the six
  -- values are `None` or missing.
  pub record Entry : Type 0 where
    pub timestamp : String
    pub unix_ts : Float
    pub rx_start_unix_ts : Option Float
    pub phy_ver : ℤ
    pub ntw_id : ℤ
    pub ntw_id_hex : List ℕ
    pub seq_num : ℕ
    pub auth_tag : ℕ
    pub energy_db : Float
    pub chipset : String
    pub channel_num : Option ℕ
    pub freq_delta_hz : Option Float
    pub payload_val : Option ℕ
    pub payload_bytes : Option ℕ
    pub header_n_corr : Option ℕ
    pub pdu_n_corr : Option ℕ
    pub num_pdu_symbols : Option ℕ
    pub timing : Option (TimingStats F)

  -- The clocks that the entries of one cycle share.
  pub record Clocks : Type 0 where
    pub wall_t0 : Float
    pub ts : String
    pub unix_ts : Float

  -- `above` is the thresholded magnitude of the decode chunk, and `round1` Python's round to one
  -- place.
  module _ (p : Protocol) (st : Statistics F) (round1 : Float → Float) where
    pub timing_of : List Bool → ℤ → Attempt F → Option (TimingStats F)
    timing_of above ver pkt = elim pkt.start_sample [
      | none ↦ none
      | some pkt_start ↦
          elim (correct_symbol_edges
            (record { n = length above; slot = slot_of p ver; sym_len = p.samples_per_symbol })
            above pkt_start 0 (total_symbols p pkt.num_pdu_symbols) 0) [
              | [] ↦ none
              | e ∷ es ↦ some (edges_to_timing_stats F st sample_rate (e ∷ es))
            ]
    ]

    -- DECODE_WINDOW_S is 1.5.
    pub rx_start : Float → Attempt F → Float
    rx_start wall_t0 pkt =
        minus wall_t0 (minus (frac 15 10) (elim pkt.time_s [ none ↦ frac 0 1 | some t ↦ t ]))

    -- `pkt["phy_ver"]` and the other keys that are read by `[]` raise where they are missing.
    pub entry_of : Clocks → List Bool → Attempt F → Option Entry
    unfolding timing_of rx_start
    entry_of k above pkt = do
      ver ← pkt.phy_ver
      id ← pkt.ntw_id
      seq ← pkt.seq_num
      tag ← pkt.auth_tag
      energy ← pkt.total_energy_db
      some (record {
        timestamp = k.ts;
        unix_ts = k.unix_ts;
        rx_start_unix_ts = some (rx_start k.wall_t0 pkt);
        phy_ver = ver;
        ntw_id = id;
        ntw_id_hex = ntw_id_hex_of ver id;
        seq_num = seq;
        auth_tag = tag;
        energy_db = round1 energy;
        chipset = elim pkt.chipset [ none ↦ "" | some c ↦ c ];
        channel_num = pkt.channel_num;
        freq_delta_hz = pkt.freq_delta_hz;
        payload_val = pkt.payload_val;
        payload_bytes = pkt.payload_bytes;
        header_n_corr = pkt.header_n_corr;
        pdu_n_corr = pkt.pdu_n_corr;
        num_pdu_symbols = pkt.num_pdu_symbols;
        timing = timing_of above ver pkt;
      })

    pub entries_of : Clocks → List Bool → List (Attempt F) → Option (List Entry)
    entries_of k above [] = some []
    entries_of k above (pkt ∷ pkts) = do
      e ← entry_of k above pkt
      es ← entries_of k above pkts
      some (e ∷ es)

    -- An entry that tells of a packet what it is.
    abbrev pub Describes : Attempt F → Entry → Type 0
    Describes pkt e =
        (pkt.ntw_id ≡ some e.ntw_id)
        × (read_ntw_id e.ntw_id_hex ≡ e.ntw_id)
        × (pkt.seq_num ≡ some e.seq_num)
        × (pkt.auth_tag ≡ some e.auth_tag)
        × (pkt.payload_val ≡ e.payload_val)
        × (pkt.payload_bytes ≡ e.payload_bytes)

    abbrev pub DescribeAll : List (Attempt F) → List Entry → Type 0
    DescribeAll [] [] = Unit
    DescribeAll [] (e ∷ es) = ⊥
    DescribeAll (pkt ∷ pkts) [] = ⊥
    DescribeAll (pkt ∷ pkts) (e ∷ es) = Describes pkt e × DescribeAll pkts es

    entry_of-Describes :
        (k : Clocks) (above : List Bool) (pkt : Attempt F) {e : Entry}
        → entry_of k above pkt ≡ some e
        → Describes pkt e
    unfolding entry_of
    entry_of-Describes k above pkt h =
        let (ver, e1, h1) = >>=-eq-some pkt.phy_ver _ h in
        let (id, e2, h2) = >>=-eq-some pkt.ntw_id _ h1 in
        let (seq, e3, h3) = >>=-eq-some pkt.seq_num _ h2 in
        let (tag, e4, h4) = >>=-eq-some pkt.auth_tag _ h3 in
        let (energy, e5, h5) = >>=-eq-some pkt.total_energy_db _ h4 in
        subst (Describes pkt) (some-injective h5)
          (e2, read_ntw_id-ntw_id_hex_of ver id, e3, e4, refl, refl)

    pub entries_of-DescribeAll :
        (k : Clocks) (above : List Bool) (pkts : List (Attempt F)) {es : List Entry}
        → entries_of k above pkts ≡ some es
        → DescribeAll pkts es
    unfolding entries_of
    entries_of-DescribeAll k above [] h = subst (DescribeAll []) (some-injective h) tt
    entries_of-DescribeAll k above (pkt ∷ pkts) h =
        let (e, e1, h1) = >>=-eq-some (entry_of k above pkt) _ h in
        let (es, e2, h2) = >>=-eq-some (entries_of k above pkts) _ h1 in
        subst (DescribeAll (pkt ∷ pkts)) (some-injective h2)
          (entry_of-Describes k above pkt e1, entries_of-DescribeAll k above pkts e2)

    pub entries_of-IsThere :
        (k : Clocks) (up : List Bool) (pkts : List (Attempt F))
        → All (IsComplete F) pkts
        → IsThere (entries_of k up pkts)
    unfolding entries_of entry_of
    entries_of-IsThere k up [] h = ([], refl)
    entries_of-IsThere k up (a ∷ pkts) (h, hs) =
        let (es, e) = entries_of-IsThere k up pkts hs in
        rw
          (
            h.phy_ver.1, h.ntw_id.1, h.seq_num.1, h.auth_tag.1, h.total_energy_db.1, e, entries_of,
            entry_of,
          )
          (_, refl)
