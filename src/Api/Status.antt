-- ===== src/Api/Status.antt =====
-- `/api/status` of src/stream_web/app.py: the decode history by device, and the corrections by
-- chipset. Texts that are computed are code points.
pub mod Devices
pub mod Order
use Prim.Native.String.{String}
use text.Mathlib.Text.{◌==◌ as str_eq}
use sdr_docker.Base.{
  ℕ, ◌==◌, Bool, true, false, Option, none, some, List, [], ◌∷◌, ◌++◌, length, map, ltb,
  if◌then◌else◌, ◌>>=◌,
}
use sdr_docker.Base.Int.{ℤ, pos, leb_ℤ}
use sdr_docker.Base.Floats.{FloatOps}
use sdr_docker.Base.Base64.{b64encode}
use sdr_docker.Control.{Settings}
use sdr_docker.Decoder.{or_zero}
use sdr_docker.Results.{last_of}
use sdr_docker.TdCapture.{int_eq}
use sdr_docker.Processor.Entries.{Entry}
use sdr_docker.Api.Packets.{encode_payload}

module _ (F : FloatOps) where
  open F use {Float, frac, of_int, plus, times, over}

  -- `none` is a key that is not set yet.
  pub record Device : Type 0 where
    pub ntw_id : ℤ
    pub ntw_id_hex : List ℕ
    pub phy_ver : ℤ
    pub chipset : String
    pub max_energy_db : Float
    pub seq_nums : List ℕ
    pub last_seen : String
    pub freq_delta_hz : Option Float
    pub payload_b64 : Option (List ℕ)

  pub new_device : Entry F → Device
  new_device r = record {
    ntw_id = r.ntw_id;
    ntw_id_hex = r.ntw_id_hex;
    phy_ver = r.phy_ver;
    chipset = r.chipset;
    max_energy_db = r.energy_db;
    seq_nums = [];
    last_seen = r.timestamp;
    freq_delta_hz = none;
    payload_b64 = none;
  }

  -- The payload that the device shows after an entry: `to_bytes` may raise.
  pub shown_payload : Option ℕ → ℕ → Option (List ℕ) → Option (Option (List ℕ))
  shown_payload pv pb old =
      if pb == 0
      then some (some [])
      else elim pv [ none ↦ some old | some v ↦ encode_payload v pb >>= λ text. some (some text) ]

  pub update_device : Entry F → Device → Option Device
  unfolding shown_payload
  update_device r d = do
    payload ← shown_payload r.payload_val (or_zero r.payload_bytes) d.payload_b64
    some (record d {
      max_energy_db = r.energy_db;
      seq_nums = d.seq_nums ++ (r.seq_num ∷ []);
      last_seen = r.timestamp;
      freq_delta_hz = elim r.freq_delta_hz [ none ↦ d.freq_delta_hz | some f ↦ some f ];
      payload_b64 = payload;
    })

  -- The devices in the order in which they were first met.
  pub visit : Entry F → List Device → Option (List Device)
  unfolding new_device update_device
  visit r [] = update_device r (new_device r) >>= λ d. some (d ∷ [])
  visit r (d ∷ ds) =
      let others = visit r ds in
      if int_eq r.ntw_id d.ntw_id
      then update_device r d >>= (λ d'. some (d' ∷ ds))
      else others >>= λ ds'. some (d ∷ ds')

  pub visit_all : List (Entry F) → List Device → Option (List Device)
  visit_all [] ds = some ds
  visit_all (r ∷ rs) ds = visit r ds >>= visit_all rs

  -- The newest ten, and the defaults.
  pub finish : Device → Device
  finish d = record d {
    seq_nums = last_of 10 d.seq_nums;
    payload_b64 = elim d.payload_b64 [ none ↦ some [] | some text ↦ some text ];
  }

  -- `sorted(…, key=lambda x: x["ntw_id"])`
  pub put_device : Device → List Device → List Device
  put_device d [] = d ∷ []
  put_device d (e ∷ es) =
      let later = e ∷ put_device d es in if leb_ℤ d.ntw_id e.ntw_id then d ∷ e ∷ es else later

  pub sort_devices : List Device → List Device
  unfolding put_device
  sort_devices [] = []
  sort_devices (d ∷ ds) = put_device d (sort_devices ds)

  pub dev_list : List (Entry F) → Option (List Device)
  unfolding visit_all finish sort_devices
  dev_list entries = visit_all entries [] >>= λ ds. some (sort_devices (map finish ds))

  -- The corrections in percent, by chipset.
  pub rs_pct : Entry F → Option Float
  rs_pct r = r.pdu_n_corr >>= λ n. r.num_pdu_symbols >>= λ total.
      if total == 0
      then none
      else some (over (times (frac 100 1) (of_int (pos n))) (of_int (pos total)))

  pub add_pct : String → Float → List (String × List Float) → List (String × List Float)
  add_pct chip pct [] = (chip, pct ∷ []) ∷ []
  add_pct chip pct ((c, pcts) ∷ groups) =
      let others = (c, pcts) ∷ add_pct chip pct groups in
      if str_eq c chip then (c, pcts ++ (pct ∷ [])) ∷ groups else others

  pub rs_by_chipset : List (Entry F) → List (String × List Float) → List (String × List Float)
  unfolding rs_pct add_pct
  rs_by_chipset [] groups = groups
  rs_by_chipset (r ∷ rs) groups = rs_by_chipset rs (
      if str_eq r.chipset ""
      then groups
      else elim (rs_pct r) [ none ↦ groups | some pct ↦ add_pct r.chipset pct groups ])

  pub sum_from : Float → List Float → Float
  sum_from acc [] = acc
  sum_from acc (x ∷ xs) = sum_from (plus acc x) xs

  -- The statistics of a chipset, with the average that this reply adds.
  pub record ChipsetStat : Type 0 where
    pub counts : List ℕ
    pub avg_rs_corr_pct : Option Float

  module _ (round1 : Float → Float) where
    pub set_avg : (String × List Float) → List (String × ChipsetStat) → List (String × ChipsetStat)
    unfolding sum_from
    set_avg (chip, pcts) [] = []
    set_avg (chip, pcts) ((c, stat) ∷ stats) =
        let avg = round1 (over (sum_from (frac 0 1) pcts) (of_int (pos (length pcts)))) in
        let others = (c, stat) ∷ set_avg (chip, pcts) stats in
        if str_eq c chip then (c, record stat { avg_rs_corr_pct = some avg }) ∷ stats else others

    pub set_avgs :
        List (String × List Float) → List (String × ChipsetStat) → List (String × ChipsetStat)
    unfolding set_avg
    set_avgs [] stats = stats
    set_avgs (g ∷ groups) stats = set_avgs groups (set_avg g stats)

    -- The state that the reply reads.
    pub record Seen : Type 0 where
      pub decode_results : List (Entry F)
      pub chipset_stats : List (String × ChipsetStat)
      pub td_latest_img : List ℕ
      pub td_zoom_latest_img : List ℕ
      pub rx_connected : Bool
      pub settings : Settings
      pub td_status : List ℕ

    pub record Reply : Type 0 where
      pub sdr_connected : Bool
      pub devices : List Device
      pub n_unique_devices : ℕ
      pub td_img : List ℕ
      pub td_zoom_img : List ℕ
      pub chipset_stats : List (String × ChipsetStat)
      pub settings : Settings
      pub td_status : List ℕ

    pub api_status : Seen → Option Reply
    unfolding dev_list rs_by_chipset set_avgs
    api_status s = do
      devices ← dev_list s.decode_results
      some (record {
        sdr_connected = s.rx_connected;
        devices = devices;
        n_unique_devices = length devices;
        td_img = b64encode s.td_latest_img;
        td_zoom_img = b64encode s.td_zoom_latest_img;
        chipset_stats = set_avgs (rs_by_chipset s.decode_results []) s.chipset_stats;
        settings = s.settings;
        td_status = s.td_status;
      })
