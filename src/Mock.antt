-- ===== src/Mock.antt =====
-- `_mock_injector` of src/stream_web/app.py: the packets of the devices that take the radio's place.
-- What the clock shows at each packet is a parameter; `running` is cleared after a number of them.
pub mod Numbers
use Prim.Native.String.{String}
use sdr_docker.Base.{
  ℕ, zero, suc, ◌+◌, ◌%◌, ◌==◌, true, Option, none, some, List, [], ◌∷◌, map, if◌then◌else◌, ◌>>=◌,
}
use sdr_docker.Base.Int.{ℤ, pos, negsuc}
use sdr_docker.Base.Floats.{FloatOps}
use sdr_docker.Base.Digits.{format_hex_ℤ}
use sdr_docker.Decoder.{Protocol}
use sdr_docker.Timing.Stats.{Statistics}
use sdr_docker.Results.{State, add_entries}
use sdr_docker.Processor.Entries.{Entry}
use sdr_docker.Processor.Cycle.{Tools, cycle_carried}

pub record MockDevice : Type 0 where
  pub ntw_id : ℕ
  pub phy_ver : ℤ
  pub chipset : String

abbrev pub device_a : MockDevice
device_a = record { ntw_id = 2_882_343_476; phy_ver = pos 1; chipset = "chipset-A" }

abbrev pub device_b : MockDevice
device_b = record { ntw_id = 3_735_928_559; phy_ver = pos 1; chipset = "chipset-B" }

pub mock_devices : List MockDevice
mock_devices = device_a ∷ device_b ∷ []

-- `itertools.cycle`: the next device and those left of this turn.
pub next_device : List MockDevice → MockDevice × List MockDevice
next_device [] = (device_a, device_b ∷ [])
next_device (d ∷ upcoming) = (d, upcoming)

-- The next sequence number of each network id.
abbrev pub Counters : Type 0
Counters = List (ℕ × ℕ)

pub counter_of : ℕ → Counters → Option ℕ
counter_of id [] = none
counter_of id ((i, seq) ∷ counters) = if i == id then some seq else counter_of id counters

pub set_counter : ℕ → ℕ → Counters → Counters
set_counter id n [] = (id, n) ∷ []
set_counter id n ((i, seq) ∷ counters) =
    let later = (i, seq) ∷ set_counter id n counters in if i == id then (i, n) ∷ counters else later

module _ (F : FloatOps) where
  open F use {Float, of_int}

  -- What the clock shows when an entry is made.
  pub record Clock : Type 0 where
    pub timestamp : String
    pub unix_ts : Float

  pub mock_entry : MockDevice → ℕ → Clock → Entry F
  mock_entry d seq k = record {
    timestamp = k.timestamp;
    unix_ts = k.unix_ts;
    rx_start_unix_ts = none;
    phy_ver = d.phy_ver;
    ntw_id = pos d.ntw_id;
    ntw_id_hex = 48 ∷ 120 ∷ format_hex_ℤ true 8 (pos d.ntw_id);
    seq_num = seq;
    auth_tag = 0;
    energy_db = of_int (negsuc 59);
    chipset = d.chipset;
    channel_num = some 0;
    freq_delta_hz = some (of_int (pos 0));
    payload_val = none;
    payload_bytes = some 0;
    header_n_corr = none;
    pdu_n_corr = none;
    num_pdu_symbols = none;
    timing = none;
  }

  module _ (p : Protocol) (st : Statistics F) (t : Tools F p st) (clock : ℕ → Clock) where
    -- The next `n` packets, of which the first is number `i`. `upcoming` are the devices that are
    -- left of this turn of `itertools.cycle`. A network id without a counter raises: `none`.
    pub inject :
        ℕ
        → ℕ
        → List MockDevice
        → Counters
        → State (cycle_carried F p st t)
        → Option (State (cycle_carried F p st t))
    unfolding mock_devices counter_of set_counter mock_entry
    inject zero i upcoming counters s = some s
    inject (suc n) i upcoming counters s =
        let (d, left) = next_device upcoming in
        do
          seq ← counter_of d.ntw_id counters
          inject n (suc i) left (set_counter d.ntw_id ((seq + 1) % 256) counters)
              (add_entries (cycle_carried F p st t) (mock_entry d seq (clock i) ∷ []) s)

    pub mock_injector : ℕ → State (cycle_carried F p st t) → Option (State (cycle_carried F p st t))
    unfolding inject mock_devices
    mock_injector n s = inject n 0 mock_devices (map (λ d. (d.ntw_id, 0)) mock_devices) s
