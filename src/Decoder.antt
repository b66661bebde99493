-- ===== src/Decoder.antt =====
-- What the program takes from hubble_satnet_decoder, a package that is not in the repository: the
-- protocol's constants, and the shape of an attempt and a packet, read by `dict.get`. A packet is
-- read through the same fields. Values are parameters; `none` is a missing key or `None`.
use Prim.Native.String.{String}
use text.Mathlib.Text.{◌==◌ as str_eq}
use sdr_docker.Base.{ℕ, ◌+◌, Bool, false, Option, none, some, IsThere}
use sdr_docker.Base.Int.{ℤ}
use sdr_docker.Base.Floats.{FloatOps}

pub record Protocol : Type 0 where
  pub preamble_len : ℕ
  pub num_header_syms : ℕ
  pub samples_per_symbol : ℕ
  -- `slot_samples[ver]["slot"]`, and the entry of version 1
  pub slot : ℤ → Option ℕ
  pub slot_v1 : ℕ

-- `slot_samples.get(ver, slot_samples[1])["slot"]`
abbrev pub slot_of : Protocol → ℤ → ℕ
slot_of p ver = elim (p.slot ver) [ none ↦ p.slot_v1 | some n ↦ n ]

-- `entry.get("num_pdu_symbols") or 0`
abbrev pub or_zero : Option ℕ → ℕ
or_zero none = 0
or_zero (some n) = n

abbrev pub total_symbols : Protocol → Option ℕ → ℕ
total_symbols p num_pdu_symbols = p.preamble_len + p.num_header_syms + or_zero num_pdu_symbols

abbrev pub is_text : Option String → String → Bool
is_text none t = false
is_text (some s) t = str_eq s t

module _ (F : FloatOps) where
  open F use {Float}

  pub record Attempt : Type 0 where
    pub time_s : Option Float
    pub start_sample : Option ℕ
    pub signal_duration_s : Option Float
    pub phy_ver : Option ℤ
    pub num_pdu_symbols : Option ℕ
    pub chipset : Option String
    pub ntw_id : Option ℤ
    pub seq_num : Option ℕ
    pub auth_tag : Option ℕ
    pub payload_val : Option ℕ
    pub reason : Option String
    pub decoded : Bool
    pub sample_drop : Bool
    pub freq_hz : Float
    pub f0_hz : Option Float
    pub preamble_duration_s : Option Float
    pub total_energy_db : Option Float
    pub energy_db : Option Float
    pub channel_num : Option ℕ
    pub freq_delta_hz : Option Float
    pub payload_bytes : Option ℕ
    pub header_n_corr : Option ℕ
    pub pdu_n_corr : Option ℕ

  -- A packet with the keys that the cycle reads by `[]`.
  pub record IsComplete (a : Attempt) : Type 0 where
    pub time_s : IsThere a.time_s
    pub phy_ver : IsThere a.phy_ver
    pub ntw_id : IsThere a.ntw_id
    pub seq_num : IsThere a.seq_num
    pub auth_tag : IsThere a.auth_tag
    pub total_energy_db : IsThere a.total_energy_db
