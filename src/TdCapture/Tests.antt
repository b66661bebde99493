-- ===== src/TdCapture/Tests.antt =====
-- Cycles of the selection of src/stream_web/td_capture.py.
use sdr_docker.Base.{refl, true, false, none, some, [], ◌∷◌}
use sdr_docker.Base.Int.{pos}
use sdr_docker.Base.Floats.{milli_floats}
use sdr_docker.Decoder.{Protocol, Attempt}
use sdr_docker.TdCapture.{ntw_id, Hit, TdCaptureState, Cycle, select_td_capture, current_target}
use sdr_docker.TdCapture.Invariant.{Served, select_td_capture-Served}

abbrev protocol : Protocol
protocol = record {
  preamble_len = 8;
  num_header_syms = 12;
  samples_per_symbol = 6250;
  slot = λ v. none;
  slot_v1 = 12500;
}

abbrev packet : Attempt milli_floats
packet = record {
  time_s = some (pos 400);
  start_sample = some 312500;
  signal_duration_s = some (pos 300);
  phy_ver = some (pos 1);
  num_pdu_symbols = some 4;
  chipset = some "esp32";
  ntw_id = some (pos 77);
  seq_num = some 5;
  auth_tag = some 9;
  payload_val = some 1234;
  reason = none;
  decoded = true;
  sample_drop = false;
  freq_hz = pos 12000;
  f0_hz = none;
  preamble_duration_s = none;
  total_energy_db = some (pos 61250);
  energy_db = none;
  channel_num = some 3;
  freq_delta_hz = some (pos 120);
  payload_bytes = some 2;
  header_n_corr = some 0;
  pdu_n_corr = some 1;
}

abbrev cycle : Cycle milli_floats protocol
cycle = record {
  attempts = packet ∷ [];
  packets = packet ∷ [];
  decode_start = 1000;
  buf_len = 1562500;
  chunk_len = 1171875;
  now = pos 5000;
}

abbrev idle : TdCaptureState milli_floats protocol
idle = record { pending_hit = none; pending_confirm = none; target = none }

select_td_capture-Served_example :
    Served milli_floats protocol 1171875
      (some (ntw_id (pos 77)))
      (select_td_capture milli_floats protocol idle true none (some (pos 77)) cycle)
unfolding current_target
select_td_capture-Served_example =
    select_td_capture-Served milli_floats protocol idle true none (some (pos 77)) cycle
      (record { pending = tt; awaited = tt; same = refl })

-- A hit 300,000 samples into an earlier window, which started 200,000 samples before this one.
abbrev held : Hit milli_floats protocol
held = record { attempt = packet; abs_start = 101000; rel_start = none; first_seen = pos 4400 }
