-- ===== src/Processor/Tests.antt =====
-- Runs of the steps of the cycle of src/stream_web/processor.py.
use sdr_docker.Base.{inr, ◌+◌, ◌%◌, ◌<◌, ◌≡◌, ◌↔◌, true, false, none, some, [], ◌∷◌, All, arith}
use sdr_docker.Base.Int.{pos}
use sdr_docker.Base.Floats.{milli_floats}
use sdr_docker.Decoder.{Attempt}
use sdr_docker.IqRing.{back}
use sdr_docker.Processor.Drops.{drop_offset, drop_offset-eq-some_iff}
use sdr_docker.Processor.Dedup.{dedupe, IsShown, dedupe-IsShown}

drop_offset-eq-some_iff_example :
    (drop_offset 10 (back 10 3 4) 3 10 ≡ some 1) ↔ ((1 < 4) × ((back 10 3 4 + 1) % 10 ≡ 10 % 10))
drop_offset-eq-some_iff_example =
    drop_offset-eq-some_iff 10 4 3 10 1 (omega arith) (omega arith) (omega arith) (omega arith)
      (omega arith) (inr (omega arith))

abbrev pub packet : Attempt milli_floats
packet = record {
  time_s = some (pos 400);
  start_sample = some 312500;
  signal_duration_s = some (pos 300);
  phy_ver = some (pos 1);
  num_pdu_symbols = some 20;
  chipset = some "esp32";
  ntw_id = some (pos 77);
  seq_num = some 5;
  auth_tag = some 9;
  payload_val = some 1234;
  reason = none;
  decoded = true;
  sample_drop = false;
  freq_hz = pos 12000;
  f0_hz = none;
  preamble_duration_s = none;
  total_energy_db = some (pos 61250);
  energy_db = none;
  channel_num = some 3;
  freq_delta_hz = some (pos 120);
  payload_bytes = some 2;
  header_n_corr = some 0;
  pdu_n_corr = some 1;
}

dedupe-IsShown_example :
    All
      (IsShown milli_floats
        (pos 50000)
        []
        (dedupe milli_floats (pos 50000) [] (packet ∷ packet ∷ [])).0)
      (packet ∷ packet ∷ [])
dedupe-IsShown_example = dedupe-IsShown milli_floats (pos 50000) [] (packet ∷ packet ∷ [])
