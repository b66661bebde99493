-- ===== src/Api/Tests.antt =====
-- Replies of src/stream_web/app.py on two entries of one device.
use sdr_docker.Base.{◌≡◌, refl, true, none, some, List, [], ◌∷◌, All, arith}
use sdr_docker.Base.Int.{pos}
use sdr_docker.Base.Floats.{milli_floats}
use sdr_docker.Processor.Entries.{Entry, ntw_id_hex_of}
use sdr_docker.Processor.Cycle.Tests.{protocol, statistics, tools, nothing_yet}
use sdr_docker.Api.Packets.{
  Line, TellAll, EntryFits, api_packets, api_packets-TellAll, api_packets_overflow,
}
use sdr_docker.Api.Status.{Device, dev_list}
use sdr_docker.Api.Status.Devices.{is_listed}
use sdr_docker.Api.Status.Order.{IsReport, IsAscending, dev_list-IsReport}

abbrev pub entry : Entry milli_floats
entry = record {
  timestamp = "12:00:00";
  unix_ts = pos 1000;
  rx_start_unix_ts = none;
  phy_ver = pos 1;
  ntw_id = pos 77;
  ntw_id_hex = ntw_id_hex_of (pos 1) (pos 77);
  seq_num = 5;
  auth_tag = 9;
  energy_db = pos 61000;
  chipset = "esp32";
  channel_num = some 3;
  freq_delta_hz = none;
  payload_val = some 1234;
  payload_bytes = some 2;
  header_n_corr = none;
  pdu_n_corr = some 1;
  num_pdu_symbols = some 20;
  timing = none;
}

abbrev next_entry : Entry milli_floats
next_entry = record entry { seq_num = 6; energy_db = pos 58000 }

abbrev too_large : Entry milli_floats
too_large = record entry { payload_val = some 70_000 }

entry-EntryFits : EntryFits milli_floats entry
entry-EntryFits = λ bytes. omega arith

api_packets-TellAll_example :
    ((ls : List (Line milli_floats)) × ((api_packets milli_floats protocol statistics tools
          (record nothing_yet { packet_feed = entry ∷ [] })).0
        ≡ some ls)
      × TellAll milli_floats (entry ∷ []) ls)
    × ((api_packets milli_floats protocol statistics tools
          (record nothing_yet { packet_feed = entry ∷ [] })).1.packet_feed
        ≡ [])
api_packets-TellAll_example =
    api_packets-TellAll milli_floats protocol statistics tools
      (record nothing_yet { packet_feed = entry ∷ [] }) (entry-EntryFits, tt)

api_packets_overflow_example :
    api_packets milli_floats protocol statistics tools
      (record nothing_yet { packet_feed = entry ∷ too_large ∷ [] })
    ≡ (none, nothing_yet)
api_packets_overflow_example =
    api_packets_overflow milli_floats protocol statistics tools
      (record nothing_yet { packet_feed = entry ∷ too_large ∷ [] }) (entry ∷ []) [] too_large 70_000
      refl refl (omega arith) (omega arith)

dev_list-IsReport_example :
    (ds : List (Device milli_floats)) × (dev_list milli_floats (entry ∷ next_entry ∷ []) ≡ some ds)
    × All (IsReport milli_floats (entry ∷ next_entry ∷ [])) ds
    × All (λ e. is_listed milli_floats e.ntw_id ds ≡ true) (entry ∷ next_entry ∷ [])
    × IsAscending milli_floats ds
dev_list-IsReport_example =
    dev_list-IsReport milli_floats (entry ∷ next_entry ∷ [])
      (entry-EntryFits, (entry-EntryFits, tt))
