-- ===== src/Processor/Cycle/Tests.antt =====
-- Cycles of src/stream_web/processor.py that find one packet in a ring of zeros.
use sdr_docker.Base.{
  ℕ, ◌≡◌, ◌≤◌, refl, true, false, none, some, List, [], ◌∷◌, ◌++◌, map, replicate, length,
  length-append, length-replicate, ltb, arith, inr, All, All-append,
}
use sdr_docker.Base.Int.{pos}
use sdr_docker.Base.Floats.{milli_floats}
use sdr_docker.Config.{iq_buffer_size}
use sdr_docker.Decoder.{Protocol, Attempt, IsComplete}
use sdr_docker.Timing.Stats.{Statistics}
use sdr_docker.Results.{State, Result}
use sdr_docker.Processor.Dedup.{Recent, length-dedupe-le, dedupe-All}
use sdr_docker.Processor.Tests.{packet}
use sdr_docker.Processor.Entries.{DescribeAll, payload_encodes}
use sdr_docker.Processor.Cycle.{cycle_carried, Tools, Observed, Loop, decoded, kept_packets, cycle}
use sdr_docker.Processor.Cycle.Sound.{IsSound, IsRead, Ran, cycle-Ran}
use sdr_docker.Processor.Cycle.Delivery.{run_cycles, all_kept, polled, run_cycles-polled}

abbrev pub protocol : Protocol
protocol = record {
  preamble_len = 8;
  num_header_syms = 12;
  samples_per_symbol = 6250;
  slot = λ v. none;
  slot_v1 = 12500;
}

abbrev pub statistics : Statistics milli_floats
statistics = record { mean = λ xs. pos 8; std = λ xs. pos 0; round4 = λ x. x }

abbrev first_of : List ℕ → ℕ
first_of [] = 0
first_of (b ∷ bs) = b

-- A decoder that knows one name, and refuses bytes that begin past ASCII.
abbrev pub tools : Tools milli_floats protocol statistics
tools = record {
  Sample = ℕ;
  Chunk = ℕ;
  ChipsetStats = ℕ;
  compute_spec_chunk = λ xs. some 1;
  decode_signal = λ xs. some (packet ∷ [], packet ∷ []);
  render_spec_image = λ chunks history. some (255 ∷ []);
  above = λ xs. map (λ x. ltb 0 x) xs;
  round1 = λ x. x;
  status_text = λ s. 63 ∷ [];
  decode_utf8 = λ bytes. elim (ltb (first_of bytes) 128) [ true ↦ some "esp32" | false ↦ none ];
  has_chipsets = λ k. ltb 0 k;
  no_chipsets = 0;
}

-- Held back, since a buffer has more than a million samples.
pub silence : ℕ → List ℕ
silence n = replicate n 0

length-silence : (n : ℕ) → length (silence n) ≡ n
unfolding silence
length-silence n = length-replicate n 0

abbrev pub observed : ℕ → Observed milli_floats protocol statistics tools
observed at = record {
  widx = 1_562_500;
  spec_buffer = silence iq_buffer_size;
  decode_buffer = silence iq_buffer_size;
  drop_positions = 700_000 ∷ [];
  t0 = pos at;
  clocks = record { wall_t0 = pos at; ts = "12:00:00"; unix_ts = pos at };
  dt_ms = pos 90000;
  spec_ms = pos 20000;
  dec_ms = pos 60000;
  render_ms = pos 9000;
  rx_gain = pos 20000;
  rx_peak_frac = pos 250;
  rx_overflows = 1;
  chipset_stats = 1;
  view_mode = 1;
  lo_freq = 2_482_440_375;
  td_running = true;
  td_has_ntw = true;
  td_ntw_id = pos 77;
  td_chipset = 101 ∷ 115 ∷ 112 ∷ 51 ∷ 50 ∷ [];
  td_zoom_n_syms = 6;
  td_late = false;
  spectrum_late = false;
}

abbrev idle : Loop milli_floats protocol statistics tools
idle = record {
  spec_chunks = [];
  detection_history = [];
  recent_decodes = [];
  td_state = record { pending_hit = none; pending_confirm = none; target = none };
  td_jobs = [];
  spectrum_jobs = [];
  results = [];
}

idle-IsSound : IsSound milli_floats protocol statistics tools idle
idle-IsSound = record {
  chunks = omega arith;
  td = record { pending = tt; awaited = tt; same = refl };
  one_td_job = omega arith;
  whole = tt;
  one_spectrum_job = omega arith;
  few = tt;
}

packet-IsComplete : IsComplete milli_floats packet
packet-IsComplete = record {
  time_s = (_, refl);
  phy_ver = (_, refl);
  ntw_id = (_, refl);
  seq_num = (_, refl);
  auth_tag = (_, refl);
  total_energy_db = (_, refl);
}

observed-IsRead : (at : ℕ) → IsRead milli_floats protocol statistics tools (observed at)
unfolding decoded
observed-IsRead at = record {
  ring = record { full = length-silence iq_buffer_size; index = omega arith };
  complete = (packet-IsComplete, tt);
  name = inr ("esp32", refl);
}

cycle-Ran_example :
    (l' : Loop milli_floats protocol statistics tools) × (cycle milli_floats protocol statistics
        tools
        (observed 50_000)
        idle
      ≡ some l')
    × Ran milli_floats protocol statistics tools (observed 50_000) idle l'
cycle-Ran_example =
    cycle-Ran milli_floats protocol statistics tools (observed 50_000) idle (observed-IsRead 50_000)
      idle-IsSound

abbrev pub nothing_yet : State (cycle_carried milli_floats protocol statistics tools)
nothing_yet = record {
  latest_img = [];
  latest_detections = [];
  decode_results = [];
  packet_feed = [];
  decode_stats = record {
    process_time_ms = pos 0;
    n_detections = 0;
    timestamp = "";
    t_spec_ms = pos 0;
    t_render_ms = pos 0;
    t_decode_ms = pos 0;
    rx_gain_db = pos 0;
    rx_peak_pct = pos 0;
    rx_overflows = 0;
  };
  chipset_stats = 0;
  td_latest_img = [];
  td_zoom_latest_img = [];
  td_status = [];
  td_decode_info = none;
  td_iq_segment = none;
}

abbrev two_cycles : List (Observed milli_floats protocol statistics tools)
two_cycles = observed 50_000 ∷ observed 50_600 ∷ []

abbrev kept : ℕ → Recent milli_floats → List (Attempt milli_floats)
kept at recent = (kept_packets milli_floats protocol statistics tools (observed at) recent).0

abbrev second : Recent milli_floats → Recent milli_floats
second recent = (kept_packets milli_floats protocol statistics tools (observed 50_000) recent).1

length-kept : (at : ℕ) (recent : Recent milli_floats) → length (kept at recent) ≤ 1
unfolding decoded kept_packets
length-kept at recent = length-dedupe-le milli_floats (pos at) _ (packet ∷ [])

kept-All :
    (at : ℕ) (recent : Recent milli_floats)
    → All (λ a. payload_encodes a.payload_val a.payload_bytes ≡ true) (kept at recent)
unfolding decoded kept_packets payload_encodes
kept-All at recent = dedupe-All milli_floats _ (pos at) _ (packet ∷ []) (refl, tt)

run_cycles-polled_example :
    (l' : Loop milli_floats protocol statistics tools) × (run_cycles milli_floats protocol
        statistics tools two_cycles idle
      ≡ some l')
    × ((new : List (Result (cycle_carried milli_floats protocol statistics tools))) × (l'.results
          ≡ new)
        × DescribeAll milli_floats protocol statistics
            (λ x. x)
            (all_kept milli_floats protocol statistics tools two_cycles [])
            (polled milli_floats protocol statistics tools new nothing_yet))
run_cycles-polled_example =
    run_cycles-polled milli_floats protocol statistics tools two_cycles idle nothing_yet
      (observed-IsRead 50_000, (observed-IsRead 50_600, tt)) idle-IsSound refl
      (omega (
        arith,
        length-kept 50_000 [],
        length-kept 50_600 (second []),
        length-append (kept 50_000 []) (kept 50_600 (second []) ++ []),
        length-append (kept 50_600 (second [])) [],
      ))
      (All-append _ (kept 50_000 []) _ (kept-All 50_000 [])
        (All-append _ (kept 50_600 (second [])) [] (kept-All 50_600 (second [])) tt))
