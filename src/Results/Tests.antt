-- ===== src/Results/Tests.antt =====
-- Runs of the packet feed of src/stream_web/app.py and of the render loops.
use sdr_docker.Base.{ℕ, ◌≡◌, refl, map, true, none, some, List, [], ◌∷◌, ◌++◌, arith, ltb}
use sdr_docker.Results.{Carried, State}
use sdr_docker.Results.Feed.{Event, drains, injects, polls, resets, run, run-delivers}
use sdr_docker.Results.Render.{blank, drawn, raised}
use sdr_docker.Results.Downloads.{
  Happening, posts, asks_reset, by_processor, by_td_renderer, event_of, newest, Shows, run-Shows,
  api_td_iq, api_td_info,
}

abbrev numbers : Carried
numbers = record {
  Entry = ℕ;
  Detection = ℕ;
  Stats = ℕ;
  ChipsetStats = ℕ;
  Info = ℕ;
  Segment = List ℕ;
  has_chipsets = λ n. true;
  no_chipsets = 0;
  zero_stats = λ n. 0;
  encodes = λ n. ltb n 256;
}

abbrev before : State numbers
before = record {
  latest_img = 255 ∷ [];
  latest_detections = [];
  decode_results = [];
  packet_feed = 1 ∷ [];
  decode_stats = 4;
  chipset_stats = 0;
  td_latest_img = 9 ∷ [];
  td_zoom_latest_img = 8 ∷ [];
  td_status = [];
  td_decode_info = none;
  td_iq_segment = none;
}

-- Two entries decoded, one injected, a poll, a reset and one more entry.
abbrev events : List (Event numbers)
events =
    drains (record (blank numbers) { decode_entries = some (2 ∷ 3 ∷ []) })
    ∷ injects (4 ∷ [])
    ∷ polls
    ∷ resets
    ∷ injects (5 ∷ [])
    ∷ []

run-delivers_example :
    (run numbers events before).0 ++ (run numbers events before).1.packet_feed
    ≡ 1 ∷ 2 ∷ 3 ∷ 4 ∷ 5 ∷ []
run-delivers_example =
    run-delivers numbers events before (omega arith, (omega arith, (omega arith, tt))) (refl, tt)
      (refl, (refl, (refl, (refl, tt))))

-- A capture that is drawn, a reset, one that is not, and a cycle of the processor.
abbrev happenings : List (Happening numbers)
happenings =
    posts (by_td_renderer (drawn (7 ∷ [], 3)) (drawn []) (1 ∷ 2 ∷ []))
    ∷ asks_reset
    ∷ posts (by_td_renderer (raised []) (drawn (6 ∷ [])) (5 ∷ []))
    ∷ posts (by_processor (blank numbers))
    ∷ []

run-Shows_example :
    Shows numbers
      (run numbers (map (event_of numbers) happenings) before).1
      (newest numbers none happenings)
unfolding api_td_iq api_td_info
run-Shows_example = run-Shows numbers happenings before none (refl, refl)
