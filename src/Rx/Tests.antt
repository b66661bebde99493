-- ===== src/Rx/Tests.antt =====
-- Runs of the receive thread of src/stream_web/gnuradio_rx.py.
use sdr_docker.Base.{ℕ, ◌≡◌, refl, true, false, none, some, List, [], ◌∷◌, arith}
use sdr_docker.Base.Int.{pos}
use sdr_docker.Base.Floats.{milli_floats}
use sdr_docker.IqRing.Window.{IsValid, fresh, fresh-IsValid}
use sdr_docker.Rx.{Outside, connect}
use sdr_docker.Rx.Loop.{Pass, rx_stopped, rx_passes}
use sdr_docker.Rx.Connect.{Ended, connect-Ended}
use sdr_docker.Rx.Device.{driver_plutosdr, open_device, drive_all, first_tuner, rx_passes-OnDevice}
use sdr_docker.Rx.Sink.{BufferSink, Call, work_all, IsLogged, work_all-IsLogged}

-- A radio that is not there.
abbrev unplugged : Outside ℕ
unplugged = record { runs = λ i. true; opens = λ i. none; waits = λ i k. true }

connect-Ended_example : Ended unplugged (connect unplugged 10 0)
connect-Ended_example = connect-Ended unplugged 10 (omega arith)

-- A client asks for 90 dB and another frequency, and the radio takes the gain only; then for 30 dB.
abbrev first_pass : Pass
first_pass = record {
  asked_gain = some (pos 90);
  asked_lo = some (pos 2403000000);
  is_stale = false;
  gain_taken = true;
  lo_taken = false;
}

abbrev next_pass : Pass
next_pass = record first_pass { asked_gain = some (pos 30); asked_lo = none }

rx_passes-OnDevice_example :
    let (r, s) =
      drive_all
        (pos 0)
        (pos 60)
        (first_pass ∷ next_pass ∷ [])
        (open_device true driver_plutosdr (pos 7), first_tuner (pos 0) (pos 60) (pos 2403000000)) in
    (rx_passes
        (pos 0)
        (pos 60)
        true
        (first_pass ∷ next_pass ∷ [])
        (first_tuner (pos 0) (pos 60) (pos 2403000000))
      ≡ rx_stopped s)
    × (s.lo_freq ≡ r.freq_hz)
    × (s.rx_gain ≡ r.gain_db)
    × (r.gain_mode ≡ false)
rx_passes-OnDevice_example =
    rx_passes-OnDevice (pos 0) (pos 60) first_pass (next_pass ∷ []) driver_plutosdr (pos 7)
      (pos 2403000000) (refl, (refl, tt))

abbrev idle : BufferSink milli_floats ℕ 4
idle = record {
  ring = fresh 4 0;
  running_peak = pos 0;
  rx_peak_frac = pos 0;
  prev_work_time = pos 100;
  rx_overflows = 0;
  drop_queue = [];
}

-- The second call comes 90 ms after the first, the third 100 ms after that, when the queue is full.
abbrev calls : List (Call milli_floats ℕ 4)
calls =
    record { now = pos 110; scaled = pos 500; samples = 1 ∷ 2 ∷ 3 ∷ 4 ∷ []; queue_takes = true }
    ∷ record { now = pos 200; scaled = pos 400; samples = 5 ∷ 6 ∷ []; queue_takes = true }
    ∷ record { now = pos 300; scaled = pos 400; samples = 7 ∷ []; queue_takes = false }
    ∷ []

work_all-IsLogged_example :
    (s' : BufferSink milli_floats ℕ 4) × (work_all milli_floats ℕ 4 calls idle ≡ some s')
    × IsValid 4 s'.ring
    × IsLogged milli_floats ℕ 4 0 calls idle s'
work_all-IsLogged_example =
    work_all-IsLogged milli_floats ℕ 4 calls idle (fresh-IsValid 4 0)
      (omega arith, (omega arith, (omega arith, tt)))
