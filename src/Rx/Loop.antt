-- ===== src/Rx/Loop.antt =====
-- `rx_loop` of src/stream_web/gnuradio_rx.py from the first attempt to connect to its end.
use sdr_docker.Base.{ℕ, Bool, Option, none, some, List, [], ◌∷◌}
use sdr_docker.Base.Int.{ℤ, pos}
use sdr_docker.Config.{open_attempts_before_restart, rx_initial_gain_db, center_freq_hz}
use sdr_docker.Rx.{
  Connected, connected, stopped, exited, out_of_fuel, Outside, connect, Tuner, tune,
  exit_code_connection_lost,
}

-- How `rx_loop` ends.
pub data RxEnd : Type 0 where
  never_connected : RxEnd
  rx_stopped : Tuner → RxEnd
  rx_exited : ℕ → RxEnd

-- A pass of the loop: what the web routes wrote since the last one, whether no sample came for too
-- long, and whether the radio takes a gain and a frequency.
pub record Pass : Type 0 where
  pub asked_gain : Option ℤ
  pub asked_lo : Option ℤ
  pub is_stale : Bool
  pub gain_taken : Bool
  pub lo_taken : Bool

unfoldable pub asked : Pass → Tuner → Tuner
asked q s = record s {
  rx_gain = elim q.asked_gain [ none ↦ s.rx_gain | some g ↦ g ];
  lo_freq = elim q.asked_lo [ none ↦ s.lo_freq | some f ↦ f ];
}

module _ (gain_min gain_max : ℤ) (manual : Bool) where
  -- The passes while `running` is set.
  unfoldable pub rx_passes : List Pass → Tuner → RxEnd
  unfolding asked
  rx_passes [] s = rx_stopped s
  rx_passes (q ∷ qs) s =
      elim (tune gain_min gain_max manual q.is_stale q.gain_taken q.lo_taken (asked q s)) [
        | none ↦ rx_exited exit_code_connection_lost
        | some s' ↦ rx_passes qs s'
      ]

  -- What follows `_connect`; `lo` is the shared LO frequency when the radio is connected.
  pub after_connect : {A : Type 0} → List Pass → ℤ → Connected A → RxEnd
  unfolding rx_passes
  after_connect passes lo (connected fg) = rx_passes passes (record {
    cur_gain = pos rx_initial_gain_db;
    cur_freq = pos center_freq_hz;
    rx_gain = pos rx_initial_gain_db;
    lo_freq = lo;
  })
  after_connect passes lo stopped = never_connected
  after_connect passes lo (exited code) = rx_exited code
  after_connect passes lo out_of_fuel = never_connected

  -- `_connect` makes at most as many attempts as its fuel.
  pub rx_loop : {A : Type 0} → Outside A → List Pass → ℤ → RxEnd
  unfolding after_connect
  rx_loop o passes lo = after_connect passes lo (connect o open_attempts_before_restart 0)
