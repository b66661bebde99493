-- ===== src/Rx.antt =====
-- The receive thread of src/stream_web/gnuradio_rx.py and the supervisor of run_stream.py:
-- connecting, one pass of the gain and LO loop, the exit for a restart, and the sink's `work` with
-- its overflow detection. The radio is a parameter: whether an opening, a gain or a frequency is
-- taken. Gains and frequencies are integers.
mod Tests
pub mod Connect
pub mod Tuning
pub mod Sink
pub mod Loop
pub mod Device
use sdr_docker.Base.{
  ℕ, zero, suc, ◌+◌, ◌*◌, Bool, true, false, ◌&&◌, ◌||◌, not, Option, none, some, List, [], ◌∷◌,
  ◌++◌, leb, ◌==◌, keep, map, if◌then◌else◌,
}
use sdr_docker.Base.Int.{ℤ, pos, leb_ℤ, abs_ℤ, ◌-ℤ◌}
use sdr_docker.TdCapture.{int_eq}
use sdr_docker.Config.{open_attempts_before_restart, sdr_retry_interval_s}

abbrev pub exit_code_connection_lost : ℕ
exit_code_connection_lost = 3

-- How `_connect` ends; `out_of_fuel` is the model's.
pub data Connected (A : Type 0) : Type 0 where
  connected : A → Connected A
  stopped : Connected A
  exited : ℕ → Connected A
  out_of_fuel : Connected A

-- What the outside does while `_connect` runs: whether `running` is set at the loop's test before
-- attempt `i + 1`, what that attempt opens, and whether `running` is set at the k-th test of the
-- wait after it.
pub record Outside (A : Type 0) : Type 0 where
  pub runs : ℕ → Bool
  pub opens : ℕ → Option A
  pub waits : ℕ → ℕ → Bool

-- The wait between two attempts: false when `running` is cleared at one of its `n` tests.
pub wait_out : (ℕ → Bool) → ℕ → ℕ → Bool
wait_out is_set zero k = true
wait_out is_set (suc n) k = is_set k && wait_out is_set n (suc k)

module _ {A : Type 0} (o : Outside A) where
  open o use {runs, opens, waits}

  -- `i` attempts have been made.
  pub connect : ℕ → ℕ → Connected A
  connect zero i = out_of_fuel
  connect (suc fuel) i =
      let again = connect fuel (suc i) in
      if not (runs i) then stopped else elim (opens i) [
        | some fg ↦ connected fg
        | none ↦
            if leb open_attempts_before_restart (suc i)
            then exited exit_code_connection_lost
            else if wait_out (waits i) (sdr_retry_interval_s * 10) 0
            then again
            else stopped
      ]

-- What the loop of `rx_loop` reads and writes: the gain and frequency last set on the radio, and
-- the shared ones that the web routes change.
pub record Tuner : Type 0 where
  pub cur_gain : ℤ
  pub cur_freq : ℤ
  pub rx_gain : ℤ
  pub lo_freq : ℤ

abbrev pub max_ℤ : ℤ → ℤ → ℤ
max_ℤ a b = if leb_ℤ a b then b else a

abbrev pub min_ℤ : ℤ → ℤ → ℤ
min_ℤ a b = if leb_ℤ a b then a else b

module _ (gain_min gain_max : ℤ) (manual : Bool) where
  pub clamp_gain : ℤ → ℤ
  clamp_gain g = max_ℤ gain_min (min_ℤ gain_max g)

  -- The gain half of a pass; `taken` is whether `set_gain` returns.
  pub tune_gain : Bool → Tuner → Tuner
  unfolding clamp_gain
  tune_gain taken s =
      let new_gain = clamp_gain s.rx_gain in
      if manual && not (int_eq s.rx_gain s.cur_gain)
      then (if taken
          then record s { cur_gain = new_gain; rx_gain = new_gain }
          else record s { rx_gain = s.cur_gain })
      else s

  -- The LO half.
  pub tune_lo : Bool → Tuner → Tuner
  tune_lo taken s =
      if not (int_eq s.lo_freq s.cur_freq)
      then (if taken then record s { cur_freq = s.lo_freq } else record s { lo_freq = s.cur_freq })
      else s

  -- A pass of the loop: an exit once no sample has come for longer than the limit.
  pub tune : (is_stale : Bool) → Bool → Bool → Tuner → Option Tuner
  tune is_stale gain_taken lo_taken s =
      if is_stale then none else some (tune_lo lo_taken (tune_gain gain_taken s))

  -- `/api/gain`, with `direction * config.RX_GAIN_STEP_DB` as `change`.
  pub api_gain : ℤ → Tuner → Tuner
  unfolding clamp_gain
  api_gain wanted s = record s { rx_gain = clamp_gain wanted }

-- The workers that `_exit_for_restart` has to terminate: those alive after the joins.
pub exit_for_restart : {W : Type 0} → (W → Bool) → List W → List W × ℕ
exit_for_restart is_alive workers = (keep is_alive workers, exit_code_connection_lost)

-- The exit code on which the supervisor starts the program again: a constant of its own.
abbrev pub restarted_exit_code : ℕ
restarted_exit_code = 3

-- The supervisor's loop over the exit codes of the runs to come: how many runs it starts.
pub supervise : List ℕ → ℕ
supervise [] = 0
supervise (code ∷ codes) =
    let rest = supervise codes in if code == restarted_exit_code then suc rest else 1
