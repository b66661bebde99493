-- ===== src/Workers.antt =====
-- The watchdog over the worker processes: `_worker_watchdog` in src/stream_web/app.py. What the
-- source keeps in dictionaries by the worker's name (the process, the restart times, whether it was
-- given up) is one record for each worker here; a process is its generation and whether it lives.
mod Tests
pub mod Restarts
pub mod Startup
use sdr_docker.Base.{
  ℕ, suc, ◌+◌, Bool, true, false, not, ◌||◌, List, [], ◌∷◌, ◌++◌, keep, length, leb, if◌then◌else◌,
}
use sdr_docker.Base.Floats.{FloatOps}
use sdr_docker.Config.{worker_max_restarts}

module _ (F : FloatOps) where
  open F use {Float, frac, minus, lt}

  pub record Worker : Type 0 where
    pub alive : Bool
    pub generation : ℕ
    pub restarts : List Float
    pub gave_up : Bool

  -- A restart counts for _WORKER_RESTART_WINDOW_S, 60 s.
  pub is_recent : Float → Float → Bool
  is_recent now t = lt (minus now t) (frac 60 1)

  -- One look at one worker, at the time `now`.
  pub visit : Bool → Float → Worker → Worker
  unfolding is_recent
  visit running now w =
      if w.alive || (w.gave_up || not running)
      then w
      else (let recent = keep (is_recent now) w.restarts in
          if leb worker_max_restarts (length recent) then record w { gave_up = true } else record {
            alive = true;
            generation = suc w.generation;
            restarts = recent ++ (now ∷ []);
            gave_up = w.gave_up;
          })

  -- One round over all workers; each look reads the clock and the running flag anew.
  pub round : List (Bool × Float) → List Worker → List Worker
  round looks [] = []
  round [] (w ∷ ws) = w ∷ ws
  round ((running, now) ∷ looks) (w ∷ ws) = visit running now w ∷ round looks ws
