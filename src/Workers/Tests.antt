-- ===== src/Workers/Tests.antt =====
-- Runs of the watchdog of src/stream_web/app.py.
use sdr_docker.Base.{◌≡◌, refl, true, false, List, [], ◌∷◌}
use sdr_docker.Base.Int.{ℤ, pos}
use sdr_docker.Base.Floats.{milli_floats}
use sdr_docker.Workers.{Worker, is_recent}
use sdr_docker.Workers.Restarts.{crash_loop, dead, Burst, crash_loop_ends}

abbrev more_looks : List ℤ
more_looks = pos 2000 ∷ pos 3000 ∷ pos 4000 ∷ pos 5000 ∷ pos 6000 ∷ []

abbrev looks : List ℤ
looks = pos 1000 ∷ more_looks

looks-Burst : Burst milli_floats [] looks
unfolding is_recent
looks-Burst = (
  tt,
  (
    (refl, tt),
    (
      (refl, (refl, tt)),
      (
        (refl, (refl, (refl, tt))),
        ((refl, (refl, (refl, (refl, tt)))), ((refl, (refl, (refl, (refl, (refl, tt))))), tt)),
      ),
    ),
  ),
)

-- One restart is on record, and the worker is found dead five times more.
crash_loop_ends_example :
    let w = crash_loop milli_floats more_looks (dead milli_floats 2 (pos 1000 ∷ []) false) in
    (w.generation ≡ 6) × (w.gave_up ≡ true)
crash_loop_ends_example = crash_loop_ends milli_floats more_looks 2 (pos 1000 ∷ []) looks-Burst.1

-- A worker that died for the second time.
abbrev fallen : Worker milli_floats
fallen = record { alive = false; generation = 2; restarts = pos 1000 ∷ []; gave_up = false }
