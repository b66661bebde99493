-- ===== src/Hitl/Tests.antt =====
-- A run of the annotator of src/stream_web/hitl.py, where an entry is its phy version, and an
-- annotation.
use sdr_docker.Base.{ℕ, ◌==◌, refl, arith, Bool, false, List, [], ◌∷◌, All, some}
use Prim.Native.String.{String}
use sdr_docker.Base.Floats.{milli_floats}
use sdr_docker.Base.Int.{ℤ, pos, ltb_ℤ}
use sdr_docker.Api.Tests.{entry}
use sdr_docker.Hitl.Annotation.{Value, annotation_data, IsPlain, Joins, annotation_data-Joins}
use sdr_docker.Hitl.{Event, submits, gets, finishes, run, started}
use sdr_docker.Hitl.Counts.{Counted, run-Counted}

abbrev is_one : ℕ → Bool
is_one v = v == 1

abbrev posts : List (Event ℕ is_one)
posts = submits (1 ∷ 0 ∷ 1 ∷ []) ∷ gets ∷ finishes false ∷ gets ∷ []

run-Counted_example : Counted ℕ is_one 3 (run ℕ is_one posts (started ℕ is_one))
run-Counted_example =
    run-Counted ℕ is_one posts 0 (started ℕ is_one)
      (record { adds_up = refl; fits = omega arith; queued_v1 = tt; posting_v1 = tt })

abbrev is_small : ℤ → Bool
is_small x = ltb_ℤ x (pos 1_000_000)

abbrev noon : ℤ → List ℕ
noon x = 49 ∷ 50 ∷ []

abbrev annotation : List (String × Value milli_floats is_small noon)
annotation = annotation_data milli_floats is_small noon entry (some 2_482_440_375) (some "pluto")

annotation_data-Joins_example :
    All (IsPlain milli_floats is_small noon) annotation
    × Joins milli_floats is_small noon entry annotation
annotation_data-Joins_example =
    annotation_data-Joins milli_floats is_small noon entry (some 2_482_440_375) (some "pluto")
