-- ===== src/Timing/Stats/Tests.antt =====
-- Runs of src/stream_web/timing.py on a segment of 20 samples with two symbols.
use sdr_docker.Base.{ℕ, ◌≤◌, Bool, true, false, List, [], ◌∷◌, none, length, All, arith}
use sdr_docker.Base.Int.{ℤ, pos}
use sdr_docker.Base.Floats.{milli_floats}
use sdr_docker.Timing.{Grid, correct_symbol_edges}
use sdr_docker.Timing.Edges.{InSegment, InOrder, correct_symbol_edges-InSegment}
use sdr_docker.Timing.Stats.{Statistics}

abbrev grid : Grid
grid = record { n = 20; slot = 10; sym_len = 8 }

abbrev envelope : List Bool
envelope =
    false ∷ false ∷ true ∷ true ∷ true ∷ true ∷ true ∷ true ∷ true ∷ true ∷ false ∷ false ∷ true
    ∷ true ∷ true ∷ true ∷ true ∷ true ∷ true ∷ false ∷ []

correct_symbol_edges-InSegment_example :
    All (InSegment grid) (correct_symbol_edges grid envelope 0 0 2 0)
    × InOrder grid none (correct_symbol_edges grid envelope 0 0 2 0)
    × (length (correct_symbol_edges grid envelope 0 0 2 0) ≤ 2)
correct_symbol_edges-InSegment_example =
    correct_symbol_edges-InSegment grid envelope 0 0 2 0 (omega arith)

abbrev edges : List (ℕ × ℕ)
edges = (2, 10) ∷ (12, 19) ∷ []

abbrev first_value : List ℤ → ℤ
first_value [] = pos 0
first_value (x ∷ xs) = x

abbrev statistics : Statistics milli_floats
statistics = record { mean = first_value; std = λ xs. pos 0; round4 = λ x. x }
