-- ===== src/IqRing/Tests.antt =====
-- Runs of the ring of src/stream_web/gnuradio_rx.py and of its readers.
use sdr_docker.Base.{ℕ, ◌≡◌, refl, List, [], ◌∷◌, drop, arith, some}
use sdr_docker.IqRing.{Ring, extract_last}
use sdr_docker.IqRing.Window.{
  window, IsValid, fresh, fresh-IsValid, Slides, write_all, joined, write_all-Slides,
}
use sdr_docker.IqRing.Reads.{extract_last-window}

abbrev chunks : List (List ℕ)
chunks = (1 ∷ 2 ∷ 3 ∷ []) ∷ (4 ∷ 5 ∷ []) ∷ []

write_all-Slides_example :
    (r' : Ring ℕ) × (write_all 4 (fresh 4 0) chunks ≡ some r')
    × Slides 4 (fresh 4 0) (joined 4 chunks) r'
write_all-Slides_example =
    write_all-Slides 4 (fresh 4 0) chunks (fresh-IsValid 4 0) (omega arith, (omega arith, tt))

-- The ring after those chunks.
abbrev written : Ring ℕ
written = record { iq_buffer = 5 ∷ 2 ∷ 3 ∷ 4 ∷ []; buf_write_idx = 1 }

written-IsValid : IsValid 4 written
written-IsValid = record { full = refl; index = omega arith }

extract_last-window_example : extract_last 4 (5 ∷ 2 ∷ 3 ∷ 4 ∷ []) 1 3 ≡ drop 1 (window written)
extract_last-window_example =
    extract_last-window 4 written 3 written-IsValid (omega arith) (omega arith)
