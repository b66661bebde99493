-- ===== src/Plots/Envelope.antt =====
-- The segments that `render_td_plot` of src/stream_web/spectrogram.py finds in the envelope, when the
-- decode information leads to no symbol edges.
use sdr_docker.Base.{
  ℕ, suc, ◌+◌, ◌-◌, ◌≤◌, ◌<◌, ◌≡◌, refl, some-injective, Bool, true, false, Option, none, some,
  List, [], ◌∷◌, length, keep, ltb, leb, if◌then◌else◌, arith, inl, inr, Bool-cases,
}
use sdr_docker.Config.{td_min_symbol, td_min_gap}

-- The runs of the entries above the threshold: `np.where(diff == 1)` and `np.where(diff == -1)` of
-- the padded row, in pairs. `i` is the index of the first entry, and the second argument the start
-- of a run that is open.
pub runs_from : ℕ → Option ℕ → List Bool → List (ℕ × ℕ)
runs_from i none [] = []
runs_from i (some s) [] = (s, i) ∷ []
runs_from i none (false ∷ rest) = runs_from (suc i) none rest
runs_from i none (true ∷ rest) = runs_from (suc i) (some i) rest
runs_from i (some s) (false ∷ rest) = (s, i) ∷ runs_from (suc i) none rest
runs_from i (some s) (true ∷ rest) = runs_from (suc i) (some s) rest

-- Runs that are long enough.
pub long_runs : List (ℕ × ℕ) → List (ℕ × ℕ)
long_runs runs = keep (λ r. leb td_min_symbol (r.1 - r.0)) runs

-- Runs less than the least gap apart become one: `last` is the last of the result so far.
pub merge_from : ℕ × ℕ → List (ℕ × ℕ) → List (ℕ × ℕ)
merge_from last [] = last ∷ []
merge_from (m_s, m_e) ((s, e) ∷ runs) =
    let joined = merge_from (m_s, e) runs in
    let apart = (m_s, m_e) ∷ merge_from (s, e) runs in
    if ltb (s - m_e) td_min_gap then joined else apart

pub merge_runs : List (ℕ × ℕ) → List (ℕ × ℕ)
unfolding merge_from
merge_runs [] = []
merge_runs (r ∷ runs) = merge_from r runs

pub envelope_segments : List Bool → List (ℕ × ℕ)
unfolding runs_from long_runs merge_runs
envelope_segments above = merge_runs (long_runs (runs_from 0 none above))

-- In order from `lo` on: each run starts at least `gap` after the last ended, has at least
-- `size` samples, and ends by `hi`.
abbrev pub InTurn : ℕ → ℕ → ℕ → ℕ → List (ℕ × ℕ) → Type 0
InTurn gap size lo hi [] = Unit
InTurn gap size lo hi ((s, e) ∷ runs) =
    (lo ≤ s) × (s + size ≤ e) × (e ≤ hi) × InTurn gap size (e + gap) hi runs

-- Where the runs may start: at the start of the open one, or at the next entry.
abbrev next_start : ℕ → Option ℕ → ℕ
next_start i none = i
next_start i (some s) = s

-- The runs of the entries from `i` on, with one open since before `i` or none.
runs_from-InTurn :
    (above : List Bool) (i : ℕ) (since : Option ℕ) (lo hi : ℕ)
    → lo ≤ next_start i since
    → ((s : ℕ) → since ≡ some s → s < i)
    → i + length above ≡ hi
    → InTurn 0 1 lo hi (runs_from i since above)
unfolding runs_from
runs_from-InTurn [] i none lo hi h before e = tt
runs_from-InTurn [] i (some s) lo hi h before e =
    let k = before s refl in (h, omega arith, omega arith, tt)
runs_from-InTurn (false ∷ rest) i none lo hi h before e =
    runs_from-InTurn rest (suc i) none lo hi (omega arith) (λ s o. cc) (omega arith)
runs_from-InTurn (true ∷ rest) i none lo hi h before e =
    runs_from-InTurn rest (suc i) (some i) lo hi h
      (λ s o. let same = some-injective o in omega arith) (omega arith)
runs_from-InTurn (false ∷ rest) i (some s) lo hi h before e =
    let k = before s refl in
    (
      h,
      omega arith,
      omega arith,
      runs_from-InTurn rest (suc i) none (i + 0) hi (omega arith) (λ s o. cc) (omega arith),
    )
runs_from-InTurn (true ∷ rest) i (some s) lo hi h before e =
    let k = before s refl in
    runs_from-InTurn rest (suc i) (some s) lo hi h
      (λ r o. let same = some-injective o in omega arith) (omega arith)

weaken-InTurn :
    (gap size lo lo' hi : ℕ) (runs : List (ℕ × ℕ))
    → lo' ≤ lo
    → InTurn gap size lo hi runs
    → InTurn gap size lo' hi runs
weaken-InTurn gap size lo lo' hi [] h k = tt
weaken-InTurn gap size lo lo' hi ((s, e) ∷ runs) h (k1, k2, k3, rest) = (omega arith, k2, k3, rest)

long_runs-InTurn :
    (runs : List (ℕ × ℕ)) (lo hi : ℕ)
    → InTurn 0 1 lo hi runs
    → InTurn 0 td_min_symbol lo hi (long_runs runs)
unfolding long_runs
long_runs-InTurn [] lo hi h = tt
long_runs-InTurn ((s, e) ∷ runs) lo hi (h1, h2, h3, h) =
    let rest = long_runs-InTurn runs (e + 0) hi h in
    elim (Bool-cases (leb td_min_symbol (e - s))) [
      | inl long ↦ rw (long) (h1, ground arith, h3, rest)
      | inr short ↦ rw (short) (weaken-InTurn 0 td_min_symbol (e + 0) lo hi _ (omega arith) rest)
    ]

merge_from-InTurn :
    (runs : List (ℕ × ℕ)) (m_s m_e lo hi : ℕ)
    → lo ≤ m_s
    → m_s + td_min_symbol ≤ m_e
    → m_e ≤ hi
    → InTurn 0 td_min_symbol (m_e + 0) hi runs
    → InTurn td_min_gap td_min_symbol lo hi (merge_from (m_s, m_e) runs)
unfolding merge_from
merge_from-InTurn [] m_s m_e lo hi h1 h2 h3 h = (h1, h2, h3, tt)
merge_from-InTurn ((s, e) ∷ runs) m_s m_e lo hi h1 h2 h3 (k1, k2, k3, k) =
    elim (Bool-cases (ltb (s - m_e) td_min_gap)) [
      | inl near ↦ rw (near) (merge_from-InTurn runs m_s e lo hi h1 (omega arith) k3 k)
      | inr apart ↦
          rw (apart)
            (h1, h2, h3, merge_from-InTurn runs s e (m_e + td_min_gap) hi (ground arith) k2 k3 k)
    ]

merge_runs-InTurn :
    (runs : List (ℕ × ℕ)) (hi : ℕ)
    → InTurn 0 td_min_symbol 0 hi runs
    → InTurn td_min_gap td_min_symbol 0 hi (merge_runs runs)
unfolding merge_runs
merge_runs-InTurn [] hi h = tt
merge_runs-InTurn ((s, e) ∷ runs) hi (h1, h2, h3, h) = merge_from-InTurn runs s e 0 hi h1 h2 h3 h

-- The segments of the envelope lie in it, in order and apart by the least gap, and none is shorter
-- than the shortest symbol.
pub envelope_segments-InTurn :
    (above : List Bool) → InTurn td_min_gap td_min_symbol 0 (length above) (envelope_segments above)
unfolding envelope_segments
envelope_segments-InTurn above =
    merge_runs-InTurn (long_runs (runs_from 0 none above)) (length above) (
      long_runs-InTurn (runs_from 0 none above) 0 (length above)
        (runs_from-InTurn above 0 none 0 (length above) (omega arith) (λ s o. cc) (omega arith)))
