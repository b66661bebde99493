-- ===== src/Analysis.antt =====
-- The recording analysis of src/stream_web/analysis.py: the windows that cover a recording,
-- `_is_duplicate` and `decode_packets`. The decoder (`decode_signal`, `packet_symbol_grid`) and the
-- envelope crossings are parameters. Keys of packets are any type with a Boolean equality.
mod Tests
pub mod Windows
pub mod Order
pub mod Once
pub mod Report
use sdr_docker.Base.{
  ℕ, zero, suc, ◌+◌, ◌-◌, ◌*◌, ◌/◌, max, min, Bool, true, false, ◌&&◌, not, Option, none, some,
  List, [], ◌∷◌, ◌++◌, take, drop, length, ltb, leb, ◌==◌, any, if◌then◌else◌, map,
}
use sdr_docker.Base.Floats.{FloatOps}
use sdr_docker.Config.{decode_samples, decode_interval_samples}
use sdr_docker.Timing.{Grid, correct_symbol_edges}

-- `range(start, stop, step)` for a step of at least 1, on fuel `stop` or more.
pub range_from : (stop step : ℕ) → (fuel start : ℕ) → List ℕ
range_from stop step zero start = []
range_from stop step (suc fuel) start =
    let rest = range_from stop step fuel (start + step) in
    if ltb start stop then start ∷ rest else []

abbrev pub last_or : ℕ → List ℕ → ℕ
last_or d [] = d
last_or d (x ∷ xs) = last_or x xs

-- `_window_offsets`; the step is `max(1, win - DECODE_INTERVAL_S * SAMPLE_RATE)`.
pub window_offsets : ℕ → ℕ → List ℕ
window_offsets n win =
    let step = max 1 (win - decode_interval_samples) in
    let offsets = range_from (n - win + 1) step (n - win + 1) 0 in
    if leb n win
    then 0 ∷ []
    else if last_or 0 offsets == (n - win)
    then offsets
    else offsets ++ ((n - win) ∷ [])

-- What a packet is known by: (seq_num, auth_tag, payload_val).
pub record PacketKeys : Type 1 where
  pub Key : Type 0
  pub same : Key → Key → Bool

module _ (F : FloatOps) (keys : PacketKeys) where
  open F use {Float, of_int, minus, magnitude, lt}
  open keys use {Key, same}

  -- The accepted packets' keys and times: the buckets of `seen`, in one list.
  abbrev pub Seen : Type 0
  Seen = List (Key × Float)

  pub times_of : Key → Seen → List Float
  times_of k [] = []
  times_of k ((j, t) ∷ seen) = let rest = times_of k seen in if same j k then t ∷ rest else rest

  -- Whether the packet is in `seen` (`tol` is config.DEDUP_START_TOL_S), and `seen` with it.
  pub is_duplicate : Float → Key → Float → Seen → Bool × Seen
  unfolding times_of
  is_duplicate tol k t seen =
      if any (λ u. lt (magnitude (minus t u)) tol) (times_of k seen)
      then (true, seen)
      else (false, seen ++ ((k, t) ∷ []))

  -- What `packet_symbol_grid` gives of a packet.
  pub record Layout : Type 0 where
    pub n_sym : ℕ
    pub slot : ℕ

  -- A packet with the start sample that a decoded attempt of its window gives, counted from the
  -- start of the recording.
  pub record Packet : Type 0 where
    pub key : Key
    pub abs_start : ℕ
    pub layout : Layout
    pub edges : List (ℕ × ℕ)

  -- What `decode_signal` gives for one window, or that it raises: each packet with the start that
  -- its decoded attempt has, if one has it, and its grid.
  abbrev pub Found : Type 0
  Found = Option (List (Key × Option ℕ × Layout))

  -- `above lo hi` is the thresholded magnitude of the recording's samples from `lo` to `hi`;
  -- `time_of` is the division by the sample rate.
  module _ (len samples_per_symbol : ℕ) (above : ℕ → ℕ → List Bool) (time_of : ℕ → Float)
      (tol : Float) where
    pub edges_of : ℕ → Layout → List (ℕ × ℕ)
    edges_of abs_start l =
        let lo = abs_start - l.slot in
        let hi = min len (abs_start + l.n_sym * l.slot + l.slot) in
        let g : Grid = record { n = hi - lo; slot = l.slot; sym_len = samples_per_symbol } in
        let local = correct_symbol_edges g (above lo hi) (abs_start - lo) 0 l.n_sym 0 in
        map (λ e. (e.0 + lo, e.1 + lo)) local

    -- The packets of one window.
    pub accept : ℕ → List (Key × Option ℕ × Layout) → Seen → List Packet × Seen
    unfolding edges_of is_duplicate
    accept offset [] seen = ([], seen)
    accept offset ((k, none, g) ∷ ps) seen = accept offset ps seen
    accept offset ((k, some start, g) ∷ ps) seen =
        let abs_start = offset + start in
        let (duplicate, seen') = is_duplicate tol k (time_of abs_start) seen in
        let (rest, seen'') = accept offset ps seen' in
        let p : Packet = record {
          key = k;
          abs_start = abs_start;
          layout = g;
          edges = edges_of abs_start g;
        } in
        if duplicate then (rest, seen'') else (p ∷ rest, seen'')

    pub decode_windows : (ℕ → Found) → List ℕ → Seen → List Packet × Seen
    decode_windows decode [] seen = ([], seen)
    decode_windows decode (offset ∷ offsets) seen = elim (decode offset) [
      | none ↦ decode_windows decode offsets seen
      | some ps ↦
          let (here, seen') = accept offset ps seen in
          let (rest, seen'') = decode_windows decode offsets seen' in (here ++ rest, seen'')
    ]

    -- `accepted.sort(key=abs_start)`, which is stable.
    pub put : Packet → List Packet → List Packet
    put p [] = p ∷ []
    put p (q ∷ qs) =
        let rest = put p qs in if ltb q.abs_start p.abs_start then q ∷ rest else p ∷ q ∷ qs

    pub sort : List Packet → List Packet
    unfolding put
    sort [] = []
    sort (p ∷ ps) = put p (sort ps)

    pub decode_packets : (ℕ → Found) → List Packet
    decode_packets decode = sort ((decode_windows decode (window_offsets len decode_samples) []).0)
