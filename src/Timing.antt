-- ===== src/Timing.antt =====
-- Symbol edges: src/stream_web/timing.py. The smoothed magnitude comes from numpy and scipy, and
-- enters as a parameter. Sample positions are never negative; where the source subtracts below 0
-- it takes a maximum with 0 or with a position next, so that the truncated difference is the same.
-- `sym_len ≤ slot`, since a slot is a symbol and the gap after it.
pub mod Edges
pub mod Stats
use sdr_docker.Base.{
  ℕ, zero, suc, ◌+◌, ◌-◌, ◌*◌, ◌/◌, Bool, true, false, not, ◌&&◌, ◌||◌, Option, none, some, List,
  [], ◌∷◌, keep, ltb, leb, abs_diff, min, max, if◌then◌else◌,
}

-- The indices after which a run of Booleans goes up, and down: `np.where(np.diff(above) > 0)[0]`.
-- `i` is the index of the first entry.
pub rising_from : ℕ → List Bool → List ℕ
rising_from i [] = []
rising_from i (a ∷ []) = []
rising_from i (a ∷ b ∷ rest) =
    let more = rising_from (suc i) (b ∷ rest) in if not a && b then i ∷ more else more

pub falling_from : ℕ → List Bool → List ℕ
falling_from i [] = []
falling_from i (a ∷ []) = []
falling_from i (a ∷ b ∷ rest) =
    let more = falling_from (suc i) (b ∷ rest) in if a && not b then i ∷ more else more

-- `above` is the thresholded magnitude of the segment.
pub build_crossings : List Bool → List ℕ × List ℕ
unfolding rising_from falling_from
build_crossings above = (rising_from 0 above, falling_from 0 above)

-- The first of the entries that are nearest to the target: `arr[np.argmin(np.abs(arr - target))]`.
pub nearest_from : ℕ → List ℕ → ℕ → ℕ
nearest_from best [] target = best
nearest_from best (x ∷ xs) target =
    nearest_from (if ltb (abs_diff x target) (abs_diff best target) then x else best) xs target

pub nearest_xing : List ℕ → ℕ → ℕ
unfolding nearest_from
nearest_xing [] target = target
nearest_xing (x ∷ xs) target = nearest_from x xs target

abbrev pub is_empty {ℓ} : {A : Type ℓ} → List A → Bool
is_empty [] = true
is_empty (x ∷ xs) = false

abbrev pub between : ℕ → ℕ → List ℕ → List ℕ
between lo hi xs = keep (λ x. leb lo x && leb x hi) xs

-- The layout of a slot.
pub record Grid : Type 0 where
  pub n : ℕ
  pub slot : ℕ
  pub sym_len : ℕ

module _ (g : Grid) where
  abbrev pub gap_samples : ℕ
  gap_samples = g.slot - g.sym_len

  abbrev pub search_margin : ℕ
  search_margin = max gap_samples (g.sym_len / 8)

  abbrev pub fall_margin : ℕ
  fall_margin = gap_samples / 4

  -- The least start that a symbol after `prev_end` may have.
  abbrev pub floor_of : Option ℕ → ℕ
  floor_of none = 0
  floor_of (some e) = e + 1

  abbrev pub center_of : Option ℕ → ℕ → ℕ
  center_of none nom_s = nom_s
  center_of (some e) nom_s = e + gap_samples

  -- The rise near the expected place, then near the nominal one.
  pub find_start : List ℕ → Option ℕ → ℕ → ℕ
  unfolding nearest_xing
  find_start rising prev_end nom_s =
      let center = center_of prev_end nom_s in
      let floor = floor_of prev_end in
      let cands = between (max (center - search_margin) floor) (center + search_margin) rising in
      let wider = between (max (nom_s - search_margin) floor) (nom_s + search_margin) rising in
      let s = nearest_xing (if is_empty cands then wider else cands) center in max s floor

  -- The fall near the end that belongs to the corrected start.
  pub find_end : List ℕ → ℕ → ℕ
  unfolding nearest_xing
  find_end falling s =
      let nom_e_corr = s + g.sym_len in
      let cands = between (nom_e_corr - fall_margin) (min g.n (nom_e_corr + fall_margin)) falling in
      max (nearest_xing cands nom_e_corr) (s + 1)

  -- Both, brought into the segment.
  pub correct_edge : List ℕ → List ℕ → Option ℕ → ℕ → ℕ × ℕ
  unfolding find_start find_end
  correct_edge rising falling prev_end nom_s =
      let s = find_start rising prev_end nom_s in
      let e = find_end falling s in let s' = min s (g.n - 1) in (s', max (s' + 1) (min e g.n))

  -- `k` counts the symbols from `sym_offset`; `left` are still to come. `start` and `view_start`
  -- are positions of the recording.
  pub edges_from : List ℕ → List ℕ → ℕ → ℕ → ℕ → ℕ → Option ℕ → List (ℕ × ℕ)
  edges_from rising falling start view_start k zero prev_end = []
  edges_from rising falling start view_start k (suc left) prev_end =
      let abs_start = start + k * g.slot in
      let nom_s = abs_start - view_start in
      let edge = correct_edge rising falling prev_end nom_s in
      let skip = edges_from rising falling start view_start (suc k) left prev_end in
      let take_it = edge ∷ edges_from rising falling start view_start (suc k) left (some edge.1) in
      if ltb abs_start view_start || ltb g.n (nom_s + g.sym_len) then skip else take_it

  pub correct_symbol_edges : List Bool → ℕ → ℕ → ℕ → ℕ → List (ℕ × ℕ)
  unfolding edges_from build_crossings
  correct_symbol_edges above start_sample view_start n_sym sym_offset =
      let (rising, falling) = build_crossings above in
      edges_from rising falling start_sample view_start sym_offset n_sym none
