-- ===== src/Timing/Edges.antt =====
-- The edges of src/stream_web/timing.py: where they lie, in what order, and how many there are.
use sdr_docker.Base.{
  ℕ, zero, suc, ◌+◌, ◌-◌, ◌*◌, ◌≤◌, ◌<◌, ◌≡◌, refl, ap, ◌⊎◌, inl, inr, Bool, false, ◌||◌, Option,
  none, some, List, [], ◌∷◌, All, length, ltb, arith, Bool-cases,
}
use sdr_docker.Timing.{
  Grid, floor_of, find_start, correct_edge, edges_from, correct_symbol_edges, build_crossings,
}

module _ (g : Grid) where
  -- An edge pair of a symbol: inside the segment, at least one sample long.
  abbrev pub InSegment : ℕ × ℕ → Type 0
  InSegment e = (e.0 < e.1) × (e.1 ≤ g.n)

  -- Each symbol starts after the end of the one before, unless it is cut off to the last sample.
  abbrev pub InOrder : Option ℕ → List (ℕ × ℕ) → Type 0
  InOrder prev [] = Unit
  InOrder prev (e ∷ es) = ((floor_of g prev ≤ e.0) ⊎ (e.0 + 1 ≡ g.n)) × InOrder (some e.1) es

  correct_edge-InSegment :
      (rising falling : List ℕ) (prev : Option ℕ) (nom_s : ℕ)
      → 0 < g.n
      → InSegment (correct_edge g rising falling prev nom_s)
  unfolding correct_edge
  correct_edge-InSegment rising falling prev nom_s h = omega arith

  floor-le-start :
      (rising : List ℕ) (prev : Option ℕ) (nom_s : ℕ)
      → floor_of g prev ≤ find_start g rising prev nom_s
  unfolding find_start
  floor-le-start rising prev nom_s = omega arith

  correct_edge-InOrder :
      (rising falling : List ℕ) (prev : Option ℕ) (nom_s : ℕ)
      → 0 < g.n
      → let e = correct_edge g rising falling prev nom_s in
        (floor_of g prev ≤ e.0) ⊎ (e.0 + 1 ≡ g.n)
  unfolding correct_edge
  correct_edge-InOrder rising falling prev nom_s h =
      let low = floor-le-start rising prev nom_s in
      elim (Bool-cases (ltb (find_start g rising prev nom_s) g.n)) [
        | inl inside ↦ inl (ground (arith, low))
        | inr past ↦ inr (ground arith)
      ]

  edges_from-All :
      (rising falling : List ℕ) (start view k left : ℕ) (prev : Option ℕ)
      → 0 < g.n
      → All InSegment (edges_from g rising falling start view k left prev)
        × InOrder prev (edges_from g rising falling start view k left prev)
        × (length (edges_from g rising falling start view k left prev) ≤ left)
  unfolding edges_from
  edges_from-All rising falling start view k zero prev h = (tt, tt, omega arith)
  edges_from-All rising falling start view k (suc left) prev h =
      let nom_s = start + k * g.slot - view in
      let edge = correct_edge g rising falling prev nom_s in
      elim (Bool-cases (ltb (start + k * g.slot) view || ltb g.n (nom_s + g.sym_len))) [
        | inl out ↦
            let rest = edges_from-All rising falling start view (suc k) left prev h in
            rw (out, edges_from) (rest.0, rest.1, omega (arith, rest.2))
        | inr here ↦
            let rest = edges_from-All rising falling start view (suc k) left (some edge.1) h in
            rw (here, edges_from)
              (
                (correct_edge-InSegment rising falling prev nom_s h, rest.0),
                (correct_edge-InOrder rising falling prev nom_s h, rest.1),
                omega (arith, rest.2),
              )
      ]

  -- Every symbol whose nominal place lies in the segment gets an edge pair.
  edges_from-full :
      (rising falling : List ℕ) (start view k left : ℕ) (prev : Option ℕ)
      → view ≤ start + k * g.slot
      → start + (k + left) * g.slot ≤ view + g.n
      → g.sym_len ≤ g.slot
      → length (edges_from g rising falling start view k left prev) ≡ left
  unfolding edges_from
  edges_from-full rising falling start view k zero prev lo hi fits = refl
  edges_from-full rising falling start view k (suc left) prev lo hi fits =
      let step : (k + suc left) * g.slot ≡ (suc k + left) * g.slot = grind arith in
      let next : suc k * g.slot ≡ k * g.slot + g.slot = grind arith in
      let reach : suc k * g.slot ≤ (suc k + left) * g.slot = grind arith in
      let in_view : (ltb (start + k * g.slot) view
            || ltb g.n (start + k * g.slot - view + g.sym_len))
          ≡ false =
        ground (arith, step, next, reach) in
      rw (in_view, edges_from)
        (ap suc (
          edges_from-full rising falling start view (suc k) left _ (omega (arith, next))
            (omega (arith, step)) fits))

module _ (g : Grid) where
  -- The corrected edges lie in the segment, each symbol at least one sample long; each starts after
  -- the end of the one before or at the last sample; and there are no more than were asked for.
  pub correct_symbol_edges-InSegment :
      (above : List Bool) (start view n_sym offset : ℕ)
      → 0 < g.n
      → let edges = correct_symbol_edges g above start view n_sym offset in
        All (InSegment g) edges × InOrder g none edges × (length edges ≤ n_sym)
  unfolding correct_symbol_edges
  correct_symbol_edges-InSegment above start view n_sym offset h =
      edges_from-All g (build_crossings above).0 (build_crossings above).1 start view offset n_sym
        none h

  -- If the slots of all symbols lie in the segment, every symbol gets its edges, whatever the
  -- envelope looks like.
  pub length-correct_symbol_edges :
      (above : List Bool) (start view n_sym offset : ℕ)
      → view ≤ start + offset * g.slot
      → start + (offset + n_sym) * g.slot ≤ view + g.n
      → g.sym_len ≤ g.slot
      → length (correct_symbol_edges g above start view n_sym offset) ≡ n_sym
  unfolding correct_symbol_edges
  length-correct_symbol_edges above start view n_sym offset lo hi fits =
      edges_from-full g (build_crossings above).0 (build_crossings above).1 start view offset n_sym
        none lo hi fits
