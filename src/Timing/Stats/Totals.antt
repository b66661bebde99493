-- ===== src/Timing/Stats/Totals.antt =====
-- What the statistics of src/stream_web/timing.py add up to.
use sdr_docker.Base.{
  ℕ, suc, ◌+◌, ◌-◌, ◌≤◌, ◌<◌, ◌≡◌, refl, Bool, true, false, Option, none, some, List, [], ◌∷◌,
  length, drop, length-drop, arith,
}
use sdr_docker.Base.Int.{ℤ, pos, sub_ℕ, pos_part, neg_part, ◌+ℤ◌, +ℤ_parts, eq_of_parts}
use sdr_docker.Base.Floats.{FloatOps}
use sdr_docker.Timing.Stats.{
  symbol_samples, gap_samples, Statistics, edges_to_timing_stats, length-to_ms, to_ms, first_hit,
  crossing_pair, or_none,
}

pub total : List ℤ → ℤ
total [] = pos 0
total (k ∷ ks) = k +ℤ total ks

pub last_end : ℕ × ℕ → List (ℕ × ℕ) → ℕ
last_end a [] = a.1
last_end a (b ∷ es) = last_end b es

sub_ℕ_parts : (a b : ℕ) → pos_part (sub_ℕ a b) + b ≡ neg_part (sub_ℕ a b) + a
sub_ℕ_parts a b = ground arith

span_parts :
    (a : ℕ × ℕ) (es : List (ℕ × ℕ))
    → let span = total (symbol_samples (a ∷ es)) +ℤ total (gap_samples (a ∷ es)) in
      pos_part span + a.0 ≡ neg_part span + last_end a es
unfolding total last_end symbol_samples gap_samples
span_parts a [] = omega (arith, +ℤ_parts, sub_ℕ_parts a.1 a.0)
span_parts a (b ∷ es) =
    omega (arith, +ℤ_parts, span_parts b es, sub_ℕ_parts a.1 a.0, sub_ℕ_parts b.0 a.1)

-- The symbols and the gaps together make up the span from the first start to the last end.
pub span_of_edges :
    (a : ℕ × ℕ) (es : List (ℕ × ℕ))
    → total (symbol_samples (a ∷ es)) +ℤ total (gap_samples (a ∷ es)) ≡ sub_ℕ (last_end a es) a.0
span_of_edges a es =
    eq_of_parts _ _ (omega (arith, span_parts a es, sub_ℕ_parts (last_end a es) a.0))

length-symbol_samples : (es : List (ℕ × ℕ)) → length (symbol_samples es) ≡ length es
unfolding symbol_samples
length-symbol_samples [] = refl
length-symbol_samples (e ∷ es) = omega (arith, length-symbol_samples es)

length-gap_samples : (e : ℕ × ℕ) (es : List (ℕ × ℕ)) → length (gap_samples (e ∷ es)) ≡ length es
unfolding gap_samples
length-gap_samples e [] = refl
length-gap_samples e (b ∷ es) = omega (arith, length-gap_samples b es)

module _ (F : FloatOps) where
  -- The counts: all symbols, and one gap fewer; none of either without edges.
  pub edges_to_timing_stats_counts :
      (st : Statistics F) (sr : ℕ) (edges : List (ℕ × ℕ))
      → let r = edges_to_timing_stats F st sr edges in
        (r.sym_count ≡ length edges) × (r.gap_count ≡ length edges - 1)
  unfolding edges_to_timing_stats to_ms gap_samples
  edges_to_timing_stats_counts st sr [] =
      (omega (arith, length-to_ms F st sr (symbol_samples []), length-symbol_samples []), refl)
  edges_to_timing_stats_counts st sr (e ∷ es) = (
    omega (arith, length-to_ms F st sr (symbol_samples (e ∷ es)), length-symbol_samples (e ∷ es)),
    omega (arith, length-to_ms F st sr (gap_samples (e ∷ es)), length-gap_samples e es),
  )

  first_hit_bounds :
      (i : ℕ) (test : FloatOps.Float F → Bool) (xs : List (FloatOps.Float F)) {j : ℕ}
      → first_hit F i test xs ≡ some j
      → (i ≤ j) × (j < i + length xs)
  unfolding first_hit
  first_hit_bounds i test [] e = cc
  first_hit_bounds i test (x ∷ xs) {j = j} e =
      ground (arith, first_hit_bounds (suc i) test xs {j = j})

  -- Which of the two crossings comes first: the low one in a rise, the high one in a fall.
  abbrev pub InTurn : Bool → ℕ → ℕ → Type 0
  InTurn true i10 i90 = i10 ≤ i90
  InTurn false i10 i90 = i90 ≤ i10

  or_none-eq-some {ℓ κ} :
      {A : Type ℓ} {B : Type κ} (o : Option A) (f : A → Option B) {b : B}
      → or_none F o f ≡ some b
      → (a : A) × (o ≡ some a) × (f a ≡ some b)
  or_none-eq-some none f e = cc
  or_none-eq-some (some a) f e = (a, refl, e)

  -- The crossings that are found lie in the segment, in turn.
  pub crossing_pair_order :
      (smoothed : List (FloatOps.Float F)) (low high : FloatOps.Float F) (rise : Bool) (i10 i90 : ℕ)
      → crossing_pair F smoothed low high rise ≡ some (i10, i90)
      → (i10 < length smoothed) × (i90 < length smoothed) × InTurn rise i10 i90
  unfolding crossing_pair
  crossing_pair_order smoothed low high true i10 i90 e =
      let (a, first, rest) =
        or_none-eq-some (first_hit F 0 (λ x. FloatOps.lt F low x) smoothed) _ e in
      let (b, second, pair) =
        or_none-eq-some (first_hit F a (λ x. FloatOps.lt F high x) (drop a smoothed)) _ rest in
      let p = first_hit_bounds 0 _ smoothed first in
      let q = first_hit_bounds a _ (drop a smoothed) second in
      ground (arith, p, q, pair, length-drop a smoothed)
  crossing_pair_order smoothed low high false i10 i90 e =
      let (b, first, rest) =
        or_none-eq-some (first_hit F 0 (λ x. FloatOps.lt F x high) smoothed) _ e in
      let (a, second, pair) =
        or_none-eq-some (first_hit F b (λ x. FloatOps.lt F x low) (drop b smoothed)) _ rest in
      let p = first_hit_bounds 0 _ smoothed first in
      let q = first_hit_bounds b _ (drop b smoothed) second in
      ground (arith, p, q, pair, length-drop b smoothed)
