-- ===== src/Analysis/Report/Text/Kinds.antt =====
-- The kinds of line in the text that `build_report` of src/stream_web/analysis.py makes.
use sdr_docker.Base.{
  ℕ, zero, suc, ◌+◌, ◌<◌, get_elem?, ◌≡◌, refl, ap, Bool, true, false, Option, none, some, List, [],
  ◌∷◌, ◌++◌, length, map, keep, All, IsThere, ◌⊎◌, inl, inr, Bool-cases, arith,
}
use sdr_docker.Base.Floats.{FloatOps}
use sdr_docker.Analysis.Report.{Quality, less, best_from}
use sdr_docker.Analysis.Report.Text.{
  SymbolTiming, PacketTiming, Line, packets_line, symbol_timing_line, symbol_channel_line,
  symbol_amplitude_line, packet_row,
}

pub keep-append {ℓ} :
    {A : Type ℓ} (p : A → Bool) (xs ys : List A) → keep p (xs ++ ys) ≡ keep p xs ++ keep p ys
keep-append p [] ys = refl
keep-append p (x ∷ xs) ys = elim (Bool-cases (p x)) [
  | inl kept ↦ rw (kept) (ap (◌∷◌ x) (keep-append p xs ys))
  | inr left ↦ rw (left) (keep-append p xs ys)
]

-- Lines that are all of the kind, or none of them.
pub keep-map {ℓ κ} :
    {A : Type ℓ} {B : Type κ} (p : B → Bool) (f : A → B) (xs : List A)
    → ((x : A) → p (f x) ≡ true)
    → keep p (map f xs) ≡ map f xs
keep-map p f [] h = refl
keep-map p f (x ∷ xs) h = rw (h x) (ap (◌∷◌ (f x)) (keep-map p f xs h))

pub keep-map_none {ℓ κ} :
    {A : Type ℓ} {B : Type κ} (p : B → Bool) (f : A → B) (xs : List A)
    → ((x : A) → p (f x) ≡ false)
    → keep p (map f xs) ≡ []
keep-map_none p f [] h = refl
keep-map_none p f (x ∷ xs) h = rw (h x) (keep-map_none p f xs h)

pub map-map {ℓ κ ι} :
    {A : Type ℓ} {B : Type κ} {C : Type ι} (g : B → C) (f : A → B) (xs : List A)
    → map g (map f xs) ≡ map (λ x. g (f x)) xs
map-map g f [] = refl
map-map g f (x ∷ xs) = ap (◌∷◌ (g (f x))) (map-map g f xs)

pub get_elem?-IsThere {ℓ} :
    {A : Type ℓ} (xs : List A) (i : ℕ) → i < length xs → IsThere (get_elem? xs i)
get_elem?-IsThere [] i h = absurd (omega arith)
get_elem?-IsThere (x ∷ xs) zero h = (x, refl)
get_elem?-IsThere (x ∷ xs) (suc i) h = get_elem?-IsThere xs i (omega arith)

module _ (F : FloatOps) where
  open F use {Float}

  -- The best is one of those that were met.
  pub best_from-lt :
      {A : Type 0} (f : A → Quality F) (best : ℕ) (q : Quality F) (i : ℕ) (xs : List A)
      → best < i
      → best_from F best q i (map f xs) < i + length xs
  unfolding best_from
  best_from-lt f best q i [] h = omega arith
  best_from-lt f best q i (x ∷ xs) h = elim (Bool-cases (less F q (f x))) [
    | inl better ↦ rw (better) (omega (arith, best_from-lt f i (f x) (suc i) xs (omega arith)))
    | inr same ↦ rw (same) (omega (arith, best_from-lt f best q (suc i) xs (omega arith)))
  ]

  -- The kinds of line that tell of a symbol or of a packet, and the count.
  abbrev pub is_timing : Line F → Bool
  is_timing (symbol_timing_line idx duration gap drift) = true
  is_timing _ = false

  abbrev pub is_channel : Line F → Bool
  is_channel (symbol_channel_line idx channel freq out_by) = true
  is_channel _ = false

  abbrev pub is_amplitude : Line F → Bool
  is_amplitude (symbol_amplitude_line idx amp snr) = true
  is_amplitude _ = false

  abbrev pub is_row : Line F → Bool
  is_row (packet_row time channel chipset sym gap drift amp snr) = true
  is_row _ = false

  abbrev pub is_count : Line F → Bool
  is_count (packets_line n) = true
  is_count _ = false

  -- The line of a symbol's timing: the drift with its rate, where both are known.
  abbrev pub both : Option Float → Option Float → Option (Float × Float)
  both none rate = none
  both (some d) none = none
  both (some d) (some rate) = some (d, rate)

  unfoldable pub timing_line : SymbolTiming F → Line F
  timing_line r =
      symbol_timing_line r.idx r.duration_us r.gap_us (both r.drift_us r.rate_us_per_sym)

  -- What is relied on of the decoder's analysis: symbols come with a drift over all, and the drift
  -- of a symbol with its rate.
  pub record IsMeasured (t : PacketTiming F) : Type 0 where
    pub overall : (t.per_symbol ≡ []) ⊎ (IsThere t.total_drift_us × IsThere t.drift_us_per_sym)
    pub rates : All (λ r. (r.drift_us ≡ none) ⊎ IsThere r.rate_us_per_sym) t.per_symbol
