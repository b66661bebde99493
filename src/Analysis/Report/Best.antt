-- ===== src/Analysis/Report/Best.antt =====
-- The representative packet of a report, as `analyze_recording` of src/stream_web/analysis.py chooses it.
use sdr_docker.Base.{
  ℕ, suc, ◌+◌, ◌≡◌, refl, sym, ap, subst, ◌∙◌, Bool, true, false, ◌&&◌, Option, none, some, List,
  [], ◌∷◌, ◌++◌, length, map, ltb, if◌then◌else◌, arith, All, All-imp, All-append, append_assoc,
  append-nil, length-append, ap₂, inl, inr, Bool-cases, get_elem?,
}
use sdr_docker.Base.Int.{ℤ, ltb_ℤ, leb_ℤ}
use sdr_docker.Base.Floats.{FloatOps}
use sdr_docker.Analysis.Report.{
  Quality, less, best_from, representative, Decoded, quality_of, packet_line, analyze_recording,
}

-- Pairs of an integer and a natural number, in lexicographic order.
abbrev pair_less : ℤ → ℕ → ℤ → ℕ → Bool
pair_less a m b n = if leb_ℤ a b && leb_ℤ b a then ltb m n else ltb_ℤ a b

pair_less_trans :
    (a b c : ℤ) (m n k : ℕ)
    → pair_less a m b n ≡ true
    → pair_less b n c k ≡ true
    → pair_less a m c k ≡ true
pair_less_trans a b c m n k h i = ground arith

pair_less_after :
    (a b c : ℤ) (m n k : ℕ)
    → pair_less b n a m ≡ false
    → pair_less b n c k ≡ true
    → pair_less a m c k ≡ true
pair_less_after a b c m n k h i = ground arith

pair_less_irrefl : (a : ℤ) (m : ℕ) → pair_less a m a m ≡ false
pair_less_irrefl a m = ground arith

-- The element after the elements of a list.
get_elem?-length :
    {A : Type 0} (before : List A) (x : A) (after : List A)
    → get_elem? (before ++ (x ∷ after)) (length before) ≡ some x
get_elem?-length [] x after = refl
get_elem?-length (b ∷ before) x after = get_elem?-length before x after

module _ (F : FloatOps) where
  open F use {Float, of_int, lt, le}

  -- Floats that are numbers are in a total order: they can be ranked.
  pub record IsRanked : Type 0 where
    pub rank : Float → ℤ
    pub lt_rank : (a b : Float) → lt a b ≡ ltb_ℤ (rank a) (rank b)
    pub le_rank : (a b : Float) → le a b ≡ leb_ℤ (rank a) (rank b)

  -- The first of the greatest: what is before it is less, and it is not less than what is after it.
  pub record IsBest {A : Type 0} (f : A → Quality F) (ps : List A) (i : ℕ) : Type 0 where
    pub before : List A
    pub best : A
    pub after : List A
    pub split : ps ≡ before ++ (best ∷ after)
    pub index : i ≡ length before
    pub greater : All (λ p. less F (f p) (f best) ≡ true) before
    pub not_less : All (λ p. less F (f best) (f p) ≡ false) after

  module _ (r : IsRanked) where
    less_rank :
        (a b : Float) (m n : ℕ)
        → less F (some a, m) (some b, n) ≡ (
            if leb_ℤ (r.rank a) (r.rank b) && leb_ℤ (r.rank b) (r.rank a)
            then ltb m n
            else ltb_ℤ (r.rank a) (r.rank b))
    unfolding less
    less_rank a b m n = rw (r.le_rank a b, r.le_rank b a, r.lt_rank a b) refl

    less_trans : (x y z : Quality F) → less F x y ≡ true → less F y z ≡ true → less F x z ≡ true
    unfolding less
    less_trans (none, m) (none, n) (none, k) h i = ground arith
    less_trans (none, m) (none, n) (some c, k) h i = refl
    less_trans (none, m) (some b, n) (none, k) h i = cc
    less_trans (none, m) (some b, n) (some c, k) h i = refl
    less_trans (some a, m) (none, n) z h i = cc
    less_trans (some a, m) (some b, n) (none, k) h i = cc
    less_trans (some a, m) (some b, n) (some c, k) h i =
        less_rank a c m k
        ∙ pair_less_trans (r.rank a) (r.rank b) (r.rank c) m n k (sym (less_rank a b m n) ∙ h)
            (sym (less_rank b c n k) ∙ i)

    -- What is not greater than `y` is less than what `y` is less than.
    less_after : (x y z : Quality F) → less F y x ≡ false → less F y z ≡ true → less F x z ≡ true
    unfolding less
    less_after (none, m) (none, n) (none, k) h i = ground arith
    less_after (none, m) y (some c, k) h i = refl
    less_after (none, m) (some b, n) (none, k) h i = cc
    less_after (some a, m) (none, n) z h i = cc
    less_after (some a, m) (some b, n) (none, k) h i = cc
    less_after (some a, m) (some b, n) (some c, k) h i =
        less_rank a c m k
        ∙ pair_less_after (r.rank a) (r.rank b) (r.rank c) m n k (sym (less_rank b a n m) ∙ h)
            (sym (less_rank b c n k) ∙ i)

    less_irrefl : (x : Quality F) → less F x x ≡ false
    unfolding less
    less_irrefl (none, m) = ground arith
    less_irrefl (some a, m) = less_rank a a m m ∙ pair_less_irrefl (r.rank a) m

    -- What is less is not greater.
    less_asym : (x y : Quality F) → less F x y ≡ true → less F y x ≡ false
    less_asym x y h = elim (Bool-cases (less F y x)) [
      | inl both ↦ cc (less_trans x y x h both, less_irrefl x)
      | inr not_both ↦ not_both
    ]

    best_from-IsBest :
        {A : Type 0} (f : A → Quality F) (rs before between : List A) (q : A)
        → All (λ x. less F (f x) (f q) ≡ true) before
        → All (λ x. less F (f q) (f x) ≡ false) between
        → IsBest f
            (before ++ (q ∷ (between ++ rs)))
            (best_from F (length before) (f q) (length before + suc (length between)) (map f rs))
    unfolding best_from
    best_from-IsBest f [] before between q h k = record {
      before = before;
      best = q;
      after = between;
      split = ap (λ l. before ++ (q ∷ l)) (append-nil between);
      index = refl;
      greater = h;
      not_less = k;
    }
    best_from-IsBest f (x ∷ rs) before between q h k =
        let n = length before + suc (length between) in
        elim (Bool-cases (less F (f q) (f x))) [
          | inl better ↦
              let before' = before ++ (q ∷ between) in
              let less_all : All (λ y. less F (f y) (f x) ≡ true) before' =
                All-append (λ y. less F (f y) (f x) ≡ true) before (q ∷ between)
                  (All-imp before (λ y l. less_trans (f y) (f q) (f x) l better) h)
                  (better, All-imp between (λ y l. less_after (f y) (f q) (f x) l better) k) in
              let e1 : length before' ≡ n = length-append before (q ∷ between) in
              let e2 : n + 1 ≡ suc n = omega arith in
              rw (better) (
                subst (λ l. IsBest f l (best_from F n (f x) (suc n) (map f rs)))
                  (append_assoc before (q ∷ between) (x ∷ rs))
                  (subst (λ j. IsBest f (before' ++ (x ∷ rs)) (best_from F n (f x) j (map f rs))) e2
                    (subst
                      (λ j. IsBest f (before' ++ (x ∷ rs)) (best_from F j (f x) (j + 1) (map f rs)))
                      e1 (best_from-IsBest f rs before' [] x less_all tt))))
          | inr same ↦
              let between' = between ++ (x ∷ []) in
              let m = length-append between (x ∷ []) in
              let e1 : length before + suc (length between') ≡ suc n = omega arith in
              rw (same) (
                subst
                  (λ l.
                    IsBest f (before ++ (q ∷ l))
                      (best_from F (length before) (f q) (suc n) (map f rs)))
                  (append_assoc between (x ∷ []) rs)
                  (subst
                    (λ j.
                      IsBest f (before ++ (q ∷ (between' ++ rs)))
                        (best_from F (length before) (f q) j (map f rs)))
                    e1
                    (best_from-IsBest f rs before between' q h (
                      All-append (λ y. less F (f q) (f y) ≡ false) between (x ∷ []) k (same, tt)))))
        ]

    module _ (mean : List ℕ → Float) (round1 round2 round4 : Float → Float)
        (Details Chipset : Type 0) (snr_db : Details → Option Float)
        (chipset_of : Details → Chipset) (analyze_packet : Decoded F → Details) where
      abbrev pub quality : Decoded F → Quality F
      quality =
          quality_of F mean round1 round2 round4 Details Chipset snr_db chipset_of analyze_packet

      -- The report of a recording with a packet has a line for each packet, in order, and its
      -- representative is the first of the packets whose SNR, and then number of symbols, is greatest.
      pub analyze_recording-IsBest :
          (p : Decoded F) (ps : List (Decoded F))
          → let report =
              analyze_recording F mean round1 round2 round4 Details Chipset snr_db chipset_of
                analyze_packet
                (p ∷ ps) in
            let line =
              packet_line F mean round1 round2 round4 Details Chipset snr_db chipset_of
                analyze_packet in
            (i : ℕ) × (b : IsBest quality (p ∷ ps) i) × (report.representative_packet
              ≡ some (line b.best))
            × (report.lines ≡ map line (p ∷ ps))
      unfolding analyze_recording representative
      analyze_recording-IsBest p ps =
          let b : IsBest quality (p ∷ ps) (best_from F 0 (quality p) 1 (map quality ps)) =
            best_from-IsBest quality ps [] [] p tt tt in
          let found : get_elem? (p ∷ ps) (best_from F 0 (quality p) 1 (map quality ps))
              ≡ some b.best =
            ap₂ get_elem? b.split b.index ∙ get_elem?-length b.before b.best b.after in
          (
            best_from F 0 (quality p) 1 (map quality ps),
            b,
            rw (found, analyze_recording, representative) refl,
            refl,
          )
