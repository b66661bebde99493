-- ===== src/Fcc/Scores.antt =====
-- The spurs of the FCC check of src/stream_web/spectrogram.py, and its overall result.
use sdr_docker.Base.{
  ℕ, suc, ◌+◌, ◌-◌, ◌≡◌, refl, sym, ap, ◌∙◌, Bool, true, false, inl, inr, some, List, [], ◌∷◌, ◌++◌,
  map, keep, abs_diff, leb, ltb, Bool-cases, arith, All, append_assoc, append-nil, if◌then◌else◌,
  ◌↔◌,
}
use sdr_docker.Base.Int.{pos}
use sdr_docker.Base.Floats.{FloatOps}
use sdr_docker.Fcc.{
  Limits, Trace, Spur, Spurs, score, score_all, no_spurs, Verdict, guard_of,
  evaluate_fcc_compliance, verdict,
}

module _ (F : FloatOps) where
  open F use {Float, lt, le, minus, times, over, frac, of_int}

  abbrev pub n_failing : List (Spur F) → ℕ
  n_failing [] = 0
  n_failing (s ∷ ss) = (if s.passes then 0 else 1) + n_failing ss

  n_failing-append : (xs ys : List (Spur F)) → n_failing (xs ++ ys) ≡ n_failing xs + n_failing ys
  n_failing-append [] ys = omega arith
  n_failing-append (x ∷ xs) ys = let rest = n_failing-append xs ys in omega arith

  module _ (lim : Limits F) (t : Trace F) where
    -- A bin keeps the limit when its power is at least the limit below the carrier's.
    abbrev pub keeps_limit : (peak p : ℕ) → Bool
    keeps_limit peak p =
        le (minus (t.avg_db p) (t.avg_db peak)) (minus (of_int (pos 0)) lim.spur_limit_dbc)

    -- What is listed of a bin.
    abbrev pub spur_at : (peak p : ℕ) → Spur F
    spur_at peak p = record {
      idx = p;
      freq_hz = t.freqs_hz p;
      power_db = t.avg_db p;
      dbc = minus (t.avg_db p) (t.avg_db peak);
      passes = keeps_limit peak p;
    }

    -- The candidates that are further from the carrier than its guard.
    abbrev pub outside : (peak guard : ℕ) → List ℕ → List ℕ
    outside peak guard cand = keep (λ p. ltb guard (abs_diff p peak)) cand

    score_all-listed :
        (peak guard : ℕ) (ps : List ℕ) (s : Spurs F)
        → s.n_spur_fail ≡ n_failing s.spurs
        → let s' = score_all F lim t peak guard ps s in
          (s'.spurs ≡ s.spurs ++ map (spur_at peak) (outside peak guard ps))
          × (s'.n_spur_fail ≡ n_failing s'.spurs)
    unfolding score_all score
    score_all-listed peak guard [] s h = (sym (append-nil s.spurs), h)
    score_all-listed peak guard (p ∷ ps) s h =
        let s' = score F lim t peak guard p s in
        elim (Bool-cases (leb (abs_diff p peak) guard)) [
          | inl skirt ↦
              let near : ltb guard (abs_diff p peak) ≡ false = ground arith in
              rw (score_all, score, skirt, near) (score_all-listed peak guard ps s h)
          | inr out ↦
              let far : ltb guard (abs_diff p peak) ≡ true = ground arith in
              let n = n_failing-append s.spurs (spur_at peak p ∷ []) in
              let counted : (if keeps_limit peak p then s.n_spur_fail else suc s.n_spur_fail)
                  ≡ n_failing (s.spurs ++ (spur_at peak p ∷ [])) =
                ground arith in
              rw (score_all, score, out, far)
                (let (listed, fails) = score_all-listed peak guard ps _ counted in
                  (
                    listed
                        ∙ append_assoc s.spurs (spur_at peak p ∷ [])
                            (map (spur_at peak) (outside peak guard ps)),
                    fails,
                  ))
        ]

    n_failing-none :
        (peak : ℕ) (ps : List ℕ)
        → n_failing (map (spur_at peak) ps) ≡ 0
        → All (λ p. keeps_limit peak p ≡ true) ps
    n_failing-none peak [] h = tt
    n_failing-none peak (p ∷ ps) h = elim (Bool-cases (keeps_limit peak p)) [
      | inl passed ↦ (passed, n_failing-none peak ps (ground arith))
      | inr failed ↦ absurd (ground arith)
    ]

    n_failing_zero :
        (peak : ℕ) (ps : List ℕ)
        → All (λ p. keeps_limit peak p ≡ true) ps
        → n_failing (map (spur_at peak) ps) ≡ 0
    n_failing_zero peak [] h = refl
    n_failing_zero peak (p ∷ ps) (passed, rest) =
        let none_more = n_failing_zero peak ps rest in rw (passed) (omega arith)

    -- Two thirds of the width of the band fit the channel spacing.
    abbrev pub fits_spacing : (lo hi : ℕ) → Bool
    fits_spacing lo hi =
        le (times (over (frac 2 1) (frac 3 1)) (times (of_int (pos (hi - lo))) t.bin_hz))
          lim.channel_spacing

    -- What a verdict says of the candidates: each one outside the guard is listed, in order, with its
    -- power below the carrier, and nothing else is; the failing ones are counted; and the result is
    -- positive just when the band fits the spacing and all of them keep the limit.
    pub record IsFair (peak : ℕ) (cand : List ℕ) (v : Verdict F) : Type 0 where
      pub listed :
          v.found.spurs
          ≡ map (spur_at peak) (outside peak (guard_of F lim t peak v.bw_lo_idx v.bw_hi_idx) cand)
      pub fails : v.found.n_spur_fail ≡ n_failing v.found.spurs
      pub overall : (v.overall_ok ≡ true) ↔ (
          (fits_spacing v.bw_lo_idx v.bw_hi_idx ≡ true)
          × All
              (λ p. keeps_limit peak p ≡ true)
              (outside peak (guard_of F lim t peak v.bw_lo_idx v.bw_hi_idx) cand))

    -- The verdict on a tone lists the candidates outside the carrier's guard, all of them in order and
    -- no others, each with its power relative to the carrier, and counts those above the limit. It is
    -- positive exactly when two thirds of the 20 dB bandwidth fit the channel spacing and the power of
    -- every listed candidate is below the carrier's by the limit at least.
    pub evaluate_fcc_compliance-IsFair :
        (noise_db : Float) (peak : ℕ) (cand : List ℕ)
        → lt (F.minus (t.avg_db peak) noise_db) lim.min_snr_db ≡ false
        → (v : Verdict F) × (evaluate_fcc_compliance F lim t noise_db peak cand ≡ some v)
          × IsFair peak cand v
    unfolding evaluate_fcc_compliance verdict
    evaluate_fcc_compliance-IsFair noise_db peak cand strong =
        let v = verdict F lim t noise_db peak cand in
        let ps = outside peak (guard_of F lim t peak v.bw_lo_idx v.bw_hi_idx) cand in
        let (listed, fails) =
          score_all-listed peak (guard_of F lim t peak v.bw_lo_idx v.bw_hi_idx) cand (no_spurs F)
            refl in
        let counted : v.found.n_spur_fail ≡ n_failing (map (spur_at peak) ps) =
          fails ∙ ap n_failing listed in
        (
          v,
          rw (strong) refl,
          record {
            listed = listed;
            fails = fails;
            overall = (
              λ ok. elim (Bool-cases (fits_spacing v.bw_lo_idx v.bw_hi_idx)) [
                | inl fits ↦ (fits, n_failing-none peak ps (ground arith))
                | inr wide ↦ absurd (ground arith)
              ],
              λ (fits, all_pass). let zero_fails = n_failing_zero peak ps all_pass in ground arith,
            );
          },
        )
