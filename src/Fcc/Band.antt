-- ===== src/Fcc/Band.antt =====
-- The 20 dB band of the FCC check of src/stream_web/spectrogram.py.
use sdr_docker.Base.{
  ℕ, zero, suc, ◌+◌, ◌-◌, ◌≤◌, ◌<◌, ◌≡◌, refl, sym, true, false, ◌⊎◌, inl, inr, some, List, leb,
  Bool-cases, arith, subst,
}
use sdr_docker.Base.Floats.{FloatOps}
use sdr_docker.Fcc.{
  Limits, Trace, walk_left, walk_right, Verdict, threshold, verdict, evaluate_fcc_compliance,
}

module _ (F : FloatOps) where
  open F use {Float, lt}

  walk_left-skirt :
      (avg : ℕ → Float) (thr : Float) (peak : ℕ)
      → (walk_left F avg thr peak ≤ peak)
        × ((i : ℕ) → walk_left F avg thr peak < i → i ≤ peak → lt thr (avg i) ≡ true)
        × ((walk_left F avg thr peak ≡ 0) ⊎ (lt thr (avg (walk_left F avg thr peak)) ≡ false))
  unfolding walk_left
  walk_left-skirt avg thr zero = (omega arith, λ i h k. absurd (omega arith), inl refl)
  walk_left-skirt avg thr (suc p) = elim (Bool-cases (lt thr (avg (suc p)))) [
    | inl above ↦
        let (low, skirt, edge) = walk_left-skirt avg thr p in
        rw (above) (
          omega arith,
          λ i h k.
              let at : (i ≤ p) ⊎ (i ≡ suc p) = omega arith in
              elim at [
                | inl earlier ↦ skirt i h earlier
                | inr here ↦ subst (λ j. lt thr (avg j) ≡ true) (sym here) above
              ],
          edge,
        )
    | inr below ↦ rw (below) (omega arith, λ i h k. absurd (omega arith), inr below)
  ]

  walk_right-skirt :
      (avg : ℕ → Float) (thr : Float) (left peak : ℕ)
      → (peak ≤ walk_right F avg thr left peak)
        × (walk_right F avg thr left peak ≤ peak + left)
        × ((i : ℕ) → peak ≤ i → i < walk_right F avg thr left peak → lt thr (avg i) ≡ true)
        × ((walk_right F avg thr left peak ≡ peak + left)
            ⊎ (lt thr (avg (walk_right F avg thr left peak)) ≡ false))
  unfolding walk_right
  walk_right-skirt avg thr zero p =
      (omega arith, omega arith, λ i h k. absurd (omega arith), inl (omega arith))
  walk_right-skirt avg thr (suc left) p = elim (Bool-cases (lt thr (avg p))) [
    | inl above ↦
        let (low, high, skirt, edge) = walk_right-skirt avg thr left (suc p) in
        rw (above) (
          omega arith,
          omega arith,
          λ i h k.
              let at : (suc p ≤ i) ⊎ (i ≡ p) = omega arith in
              elim at [
                | inl later ↦ skirt i later k
                | inr here ↦ subst (λ j. lt thr (avg j) ≡ true) (sym here) above
              ],
          elim edge [ inl end ↦ inl (omega arith) | inr stop ↦ inr stop ],
        )
    | inr below ↦ rw (below) (omega arith, omega arith, λ i h k. absurd (omega arith), inr below)
  ]

  -- The band that a verdict reports: it holds the carrier and lies in the trace, every bin inside it
  -- is above the threshold, and each end is the trace's end or a bin not above the threshold.
  pub record IsBand (t : Trace F) (peak : ℕ) (v : Verdict F) : Type 0 where
    pub below_peak : v.bw_lo_idx ≤ peak
    pub above_peak : peak ≤ v.bw_hi_idx
    pub in_trace : v.bw_hi_idx < t.bins
    pub inside :
        (i : ℕ) → v.bw_lo_idx < i → i < v.bw_hi_idx → lt (threshold F t peak) (t.avg_db i) ≡ true
    pub lo_end : (v.bw_lo_idx ≡ 0) ⊎ (lt (threshold F t peak) (t.avg_db v.bw_lo_idx) ≡ false)
    pub hi_end :
        (v.bw_hi_idx + 1 ≡ t.bins) ⊎ (lt (threshold F t peak) (t.avg_db v.bw_hi_idx) ≡ false)

  -- A carrier that stands the required distance above the noise gets a verdict, and the band of the
  -- verdict is the run of bins around the carrier above the threshold.
  pub evaluate_fcc_compliance-IsBand :
      (lim : Limits F) (t : Trace F) (noise_db : Float) (peak : ℕ) (cand : List ℕ)
      → peak < t.bins
      → lt (F.minus (t.avg_db peak) noise_db) lim.min_snr_db ≡ false
      → (v : Verdict F) × (evaluate_fcc_compliance F lim t noise_db peak cand ≡ some v)
        × IsBand t peak v
  unfolding evaluate_fcc_compliance verdict
  evaluate_fcc_compliance-IsBand lim t noise_db peak cand inside strong =
      let thr = threshold F t peak in
      let (low, low_skirt, low_edge) = walk_left-skirt t.avg_db thr peak in
      let left = t.bins - 1 - peak in
      let (high, last, high_skirt, high_edge) = walk_right-skirt t.avg_db thr left peak in
      (
        verdict F lim t noise_db peak cand,
        rw (strong) refl,
        record {
          below_peak = low;
          above_peak = high;
          in_trace = omega arith;
          inside = λ i h k. elim (Bool-cases (leb i peak)) [
            | inl before ↦ low_skirt i h (ground arith)
            | inr after ↦ high_skirt i (ground arith) k
          ];
          lo_end = low_edge;
          hi_end = elim high_edge [ inl end ↦ inl (omega arith) | inr stop ↦ inr stop ];
        },
      )
