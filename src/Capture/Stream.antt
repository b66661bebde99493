-- ===== src/Capture/Stream.antt =====
-- The stream of samples that the RX thread delivers, and a world whose ring follows it.
use native.Mathlib.Nat.{mod-eq_of_lt, mod-eq-sub-mod, mod-add-mod, mod-lt}
use sdr_docker.Base.{
  ℕ, zero, suc, ◌+◌, ◌-◌, ◌*◌, ◌%◌, ◌≤◌, ◌<◌, ◌≡◌, refl, sym, ap, ◌∙◌, List, [], ◌∷◌, ◌++◌, arith,
  ◌⊎◌, inl, inr, length, take, drop, ltb, Bool-cases,
}
use sdr_docker.Base.Floats.{FloatOps}
use sdr_docker.IqRing.{samples_advanced, copy_chunk}
use sdr_docker.IqRing.Window.{window, IsValid}
use sdr_docker.IqRing.Reads.{samples_advanced_cases, copy_chunk-window}
use sdr_docker.Capture.{World}

module _ {ℓ} {A : Type ℓ} (stream : ℕ → A) where
  -- `n` samples of the stream from index `c` on.
  abbrev pub slice : ℕ → ℕ → List A
  slice c zero = []
  slice c (suc n) = stream c ∷ slice (suc c) n

  pub length-slice : (c n : ℕ) → length (slice c n) ≡ n
  length-slice c zero = refl
  length-slice c (suc n) = ap suc (length-slice (suc c) n)

  pub take-slice : (c n m : ℕ) → m ≤ n → take m (slice c n) ≡ slice c m
  take-slice c n zero h = refl
  take-slice c zero (suc m) h = absurd (omega arith)
  take-slice c (suc n) (suc m) h = ap (◌∷◌ (stream c)) (take-slice (suc c) n m (omega arith))

  pub drop-slice : (c n k c' m : ℕ) → c' ≡ c + k → n ≡ k + m → drop k (slice c n) ≡ slice c' m
  drop-slice c n zero c' m h e = ap (slice c) (omega arith) ∙ ap (λ j. slice j m) (omega arith)
  drop-slice c zero (suc k) c' m h e = absurd (omega arith)
  drop-slice c (suc n) (suc k) c' m h e = drop-slice (suc c) n k c' m (omega arith) (omega arith)

  pub slice-append : (c m n d : ℕ) → d ≡ c + m → slice c m ++ slice d n ≡ slice c (m + n)
  slice-append c zero n d h =
      let same : d ≡ c = omega arith in
      let none_more : n ≡ 0 + n = omega arith in rw same (ap (slice c) none_more)
  slice-append c (suc m) n d h =
      ap (◌∷◌ (stream c)) (slice-append (suc c) m n d (omega arith))
      ∙ (let one_more : suc (m + n) ≡ suc m + n = omega arith in ap (slice c) one_more)

-- Where `c + d` stands in the ring, for a distance within one lap.
pub place_of_distance :
    (size c d : ℕ)
    → d < size
    → ((c % size + d < size) × ((c + d) % size ≡ c % size + d))
      ⊎ ((size ≤ c % size + d) × ((c + d) % size ≡ c % size + d - size))
place_of_distance size c d h =
    let below : c % size < size = mod-lt c (omega arith) in
    elim (Bool-cases (ltb (c % size + d) size)) [
      | inl near ↦ inl (ground arith, sym (mod-add-mod c size d) ∙ mod-eq_of_lt (ground arith))
      | inr far ↦ inr (
        ground arith,
        sym (mod-add-mod c size d)
            ∙ mod-eq-sub-mod {n = c % size + d} {m = size} (ground arith)
            ∙ mod-eq_of_lt (ground arith),
      )
    ]

-- Between two positions of the stream within one lap, `samples_advanced` is their distance.
pub samples_advanced_of_distance :
    (size c d : ℕ) → d < size → samples_advanced size (c % size) ((c + d) % size) ≡ d
samples_advanced_of_distance size c d h =
    let below : c % size < size = mod-lt c (omega arith) in
    elim (place_of_distance size c d h) [
      | inl near ↦ elim (samples_advanced_cases size (c % size) ((c + d) % size)) [
        | inl a ↦ omega arith
        | inr a ↦ absurd (omega arith)
      ]
      | inr far ↦ elim (samples_advanced_cases size (c % size) ((c + d) % size)) [
        | inl a ↦ absurd (omega arith)
        | inr a ↦ omega arith
      ]
    ]

module _ {ℓ} (F : FloatOps) {A : Type ℓ} (size : ℕ) where
  -- The ring of each tick holds the `size` samples of the stream from `total` on, the write index
  -- has been set back from the end of the buffer, and from one tick to the next the RX thread
  -- delivers at most an eighth of the buffer (250 ms of samples; a tick is at most a 50 ms sleep).
  pub record Follows (w : World F A) (stream : ℕ → A) (total : ℕ → ℕ) : Type ℓ where
    pub valid : (t : ℕ) → IsValid size (w.ring t)
    pub holds : (t : ℕ) → window (w.ring t) ≡ slice stream (total t) size
    pub place : (t : ℕ) → (w.ring t).buf_write_idx ≡ total t % size
    pub grows : (t : ℕ) → total t ≤ total (suc t)
    pub steady : (t : ℕ) → 8 * total (suc t) ≤ 8 * total t + size

  module _ (w : World F A) (stream : ℕ → A) (total : ℕ → ℕ) (f : Follows w stream total) where
    pub advanced_at :
        (c t : ℕ)
        → c ≤ total t
        → total t < c + size
        → samples_advanced size (c % size) (w.ring t).buf_write_idx ≡ total t - c
    advanced_at c t lo hi =
        ap (samples_advanced size (c % size)) (f.place t ∙ ap (λ k. k % size) (omega arith))
        ∙ samples_advanced_of_distance size c (total t - c) (omega arith)

    -- A chunk copied while the head is ahead of it by less than a lap is that part of the stream.
    pub copy_at :
        (c m t : ℕ)
        → 0 < m
        → c + m ≤ total t
        → total t < c + size
        → copy_chunk size (w.ring t).iq_buffer (c % size) m ≡ slice stream (c + size) m
    copy_at c m t pos lo hi =
        let ahead = advanced_at c t (omega arith) hi in
        let below : c % size < size = mod-lt c (omega arith) in
        copy_chunk-window size (w.ring t) (c % size) m (f.valid t) (omega arith) pos (omega arith)
          (omega (arith, ahead))
        ∙ ap (λ d. take m (drop (size - d) (window (w.ring t)))) ahead
        ∙ ap (λ l. take m (drop (size - (total t - c)) l)) (f.holds t)
        ∙ ap (take m) (
            drop-slice stream (total t) size (size - (total t - c)) (c + size) (total t - c)
              (omega arith) (omega arith))
        ∙ take-slice stream (c + size) (total t - c) m (omega arith)
