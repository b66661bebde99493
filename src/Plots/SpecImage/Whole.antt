-- ===== src/Plots/SpecImage/Whole.antt =====
-- The image that `render_spec_image` of src/stream_web/spectrogram.py makes is whole: as wide as the
-- spectrogram, the newest at the right, every level one of the table, no box above it, below it or past
-- its right end.
use sdr_docker.Base.{
  ℕ, zero, suc, ◌-◌, ◌≤◌, ◌≡◌, refl, ap, ◌∙◌, false, some, List, [], ◌∷◌, length, drop, map,
  replicate, max, ltb, All, arith, inl, inr, Bool-cases, length-append, length-replicate,
  drop-append_right,
}
use sdr_docker.Base.Int.{ℤ}
use sdr_docker.Base.Floats.{FloatOps}
use sdr_docker.Config.{spec_dc_notch_bins}
use sdr_docker.Fcc.{interpolate_dc}
use sdr_docker.Processor.History.{Detection}
use sdr_docker.Fcc.Spectrum.{Chunk, all_columns, bins_of}
use sdr_docker.Plots.Boxes.{boxes_of, InImage, IsInBand, boxes_of-InImage}
use sdr_docker.Plots.SpecImage.{
  MatrixRoutines, full_cols, clip, level, SpecImage, padded, smoothed, range_of, pixels, levels,
  render_spec_image,
}

length-map {ℓ κ} :
    {A : Type ℓ} {B : Type κ} (f : A → B) (xs : List A) → length (map f xs) ≡ length xs
length-map f [] = refl
length-map f (x ∷ xs) = ap suc (length-map f xs)

drop-map {ℓ κ} :
    {A : Type ℓ} {B : Type κ} (f : A → B) (n : ℕ) (xs : List A)
    → drop n (map f xs) ≡ map f (drop n xs)
drop-map f zero xs = refl
drop-map f (suc n) [] = refl
drop-map f (suc n) (x ∷ xs) = drop-map f n xs

All-map {ℓ κ ι} :
    {A : Type ℓ} {B : Type κ} (P : B → Type ι) (f : A → B) (xs : List A)
    → ((x : A) → P (f x))
    → All P (map f xs)
All-map P f [] h = tt
All-map P f (x ∷ xs) h = (h x, All-map P f xs h)

module _ (F : FloatOps) where
  open F use {Float, frac, lt, truncate}

  -- What is relied on of floats: a number from 0 to 255 gives a level of the table.
  pub record IsLevelled : Type 0 where
    pub lowest : truncate (frac 0 1) ≤ 255
    pub highest : truncate (frac 255 1) ≤ 255
    pub between :
        (x : Float) → lt x (frac 0 1) ≡ false → lt (frac 255 1) x ≡ false → truncate x ≤ 255

  clip-IsLevelled : IsLevelled → (x : Float) → truncate (clip F (frac 0 1) (frac 255 1) x) ≤ 255
  unfolding clip
  clip-IsLevelled h x = elim (Bool-cases (lt x (frac 0 1))) [
    | inl low ↦ rw (low) h.lowest
    | inr not_low ↦ elim (Bool-cases (lt (frac 255 1) x)) [
      | inl high ↦ rw (not_low, high) h.highest
      | inr not_high ↦ rw (not_low, not_high) (h.between x not_low not_high)
    ]
  ]

  module _ (np : MatrixRoutines F) (int : Float → ℤ) where
    length-padded :
        (bins full : ℕ) (cols : List (ℕ → Float))
        → length (padded F np bins full cols) ≡ max full (length cols)
    unfolding padded
    length-padded bins full cols =
        let filler : ℕ → Float = λ i. np.least bins cols in
        ground (
          arith,
          length-append (replicate (full - length cols) filler) cols,
          length-replicate (full - length cols) filler,
        )

    drop-padded :
        (bins full : ℕ) (cols : List (ℕ → Float))
        → drop (max full (length cols) - length cols) (padded F np bins full cols) ≡ cols
    unfolding padded
    drop-padded bins full cols =
        let filler : ℕ → Float = λ i. np.least bins cols in
        let n = length-replicate (full - length cols) filler in
        elim (Bool-cases (ltb (length cols) full)) [
          | inl short ↦ rw (short) (
              drop-append_right (max full (length cols) - length cols) 0
                (replicate (full - length cols) filler) cols (ground (arith, n)))
          | inr long ↦
              let none_dropped : max full (length cols) - length cols ≡ 0 = ground arith in
              rw (long, none_dropped) refl
        ]

    -- The image of the chunks, with at least as many columns as the spectrogram shows: the last are
    -- those of the chunks in order, all on one range of levels.
    pub record IsWhole (chunks : List (Chunk F)) (image : SpecImage F) : Type 0 where
      pub wide : length image.columns ≡ max (full_cols F chunks) (length (all_columns F chunks))
      pub range : Float × Float
      pub newest :
          drop (length image.columns - length (all_columns F chunks)) image.columns
          ≡ map
              (pixels F np (bins_of F chunks) range)
              (smoothed F np (bins_of F chunks) (all_columns F chunks))
      pub in_table : All (λ column. (row : ℕ) → column row ≤ 255) image.columns
      pub in_image : All (InImage F int) image.boxes

    length-smoothed :
        (bins : ℕ) (cols : List (ℕ → Float)) → length (smoothed F np bins cols) ≡ length cols
    unfolding smoothed
    length-smoothed bins cols = length-map (λ c. interpolate_dc F spec_dc_notch_bins bins c) cols

    drop-smoothed :
        (bins n : ℕ) (cols : List (ℕ → Float))
        → drop n (smoothed F np bins cols) ≡ smoothed F np bins (drop n cols)
    unfolding smoothed
    drop-smoothed bins n cols = drop-map (λ c. interpolate_dc F spec_dc_notch_bins bins c) n cols

    levels-IsLevelled :
        (bins : ℕ) (cols : List (ℕ → Float))
        → IsLevelled
        → All (λ column. (row : ℕ) → column row ≤ 255) (levels F np bins cols)
    unfolding levels pixels level
    levels-IsLevelled bins cols h =
        All-map (λ column. (row : ℕ) → column row ≤ 255)
          (pixels F np bins (range_of F np bins (smoothed F np bins cols)))
          (smoothed F np bins cols) (λ c row. clip-IsLevelled h _)

    -- The image of some chunks, whose detections are of the band, is as wide as the spectrogram or, of more
    -- columns than that, as all of them; at its right are the columns of the chunks in order, on one
    -- range of levels; every level is one of the 256 of the table, when a float from 0 to 255 is cut to
    -- one of them; and every box has its rows and its right end in the image, and may begin to the left
    -- of it.
    pub render_spec_image-IsWhole :
        (c : Chunk F) (cs : List (Chunk F)) (detections : List (Detection F))
        → IsLevelled
        → All (IsInBand F int) detections
        → (image : SpecImage F) × (render_spec_image F np int (c ∷ cs) detections ≡ some image)
          × IsWhole (c ∷ cs) image
    unfolding render_spec_image levels smoothed
    render_spec_image-IsWhole c cs detections h in_band =
        let bins = bins_of F (c ∷ cs) in
        let all = all_columns F (c ∷ cs) in
        let full = full_cols F (c ∷ cs) in
        let sxx = padded F np bins full all in
        let range = range_of F np bins (smoothed F np bins sxx) in
        let wide : length (levels F np bins sxx) ≡ max full (length all) =
          length-map (pixels F np bins range) (smoothed F np bins sxx)
          ∙ (length-smoothed bins sxx ∙ length-padded bins full all) in
        (
          record { columns = levels F np bins sxx; boxes = boxes_of F int detections },
          refl,
          record {
            wide = wide;
            range = range;
            newest = rw (wide) (
                drop-map (pixels F np bins range) (max full (length all) - length all)
                  (smoothed F np bins sxx)
                ∙ ap (map (pixels F np bins range)) (
                    drop-smoothed bins (max full (length all) - length all) sxx
                    ∙ ap (smoothed F np bins) (drop-padded bins full all)));
            in_table = levels-IsLevelled bins sxx h;
            in_image = boxes_of-InImage F int detections in_band;
          },
        )
