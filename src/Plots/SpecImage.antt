-- ===== src/Plots/SpecImage.antt =====
-- `render_spec_image` of src/stream_web/spectrogram.py: the columns of the spectrogram before the image
-- is scaled, and the boxes on it. numpy's minimum and percentiles are parameters; the colour of a level
-- is that of the table `_VIRIDIS_LUT`, which has 256. A chunk has one column at least.
pub mod Whole
use sdr_docker.Base.{
  ℕ, ◌-◌, ◌*◌, ◌≤◌, ◌≡◌, refl, ap, sym, ◌∙◌, Bool, true, false, Option, none, some, List, [], ◌∷◌,
  ◌++◌, length, drop, map, replicate, max, ltb, All, if◌then◌else◌, arith, IsThere, inl, inr, ◌⊎◌,
  Bool-cases, length-append, length-replicate, drop-append_right,
}
use sdr_docker.Base.Int.{ℤ}
use sdr_docker.Base.Floats.{FloatOps}
use sdr_docker.Config.{max_spec_chunks, spec_dc_notch_bins}
use sdr_docker.Processor.History.{Detection}
use sdr_docker.Fcc.{interpolate_dc}
use sdr_docker.Fcc.Spectrum.{Chunk, all_columns, bins_of}
use sdr_docker.Plots.Boxes.{Box, boxes_of, InImage, IsInBand}

module _ (F : FloatOps) where
  open F use {Float, frac, plus, minus, times, over, lt, le, truncate}

  -- `np.min(Sxx)` and the percentiles 2 and 99.5 of a matrix of so many bins.
  pub record MatrixRoutines : Type 0 where
    pub least : ℕ → List (ℕ → Float) → Float
    pub percentile_low : ℕ → List (ℕ → Float) → Float
    pub percentile_high : ℕ → List (ℕ → Float) → Float

  -- The columns of the first chunk, times as many chunks as the spectrogram shows.
  pub full_cols : List (Chunk F) → ℕ
  full_cols [] = 0
  full_cols (c ∷ cs) = max_spec_chunks * length (Chunk.columns c)

  -- `np.clip`
  unfoldable pub clip : (lo hi : Float) → Float → Float
  clip lo hi x = if lt x lo then lo else if lt hi x then hi else x

  -- The index in the table of colours.
  pub level : (plow phigh : Float) → Float → ℕ
  unfolding clip
  level plow phigh x =
      truncate
        (clip (frac 0 1) (frac 255 1) (times (over (minus x plow) (minus phigh plow)) (frac 255 1)))

  -- Columns of levels, the oldest first; the row at the top is the highest bin.
  pub record SpecImage : Type 0 where
    pub columns : List (ℕ → ℕ)
    pub boxes : List Box

  module _ (np : MatrixRoutines) where
    -- Columns of the least value stand where there is nothing yet.
    pub padded : (bins full : ℕ) → List (ℕ → Float) → List (ℕ → Float)
    padded bins full cols =
        if ltb (length cols) full
        then replicate (full - length cols) (λ i. np.least bins cols) ++ cols
        else cols

    pub smoothed : ℕ → List (ℕ → Float) → List (ℕ → Float)
    smoothed bins cols = map (λ c. interpolate_dc F spec_dc_notch_bins bins c) cols

    pub range_of : ℕ → List (ℕ → Float) → Float × Float
    range_of bins cols =
        let plow = np.percentile_low bins cols in
        let phigh = np.percentile_high bins cols in
        (plow, if le phigh plow then plus plow (frac 1 1) else phigh)

    -- The levels of a column from the top.
    pub pixels : ℕ → Float × Float → (ℕ → Float) → ℕ → ℕ
    unfolding level
    pixels bins (plow, phigh) column row = level plow phigh (column (bins - 1 - row))

    pub levels : ℕ → List (ℕ → Float) → List (ℕ → ℕ)
    unfolding smoothed range_of pixels
    levels bins cols =
        let sxx_db = smoothed bins cols in
        let range = range_of bins sxx_db in map (λ c. pixels bins range c) sxx_db

    -- `none` is the empty answer.
    pub render_spec_image :
        (int : Float → ℤ) → List (Chunk F) → List (Detection F) → Option SpecImage
    unfolding full_cols padded levels
    render_spec_image int [] detections = none
    render_spec_image int (c ∷ cs) detections =
        let bins = bins_of F (c ∷ cs) in
        some (record {
          columns = levels bins (padded bins (full_cols (c ∷ cs)) (all_columns F (c ∷ cs)));
          boxes = boxes_of F int detections;
        })
