-- ===== src/Plots/Boxes.antt =====
-- The boxes that `render_spec_image` of src/stream_web/spectrogram.py draws around detections, in
-- pixels of the image. The text of a label is PIL's.
use text.Mathlib.Text.{◌==◌ as str_eq}
use sdr_docker.Base.{
  ℕ, ◌≡◌, refl, true, false, ◌||◌, Option, none, some, List, [], ◌∷◌, if◌then◌else◌, arith, inl,
  inr, Bool-cases, ◌⊎◌, All,
}
use sdr_docker.Base.Int.{ℤ, pos, negsuc, ◌+ℤ◌, ◌-ℤ◌, ◌≤ℤ◌, ltb_ℤ, leb_ℤ, +ℤ_parts, -ℤ_parts}
use sdr_docker.Base.Floats.{FloatOps}
use sdr_docker.Config.{sample_rate, spec_img_width, spec_img_height}
use sdr_docker.TdCapture.{int_eq}
use sdr_docker.Processor.History.{Detection}

abbrev pub larger : ℤ → ℤ → ℤ
larger a b = if ltb_ℤ a b then b else a

abbrev pub smaller : ℤ → ℤ → ℤ
smaller a b = if ltb_ℤ b a then b else a

-- Red, green and blue.
abbrev pub Color : Type 0
Color = ℕ × ℕ × ℕ

-- A rectangle, of which the last column is 1199 and the last row 199, and, where the chipset has a name, the place of the name.
pub record Box : Type 0 where
  pub x0 : ℤ
  pub y0 : ℤ
  pub x1 : ℤ
  pub y1 : ℤ
  pub color : Color
  pub label_at : Option (ℤ × ℤ)

pub half_box : ℤ
half_box = pos 10

-- The right end of a box whose left end is at `x`, and which is not outside of the image.
is_inside :
    (x w : ℤ)
    → ltb_ℤ (smaller (pos 1199) (x +ℤ w)) (pos 0) || leb_ℤ (pos spec_img_width) x ≡ false
    → pos 4 ≤ℤ w
    → (x ≤ℤ smaller (pos 1199) (x +ℤ w))
      × (pos 0 ≤ℤ smaller (pos 1199) (x +ℤ w))
      × (smaller (pos 1199) (x +ℤ w) ≤ℤ pos 1199)
is_inside x w h wide =
    (ground (arith, +ℤ_parts x w), ground (arith, +ℤ_parts x w), ground (arith, +ℤ_parts x w))

is_wide :
    (x w : ℤ)
    → pos 4 ≤ℤ w
    → (x +ℤ pos 4 ≤ℤ smaller (pos 1199) (x +ℤ w)) ⊎ (smaller (pos 1199) (x +ℤ w) ≡ pos 1199)
is_wide x w wide = elim (Bool-cases (ltb_ℤ (x +ℤ w) (pos 1199))) [
  | inl short ↦ inl (ground (arith, +ℤ_parts x w, +ℤ_parts x (pos 4)))
  | inr long ↦ inr (rw (long) refl)
]

is_outside :
    (x w : ℤ)
    → ltb_ℤ (smaller (pos 1199) (x +ℤ w)) (pos 0) || leb_ℤ (pos spec_img_width) x ≡ true
    → (ltb_ℤ (x +ℤ w) (pos 0) ≡ true) ⊎ (pos spec_img_width ≤ℤ x)
is_outside x w h = elim (Bool-cases (ltb_ℤ (x +ℤ w) (pos 0))) [
  | inl left ↦ inl left
  | inr not_left ↦ inr (ground (arith, +ℤ_parts x w))
]

rows :
    (y : ℤ)
    → pos 0 ≤ℤ y
    → y ≤ℤ pos 200
    → (larger (pos 0) (y -ℤ pos 10) ≤ℤ smaller (pos 199) (y +ℤ pos 10))
      × (pos 0 ≤ℤ larger (pos 0) (y -ℤ pos 10))
      × (smaller (pos 199) (y +ℤ pos 10) ≤ℤ pos 199)
rows y low high = (
  ground (arith, +ℤ_parts y (pos 10), -ℤ_parts y (pos 10)),
  ground (arith, +ℤ_parts y (pos 10), -ℤ_parts y (pos 10)),
  ground (arith, +ℤ_parts y (pos 10), -ℤ_parts y (pos 10)),
)

larger-least : (a b : ℤ) → a ≤ℤ larger a b
larger-least a b = ground arith

-- `int` is Python's, which rounds towards 0.
module _ (F : FloatOps) (int : F.Float → ℤ) where
  open F use {Float, frac, of_int, minus, times, over}

  -- SPEC_DURATION_S is 10.
  pub box_x0 : Detection F → ℤ
  box_x0 det = int (
      times (over (minus (frac 10 1) det.offset_from_right) (frac 10 1))
        (of_int (pos spec_img_width)))

  pub box_w : Detection F → ℤ
  box_w det =
      larger (pos 4)
        (int (times (over det.signal_duration_s (frac 10 1)) (of_int (pos spec_img_width))))

  unfoldable pub y_center : Detection F → ℤ
  y_center det = int (
      times (minus (frac 1 2) (over det.freq_hz (of_int (pos sample_rate))))
        (of_int (pos spec_img_height)))

  pub right_of : Detection F → ℤ
  unfolding box_x0 box_w
  right_of det = smaller (pos 1199) (box_x0 det +ℤ box_w det)

  -- `none` is a box that is not in the image.
  pub box_of : Detection F → Option Box
  unfolding box_x0 right_of y_center half_box
  box_of det =
      let x0 = box_x0 det in
      let x1 = right_of det in
      let y0 = larger (pos 0) (y_center det -ℤ half_box) in
      if ltb_ℤ x1 (pos 0) || leb_ℤ (pos spec_img_width) x0
      then none
      else some (record {
        x0 = x0;
        y0 = y0;
        x1 = x1;
        y1 = smaller (pos 199) (y_center det +ℤ half_box);
        color = if int_eq det.phy_ver (negsuc 0) then (255, 200, 0) else (255, 50, 50);
        label_at =
            if str_eq det.chipset ""
            then none
            else some (larger (pos 0) (x0 +ℤ pos 3), larger (pos 0) (y0 -ℤ pos 18));
      })

  pub boxes_of : List (Detection F) → List Box
  unfolding box_of
  boxes_of [] = []
  boxes_of (det ∷ dets) =
      let rest = boxes_of dets in elim (box_of det) [ none ↦ rest | some b ↦ b ∷ rest ]

  -- A frequency of the band, from its upper to its lower end.
  abbrev pub IsInBand : Detection F → Type 0
  IsInBand det = (pos 0 ≤ℤ y_center det) × (y_center det ≤ℤ pos spec_img_height)

  -- A rectangle with its corners in order, that is in the image but for what is left of it, and at
  -- least four pixels wide unless the image ends.
  pub record InImage (b : Box) : Type 0 where
    pub in_order : b.x0 ≤ℤ b.x1
    pub from_left : pos 0 ≤ℤ b.x1
    pub to_right : b.x1 ≤ℤ pos 1199
    pub rows_in_order : b.y0 ≤ℤ b.y1
    pub from_top : pos 0 ≤ℤ b.y0
    pub to_bottom : b.y1 ≤ℤ pos 199
    pub wide : (b.x0 +ℤ pos 4 ≤ℤ b.x1) ⊎ (b.x1 ≡ pos 1199)

  -- What is drawn of a detection; nothing only where it ends before the image or starts after it.
  pub Drawn : Detection F → Option Box → Type 0
  Drawn det none =
      (ltb_ℤ (box_x0 det +ℤ box_w det) (pos 0) ≡ true) ⊎ (pos spec_img_width ≤ℤ box_x0 det)
  Drawn det (some b) = InImage b

  -- A detection of the band is drawn as a rectangle in order and in the image, or is outside of it.
  pub box_of-Drawn : (det : Detection F) → IsInBand det → Drawn det (box_of det)
  unfolding box_of Drawn right_of half_box box_w
  box_of-Drawn det (low, high) =
      let least : pos 4 ≤ℤ box_w det =
        larger-least (pos 4)
          (int (times (over det.signal_duration_s (frac 10 1)) (of_int (pos spec_img_width)))) in
      elim (Bool-cases (ltb_ℤ (right_of det) (pos 0) || leb_ℤ (pos spec_img_width) (box_x0 det))) [
        | inl outside ↦ rw (outside, box_of) (is_outside (box_x0 det) (box_w det) outside)
        | inr inside ↦
            let (h1, h2, h3) = is_inside (box_x0 det) (box_w det) inside least in
            let (h4, h5, h6) = rows (y_center det) low high in
            rw (inside, box_of)
              (record {
                in_order = h1;
                from_left = h2;
                to_right = h3;
                rows_in_order = h4;
                from_top = h5;
                to_bottom = h6;
                wide = is_wide (box_x0 det) (box_w det) least;
              })
      ]

  with_box-InImage :
      (det : Detection F) (o : Option Box) (rest : List Box)
      → Drawn det o
      → All InImage rest
      → All InImage (elim o as (λ _. List Box) [ none ↦ rest | some b ↦ b ∷ rest ])
  unfolding Drawn
  with_box-InImage det none rest h k = k
  with_box-InImage det (some b) rest h k = (h, k)

  pub boxes_of-InImage :
      (dets : List (Detection F)) → All IsInBand dets → All InImage (boxes_of dets)
  unfolding boxes_of
  boxes_of-InImage [] h = tt
  boxes_of-InImage (det ∷ dets) h =
      with_box-InImage det (box_of det) (boxes_of dets) (box_of-Drawn det h.0)
        (boxes_of-InImage dets h.1)
