-- ===== src/Base/Floats.antt =====
-- Python's floats: a type with the operations that the program applies. Nothing is assumed of
-- them here; a theorem that needs a law of one states it as a hypothesis.
use Prim.Native.Nat.{ℕ, ◌*◌, ◌/◌, ◌+◌}
use mathlib.Core.Bool.{Bool, ◌&&◌}
use sdr_docker.Base.Int.{ℤ, pos, negsuc, pos_part, neg_part, abs_ℤ, sub_ℕ, ltb_ℤ, leb_ℤ}
use sdr_docker.Base.Tests.{if◌then◌else◌}

pub record FloatOps : Type 1 where
  pub Float : Type 0
  -- the literal or the quotient `n / d`
  pub frac : ℕ → ℕ → Float
  pub of_int : ℤ → Float
  pub plus : Float → Float → Float
  pub minus : Float → Float → Float
  pub times : Float → Float → Float
  pub over : Float → Float → Float
  pub magnitude : Float → Float
  pub lt : Float → Float → Bool
  pub le : Float → Float → Bool
  -- `int(x)` and `int(round(x))` of a float that is not negative
  pub truncate : Float → ℕ
  pub nearest : Float → ℕ

-- Thousandths, held exactly: a value with which the parameter can be filled.
abbrev over_thousand : ℤ → ℤ
over_thousand (pos n) = pos (n / 1000)
over_thousand (negsuc n) = sub_ℕ 0 ((n + 1) / 1000)

abbrev add_parts : ℤ → ℤ → ℤ
add_parts a b = sub_ℕ (pos_part a + pos_part b) (neg_part a + neg_part b)

abbrev sub_parts : ℤ → ℤ → ℤ
sub_parts a b = sub_ℕ (pos_part a + neg_part b) (neg_part a + pos_part b)

abbrev mul_parts : ℤ → ℤ → ℤ
mul_parts a b =
    sub_ℕ (pos_part a * pos_part b + neg_part a * neg_part b)
      (pos_part a * neg_part b + neg_part a * pos_part b)

abbrev pub milli_floats : FloatOps
milli_floats = record {
  Float = ℤ;
  frac = λ n d. pos (n * 1000 / d);
  of_int = λ a. mul_parts a (pos 1000);
  plus = add_parts;
  minus = sub_parts;
  times = λ a b. over_thousand (mul_parts a b);
  over = λ a b.
      mul_parts (sub_ℕ (pos_part a * 1000 / abs_ℤ b) (neg_part a * 1000 / abs_ℤ b))
        (if ltb_ℤ b (pos 0) then negsuc 0 else pos 1);
  magnitude = λ a. pos (abs_ℤ a);
  lt = ltb_ℤ;
  le = leb_ℤ;
  truncate = λ a. pos_part a / 1000;
  nearest = λ a. (pos_part a + 500) / 1000;
}

module _ (F : FloatOps) where
  open F use {Float, frac, le}

  -- `x == 0.0`
  abbrev pub is_zero : Float → Bool
  is_zero x = le x (frac 0 1) && le (frac 0 1) x
