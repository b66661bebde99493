-- ===== src/Base/Base64.antt =====
-- `base64.b64encode` of Python's library, over bytes and code points, with the reading back.
use Prim.Native.Nat.{ℕ, ◌+◌, ◌-◌, ◌*◌, ◌/◌, ◌%◌, ◌<◌}
use mathlib.Core.Path.{◌≡◌, refl, ap₂}
use mathlib.Core.Bool.{false}
use mathlib.Core.List.{List, [], ◌∷◌}
use native.Mathlib.Omega.{arith}
use sdr_docker.Base.Tests.{ltb, ◌==◌, if◌then◌else◌}
use sdr_docker.Base.Lists.{All}

-- The character of a sextet.
abbrev b64_char : ℕ → ℕ
b64_char d =
    if ltb d 26
    then 65 + d
    else if ltb d 52
    then 71 + d
    else if ltb d 62
    then d - 4
    else if d == 62
    then 43
    else 47

abbrev b64_value : ℕ → ℕ
b64_value c =
    if c == 43
    then 62
    else if c == 47
    then 63
    else if ltb c 58
    then c + 4
    else if ltb c 91
    then c - 65
    else c - 71

-- 61 is the padding.
pub b64encode : List ℕ → List ℕ
b64encode [] = []
b64encode (a ∷ []) = b64_char (a / 4) ∷ b64_char (a % 4 * 16) ∷ 61 ∷ 61 ∷ []
b64encode (a ∷ b ∷ []) =
    b64_char (a / 4) ∷ b64_char (a % 4 * 16 + b / 16) ∷ b64_char (b % 16 * 4) ∷ 61 ∷ []
b64encode (a ∷ b ∷ c ∷ rest) =
    b64_char (a / 4)
    ∷ b64_char (a % 4 * 16 + b / 16)
    ∷ b64_char (b % 16 * 4 + c / 64)
    ∷ b64_char (c % 64)
    ∷ b64encode rest

pub b64decode : List ℕ → List ℕ
b64decode (p ∷ q ∷ r ∷ s ∷ rest) =
    let first = b64_value p * 4 + b64_value q / 16 in
    let second = b64_value q % 16 * 16 + b64_value r / 4 in
    let third = b64_value r % 4 * 64 + b64_value s in
    let more = b64decode rest in
    if r == 61
    then first ∷ more
    else if s == 61
    then first ∷ second ∷ more
    else first ∷ second ∷ third ∷ more
b64decode _ = []

b64_value-b64_char : (d : ℕ) → d < 64 → b64_value (b64_char d) ≡ d
b64_value-b64_char d h = ground arith

b64_char-ne : (d : ℕ) → d < 64 → (b64_char d == 61) ≡ false
b64_char-ne d h = ground arith

-- Decoded, the encoding of bytes is the bytes.
pub b64decode-b64encode : (bs : List ℕ) → All (λ b. b < 256) bs → b64decode (b64encode bs) ≡ bs
unfolding b64encode b64decode
b64decode-b64encode [] h = refl
b64decode-b64encode (a ∷ []) (ha, h) =
    let first : a / 4 * 4 + a % 4 * 16 / 16 ≡ a = omega arith in
    rw (b64_value-b64_char (a / 4) (omega arith), b64_value-b64_char (a % 4 * 16) (omega arith))
      (ap₂ ◌∷◌ first refl)
b64decode-b64encode (a ∷ b ∷ []) (ha, (hb, h)) =
    let first : a / 4 * 4 + (a % 4 * 16 + b / 16) / 16 ≡ a = omega arith in
    let second : (a % 4 * 16 + b / 16) % 16 * 16 + b % 16 * 4 / 4 ≡ b = omega arith in
    rw
      (
        b64_char-ne (b % 16 * 4) (omega arith),
        b64_value-b64_char (a / 4) (omega arith),
        b64_value-b64_char (a % 4 * 16 + b / 16) (omega arith),
        b64_value-b64_char (b % 16 * 4) (omega arith),
      )
      (ap₂ ◌∷◌ first (ap₂ ◌∷◌ second refl))
b64decode-b64encode (a ∷ b ∷ c ∷ rest) (ha, (hb, (hc, h))) =
    let first : a / 4 * 4 + (a % 4 * 16 + b / 16) / 16 ≡ a = omega arith in
    let second : (a % 4 * 16 + b / 16) % 16 * 16 + (b % 16 * 4 + c / 64) / 4 ≡ b = omega arith in
    let third : (b % 16 * 4 + c / 64) % 4 * 64 + c % 64 ≡ c = omega arith in
    rw
      (
        b64_char-ne (b % 16 * 4 + c / 64) (omega arith),
        b64_char-ne (c % 64) (omega arith),
        b64_value-b64_char (a / 4) (omega arith),
        b64_value-b64_char (a % 4 * 16 + b / 16) (omega arith),
        b64_value-b64_char (b % 16 * 4 + c / 64) (omega arith),
        b64_value-b64_char (c % 64) (omega arith),
      )
      (ap₂ ◌∷◌ first (ap₂ ◌∷◌ second (ap₂ ◌∷◌ third (b64decode-b64encode rest h))))
