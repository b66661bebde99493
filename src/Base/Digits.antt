-- ===== src/Base/Digits.antt =====
-- Numbers as text and as bytes: what Python's `x` and `X` formats, `int.to_bytes` and
-- `base64.b64encode` give, over code points and bytes, with the reading back.
use Prim.Native.Nat.{ℕ, zero, suc, ◌+◌, ◌-◌, ◌*◌, ◌/◌, ◌%◌, ◌^◌, ◌≤◌, ◌<◌, ◌≤◌}
use mathlib.Core.Path.{subst, ◌≡◌, refl, ap, ◌∙◌}
use mathlib.Core.Bool.{Bool, true, false}
use mathlib.Core.Logic.{inl, inr}
use mathlib.Core.Option.{Option, none, some}
use mathlib.Core.List.{List, [], ◌∷◌, ◌++◌}
use native.Mathlib.Omega.{arith}
use native.Mathlib.Numerals.{unary_clauses}
use sdr_docker.Base.Tests.{
  ltb, ◌==◌, if◌then◌else◌, Bool-cases, some-injective, lt→ltb, le→ltb-false,
}
use sdr_docker.Base.Int.{ℤ, pos, negsuc, sub_ℕ}
use sdr_docker.Base.Lists.{length, replicate, All, length-append, All-append}

abbrev pub hex_digit : (upper : Bool) → ℕ → ℕ
hex_digit upper d = if ltb d 10 then 48 + d else if upper then 55 + d else 87 + d

-- The digits of `n` before those of `acc`, on fuel above `n`.
pub hex_from : (upper : Bool) → ℕ → ℕ → List ℕ → List ℕ
hex_from upper zero n acc = acc
hex_from upper (suc fuel) n acc =
    let acc' = hex_digit upper (n % 16) ∷ acc in
    let more = hex_from upper fuel (n / 16) acc' in if ltb n 16 then acc' else more

-- `f"{n:0{width}x}"`, or with `X`.
unfoldable pub format_hex : (upper : Bool) → (width : ℕ) → ℕ → List ℕ
unfolding hex_from
format_hex upper width n =
    let digits = hex_from upper (suc n) n [] in replicate (width - length digits) 48 ++ digits

abbrev pub hex_value : ℕ → ℕ
hex_value c = if ltb c 58 then c - 48 else if ltb c 71 then c - 55 else c - 87

pub read_hex : ℕ → List ℕ → ℕ
read_hex acc [] = acc
read_hex acc (c ∷ cs) = read_hex (acc * 16 + hex_value c) cs

hex_value-hex_digit : (upper : Bool) (d : ℕ) → d < 16 → hex_value (hex_digit upper d) ≡ d
hex_value-hex_digit upper d h = ground arith

read_hex-hex_from :
    (upper : Bool) (fuel n : ℕ) (acc : List ℕ)
    → n < fuel
    → read_hex 0 (hex_from upper fuel n acc) ≡ read_hex n acc
unfolding hex_from read_hex
read_hex-hex_from upper zero n acc h = absurd (omega arith)
read_hex-hex_from upper (suc fuel) n acc h = elim (Bool-cases (ltb n 16)) [
  | inl last ↦
      let e : 0 * 16 + hex_value (hex_digit upper (n % 16)) ≡ n =
        let d = hex_value-hex_digit upper (n % 16) (omega arith) in ground arith in
      rw (last) (ap (λ k. read_hex k acc) e)
  | inr more ↦
      let e : n / 16 * 16 + hex_value (hex_digit upper (n % 16)) ≡ n =
        let d = hex_value-hex_digit upper (n % 16) (omega arith) in omega arith in
      rw (more) (
        read_hex-hex_from upper fuel (n / 16) (hex_digit upper (n % 16) ∷ acc) (ground arith)
        ∙ ap (λ k. read_hex k acc) e)
]

read_hex-zeros : (k : ℕ) (cs : List ℕ) → read_hex 0 (replicate k 48 ++ cs) ≡ read_hex 0 cs
unfolding read_hex
read_hex-zeros zero cs = refl
read_hex-zeros (suc k) cs = read_hex-zeros k cs

-- Read back, a number in hexadecimal is the number.
pub read_hex-format_hex : (upper : Bool) (width n : ℕ) → read_hex 0 (format_hex upper width n) ≡ n
unfolding format_hex read_hex
read_hex-format_hex upper width n =
    let digits = hex_from upper (suc n) n [] in
    read_hex-zeros (width - length digits) (hex_from upper (suc n) n [])
    ∙ read_hex-hex_from upper (suc n) n [] (omega arith)

hex_from-All :
    (upper : Bool) (fuel n : ℕ) (acc : List ℕ)
    → All (λ c. 48 ≤ c) acc
    → All (λ c. 48 ≤ c) (hex_from upper fuel n acc)
unfolding hex_from
hex_from-All upper zero n acc h = h
hex_from-All upper (suc fuel) n acc h =
    let digit : 48 ≤ hex_digit upper (n % 16) = ground arith in
    elim (Bool-cases (ltb n 16)) [
      | inl last ↦ rw (last) (digit, h)
      | inr more ↦ rw (more) (hex_from-All upper fuel (n / 16) _ (digit, h))
    ]

zeros-All : (k : ℕ) → All (λ c. 48 ≤ c) (replicate k 48)
zeros-All zero = tt
zeros-All (suc k) = (omega arith, zeros-All k)

-- A digit is none of the signs.
pub format_hex-All : (upper : Bool) (width n : ℕ) → All (λ c. 48 ≤ c) (format_hex upper width n)
unfolding format_hex
format_hex-All upper width n =
    let digits = hex_from upper (suc n) n [] in
    All-append (λ c. 48 ≤ c) (replicate (width - length digits) 48) digits
      (zeros-All (width - length digits)) (hex_from-All upper (suc n) n [] tt)

-- The reading of a format that may begin with a sign.
unfoldable pub read_hex_ℤ : List ℕ → ℤ
read_hex_ℤ [] = pos 0
read_hex_ℤ (c ∷ cs) = if c == 45 then sub_ℕ 0 (read_hex 0 cs) else pos (read_hex 0 (c ∷ cs))

read_hex_ℤ-unsigned : (cs : List ℕ) → All (λ c. 48 ≤ c) cs → read_hex_ℤ cs ≡ pos (read_hex 0 cs)
unfolding read_hex_ℤ read_hex
read_hex_ℤ-unsigned [] h = refl
read_hex_ℤ-unsigned (c ∷ cs) (h, hs) = let e : (c == 45) ≡ false = ground arith in rw (e) refl

-- The format of a number that may be negative: the sign counts in the width.
unfoldable pub format_hex_ℤ : (upper : Bool) → (width : ℕ) → ℤ → List ℕ
format_hex_ℤ upper width (pos n) = format_hex upper width n
format_hex_ℤ upper width (negsuc n) = 45 ∷ format_hex upper (width - 1) (n + 1)

pub read_hex_ℤ-format_hex_ℤ :
    (upper : Bool) (width : ℕ) (id : ℤ) → read_hex_ℤ (format_hex_ℤ upper width id) ≡ id
unfolding format_hex_ℤ read_hex_ℤ
read_hex_ℤ-format_hex_ℤ upper width (pos n) =
    read_hex_ℤ-unsigned (format_hex upper width n) (format_hex-All upper width n)
    ∙ ap pos (read_hex-format_hex upper width n)
read_hex_ℤ-format_hex_ℤ upper width (negsuc n) =
    ap (sub_ℕ 0) (read_hex-format_hex upper (width - 1) (n + 1)) ∙ ground arith

-- `n.to_bytes(k, "big")`; it raises where `n` does not fit: `none`.
pub bytes_of : ℕ → ℕ → List ℕ
bytes_of zero n = []
bytes_of (suc k) n = bytes_of k (n / 256) ++ ((n % 256) ∷ [])

unfoldable pub to_bytes : ℕ → ℕ → Option (List ℕ)
unfolding bytes_of
to_bytes n k = if ltb n (256 ^ k) then some (bytes_of k n) else none

pub from_bytes : ℕ → List ℕ → ℕ
from_bytes acc [] = acc
from_bytes acc (b ∷ bs) = from_bytes (acc * 256 + b) bs

from_bytes-snoc :
    (acc : ℕ) (bs : List ℕ) (b : ℕ) → from_bytes acc (bs ++ (b ∷ [])) ≡ from_bytes acc bs * 256 + b
unfolding from_bytes
from_bytes-snoc acc [] b = refl
from_bytes-snoc acc (c ∷ bs) b = from_bytes-snoc (acc * 256 + c) bs b

pow_suc : (k : ℕ) → 256 ^ suc k ≡ 256 * 256 ^ k
pow_suc k = simp unary_clauses (omega arith)

from_bytes-bytes_of : (k n : ℕ) → n < 256 ^ k → from_bytes 0 (bytes_of k n) ≡ n
unfolding bytes_of from_bytes
from_bytes-bytes_of zero n h = omega arith
from_bytes-bytes_of (suc k) n h =
    let e = from_bytes-snoc 0 (bytes_of k (n / 256)) (n % 256) in
    let p = pow_suc k in
    let below : n / 256 < 256 ^ k = omega arith in
    let r : from_bytes 0 (bytes_of k (n / 256)) ≡ n / 256 = from_bytes-bytes_of k (n / 256) below in
    omega arith

-- Read back, the bytes of a number are the number, and there are `k` of them.
pub from_bytes-to_bytes : (n k : ℕ) (bs : List ℕ) → to_bytes n k ≡ some bs → (from_bytes 0 bs ≡ n)
unfolding to_bytes
from_bytes-to_bytes n k bs h = ground (arith, from_bytes-bytes_of k n)

length-bytes_of : (k n : ℕ) → length (bytes_of k n) ≡ k
unfolding bytes_of
length-bytes_of zero n = refl
length-bytes_of (suc k) n =
    let e = length-append (bytes_of k (n / 256)) ((n % 256) ∷ []) in
    let r = length-bytes_of k (n / 256) in omega arith

pub bytes_of-All : (k n : ℕ) → All (λ b. b < 256) (bytes_of k n)
unfolding bytes_of
bytes_of-All zero n = tt
bytes_of-All (suc k) n =
    All-append (λ b. b < 256) (bytes_of k (n / 256)) ((n % 256) ∷ []) (bytes_of-All k (n / 256))
      (omega arith, tt)

pub to_bytes-All : (n k : ℕ) (bs : List ℕ) → to_bytes n k ≡ some bs → All (λ b. b < 256) bs
unfolding to_bytes
to_bytes-All n k bs h = elim (Bool-cases (ltb n (256 ^ k))) [
  | inl fits ↦ subst (All (λ b. b < 256)) (some-injective (rw (fits) at h)) (bytes_of-All k n)
  | inr past ↦ cc (rw (past) at h)
]

pub to_bytes_fits : (n k : ℕ) → n < 256 ^ k → to_bytes n k ≡ some (bytes_of k n)
unfolding to_bytes
to_bytes_fits n k h = let fits : ltb n (256 ^ k) ≡ true = lt→ltb n (256 ^ k) h in rw (fits) refl

pub to_bytes_overflows : (n k : ℕ) → 256 ^ k ≤ n → to_bytes n k ≡ none
unfolding to_bytes
to_bytes_overflows n k h =
    let past : ltb n (256 ^ k) ≡ false = le→ltb-false n (256 ^ k) h in rw (past) refl
