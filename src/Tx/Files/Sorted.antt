-- ===== src/Tx/Files/Sorted.antt =====
-- Python's `sorted` on names, as the list of files in src/stream_web/app.py has it.
use sdr_docker.Base.{
  ℕ, suc, ◌≡◌, refl, Bool, true, false, ◌==◌, List, [], ◌∷◌, length, any, All, ltb, if◌then◌else◌,
  arith, inl, inr, Bool-cases,
}

-- `<` of Python's texts, by code points.
pub less : List ℕ → List ℕ → Bool
less [] [] = false
less [] (d ∷ ds) = true
less (c ∷ cs) [] = false
less (c ∷ cs) (d ∷ ds) = if ltb c d then true else if c == d then less cs ds else false

-- `sorted`.
unfoldable pub put_name : List ℕ → List (List ℕ) → List (List ℕ)
unfolding less
put_name n [] = n ∷ []
put_name n (m ∷ ms) = let later = m ∷ put_name n ms in if less m n then later else n ∷ m ∷ ms

unfoldable pub sorted : List (List ℕ) → List (List ℕ)
unfolding put_name
sorted [] = []
sorted (n ∷ ns) = put_name n (sorted ns)

-- No name is below the one before it.
abbrev pub Ascends : List (List ℕ) → Type 0
Ascends [] = Unit
Ascends (n ∷ []) = Unit
Ascends (n ∷ m ∷ ms) = (less m n ≡ false) × Ascends (m ∷ ms)

less_asym : (a b : List ℕ) → less a b ≡ true → less b a ≡ false
unfolding less
less_asym [] [] h = cc
less_asym [] (d ∷ ds) h = refl
less_asym (c ∷ cs) [] h = cc
less_asym (c ∷ cs) (d ∷ ds) h = ground (arith, less_asym cs ds)

put_name-after :
    (n m : List ℕ) (ms : List (List ℕ))
    → less m n ≡ true
    → Ascends (m ∷ ms)
    → Ascends (m ∷ put_name n ms)
unfolding put_name
put_name-after n m [] h a = (less_asym m n h, tt)
put_name-after n m (k ∷ ks) h (first, rest) = elim (Bool-cases (less k n)) [
  | inl below ↦ rw (below) (first, put_name-after n k ks below rest)
  | inr above ↦ rw (above) (less_asym m n h, (above, rest))
]

put_name-Ascends : (n : List ℕ) (ms : List (List ℕ)) → Ascends ms → Ascends (put_name n ms)
unfolding put_name
put_name-Ascends n [] a = tt
put_name-Ascends n (m ∷ ms) a = elim (Bool-cases (less m n)) [
  | inl below ↦ rw (below) (put_name-after n m ms below a)
  | inr above ↦ rw (above) (above, a)
]

pub sorted-Ascends : (ns : List (List ℕ)) → Ascends (sorted ns)
unfolding sorted
sorted-Ascends [] = tt
sorted-Ascends (n ∷ ns) = put_name-Ascends n (sorted ns) (sorted-Ascends ns)

any-put_name :
    (p : List ℕ → Bool) (n : List ℕ) (ms : List (List ℕ)) → any p (put_name n ms) ≡ any p (n ∷ ms)
unfolding put_name
any-put_name p n [] = refl
any-put_name p n (m ∷ ms) = ground (arith, any-put_name p n ms)

pub any-sorted : (p : List ℕ → Bool) (ns : List (List ℕ)) → any p (sorted ns) ≡ any p ns
unfolding sorted
any-sorted p [] = refl
any-sorted p (n ∷ ns) = rw (any-put_name p n (sorted ns), any-sorted p ns)

All-put_name :
    (P : List ℕ → Type 0) (n : List ℕ) (ms : List (List ℕ)) → P n → All P ms → All P (put_name n ms)
unfolding put_name
All-put_name P n [] h k = (h, tt)
All-put_name P n (m ∷ ms) h k = elim (Bool-cases (less m n)) [
  | inl below ↦ rw (below) (k.0, All-put_name P n ms h k.1)
  | inr above ↦ rw (above) (h, k)
]

pub All-sorted : (P : List ℕ → Type 0) (ns : List (List ℕ)) → All P ns → All P (sorted ns)
unfolding sorted
All-sorted P [] h = tt
All-sorted P (n ∷ ns) h = All-put_name P n (sorted ns) h.0 (All-sorted P ns h.1)

pub length-put_name : (n : List ℕ) (ms : List (List ℕ)) → length (put_name n ms) ≡ suc (length ms)
unfolding put_name
length-put_name n [] = refl
length-put_name n (m ∷ ms) = ground (arith, length-put_name n ms)
