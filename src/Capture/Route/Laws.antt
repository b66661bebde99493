-- ===== src/Capture/Route/Laws.antt =====
-- The capture routes of src/stream_web/app.py: what they accept, and that they exclude one another.
use Prim.Native.String.{String}
use sdr_docker.Base.{
  ℕ, ◌+◌, ◌≤◌, ◌≡◌, refl, true, false, Option, none, some, List, [], ◌∷◌, ◌⊎◌, inl, inr, arith,
  if◌then◌else◌, ltb, ◌==◌, Bool-cases, sym, subst,
}
use sdr_docker.Base.Int.{ℤ, pos, negsuc, ◌≤ℤ◌}
use sdr_docker.Capture.Route.{
  Refusal, not_integer, below_one, above_maximum, parse_seconds, Gate, Event, begins, ends, step,
  run, open_gate,
}

-- What `_parse_seconds` answers, by what the query holds.
abbrev pub Parsed : Option ℤ → ℕ → ℕ ⊎ Refusal → Type 0
Parsed none maximum r = r ≡ inr not_integer
Parsed (some n) maximum (inl s) = (n ≡ pos s) × (1 ≤ s) × (s ≤ maximum)
Parsed (some n) maximum (inr e) =
    ((e ≡ below_one) × (n ≤ℤ pos 0)) ⊎ ((e ≡ above_maximum maximum) × (pos (maximum + 1) ≤ℤ n))

-- A `seconds` parameter is taken just when it is an integer from 1 to the maximum, and as that
-- number; otherwise the refusal names what is wrong.
pub parse_seconds-Parsed :
    (to_int : String → Option ℤ) (raw : String) (default : Option ℕ) (maximum : ℕ)
    → 1 ≤ maximum
    → Parsed (to_int raw) maximum (parse_seconds to_int (some raw) default maximum)
unfolding parse_seconds
parse_seconds-Parsed to_int raw default maximum h = go (to_int raw)
  where
    go :
        (o : Option ℤ)
        → Parsed o maximum (elim o [
          | none ↦ inr not_integer
          | some (negsuc n) ↦ inr below_one
          | some (pos n) ↦
              if ltb n 1
              then inr below_one
              else if ltb maximum n
              then inr (above_maximum maximum)
              else inl n
        ])
    go none = refl
    go (some (negsuc n)) = inl (refl, omega arith)
    go (some (pos n)) = elim (Bool-cases (ltb n 1)) [
      | inl low ↦ rw low (inl (refl, ground arith))
      | inr up ↦ elim (Bool-cases (ltb maximum n)) [
        | inl high ↦ rw (up, high) (inr (refl, ground arith))
        | inr within ↦ rw (up, within) (refl, ground arith, ground arith)
      ]
    ]

-- The lock is held while exactly one capture runs, and free while none does.
abbrev pub Exclusive : Gate → Type 0
Exclusive g =
    ((g.locked ≡ false) × (g.active ≡ [])) ⊎ ((i : ℕ) × (g.locked ≡ true) × (g.active ≡ i ∷ []))

step-Exclusive_at : (e : Event) (g h : Gate) → g ≡ h → Exclusive (step h e) → Exclusive (step g e)
step-Exclusive_at e g h p x = subst (λ k. Exclusive (step k e)) (sym p) x

step-Exclusive : (g : Gate) (e : Event) → Exclusive g → Exclusive (step g e)
unfolding step
step-Exclusive g e (inl (l, a)) = step-Exclusive_at e g open_gate (ground arith) (free e)
  where
    free : (e' : Event) → Exclusive (step open_gate e')
    free (begins i) = inr (i, refl, refl)
    free (ends i) = inl (refl, refl)
step-Exclusive g e (inr (j, l, a)) =
    step-Exclusive_at e g (record { locked = true; active = j ∷ [] }) (ground arith) (held e)
  where
    held : (e' : Event) → Exclusive (step (record { locked = true; active = j ∷ [] }) e')
    held (begins i) = inr (j, refl, refl)
    held (ends i) = elim (Bool-cases (j == i)) [
      | inl hit ↦ inl (ground arith, ground arith)
      | inr miss ↦ inr (j, ground arith, ground arith)
    ]

-- However the requests interleave, at most one capture is under way, and the lock is held exactly
-- while one is.
pub run-Exclusive : (es : List Event) (g : Gate) → Exclusive g → Exclusive (run g es)
unfolding run
run-Exclusive [] g x = x
run-Exclusive (e ∷ es) g x = run-Exclusive es (step g e) (step-Exclusive g e x)
