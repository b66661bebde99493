-- ===== src/Processor/Dedup.antt =====
-- The strict de-duplication of packets across cycles: `processor_main` in
-- src/stream_web/processor.py.
use sdr_docker.Base.{
  ℕ, ◌≤◌, length, ◌≡◌, refl, sym, ap, Bool, true, false, ◌&&◌, Option, none, some, List, [], ◌∷◌,
  arith, inl, inr, Bool-cases, ◌==◌, if◌then◌else◌, All, All-imp, subst, Option-cases, keep, map,
  ◌⊎◌, ap₂, some-injective,
}
use sdr_docker.Base.Int.{ℤ, leb_ℤ, eq_of_parts}
use sdr_docker.Base.Floats.{FloatOps}
use sdr_docker.Decoder.{Attempt}

-- (ntw_id, auth_tag, payload_val)
pub record Key : Type 0 where
  pub ntw_id : Option ℤ
  pub auth_tag : Option ℕ
  pub payload_val : Option ℕ

same_number : Option ℕ → Option ℕ → Bool
same_number none none = true
same_number none (some b) = false
same_number (some a) none = false
same_number (some a) (some b) = a == b

same_id : Option ℤ → Option ℤ → Bool
same_id none none = true
same_id none (some b) = false
same_id (some a) none = false
same_id (some a) (some b) = leb_ℤ a b && leb_ℤ b a

unfoldable pub same_key : Key → Key → Bool
unfolding same_number same_id
same_key j k =
    same_id j.ntw_id k.ntw_id
    && (same_number j.auth_tag k.auth_tag && same_number j.payload_val k.payload_val)

same_number-eq : (a b : Option ℕ) → same_number a b ≡ true → a ≡ b
unfolding same_number
same_number-eq none none h = refl
same_number-eq none (some b) h = cc
same_number-eq (some a) none h = cc
same_number-eq (some a) (some b) h = ap some (ground arith)

same_id-eq : (a b : Option ℤ) → same_id a b ≡ true → a ≡ b
unfolding same_id
same_id-eq none none h = refl
same_id-eq none (some b) h = cc
same_id-eq (some a) none h = cc
same_id-eq (some a) (some b) h = ap some (eq_of_parts a b (ground arith))

same_key-eq : (j k : Key) → same_key j k ≡ true → j ≡ k
unfolding same_key
same_key-eq j k h =
    let id = same_id-eq j.ntw_id k.ntw_id (ground arith) in
    let tag = same_number-eq j.auth_tag k.auth_tag (ground arith) in
    let val = same_number-eq j.payload_val k.payload_val (ground arith) in rw (id, tag, val) refl

-- One of the list is so.
abbrev pub Among {ℓ} : {A : Type ℓ} → (A → Type 0) → List A → Type 0
Among P [] = ⊥
Among P (x ∷ xs) = P x ⊎ Among P xs

module _ (F : FloatOps) where
  open F use {Float, frac, minus, magnitude, lt}

  abbrev pub Recent : Type 0
  Recent = List (Key × Float)

  pub lookup : Key → Recent → Option Float
  lookup k [] = none
  lookup k ((j, v) ∷ r) = if same_key j k then some v else lookup k r

  pub insert : Key → Float → Recent → Recent
  insert k v [] = (k, v) ∷ []
  insert k v ((j, w) ∷ r) = if same_key j k then (j, v) ∷ r else (j, w) ∷ insert k v r

  -- Identities not seen for 3 s are forgotten.
  pub purge : Float → Recent → Recent
  purge t0 r = keep (λ e. lt (minus t0 e.1) (frac 3 1)) r

  pub key_of : Attempt F → Key
  key_of a = record { ntw_id = a.ntw_id; auth_tag = a.auth_tag; payload_val = a.payload_val }

  -- The estimated time of the packet's start: DECODE_WINDOW_S is 1.5.
  pub start_t : Float → Attempt F → Float
  start_t t0 a = minus t0 (minus (frac 15 10) (elim a.time_s [ none ↦ frac 0 1 | some t ↦ t ]))

  -- The same identity, less than DEDUP_START_TOL_S from its last start.
  pub is_repeat : Float → Recent → Attempt F → Bool
  unfolding key_of start_t
  is_repeat t0 r a = elim (lookup (key_of a) r) [
    | none ↦ false
    | some prev ↦ lt (magnitude (minus (start_t t0 a) prev)) (frac 1 1)
  ]

  pub dedupe : Float → Recent → List (Attempt F) → List (Attempt F) × Recent
  dedupe t0 r [] = ([], r)
  dedupe t0 r (a ∷ found) = elim (is_repeat t0 r a) [
    | true ↦ dedupe t0 r found
    | false ↦
        let (kept, r') = dedupe t0 (insert (key_of a) (start_t t0 a) r) found in (a ∷ kept, r')
  ]

  -- Nothing that was kept is a repeat of what was recorded or kept before it: a second pass from
  -- the same records keeps all of it and records the same.
  pub dedupe_idempotent :
      (t0 : Float) (r : Recent) (found : List (Attempt F))
      → dedupe t0 r (dedupe t0 r found).0 ≡ dedupe t0 r found
  unfolding dedupe
  dedupe_idempotent t0 r [] = refl
  dedupe_idempotent t0 r (a ∷ found) = elim (Bool-cases (is_repeat t0 r a)) [
    | inl repeat ↦ rw (repeat, dedupe) (dedupe_idempotent t0 r found)
    | inr new ↦
        let again = dedupe_idempotent t0 (insert (key_of a) (start_t t0 a) r) found in
        rw (new, dedupe) (rw (new) (ap (λ q. (a ∷ q.0, q.1)) again))
  ]

  -- A sighting of the identity of the packet, less than a second from the packet's start.
  abbrev pub Close : Float → Attempt F → Key × Float → Type 0
  Close t0 a (k, v) =
      (k ≡ record { ntw_id = a.ntw_id; auth_tag = a.auth_tag; payload_val = a.payload_val })
      × (lt (magnitude (minus (start_t t0 a) v)) (frac 1 1) ≡ true)

  abbrev pub sighting : Float → Attempt F → Key × Float
  sighting t0 b = (key_of b, start_t t0 b)

  -- The packet is kept; or its identity was seen, less than a second from its start, in a sighting on
  -- record or in a packet that is kept.
  abbrev pub IsShown : Float → Recent → List (Attempt F) → Attempt F → Type 0
  IsShown t0 r kept a =
      Among (λ b. b ≡ a) kept ⊎ (Among (Close t0 a) r ⊎ Among (Close t0 a) (map (sighting t0) kept))

  Among-insert :
      (P : Key × Float → Type 0) (k : Key) (v : Float) (r : Recent)
      → Among P (insert k v r)
      → P (k, v) ⊎ Among P r
  unfolding insert
  Among-insert P k v [] h = h
  Among-insert P k v ((j, w) ∷ r) h = elim (Bool-cases (same_key j k)) [
    | inl same ↦ elim (rw (same, insert) at h) [
      | inl here ↦ inl (subst (λ q. P (q, v)) (same_key-eq j k same) here)
      | inr there ↦ inr (inr there)
    ]
    | inr other ↦ elim (rw (other, insert) at h) [
      | inl here ↦ inr (inl here)
      | inr there ↦ elim (Among-insert P k v r there) [
        | inl new ↦ inl new
        | inr old ↦ inr (inr old)
      ]
    ]
  ]

  Among-lookup :
      (P : Key × Float → Type 0) (k : Key) (v : Float) (r : Recent)
      → lookup k r ≡ some v
      → P (k, v)
      → Among P r
  unfolding lookup
  Among-lookup P k v [] e h = cc
  Among-lookup P k v ((j, w) ∷ r) e h = elim (Bool-cases (same_key j k)) [
    | inl same ↦
        let found : w ≡ v = some-injective (rw (same, lookup) at e) in
        inl (subst P (sym (ap₂ (λ q x. (q, x)) (same_key-eq j k same) found)) h)
    | inr other ↦ inr (Among-lookup P k v r (rw (other, lookup) at e) h)
  ]

  near_of_repeat :
      (t0 : Float) (r : Recent) (a : Attempt F) → is_repeat t0 r a ≡ true → Among (Close t0 a) r
  unfolding is_repeat key_of
  near_of_repeat t0 r a h = elim (Option-cases (lookup (key_of a) r)) [
    | inl e ↦ cc (rw (e, is_repeat) at h)
    | inr (v, e) ↦ Among-lookup (Close t0 a) (key_of a) v r e (refl, (rw (e, is_repeat) at h))
  ]

  again_with_kept :
      (t0 : Float) (r : Recent) (kept : List (Attempt F)) (a b : Attempt F)
      → IsShown t0 (insert (key_of a) (start_t t0 a) r) kept b
      → IsShown t0 r (a ∷ kept) b
  again_with_kept t0 r kept a b h = elim h [
    | inl m ↦ inl (inr m)
    | inr (inl s) ↦ elim (Among-insert (Close t0 b) (key_of a) (start_t t0 a) r s) [
      | inl new ↦ inr (inr (inl new))
      | inr old ↦ inr (inl old)
    ]
    | inr (inr s) ↦ inr (inr (inr s))
  ]

  -- No packet is lost to the de-duplication: each one that was found is kept itself, or its identity
  -- was seen less than a second from its start, in a sighting that was on record before the cycle or
  -- in a packet that is kept.
  pub dedupe-IsShown :
      (t0 : Float) (r : Recent) (found : List (Attempt F))
      → All (IsShown t0 r (dedupe t0 r found).0) found
  unfolding dedupe
  dedupe-IsShown t0 r [] = tt
  dedupe-IsShown t0 r (a ∷ rest) = elim (Bool-cases (is_repeat t0 r a)) [
    | inl repeat ↦
        let same : dedupe t0 r (a ∷ rest) ≡ dedupe t0 r rest = rw (repeat, dedupe) refl in
        subst (λ q. All (IsShown t0 r q.0) (a ∷ rest)) (sym same)
          (inr (inl (near_of_repeat t0 r a repeat)), dedupe-IsShown t0 r rest)
    | inr new ↦
        let r' = insert (key_of a) (start_t t0 a) r in
        let kept = (dedupe t0 r' rest).0 in
        let more : dedupe t0 r (a ∷ rest) ≡ (a ∷ kept, (dedupe t0 r' rest).1) =
          rw (new, dedupe) refl in
        subst (λ q. All (IsShown t0 r q.0) (a ∷ rest)) (sym more)
          (
            inl (inl refl),
            All-imp rest (λ b shown. again_with_kept t0 r kept a b shown)
                (dedupe-IsShown t0 r' rest),
          )
  ]

  pub dedupe-All :
      (P : Attempt F → Type 0) (t0 : Float) (r : Recent) (found : List (Attempt F))
      → All P found
      → All P (dedupe t0 r found).0
  unfolding dedupe
  dedupe-All P t0 r [] h = tt
  dedupe-All P t0 r (a ∷ found) (h, hs) = elim (Bool-cases (is_repeat t0 r a)) [
    | inl repeat ↦ rw (repeat, dedupe) (dedupe-All P t0 r found hs)
    | inr new ↦ rw (new, dedupe) (h, dedupe-All P t0 (insert (key_of a) (start_t t0 a) r) found hs)
  ]

  pub length-dedupe-le :
      (t0 : Float) (r : Recent) (found : List (Attempt F))
      → length (dedupe t0 r found).0 ≤ length found
  unfolding dedupe
  length-dedupe-le t0 r [] = omega arith
  length-dedupe-le t0 r (a ∷ found) = elim (Bool-cases (is_repeat t0 r a)) [
    | inl repeat ↦ rw (repeat, dedupe) (omega (arith, length-dedupe-le t0 r found))
    | inr new ↦
        let more = length-dedupe-le t0 (insert (key_of a) (start_t t0 a) r) found in
        rw (new, dedupe) (omega arith)
  ]
