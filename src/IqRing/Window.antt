-- ===== src/IqRing/Window.antt =====
-- The ring holds the last `size` samples: what `write` does to the window seen oldest first.
use native.Mathlib.Nat.{mod-eq-sub-mod}
use sdr_docker.Base.{
  ℕ, ◌+◌, ◌-◌, ◌%◌, ◌≤◌, ◌≡◌, refl, sym, ap, ap₂, ◌∙◌, Option, none, some, List, [], ◌∷◌, ◌++◌,
  arith, append_assoc, append-nil, inl, inr, length, take, drop, replicate, leb, Bool-cases, true,
  length-append, length-take, length-drop, length-replicate, drop-append_left, drop-append_right,
  take-append_right, take-append-drop, drop-drop, All,
}
use sdr_docker.IqRing.{Ring, write}

-- The samples of the ring, oldest first.
abbrev pub window {ℓ} : {A : Type ℓ} → Ring A → List A
window r = drop r.buf_write_idx r.iq_buffer ++ take r.buf_write_idx r.iq_buffer

-- The write index runs up to `size` itself: it is set back by the next write.
pub record IsValid {ℓ} {A : Type ℓ} (size : ℕ) (r : Ring A) : Type 0 where
  pub full : length r.iq_buffer ≡ size
  pub index : r.buf_write_idx ≤ size

-- The ring that `SharedState` starts with: zeros.
abbrev pub fresh {ℓ} : {A : Type ℓ} → ℕ → A → Ring A
fresh size zero_sample = record { iq_buffer = replicate size zero_sample; buf_write_idx = 0 }

pub fresh-IsValid {ℓ} : {A : Type ℓ} (size : ℕ) (z : A) → IsValid size (fresh size z)
fresh-IsValid size z = record { full = length-replicate size z; index = omega arith }

pub length-window {ℓ} :
    {A : Type ℓ} (size : ℕ) (r : Ring A) → IsValid size r → length (window r) ≡ size
length-window size r v =
    ground
      (arith, length-append (drop wi buf) (take wi buf), length-drop wi buf, length-take wi buf)
  where
    open r use {iq_buffer as buf, buf_write_idx as wi}

module _ {ℓ} {A : Type ℓ} (buf s : List A) (wi : ℕ) where
  -- Overwriting `[wi, wi + n)` in place.
  window_of_fit :
      wi + length s ≤ length buf
      → drop (wi + length s) (take wi buf ++ (s ++ drop (wi + length s) buf))
          ++ take (wi + length s) (take wi buf ++ (s ++ drop (wi + length s) buf))
        ≡ drop (length s) ((drop wi buf ++ take wi buf) ++ s)
  window_of_fit h =
      ap₂ ◌++◌ front back
      ∙ sym (
          ap (drop (length s)) (append_assoc (drop wi buf) (take wi buf) s)
          ∙ drop-append_left (length s) (drop wi buf) (take wi buf ++ s)
              (omega (arith, length-drop wi buf))
          ∙ ap (λ t. t ++ (take wi buf ++ s)) (drop-drop (length s) wi _ buf (omega arith)))
    where
      lt : length (take wi buf) ≡ wi
      lt = omega (arith, length-take wi buf)

      front :
          drop (wi + length s) (take wi buf ++ (s ++ drop (wi + length s) buf))
          ≡ drop (wi + length s) buf
      front =
          drop-append_right _ (length s) (take wi buf) _ (omega (arith, lt))
          ∙ drop-append_right _ 0 s _ (omega arith)

      back :
          take (wi + length s) (take wi buf ++ (s ++ drop (wi + length s) buf)) ≡ take wi buf ++ s
      back =
          take-append_right _ (length s) (take wi buf) _ (omega (arith, lt))
          ∙ ap (◌++◌ (take wi buf)) (take-append_right _ 0 s _ (omega arith) ∙ append-nil s)

  -- Filling up to the end, then overwriting `[0, rem)`.
  window_of_wrap :
      (space rem : ℕ)
      → wi + space ≡ length buf
      → length s ≡ space + rem
      → rem ≤ length buf
      → let buf' = drop space s ++ drop rem (take wi buf ++ take space s) in
        drop rem buf' ++ take rem buf' ≡ drop (length s) ((drop wi buf ++ take wi buf) ++ s)
  window_of_wrap space rem hs hn hr =
      ap₂ ◌++◌ front back
      ∙ sym (
          ap (drop (length s)) (append_assoc (drop wi buf) (take wi buf) s)
          ∙ drop-append_right _ rem (drop wi buf) _ (omega (arith, length-drop wi buf))
          ∙ ap (λ t. drop rem (take wi buf ++ t)) (sym (take-append-drop space s))
          ∙ ap (drop rem) (sym (append_assoc (take wi buf) (take space s) (drop space s)))
          ∙ drop-append_left rem (take wi buf ++ take space s) (drop space s) (
              omega (
                arith,
                length-append (take wi buf) (take space s),
                length-take wi buf,
                length-take space s,
              )))
    where
      front :
          drop rem (drop space s ++ drop rem (take wi buf ++ take space s))
          ≡ drop rem (take wi buf ++ take space s)
      front = drop-append_right _ 0 (drop space s) _ (omega (arith, length-drop space s))

      back : take rem (drop space s ++ drop rem (take wi buf ++ take space s)) ≡ drop space s
      back =
          take-append_right _ 0 (drop space s) _ (omega (arith, length-drop space s))
          ∙ append-nil (drop space s)

some-index {ℓ} :
    {A : Type ℓ} {r r' : Ring A} → some r ≡ some r' → r.buf_write_idx ≡ r'.buf_write_idx
some-index {r = r} e = ap (λ o. elim o [ none ↦ r.buf_write_idx | some q ↦ q.buf_write_idx ]) e

module _ {ℓ} {A : Type ℓ} (size : ℕ) where
  length-fit :
      (buf s : List A) (wi : ℕ)
      → wi + length s ≤ length buf
      → length (take wi buf ++ (s ++ drop (wi + length s) buf)) ≡ length buf
  length-fit buf s wi h = omega (
    arith,
    length-append (take wi buf) (s ++ drop (wi + length s) buf),
    length-append s (drop (wi + length s) buf),
    length-take wi buf,
    length-drop (wi + length s) buf,
  )

  length-wrap :
      (buf s : List A) (wi space rem : ℕ)
      → wi + space ≡ length buf
      → length s ≡ space + rem
      → rem ≤ length buf
      → length (drop space s ++ drop rem (take wi buf ++ take space s)) ≡ length buf
  length-wrap buf s wi space rem hs hn hr = omega (
    arith,
    length-append (drop space s) (drop rem (take wi buf ++ take space s)),
    length-drop space s,
    length-drop rem (take wi buf ++ take space s),
    length-append (take wi buf) (take space s),
    length-take wi buf,
    length-take space s,
  )

  -- The head goes forward by the length of the chunk, around the buffer; it may stop at the end.
  pub write-index :
      (r : Ring A) (s : List A) (r' : Ring A)
      → IsValid size r
      → length s ≤ size
      → write size r s ≡ some r'
      → r'.buf_write_idx % size ≡ (r.buf_write_idx + length s) % size
  unfolding write
  write-index r s r' v h e = elim (Bool-cases (leb (length s) (size - r.buf_write_idx))) [
    | inl fits ↦ ap (λ q. q % size) (sym (some-index (rw fits at e)))
    | inr wraps ↦
        let rest : leb (length s - (size - r.buf_write_idx)) size ≡ true = ground arith in
        let i : length s - (size - r.buf_write_idx) ≡ r.buf_write_idx + length s - size =
          omega (arith, v.index) in
        ap (λ q. q % size) (sym (some-index (rw (wraps, rest) at e)) ∙ i)
        ∙ sym (mod-eq-sub-mod (ground arith))
  ]

  -- What a write does to the window: the new samples push the oldest ones out.
  abbrev pub Slides : Ring A → List A → Ring A → Type ℓ
  Slides r s r' = IsValid size r' × (window r' ≡ drop (length s) (window r ++ s))

  -- A chunk that ends within one lap of the end of the buffer is written, in whole and in order.
  pub write-Slides :
      (r : Ring A) (s : List A)
      → IsValid size r
      → r.buf_write_idx + length s ≤ size + size
      → (r' : Ring A) × (write size r s ≡ some r') × Slides r s r'
  unfolding write
  write-Slides r s v h = elim (Bool-cases (leb (length s) (size - r.buf_write_idx))) [
    | inl fits ↦ (
      _,
      rw fits,
      (
        record {
          full = length-fit r.iq_buffer s r.buf_write_idx (ground arith) ∙ v.full;
          index = ground arith;
        },
        window_of_fit r.iq_buffer s r.buf_write_idx (ground arith),
      ),
    )
    | inr wraps ↦
        let room = size - r.buf_write_idx in
        let rest : leb (length s - room) size ≡ true = ground arith in
        (
          _,
          rw (wraps, rest),
          (
            record {
              full =
                  length-wrap r.iq_buffer s r.buf_write_idx room (length s - room)
                    (omega (arith, v.full, v.index)) (ground arith) (ground arith)
                  ∙ v.full;
              index = ground arith;
            },
            window_of_wrap r.iq_buffer s r.buf_write_idx room (length s - room)
                (omega (arith, v.full, v.index)) (ground arith) (ground arith),
          ),
        )
  ]

  -- The chunks that the RX thread delivers, in order; `none` if numpy raised.
  pub write_all : Ring A → List (List A) → Option (Ring A)
  write_all r [] = some r
  write_all r (s ∷ ss) = elim (write size r s) [ none ↦ none | some r' ↦ write_all r' ss ]

  abbrev pub joined : List (List A) → List A
  joined [] = []
  joined (s ∷ ss) = s ++ joined ss

  slide_twice :
      (w s t : List A)
      → drop (length t) (drop (length s) (w ++ s) ++ t) ≡ drop (length (s ++ t)) (w ++ (s ++ t))
  slide_twice w s t =
      ap (drop (length t))
        (sym (drop-append_left (length s) (w ++ s) t (omega (arith, length-append w s))))
      ∙ drop-drop (length t) (length s) (length (s ++ t)) ((w ++ s) ++ t)
          (omega (arith, length-append s t))
      ∙ ap (drop (length (s ++ t))) (append_assoc w s t)

  -- After any sequence of chunks no longer than the buffer, the ring is valid and holds the last
  -- `size` samples of its earlier contents followed by all that was delivered, in order.
  pub write_all-Slides :
      (r : Ring A) (ss : List (List A))
      → IsValid size r
      → All (λ s. length s ≤ size) ss
      → (r' : Ring A) × (write_all r ss ≡ some r') × Slides r (joined ss) r'
  unfolding write_all
  write_all-Slides r [] v h = (r, refl, (v, sym (append-nil (window r))))
  write_all-Slides r (s ∷ ss) v h =
      let first = write-Slides r s v (omega (arith, v.index, h.0)) in
      let rest = write_all-Slides first.0 ss first.2.0 h.1 in
      (
        rest.0,
        rw (first.1, write_all) (rest.1),
        (
          rest.2.0,
          rest.2.1
              ∙ ap (λ w. drop (length (joined ss)) (w ++ joined ss)) first.2.1
              ∙ slide_twice (window r) s (joined ss),
        ),
      )
