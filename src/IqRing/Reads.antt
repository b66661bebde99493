-- ===== src/IqRing/Reads.antt =====
-- What the readers of the ring get: `_extract_last` of src/stream_web/processor.py and the chunk
-- copy of `_capture_iq` in src/stream_web/app.py, against the window of the ring.
use native.Mathlib.Nat.{mod-eq_of_lt, mod-eq-sub-mod, mod_self}
use sdr_docker.Base.{
  ℕ, ◌+◌, ◌-◌, ◌%◌, ◌≤◌, ◌<◌, ◌≡◌, sym, ap, ◌∙◌, List, ◌++◌, arith, append-nil, ◌⊎◌, inl, inr,
  length, take, drop, ltb, leb, Bool-cases, length-drop, drop-append_left, drop-append_right,
  take-append_left, take-append_right, take-all, drop-drop, take-take, drop-take, true, false,
}
use sdr_docker.IqRing.{Ring, back, extract_last, samples_advanced, copy_chunk}
use sdr_docker.IqRing.Window.{window, IsValid}

module _ (size : ℕ) where
  -- The subtraction modulo the size, by cases on where it wraps.
  pub back_cases :
      (a b : ℕ)
      → a ≤ size
      → b ≤ size
      → ((b ≤ a) × (a < b + size) × (back size a b ≡ a - b))
        ⊎ ((a < b) × (back size a b ≡ a + size - b))
        ⊎ ((a ≡ b + size) × (back size a b ≡ 0))
  unfolding back
  back_cases a b ha hb = elim (Bool-cases (ltb a b)) [
    | inl wraps ↦ inr (inl (ground arith, mod-eq_of_lt (ground arith)))
    | inr direct ↦ elim (Bool-cases (ltb a (b + size))) [
      | inl below ↦ inl (
        ground arith,
        ground arith,
        mod-eq-sub-mod {n = a + size - b} {m = size} (ground arith)
            ∙ mod-eq_of_lt (ground arith)
            ∙ (ground arith),
      )
      | inr lap ↦
          let e : a + size - b ≡ size + size = ground arith in
          inr (inr (ground arith, ap (λ k. k % size) e ∙ (grind arith)))
    ]
  ]

  -- `_extract_last(n)` is the newest `n` samples of the window, oldest first.
  pub extract_last-window {ℓ} :
      {A : Type ℓ} (r : Ring A) (n : ℕ)
      → IsValid size r
      → 0 < n
      → n ≤ size
      → extract_last size r.iq_buffer r.buf_write_idx n ≡ drop (size - n) (window r)
  unfolding extract_last
  extract_last-window r n v pos le = elim (back_cases wi n v.index le) [
    | inl (h, l, e) ↦
        let direct : ltb (wi - n) wi ≡ true = ground arith in
        rw (e, direct)
          (sym (
            drop-append_right (size - n) (wi - n) (drop wi buf) (take wi buf)
              (omega (arith, length-drop wi buf, v.full, v.index))))
    | inr (inl (h, e)) ↦
        let wraps : ltb (wi + size - n) wi ≡ false = ground arith in
        rw (e, wraps)
          (sym (
            drop-append_left (size - n) (drop wi buf) (take wi buf)
              (omega (arith, length-drop wi buf, v.full, v.index))
            ∙ ap (λ t. t ++ take wi buf) (drop-drop (size - n) wi _ buf (omega (arith, v.index)))))
    | inr (inr (h, e)) ↦ absurd (omega (arith, v.index))
  ]
    where
      open r use {iq_buffer as buf, buf_write_idx as wi}

  copy_straight {ℓ} :
      {A : Type ℓ} (buf : List A) (start m : ℕ)
      → length buf ≡ size
      → 0 < m
      → start + m ≤ size
      → copy_chunk size buf start m ≡ take m (drop start buf)
  unfolding copy_chunk
  copy_straight buf start m full pos h = elim (Bool-cases (ltb (start + m) size)) [
    | inl inside ↦
        let forward : ltb start (start + m) ≡ true = ground arith in
        rw (mod-eq_of_lt {n = start + m} {m = size} (ground arith), forward)
          (drop-take start (start + m) m buf (omega arith))
    | inr at_end ↦
        let e : start + m ≡ size = ground arith in
        let back_to_zero : (start + m) % size ≡ 0 = rw (e) (mod_self size) in
        let wraps : ltb start 0 ≡ false = ground arith in
        rw (back_to_zero, wraps)
          (append-nil (drop start buf)
            ∙ sym (take-all m (drop start buf) (omega (arith, length-drop start buf))))
  ]

  copy_wrapped {ℓ} :
      {A : Type ℓ} (buf : List A) (start m : ℕ)
      → start ≤ size
      → m < size
      → size < start + m
      → copy_chunk size buf start m ≡ drop start buf ++ take (start + m - size) buf
  unfolding copy_chunk
  copy_wrapped buf start m hs hm h =
      let e : (start + m) % size ≡ start + m - size =
        mod-eq-sub-mod {n = start + m} {m = size} (omega arith) ∙ mod-eq_of_lt (omega arith) in
      let wraps : ltb start (start + m - size) ≡ false = ground arith in rw (e, wraps)

  pub samples_advanced_cases :
      (start end : ℕ)
      → ((start ≤ end) × (samples_advanced size start end ≡ end - start))
        ⊎ ((end < start) × (samples_advanced size start end ≡ size - start + end))
  unfolding samples_advanced
  samples_advanced_cases start end = elim (Bool-cases (leb start end)) [
    | inl h ↦ inl (ground arith)
    | inr h ↦ inr (ground arith)
  ]

  -- A chunk of `m` samples from `start`, copied when the head is `samples_advanced` past `start`,
  -- is the first `m` samples of that newest part of the window.
  pub copy_chunk-window {ℓ} :
      {A : Type ℓ} (r : Ring A) (start m : ℕ)
      → IsValid size r
      → start ≤ size
      → 0 < m
      → m < size
      → m ≤ samples_advanced size start r.buf_write_idx
      → copy_chunk size r.iq_buffer start m
        ≡ take m (drop (size - samples_advanced size start r.buf_write_idx) (window r))
  copy_chunk-window r start m v hs pos hm have = elim (samples_advanced_cases start wi) [
    | inl (h, e) ↦ rw e (
        copy_straight buf start m v.full pos (omega (arith, v.index))
        ∙ sym (
            ap (take m) (
              drop-append_right (size - (wi - start)) start (drop wi buf) (take wi buf)
                (omega (arith, length-drop wi buf, v.full, v.index))
              ∙ drop-take start wi (wi - start) buf (omega arith))
            ∙ take-take m (wi - start) (drop start buf) (omega arith)))
    | inr (h, e) ↦
        rw
          (
            e,
            drop-append_left (size - (size - start + wi)) (drop wi buf) (take wi buf)
                (omega (arith, length-drop wi buf, v.full, v.index)),
            drop-drop (size - (size - start + wi)) wi start buf (omega arith),
          )
          (elim (Bool-cases (leb (start + m) size)) [
            | inl straight ↦
                copy_straight buf start m v.full pos (ground arith)
                ∙ sym (
                    take-append_left m (drop start buf) (take wi buf)
                      (ground (arith, length-drop start buf, v.full)))
            | inr wrapped ↦
                copy_wrapped buf start m hs hm (ground arith)
                ∙ sym (
                    take-append_right m (start + m - size) (drop start buf) (take wi buf)
                      (ground (arith, length-drop start buf, v.full))
                    ∙ ap (λ t. drop start buf ++ t)
                        (take-take (start + m - size) wi buf (omega (arith))))
          ])
  ]
    where
      open r use {iq_buffer as buf, buf_write_idx as wi}
