-- ===== src/Capture/Correct.antt =====
-- What `_capture_iq` of src/stream_web/app.py returns.
use native.Mathlib.Nat.{mod-add-mod}
use sdr_docker.Base.{
  ℕ, zero, suc, ◌+◌, ◌-◌, ◌*◌, ◌/◌, ◌%◌, ◌≤◌, ◌<◌, ◌≡◌, refl, ap, ◌∙◌, List, [], ◌++◌, arith, ◌⊎◌,
  inl, inr, ltb, leb, ◌==◌, min, max, true, false, Bool-cases,
}
use sdr_docker.Base.Floats.{FloatOps}
use sdr_docker.IqRing.{samples_advanced}
use sdr_docker.Capture.{
  World, Outcome, CaptureError, done, failed, out_of_fuel, timed_out, wait, copy, capture_from,
  capture_iq, deadline_of, prepend,
}
use sdr_docker.Capture.Stream.{slice, slice-append, Follows, advanced_at, copy_at}

Outcome-cases {ℓ} :
    {A : Type ℓ} (o : Outcome A)
    → ((a : A) × (o ≡ done a)) ⊎ ((e : CaptureError) × (o ≡ failed e)) ⊎ (o ≡ out_of_fuel)
Outcome-cases (done a) = inl (a, refl)
Outcome-cases (failed e) = inr (inl (e, refl))
Outcome-cases out_of_fuel = inr (inr refl)

none_left : (left : ℕ) → (left == 0) ≡ true → left ≡ 0
none_left left h = ground arith

module _ {ℓ} (F : FloatOps) {A : Type ℓ} (size : ℕ) (w : World F A) (stream : ℕ → A) (total : ℕ → ℕ)
    (f : Follows F size w stream total) where
  -- How far past `c` the stream may be while `m` samples from there are waited for.
  abbrev reach : ℕ → ℕ
  reach m = max (4 * size) (8 * m + size)

  -- What the wait for `m` samples past the position `c` comes to.
  abbrev Waited : ℕ → ℕ → Outcome ℕ → Type 0
  Waited c m (done t') = (c + m ≤ total t') × (8 * total t' ≤ 8 * c + reach m)
  Waited c m (failed e) = e ≡ timed_out
  Waited c m out_of_fuel = Unit

  wait-Waited :
      (fuel : ℕ) (deadline : FloatOps.Float F) (c m t : ℕ)
      → c ≤ total t
      → 8 * total t ≤ 8 * c + reach m
      → 2 * m ≤ size
      → 0 < size
      → Waited c m (wait F size w fuel deadline (c % size) m t)
  unfolding wait
  wait-Waited zero deadline c m t lo hi half pos = tt
  wait-Waited (suc fuel) deadline c m t lo hi half pos =
      let ahead = advanced_at F size w stream total f c t lo (omega arith) in
      elim (Bool-cases (ltb (samples_advanced size (c % size) (w.ring t).buf_write_idx) m)) [
        | inl short ↦ elim (Bool-cases (FloatOps.lt F deadline (w.clock t))) [
          | inl late ↦ rw (short, late, wait) refl
          | inr early ↦
              let room : total t < c + m = ground arith in
              rw (short, early, wait)
                (wait-Waited fuel deadline c m (suc t) (omega (arith, f.grows t))
                  (omega (arith, f.steady t)) half pos)
        ]
        | inr ready ↦ rw (ready, wait) (ground arith, hi)
      ]

  -- The copy after such a wait is the stream from `c` on.
  copy_after :
      (c m t : ℕ)
      → 0 < m
      → 2 * m ≤ size
      → c + m ≤ total t
      → 8 * total t ≤ 8 * c + reach m
      → copy F size w (c % size) m t ≡ done (slice stream (c + size) m)
  unfolding copy
  copy_after c m t pos half have hi =
      let head =
        advanced_at F size w stream total f c (suc (suc t))
          (omega (arith, f.grows t, f.grows (suc t)))
          (omega (arith, f.steady t, f.steady (suc t))) in
      let intact : ltb (samples_advanced size (c % size) (w.ring (suc (suc t))).buf_write_idx) m
          ≡ false =
        ground (arith, head, f.grows t, f.grows (suc t)) in
      rw (intact) (
        ap done (
          copy_at F size w stream total f c m (suc t) pos (omega (arith, f.grows t))
            (omega (arith, f.steady t))))

  -- What the capture of `left` samples from the position `c` on comes to.
  abbrev pub Captured : ℕ → ℕ → Outcome (List A) → Type ℓ
  Captured c left (done segment) = segment ≡ slice stream (c + size) left
  Captured c left (failed e) = (e ≡ timed_out) × Unit {ℓ}
  Captured c left out_of_fuel = Unit

  prepend-Captured :
      (c m left c' left' : ℕ) (o : Outcome (List A))
      → c' ≡ c + m
      → left ≡ m + left'
      → Captured c' left' o
      → Captured c left (prepend F size w (slice stream (c + size) m) o)
  prepend-Captured c m left c' left' (done segment) h e p =
      rw (p, e) (slice-append stream (c + size) m left' (c' + size) (omega arith))
  prepend-Captured c m left c' left' (failed x) h e p = p
  prepend-Captured c m left c' left' out_of_fuel h e p = tt

  -- A round whose wait succeeds adds its part of the stream.
  capture_step :
      (fuel rounds left c t t' : ℕ)
      → (left == 0) ≡ false
      → let m = min (size / 2) left in
        wait F size w fuel (deadline_of F size w m t) (c % size) m t ≡ done t'
        → Waited c m (done t')
        → 4 ≤ size
        → capture_from F size w fuel (suc rounds) left (c % size) t
          ≡ prepend F size w
              (slice stream (c + size) m)
              (capture_from F size w fuel rounds (left - m) ((c + m) % size) (suc (suc (suc t'))))
  unfolding capture_from
  capture_step fuel rounds left c t t' some_left e near big =
      let m = min (size / 2) left in
      let copied = copy_after c m t' (ground arith) (omega arith) near.0 near.1 in
      rw (some_left, e, copied, capture_from, mod-add-mod)

  -- Where the next round starts, if this one was not the last.
  next_round :
      (left c t' : ℕ)
      → leb left (size / 2) ≡ false
      → Waited c (min (size / 2) left) (done t')
      → 4 ≤ size
      → let m = min (size / 2) left in
        let t = suc (suc (suc t')) in (c + m ≤ total t) × (8 * total t ≤ 8 * (c + m) + 4 * size)
  next_round left c t' more near big =
      let at_half : min (size / 2) left ≡ size / 2 = ground arith in
      omega (
        arith,
        near,
        f.grows t',
        f.grows (suc t'),
        f.grows (suc (suc t')),
        f.steady t',
        f.steady (suc t'),
        f.steady (suc (suc t')),
      )

  capture_from-zero : (fuel rounds c t : ℕ) → capture_from F size w fuel rounds 0 c t ≡ done []
  unfolding capture_from
  capture_from-zero fuel zero c t = refl
  capture_from-zero fuel (suc rounds) c t = refl

  capture_from-Captured :
      (fuel rounds left c t : ℕ)
      → 4 ≤ size
      → c ≤ total t
      → 8 * total t ≤ 8 * c + 4 * size
      → Captured c left (capture_from F size w fuel rounds left (c % size) t)
  unfolding capture_from
  capture_from-Captured fuel zero left c t big lo hi = elim (Bool-cases (left == 0)) [
    | inl all ↦ rw (all, none_left left all) refl
    | inr some_left ↦ rw some_left tt
  ]
  capture_from-Captured fuel (suc rounds) left c t big lo hi = elim (Bool-cases (left == 0)) [
    | inl all ↦ rw (all, capture_from, none_left left all) refl
    | inr some_left ↦
        let m = min (size / 2) left in
        let waited =
          wait-Waited fuel (deadline_of F size w m t) c m t lo (omega arith) (omega arith)
            (omega arith) in
        elim (Outcome-cases (wait F size w fuel (deadline_of F size w m t) (c % size) m t)) [
          | inl (t', e) ↦
              let near : Waited c m (done t') = rw e at waited in
              rw (capture_step fuel rounds left c t t' some_left e near big) (
                prepend-Captured c m left (c + m) (left - m) _ refl (omega arith)
                  (elim (Bool-cases (leb left (size / 2))) [
                    | inl last ↦
                        let all : left - m ≡ 0 = ground arith in
                        rw (all, capture_from-zero fuel rounds) refl
                    | inr more ↦
                        let next = next_round left c t' more near big in
                        capture_from-Captured fuel rounds (left - m) (c + m) (suc (suc (suc t')))
                          big next.0 next.1
                  ]))
          | inr (inl (x, e)) ↦
              let late : Waited c m (failed x) = rw e at waited in
              rw (some_left, e, capture_from) (late, tt)
          | inr (inr e) ↦ rw (some_left, e, capture_from) tt
        ]
  ]

  -- With a buffer of at least four samples, while at most an eighth of it comes at each tick and
  -- the head is set back to 0 at its end, what `_capture_iq` returns is exactly the stream from the
  -- moment of the call on, and it raises nothing but the timeout.
  pub capture_iq-Captured :
      (fuel n t : ℕ) → 4 ≤ size → Captured (total t) n (capture_iq F size w fuel n t)
  unfolding capture_iq
  capture_iq-Captured fuel n t big =
      rw (f.place t) (
        capture_from-Captured fuel n n (total t) (suc t) big (f.grows t)
          (omega (arith, f.steady t)))

  -- Within any `lap` ticks the RX thread delivers half a buffer, and the clock does not pass the
  -- deadline of a chunk in that time. Between two ticks there may be no sample.
  pub record Delivers (lap : ℕ) : Type 0 where
    pub arrives : (t : ℕ) → total t + size / 2 ≤ total (t + lap)
    pub punctual :
        (m t k : ℕ) → k ≤ lap → FloatOps.lt F (deadline_of F size w m t) (w.clock (t + k)) ≡ false

  module _ (lap : ℕ) (d : Delivers lap) where
    -- `k` ticks of the wait that began at `s` are over, and `fuel` are left of the lap.
    wait_done :
        (fuel k c m t s : ℕ)
        → t ≡ s + k
        → k + fuel ≡ lap
        → c ≤ total s
        → total s ≤ total t
        → 8 * total t ≤ 8 * c + reach m
        → m ≤ size / 2
        → 4 ≤ size
        → (t' : ℕ) × (wait F size w (suc fuel) (deadline_of F size w m s) (c % size) m t ≡ done t')
    unfolding wait
    wait_done zero k c m t s e lap_is lo since hi half big =
        let ahead = advanced_at F size w stream total f c t (omega arith) (omega arith) in
        let last : total t ≡ total (s + lap) = ap total (omega arith) in
        let ready : ltb (samples_advanced size (c % size) (w.ring t).buf_write_idx) m ≡ false =
          ground (arith, ahead, d.arrives s, last) in
        (t, rw (ready, wait))
    wait_done (suc fuel) k c m t s e lap_is lo since hi half big =
        let ahead = advanced_at F size w stream total f c t (omega arith) (omega arith) in
        elim (Bool-cases (ltb (samples_advanced size (c % size) (w.ring t).buf_write_idx) m)) [
          | inl short ↦
              let room : total t < c + m = ground arith in
              let early : FloatOps.lt F (deadline_of F size w m s) (w.clock t) ≡ false =
                rw e (d.punctual m s k (omega arith)) in
              let later =
                wait_done fuel (k + 1) c m (suc t) s (omega arith) (omega arith) lo
                  (omega (arith, f.grows t)) (omega (arith, f.steady t)) half big in
              (later.0, rw (short, early, wait) later.1)
          | inr ready ↦ (t, rw (ready, wait))
        ]

    capture_from_done :
        (rounds left c t : ℕ)
        → 4 ≤ size
        → left ≤ rounds
        → c ≤ total t
        → 8 * total t ≤ 8 * c + 4 * size
        → (segment : List A) × (capture_from F size w (suc lap) rounds left (c % size) t
            ≡ done segment)
    capture_from_done rounds zero c t big enough lo hi =
        ([], capture_from-zero (suc lap) rounds (c % size) t)
    capture_from_done zero (suc left) c t big enough lo hi = absurd (omega arith)
    capture_from_done (suc rounds) (suc left) c t big enough lo hi =
        let n = suc left in
        let m = min (size / 2) n in
        let some_left : (n == 0) ≡ false = ground arith in
        let (t', e) =
          wait_done lap 0 c m t t (omega arith) (omega arith) lo (omega arith) (omega arith)
            (omega arith) big in
        let waited =
          wait-Waited (suc lap) (deadline_of F size w m t) c m t lo (omega arith) (omega arith)
            (omega arith) in
        let near : Waited c m (done t') = rw e at waited in
        elim (Bool-cases (leb n (size / 2))) [
          | inl last ↦
              let all : n - m ≡ 0 = ground arith in
              (
                slice stream (c + size) m ++ [],
                capture_step (suc lap) rounds n c t t' some_left e near big
                    ∙ (rw (all, capture_from-zero (suc lap) rounds) refl),
              )
          | inr more ↦
              let next = next_round n c t' more near big in
              let rest =
                capture_from_done rounds (n - m) (c + m) (suc (suc (suc t'))) big (omega arith)
                  next.0 next.1 in
              (
                _,
                capture_step (suc lap) rounds n c t t' some_left e near big
                    ∙ ap (prepend F size w (slice stream (c + size) m)) rest.1,
              )
        ]

    -- With a buffer of at least four samples, while any `lap` ticks bring half a buffer or more, a
    -- tick at most an eighth of it, the head is set back to 0 at the end of the buffer, and `lap`
    -- ticks after the start of a chunk its deadline has not passed, the capture ends, with exactly the
    -- `n` samples that the RX thread delivers from the moment of the call on.
    pub capture_iq-slice :
        (n t : ℕ)
        → 4 ≤ size
        → capture_iq F size w (suc lap) n t ≡ done (slice stream (total t + size) n)
    unfolding capture_iq
    capture_iq-slice n t big =
        let near : 8 * total (suc t) ≤ 8 * total t + 4 * size = omega (arith, f.steady t) in
        let (segment, e) =
          capture_from_done n n (total t) (suc t) big (omega arith) (f.grows t) near in
        let right : Captured (total t) n (done segment) =
          rw e at (capture_from-Captured (suc lap) n n (total t) (suc t) big (f.grows t) near) in
        rw (f.place t) (e ∙ ap done right)
