-- ===== src/Rx/Sink.antt =====
-- The sink block of src/stream_web/gnuradio_rx.py: `work` as a whole, with the overflow counter and
-- the queue of drop positions that it feeds.
use native.Mathlib.Nat.{mod-add-mod}
use mathlib.Core.List.{map-append}
use sdr_docker.Base.{
  ℕ, suc, ◌+◌, ◌%◌, ◌≤◌, ◌≡◌, refl, sym, ap, ◌∙◌, subst, Bool, ◌&&◌, Option, none, some, List, [],
  ◌∷◌, ◌++◌, length, map, append_assoc, append-nil, All, Bool-cases, inl, inr, arith, if◌then◌else◌,
}
use sdr_docker.Base.Floats.{FloatOps}
use sdr_docker.IqRing.{Ring, write}
use sdr_docker.IqRing.Window.{IsValid, write-Slides, write-index}

module _ {ℓ} (F : FloatOps) (A : Type ℓ) (size : ℕ) where
  open F use {Float, frac, minus, times, over, lt}

  pub record BufferSink : Type ℓ where
    pub ring : Ring A
    pub running_peak : Float
    pub rx_peak_frac : Float
    pub prev_work_time : Float
    pub rx_overflows : ℕ
    pub drop_queue : List ℕ

  -- A call of `work`: its time, the largest magnitude over the full scale, the samples, and whether
  -- the queue takes a position that is put then (an exception of `put_nowait` is passed over).
  pub record Call : Type ℓ where
    pub now : Float
    pub scaled : Float
    pub samples : List A
    pub queue_takes : Bool

  -- The overflow test at the head of `work`.
  pub detect : Call → BufferSink → BufferSink
  detect c s =
      if lt (frac 50 1000) (minus c.now s.prev_work_time) && lt (frac 0 1) s.prev_work_time
      then record s {
        rx_overflows = suc s.rx_overflows;
        drop_queue =
            if c.queue_takes then s.drop_queue ++ (s.ring.buf_write_idx ∷ []) else s.drop_queue;
        prev_work_time = c.now;
      }
      else record s { prev_work_time = c.now }

  pub hold_peak : Float → BufferSink → BufferSink
  hold_peak scaled s =
      let peak : Float = if lt s.running_peak scaled then scaled else s.running_peak in
      record s { rx_peak_frac = peak; running_peak = times peak (frac 999 1000) }

  pub work : Call → BufferSink → Option BufferSink
  work c s =
      let s' = hold_peak c.scaled (detect c s) in
      elim (write size s'.ring c.samples) [ none ↦ none | some r ↦ some (record s' { ring = r }) ]

  pub work_all : List Call → BufferSink → Option BufferSink
  work_all [] s = some s
  work_all (c ∷ cs) s = elim (work c s) [ none ↦ none | some s' ↦ work_all cs s' ]

  -- A call is late when it comes more than 50 ms after the one before, which is not at time 0.
  abbrev pub is_late : (prev now : Float) → Bool
  is_late prev now = lt (frac 50 1000) (minus now prev) && lt (frac 0 1) prev

  abbrev pub n_late : Float → List Call → ℕ
  n_late prev [] = 0
  n_late prev (c ∷ cs) = (if is_late prev c.now then 1 else 0) + n_late c.now cs

  -- The places of the ring, counted around it from `at`, at which the samples of the late calls
  -- begin whose position the queue takes.
  abbrev pub late_places : ℕ → Float → List Call → List ℕ
  late_places at prev [] = []
  late_places at prev (c ∷ cs) =
      let rest = late_places (at + length c.samples) c.now cs in
      if is_late prev c.now && c.queue_takes then (at % size) ∷ rest else rest

  abbrev in_ring : List ℕ → List ℕ
  in_ring ps = map (λ p. p % size) ps

  -- What the calls have left of the state `s`, whose head stands at the place `at`.
  pub record IsLogged (at : ℕ) (cs : List Call) (s s' : BufferSink) : Type 0 where
    pub counted : s'.rx_overflows ≡ s.rx_overflows + n_late s.prev_work_time cs
    pub queued :
        map (λ p. p % size) s'.drop_queue
        ≡ map (λ p. p % size) s.drop_queue ++ late_places at s.prev_work_time cs

  -- What one call puts in the queue.
  detect-queue :
      (at : ℕ) (c : Call) (s : BufferSink) (rest : List ℕ)
      → at % size ≡ s.ring.buf_write_idx % size
      → in_ring (detect c s).drop_queue ++ rest
        ≡ in_ring s.drop_queue
          ++ (if is_late s.prev_work_time c.now && c.queue_takes then (at % size) ∷ rest else rest)
  unfolding detect
  detect-queue at c s rest e = elim (Bool-cases (is_late s.prev_work_time c.now)) [
    | inl late ↦ elim (Bool-cases c.queue_takes) [
      | inl takes ↦
          rw (late, takes, e)
            (ap (λ q. q ++ rest) (map-append (λ p. p % size) s.drop_queue _)
              ∙ append_assoc (in_ring s.drop_queue) _ rest)
      | inr full ↦ rw (late, full) refl
    ]
    | inr soon ↦ rw (soon) refl
  ]

  detect-count :
      (c : Call) (s : BufferSink)
      → ((detect c s).rx_overflows
          ≡ s.rx_overflows + (if is_late s.prev_work_time c.now then 1 else 0))
        × ((detect c s).prev_work_time ≡ c.now)
        × ((detect c s).ring ≡ s.ring)
  unfolding detect
  detect-count c s = elim (Bool-cases (is_late s.prev_work_time c.now)) [
    | inl late ↦ rw (late) (omega arith, refl, refl)
    | inr soon ↦ rw (soon) (omega arith, refl, refl)
  ]

  -- The calls from a place that is the head's, around the ring.
  work_all-IsLogged_from :
      (at : ℕ) (cs : List Call) (s : BufferSink)
      → IsValid size s.ring
      → at % size ≡ s.ring.buf_write_idx % size
      → All (λ c. length (Call.samples c) ≤ size) cs
      → (s' : BufferSink) × (work_all cs s ≡ some s') × IsValid size s'.ring × IsLogged at cs s s'
  unfolding work_all work hold_peak
  work_all-IsLogged_from at [] s v e h = (
    s,
    refl,
    v,
    record { counted = omega arith; queued = sym (append-nil (in_ring s.drop_queue)) },
  )
  work_all-IsLogged_from at (c ∷ cs) s v e h =
      let d = hold_peak c.scaled (detect c s) in
      let (counted, prev, same) = detect-count c s in
      let valid : IsValid size d.ring = subst (λ r. IsValid size r) (sym same) v in
      let written = write-Slides size d.ring c.samples valid (omega (arith, valid.index)) in
      let moved = write-index size d.ring c.samples written.0 valid h.0 written.1 in
      let s1 : BufferSink = record d { ring = written.0 } in
      let e1 : (at + length c.samples) % size ≡ s1.ring.buf_write_idx % size =
        sym (mod-add-mod at size (length c.samples))
        ∙ ap (λ q. (q + length c.samples) % size) (e ∙ ap (λ r. r.buf_write_idx % size) (sym same))
        ∙ mod-add-mod d.ring.buf_write_idx size (length c.samples)
        ∙ sym moved in
      let (s', ran, v', l) =
        work_all-IsLogged_from (at + length c.samples) cs s1 written.2.0 e1 h.1 in
      (
        s',
        rw (work_all, work, written.1) ran,
        v',
        record {
          counted = l.counted ∙ rw (prev, counted) (omega arith);
          queued =
              l.queued
              ∙ rw (prev) (detect-queue at c s (late_places (at + length c.samples) c.now cs) e);
        },
      )

  -- From a valid ring, chunks that fit the buffer are all taken. The overflows counted are the late
  -- calls. The queue has gained, in order, the places of the ring at which the samples of the late
  -- calls begin, the buffer's end being its index 0, less those that the queue did not take.
  pub work_all-IsLogged :
      (cs : List Call) (s : BufferSink)
      → IsValid size s.ring
      → All (λ c. length (Call.samples c) ≤ size) cs
      → (s' : BufferSink) × (work_all cs s ≡ some s')
        × IsValid size s'.ring
        × IsLogged s.ring.buf_write_idx cs s s'
  work_all-IsLogged cs s v h = work_all-IsLogged_from s.ring.buf_write_idx cs s v refl h
