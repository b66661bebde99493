-- ===== src/TdCapture/Invariant.antt =====
-- What the pending hits of src/stream_web/td_capture.py are, in every cycle.
use Prim.Native.String.{String}
use sdr_docker.Base.{
  ℕ, ◌≡◌, refl, Bool, true, false, not, ◌&&◌, ◌||◌, Option, none, some, find, find-eq-some, any,
  ltb-false→le, ◌+◌, ◌≤◌, if◌then◌else◌, arith, inl, inr, Bool-cases, Option-cases, leb, ltb, ap,
}
use text.Mathlib.TextEquality.{eq_iff}
use sdr_docker.Base.Int.{ℤ, eq_of_parts}
use sdr_docker.Base.Floats.{FloatOps}
use sdr_docker.Config.{decode_samples, td_samples, td_pre_roll}
use sdr_docker.Decoder.{Protocol, is_text, Attempt}
use sdr_docker.IqRing.{back}
use sdr_docker.TdCapture.{
  Target, chipset, ntw_id, is_truncation, Hit, TdCaptureState, TdCaptureResult, Cycle, is_stale,
  retry_pending, is_near, settle_confirm, is_phantom, fresh_hit, fresh_failure, or_else,
  select_chipset, with_reason, is_id, select_device, select_for, serve, select_td_capture,
  current_target, same_target, same_kind, Capture, render_window, start_sample_of,
}

module _ (F : FloatOps) (p : Protocol) where
  -- What may be shown for a target: a failure of the chipset that is not one of those which a
  -- window cut short gives, or a decoded packet of the device.
  abbrev pub Fits : Option Target → Hit F p → Type 0
  Fits none h = ⊥
  Fits (some (chipset t)) h =
      (is_text h.attempt.chipset t ≡ true)
      × (h.attempt.decoded ≡ false)
      × (is_truncation h.attempt.reason ≡ false)
  Fits (some (ntw_id n)) h = (h.attempt.decoded ≡ true) × (is_id F p h.attempt.ntw_id n ≡ true)

  -- What may be held for confirmation: a failure of the chipset that a cut window may have given.
  abbrev pub Awaits : Option Target → Hit F p → Type 0
  Awaits none h = ⊥
  Awaits (some (chipset t)) h =
      (is_text h.attempt.chipset t ≡ true)
      × (h.attempt.decoded ≡ false)
      × (is_truncation h.attempt.reason ≡ true)
  Awaits (some (ntw_id n)) h = ⊥

  abbrev pub IfSome : (Hit F p → Type 0) → Option (Hit F p) → Type 0
  IfSome P none = Unit
  IfSome P (some h) = P h

  pub record IsValid (target : Option Target) (s : TdCaptureState F p) : Type 0 where
    pub pending : IfSome (Fits target) s.pending_hit
    pub awaited : IfSome (Awaits target) s.pending_confirm
    pub same : s.target ≡ target

  -- A helper's answer: a hit fits the target, and is the one that the state keeps.
  abbrev pub Selected : Option Target → TdCaptureState F p × Option (Hit F p) → Type 0
  Selected target (s, none) = IsValid target s
  Selected target (s, some h) = IsValid target s × Fits target h × (s.pending_hit ≡ some h)

  Fits-of_same_attempt :
      (target : Option Target) (h k : Hit F p)
      → k.attempt ≡ h.attempt
      → Fits target h
      → Fits target k
  Fits-of_same_attempt none h k e f = f
  Fits-of_same_attempt (some (chipset t)) h k e f = rw e f
  Fits-of_same_attempt (some (ntw_id n)) h k e f = rw e f

  retry-Selected_at :
      (target : Option Target) (ph pc : Option (Hit F p)) (tg : Option Target) (c : Cycle F p)
      → let s : TdCaptureState F p = record {
        pending_hit = ph;
        pending_confirm = pc;
        target = tg;
      } in
        IsValid target s → Selected target (retry_pending F p s c)
  unfolding retry_pending
  retry-Selected_at target none pc tg c v = v
  retry-Selected_at target (some h) pc tg c v =
      elim (Bool-cases
        (leb decode_samples (back c.buf_len h.abs_start c.decode_start) || is_stale F p c h)) [
          | inl over ↦ rw over (record { pending = tt; awaited = v.awaited; same = v.same })
          | inr live ↦
              let fits =
                Fits-of_same_attempt target h
                  (record h { rel_start = some (back c.buf_len h.abs_start c.decode_start) }) refl
                  v.pending in
              rw live (record { pending = fits; awaited = v.awaited; same = v.same }, fits, refl)
        ]

  retry-Selected :
      (target : Option Target) (s : TdCaptureState F p) (c : Cycle F p)
      → IsValid target s
      → Selected target (retry_pending F p s c)
  retry-Selected target s c v =
      retry-Selected_at target s.pending_hit s.pending_confirm s.target c v

  fresh_failure-Selected :
      (t : String) (s : TdCaptureState F p) (c : Cycle F p)
      → IsValid (some (chipset t)) s
      → Selected (some (chipset t)) (fresh_failure F p s t c)
  unfolding fresh_failure
  fresh_failure-Selected t s c v = elim (Option-cases found) [
    | inl e ↦ rw (e, fresh_failure) v
    | inr (a, e) ↦
        let ok = find-eq-some test c.attempts e in
        elim (Bool-cases (is_truncation a.reason)) [
          | inl cut ↦
              rw (e, cut, fresh_failure)
                (record {
                  pending = v.pending;
                  awaited = (ground arith, ground arith, cut);
                  same = v.same;
                })
          | inr whole ↦
              let fits : Fits (some (chipset t))
                  (fresh_hit F p c a (some (start_sample_of F p a))) =
                (ground arith, ground arith, whole) in
              rw (e, whole, fresh_failure)
                (record { pending = fits; awaited = v.awaited; same = v.same }, fits, refl)
        ]
  ]
    where
      test : Attempt F → Bool
      test a = is_text a.chipset t && not a.decoded && not (is_phantom F p c a)

      found : Option (Attempt F)
      found = find test c.attempts

  settle-Selected_at :
      (t : String) (ph pc : Option (Hit F p)) (tg : Option Target) (c : Cycle F p)
      → let s : TdCaptureState F p = record {
        pending_hit = ph;
        pending_confirm = pc;
        target = tg;
      } in
        IsValid (some (chipset t)) s → Selected (some (chipset t)) (settle_confirm F p s t c)
  unfolding settle_confirm
  settle-Selected_at t ph none tg c v = v
  settle-Selected_at t ph (some h) tg c v =
      elim (Bool-cases
        (any (λ a. a.decoded && is_near F p t rel a) c.attempts || leb decode_samples rel)) [
          | inl over ↦
              rw (over, settle_confirm)
                (record { pending = v.pending; awaited = tt; same = v.same })
          | inr open_still ↦ elim (Option-cases found) [
            | inl e ↦ rw (open_still, e, settle_confirm) waiting
            | inr (a, e) ↦
                let ok = find-eq-some test c.attempts e in
                elim (Bool-cases (is_truncation a.reason)) [
                  | inl cut ↦ rw (open_still, e, cut, settle_confirm) waiting
                  | inr whole ↦
                      let fits : Fits (some (chipset t)) (confirmed a) =
                        (ground arith, ground arith, whole) in
                      rw (open_still, e, whole, settle_confirm)
                        (record { pending = fits; awaited = tt; same = v.same }, fits, refl)
                ]
          ]
        ]
    where
      s : TdCaptureState F p
      s = record { pending_hit = ph; pending_confirm = some h; target = tg }

      rel : ℕ
      rel = back c.buf_len h.abs_start c.decode_start

      test : Attempt F → Bool
      test a = not a.decoded && is_near F p t rel a

      found : Option (Attempt F)
      found = find test c.attempts

      confirmed : Attempt F → Hit F p
      confirmed a = record {
        attempt = a;
        abs_start = h.abs_start;
        rel_start = some rel;
        first_seen = c.now;
      }

      waiting :
          IsValid
            (some (chipset t))
            (if is_stale F p c h then record s { pending_confirm = none } else s)
      waiting =
          elim (is_stale F p c h)
            as (λ b.
              IsValid (some (chipset t)) (if b then record s { pending_confirm = none } else s)) [
                | true ↦ record { pending = v.pending; awaited = tt; same = v.same }
                | false ↦ v
              ]

  settle-Selected :
      (t : String) (s : TdCaptureState F p) (c : Cycle F p)
      → IsValid (some (chipset t)) s
      → Selected (some (chipset t)) (settle_confirm F p s t c)
  settle-Selected t s c v = settle-Selected_at t s.pending_hit s.pending_confirm s.target c v

  or_else-Selected :
      (target : Option Target) (r : TdCaptureState F p × Option (Hit F p))
      (next : TdCaptureState F p → TdCaptureState F p × Option (Hit F p))
      → Selected target r
      → ((s : TdCaptureState F p) → IsValid target s → Selected target (next s))
      → Selected target (or_else F p r next)
  or_else-Selected target (s, none) next v keep = keep s v
  or_else-Selected target (s, some h) next v keep = v

  search-Selected :
      (t : String) (ph pc : Option (Hit F p)) (tg : Option Target) (c : Cycle F p)
      → let s : TdCaptureState F p = record {
        pending_hit = ph;
        pending_confirm = pc;
        target = tg;
      } in
        IsValid (some (chipset t)) s
        → Selected
            (some (chipset t))
            (elim s.pending_confirm [ some h ↦ (s, none) | none ↦ fresh_failure F p s t c ])
  search-Selected t ph none tg c v = fresh_failure-Selected t _ c v
  search-Selected t ph (some h) tg c v = v

  select_chipset-Selected :
      (t : String) (s : TdCaptureState F p) (c : Cycle F p)
      → IsValid (some (chipset t)) s
      → Selected (some (chipset t)) (select_chipset F p s t c)
  unfolding select_chipset
  select_chipset-Selected t s c v =
      or_else-Selected _ (settle_confirm F p s t c) _ (settle-Selected t s c v) λ s' v'.
        or_else-Selected _ (retry_pending F p s' c) _ (retry-Selected _ s' c v')
          λ s'' v''. search-Selected t s''.pending_hit s''.pending_confirm s''.target c v''

  with_reason-Fits :
      (n : ℤ) (c : Cycle F p) (a : Attempt F) (r : Option String) (rel : Option ℕ)
      → a.reason ≡ r
      → (a.decoded && is_id F p a.ntw_id n) ≡ true
      → Fits (some (ntw_id n)) (fresh_hit F p c (with_reason F p a) rel)
  unfolding fresh_hit with_reason
  with_reason-Fits n c a none rel e ok = rw (e, with_reason) (ground arith)
  with_reason-Fits n c a (some r) rel e ok = rw (e, with_reason) (ground arith)

  -- The end of `select_device`, over what it found.
  abbrev device_found :
      TdCaptureState F p → Cycle F p → Option (Attempt F) → TdCaptureState F p × Option (Hit F p)
  device_found s c none = (s, none)
  device_found s c (some a) =
      let h = fresh_hit F p c (with_reason F p a) (some (start_sample_of F p a)) in
      (record s { pending_hit = some h }, some h)

  device_found-Selected :
      (n : ℤ) (s : TdCaptureState F p) (c : Cycle F p) (o : Option (Attempt F))
      → ((a : Attempt F) → o ≡ some a → (a.decoded && is_id F p a.ntw_id n) ≡ true)
      → IsValid (some (ntw_id n)) s
      → Selected (some (ntw_id n)) (device_found s c o)
  device_found-Selected n s c none ok v = v
  device_found-Selected n s c (some a) ok v =
      let fits = with_reason-Fits n c a a.reason (some (start_sample_of F p a)) refl (ok a refl) in
      (record { pending = fits; awaited = v.awaited; same = v.same }, fits, refl)

  select_device-Selected :
      (n : ℤ) (s : TdCaptureState F p) (c : Cycle F p)
      → IsValid (some (ntw_id n)) s
      → Selected (some (ntw_id n)) (select_device F p s n c)
  unfolding select_device
  select_device-Selected n s c v =
      or_else-Selected _ (retry_pending F p s c) _ (retry-Selected _ s c v) λ s' v'.
        device_found-Selected n s' c (find (λ a. a.decoded && is_id F p a.ntw_id n) c.attempts)
          (λ a e. find-eq-some (λ b. b.decoded && is_id F p b.ntw_id n) c.attempts e) v'

  select_for-Selected :
      (target : Option Target) (s : TdCaptureState F p) (c : Cycle F p)
      → IsValid target s
      → Selected target (select_for F p s target c)
  unfolding select_for
  select_for-Selected none s c v = v
  select_for-Selected (some (chipset t)) s c v = select_chipset-Selected t s c v
  select_for-Selected (some (ntw_id n)) s c v = select_device-Selected n s c v

  -- What a cycle's result may say: a capture fits the target, lies in the chunk, holds its centre
  -- after at most the pre-roll, and leaves nothing pending to be shown again.
  abbrev pub ShownBy : ℕ → Option Target → TdCaptureState F p → Option (Capture F p) → Type 0
  ShownBy chunk_len target s none = Unit
  ShownBy chunk_len target s (some cap) =
      Fits target cap.td_hit
      × (cap.td_start ≤ cap.td_center)
      × (cap.td_center ≤ cap.td_start + td_pre_roll)
      × (cap.td_end ≡ cap.td_start + td_samples)
      × (cap.td_end ≤ chunk_len)
      × (s.pending_hit ≡ none)

  abbrev pub Served : ℕ → Option Target → TdCaptureState F p × TdCaptureResult F p → Type 0
  Served chunk_len target (s, r) = IsValid target s × ShownBy chunk_len target s r.capture

  serve-Served :
      (chip : Option String) (id : Option ℤ) (target : Option Target) (c : Cycle F p)
      (r : TdCaptureState F p × Option (Hit F p))
      → Selected target r
      → Served c.chunk_len target (serve F p chip id c r)
  unfolding serve render_window
  serve-Served chip id target c (s, none) v = (v, tt)
  serve-Served chip id target c (s, some h) (v, fits, kept) =
      elim (Bool-cases (ltb c.chunk_len (render_window F p h).td_end)) [
        | inl past ↦ rw past (v, tt)
        | inr inside ↦ rw inside (
          record { pending = tt; awaited = v.awaited; same = v.same },
          (fits, omega arith, omega arith, refl, ltb-false→le _ _ inside, refl),
        )
      ]

  same_kind-eq : (a b : Target) → same_kind a b ≡ true → a ≡ b
  unfolding same_kind
  same_kind-eq (chipset a) (chipset b) h = ap chipset ((eq_iff a b).0 h)
  same_kind-eq (chipset a) (ntw_id b) h = cc
  same_kind-eq (ntw_id a) (chipset b) h = cc
  same_kind-eq (ntw_id a) (ntw_id b) h = ap ntw_id (eq_of_parts a b (ground arith))

  same_target-eq : (a b : Option Target) → same_target a b ≡ true → a ≡ b
  unfolding same_target
  same_target-eq none none h = refl
  same_target-eq none (some b) h = cc
  same_target-eq (some a) none h = cc
  same_target-eq (some a) (some b) h = ap some (same_kind-eq a b h)

  -- From any state whose pending hits fit its target, the cycle leaves such a state for the target
  -- of the cycle. What it captures fits that target, lies whole in the cycle's window with its centre
  -- at most the pre-roll after its start, and leaves no hit pending.
  pub select_td_capture-Served :
      (s : TdCaptureState F p) (td_on : Bool) (chip : Option String) (id : Option ℤ) (c : Cycle F p)
      → IsValid s.target s
      → Served c.chunk_len (current_target chip id) (select_td_capture F p s td_on chip id c)
  unfolding select_td_capture
  select_td_capture-Served s false chip id c v =
      (record { pending = tt; awaited = tt; same = refl }, tt)
  select_td_capture-Served s true chip id c v =
      elim (Bool-cases (same_target (current_target chip id) s.target)) [
        | inl same ↦
            let e = same_target-eq (current_target chip id) s.target same in
            rw (same) (serve-Served chip id _ c _ (select_for-Selected _ s c (rw e v)))
        | inr changed ↦ rw (changed) (
            serve-Served chip id _ c _
              (select_for-Selected _ _ c (record { pending = tt; awaited = tt; same = refl })))
      ]
