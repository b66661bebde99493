-- ===== src/TdCapture.antt =====
-- The capture state machine of the Signal Viewer: src/stream_web/td_capture.py. One step per decode
-- cycle. Each hit that a helper returns is the object that it has just stored in `pending_hit`, so
-- the two identity tests of `select_td_capture` hold, and are taken as such (TdCapture.Invariant
-- proves it of the helpers). Status lines are values, with what the source formats into the text.
pub mod Invariant
pub mod Window
pub mod Tests
use Prim.Native.String.{String}
use text.Mathlib.Text.{◌==◌ as str_eq}
use sdr_docker.Base.{
  ℕ, ◌+◌, ◌-◌, ◌*◌, ◌%◌, Bool, true, false, not, ◌&&◌, ◌||◌, Option, none, some, List, [], ◌∷◌, map,
  length, take, keep, any, find, ltb, leb, abs_diff, if◌then◌else◌,
}
use sdr_docker.Base.Int.{ℤ, pos, leb_ℤ}
use sdr_docker.Base.Floats.{FloatOps, is_zero}
use sdr_docker.Config.{
  sample_rate, decode_samples, td_samples, td_pre_roll, truncation_match_samples,
}
use sdr_docker.Decoder.{Protocol, slot_of, total_symbols, is_text, Attempt}
use sdr_docker.IqRing.{back}

-- `_TRUNCATION_REASONS`
pub is_truncation : Option String → Bool
is_truncation reason = is_text reason "pdu_incomplete" || is_text reason "unknown"

pub data Target : Type 0 where
  chipset : String → Target
  ntw_id : ℤ → Target

abbrev pub int_eq : ℤ → ℤ → Bool
int_eq a b = leb_ℤ a b && leb_ℤ b a

same_kind : Target → Target → Bool
same_kind (chipset a) (chipset b) = str_eq a b
same_kind (chipset a) (ntw_id b) = false
same_kind (ntw_id a) (chipset b) = false
same_kind (ntw_id a) (ntw_id b) = int_eq a b

pub same_target : Option Target → Option Target → Bool
unfolding same_kind
same_target none none = true
same_target none (some b) = false
same_target (some a) none = false
same_target (some a) (some b) = same_kind a b

pub current_target : Option String → Option ℤ → Option Target
current_target none none = none
current_target none (some n) = some (ntw_id n)
current_target (some t) id = some (chipset t)

module _ (F : FloatOps) (p : Protocol) where
  open F use {Float, frac, of_int, plus, minus, times, over, lt, le, nearest}

  time_of : Attempt F → Float
  time_of a = elim a.time_s [ none ↦ frac 0 1 | some t ↦ t ]

  phy_of : Option ℤ → ℤ
  phy_of none = pos 1
  phy_of (some v) = v

  estimated_duration : Attempt F → Float
  unfolding phy_of
  estimated_duration a =
      over (of_int (pos (total_symbols p a.num_pdu_symbols * slot_of p (phy_of a.phy_ver))))
        (of_int (pos sample_rate))

  pub decoded_span : Attempt F → Float × Float
  unfolding time_of estimated_duration
  decoded_span a =
      let dur : Float = elim a.signal_duration_s [
        | none ↦ estimated_duration a
        | some d ↦ if is_zero F d then estimated_duration a else d
      ] in
      (time_of a, plus (time_of a) dur)

  pub start_sample_of : Attempt F → ℕ
  unfolding time_of
  start_sample_of a = elim a.start_sample [
    | none ↦ nearest (times (time_of a) (of_int (pos sample_rate)))
    | some s ↦ s
  ]

  -- An attempt with the position keys that the machine adds to its copy.
  pub record Hit : Type 0 where
    pub attempt : Attempt F
    pub abs_start : ℕ
    pub rel_start : Option ℕ
    pub first_seen : Float

  pub record TdCaptureState : Type 0 where
    pub pending_hit : Option Hit
    pub pending_confirm : Option Hit
    pub target : Option Target

  pub reset_pending : TdCaptureState → TdCaptureState
  reset_pending s = record s { pending_hit = none; pending_confirm = none }

  pub data Status : Type 0 where
    captured_decoded : ℕ → Option ℕ → Status
    captured_failed : ℕ → Option String → Status
    confirming : String → Option Float → Status
    waiting_failure : String → ℕ → Status
    searching : ℕ → List (Option ℤ) → Status

  pub record Capture : Type 0 where
    pub td_hit : Hit
    pub td_start : ℕ
    pub td_end : ℕ
    pub td_center : ℕ

  pub record TdCaptureResult : Type 0 where
    pub capture : Option Capture
    pub status : Option Status

  -- What one decode cycle observes.
  pub record Cycle : Type 0 where
    pub attempts : List (Attempt F)
    pub packets : List (Attempt F)
    pub decode_start : ℕ
    pub buf_len : ℕ
    pub chunk_len : ℕ
    pub now : Float

  -- TD_PENDING_TIMEOUT_S and TD_TRUNCATION_CONFIRM_S are both min(…, 0.9 * 2.0).
  pub is_stale : Cycle → Hit → Bool
  is_stale c h = lt (frac 18 10) (minus c.now h.first_seen)

  pub retry_pending : TdCaptureState → Cycle → TdCaptureState × Option Hit
  unfolding is_stale
  retry_pending s c = elim s.pending_hit [
    | none ↦ (s, none)
    | some h ↦
        let rel = back c.buf_len h.abs_start c.decode_start in
        if leb decode_samples rel || is_stale c h
        then (record s { pending_hit = none }, none)
        else (let h' = record h { rel_start = some rel } in
            (record s { pending_hit = some h' }, some h'))
  ]

  -- An attempt at the place `rel` of the window, of the chipset.
  abbrev pub is_near : String → ℕ → Attempt F → Bool
  is_near chip rel a =
      is_text a.chipset chip && ltb (abs_diff (start_sample_of a) rel) truncation_match_samples

  -- Whether the confirmation is over: it decoded, failed for good, left the window or timed out.
  pub settle_confirm : TdCaptureState → String → Cycle → TdCaptureState × Option Hit
  unfolding is_stale is_truncation start_sample_of
  settle_confirm s chip c = elim s.pending_confirm [
    | none ↦ (s, none)
    | some h ↦
        let rel = back c.buf_len h.abs_start c.decode_start in
        let resolved_ok = any (λ a. a.decoded && is_near chip rel a) c.attempts in
        if resolved_ok || leb decode_samples rel
        then (record s { pending_confirm = none }, none)
        else (let waiting = (if is_stale c h then record s { pending_confirm = none } else s) in
            elim (find (λ a. not a.decoded && is_near chip rel a) c.attempts) [
              | none ↦ (waiting, none)
              | some a ↦
                  if is_truncation a.reason
                  then (waiting, none)
                  else (let confirmed : Hit = record {
                    attempt = a;
                    abs_start = h.abs_start;
                    rel_start = some rel;
                    first_seen = c.now;
                  } in
                      (
                        record s { pending_confirm = none; pending_hit = some confirmed },
                        some confirmed,
                      ))
            ])
  ]

  -- A failed attempt inside the padded span of a decoded one (TD_PHANTOM_PAD_S).
  pub is_phantom : Cycle → Attempt F → Bool
  unfolding decoded_span
  is_phantom c a =
      any
        (λ d.
          le (minus (decoded_span d).0 (frac 2 100)) (time_of a)
          && le (time_of a) (plus (decoded_span d).1 (frac 2 100)))
        (keep (λ d. d.decoded) c.attempts)

  pub fresh_hit : Cycle → Attempt F → Option ℕ → Hit
  unfolding start_sample_of
  fresh_hit c a rel = record {
    attempt = a;
    abs_start = (c.decode_start + start_sample_of a) % c.buf_len;
    rel_start = rel;
    first_seen = c.now;
  }

  pub fresh_failure : TdCaptureState → String → Cycle → TdCaptureState × Option Hit
  unfolding fresh_hit is_phantom is_truncation
  fresh_failure s chip c =
      elim (find (λ a. is_text a.chipset chip && not a.decoded && not (is_phantom c a))
        c.attempts) [
          | none ↦ (s, none)
          | some a ↦
              if is_truncation a.reason
              then (record s { pending_confirm = some (fresh_hit c a none) }, none)
              else (let h = fresh_hit c a (some (start_sample_of a)) in
                  (record s { pending_hit = some h }, some h))
        ]

  -- `hit` if there is one, else go on with the state.
  abbrev pub or_else :
      TdCaptureState × Option Hit
      → (TdCaptureState → TdCaptureState × Option Hit)
      → TdCaptureState × Option Hit
  or_else (s, some h) next = (s, some h)
  or_else (s, none) next = next s

  pub select_chipset : TdCaptureState → String → Cycle → TdCaptureState × Option Hit
  select_chipset s chip c = or_else (settle_confirm s chip c) λ s'.
      or_else (retry_pending s' c)
        λ s''. elim s''.pending_confirm [ some h ↦ (s'', none) | none ↦ fresh_failure s'' chip c ]

  -- `candidate.setdefault("reason", "ok")`
  pub with_reason : Attempt F → Attempt F
  with_reason a = elim a.reason [ none ↦ record a { reason = some "ok" } | some r ↦ a ]

  pub is_id : Option ℤ → ℤ → Bool
  is_id none n = false
  is_id (some i) n = int_eq i n

  pub select_device : TdCaptureState → ℤ → Cycle → TdCaptureState × Option Hit
  unfolding fresh_hit with_reason is_id
  select_device s n c = or_else (retry_pending s c) λ s'.
      elim (find (λ a. a.decoded && is_id a.ntw_id n) c.attempts) [
        | none ↦ (s', none)
        | some a ↦
            let h = fresh_hit c (with_reason a) (some (start_sample_of a)) in
            (record s' { pending_hit = some h }, some h)
      ]

  center_of : Hit → ℕ
  unfolding start_sample_of
  center_of h = elim h.rel_start [ some r ↦ r | none ↦ start_sample_of h.attempt ]

  pub render_window : Hit → Capture
  unfolding center_of
  render_window h =
      let td_center = center_of h in
      let td_start = td_center - td_pre_roll in
      record {
        td_hit = h;
        td_start = td_start;
        td_end = td_start + td_samples;
        td_center = td_center;
      }

  pub captured_status : Hit → ℕ → Status
  captured_status h center =
      if h.attempt.decoded
      then captured_decoded center h.attempt.seq_num
      else captured_failed center h.attempt.reason

  pub waiting_status : TdCaptureState → Option String → Option ℤ → Cycle → Option Status
  waiting_status s chip id c = elim s.pending_confirm [
    | some h ↦ some (confirming (elim chip [ none ↦ "None" | some t ↦ t ]) h.attempt.time_s)
    | none ↦ elim chip [
      | none ↦ elim id [
        | none ↦ none
        | some n ↦ some (searching (length c.packets) (take 5 (map (λ k. k.ntw_id) c.packets)))
      ]
      | some t ↦ some (waiting_failure t (length c.packets))
    ]
  ]

  pub select_for : TdCaptureState → Option Target → Cycle → TdCaptureState × Option Hit
  unfolding select_chipset select_device
  select_for s none c = (s, none)
  select_for s (some (chipset t)) c = select_chipset s t c
  select_for s (some (ntw_id n)) c = select_device s n c

  -- Render the hit, keep it for the next cycle if the window ends past the chunk, or wait.
  pub serve :
      Option String
      → Option ℤ
      → Cycle
      → TdCaptureState × Option Hit
      → TdCaptureState × TdCaptureResult
  unfolding render_window captured_status waiting_status
  serve chip id c (s, none) = (s, record { capture = none; status = waiting_status s chip id c })
  serve chip id c (s, some h) =
      let cap = render_window h in
      if ltb c.chunk_len cap.td_end then (s, record { capture = none; status = none }) else (
        record s { pending_hit = none },
        record { capture = some cap; status = some (captured_status h cap.td_center) },
      )

  -- `chip` is `td_chipset`: the caller passes `None` for the empty text.
  pub select_td_capture :
      TdCaptureState → Bool → Option String → Option ℤ → Cycle → TdCaptureState × TdCaptureResult
  unfolding reset_pending same_target current_target
  select_td_capture s td_on chip id c =
      let target = current_target chip id in
      let s' =
        (if not td_on || not (same_target target s.target)
          then record (reset_pending s) { target = target }
          else s) in
      if td_on
      then serve chip id c (select_for s' target c)
      else (s', record { capture = none; status = none })
