-- ===== src/TdCapture/Window.antt =====
-- How src/stream_web/td_capture.py follows a hit from cycle to cycle, and when it lets go of it.
use native.Mathlib.Nat.{mod-eq_of_lt, mod-eq-sub-mod, mod-lt}
use Prim.Native.String.{String}
use sdr_docker.Base.{
  ℕ, ◌+◌, ◌-◌, ◌%◌, ◌≤◌, ◌<◌, ◌≡◌, refl, ◌∙◌, ap, Bool, true, false, not, ◌&&◌, ◌||◌, Option, none,
  some, find, any, arith, inl, inr, Bool-cases, Option-cases, leb, lt→leb-false, if◌then◌else◌,
}
use sdr_docker.Base.Int.{ℤ}
use sdr_docker.Base.Floats.{FloatOps}
use sdr_docker.Config.{decode_samples}
use sdr_docker.Decoder.{Protocol}
use sdr_docker.IqRing.{back}
use sdr_docker.Capture.Stream.{place_of_distance}
use sdr_docker.TdCapture.{
  Hit, TdCaptureState, Cycle, is_stale, retry_pending, is_near, settle_confirm, select_td_capture,
  current_target, same_target, reset_pending, is_truncation,
}

-- The position `(c + d) % size` lies `d` after `c % size`.
back_of_distance : (size c d : ℕ) → d < size → back size ((c + d) % size) (c % size) ≡ d
unfolding back
back_of_distance size c d h =
    let below : c % size < size = mod-lt c (omega arith) in
    elim (place_of_distance size c d h) [
      | inl near ↦
          let e : (c + d) % size + size - c % size ≡ d + size = omega (arith, near) in
          ap (λ k. k % size) e
          ∙ mod-eq-sub-mod {n = d + size} {m = size} (omega arith)
          ∙ (let left : d + size - size ≡ d = omega arith in ap (λ k. k % size) left)
          ∙ mod-eq_of_lt h
      | inr far ↦
          let e : (c + d) % size + size - c % size ≡ d = omega (arith, far) in
          ap (λ k. k % size) e ∙ mod-eq_of_lt h
    ]

module _ (F : FloatOps) (p : Protocol) where
  -- A hit `rel` samples into one window is found `moved` samples earlier in a window that starts
  -- `moved` samples later: while it is in view and in time it is retried at its place; too old, it
  -- is let go.
  pub retry_pending-tracks :
      (s : TdCaptureState F p) (c : Cycle F p) (h : Hit F p) (start rel moved : ℕ)
      → s.pending_hit ≡ some h
      → h.abs_start ≡ (start + rel) % c.buf_len
      → c.decode_start ≡ (start + moved) % c.buf_len
      → moved ≤ rel
      → rel < decode_samples
      → rel < c.buf_len
      → let h' = record h { rel_start = some (rel - moved) } in
        retry_pending F p s c ≡ (
          if is_stale F p c h
          then (record s { pending_hit = none }, none)
          else (record s { pending_hit = some h' }, some h'))
  unfolding retry_pending
  retry_pending-tracks s c h start rel moved kept at from le inside lap =
      let there : start + rel ≡ start + moved + (rel - moved) = omega arith in
      let e : back c.buf_len h.abs_start c.decode_start ≡ rel - moved =
        rw (at, from, there)
          (back_of_distance c.buf_len (start + moved) (rel - moved) (omega arith)) in
      let seen : leb decode_samples (rel - moved) ≡ false = lt→leb-false _ _ (omega arith) in
      rw (kept, retry_pending, e, seen)

  -- A failure held for confirmation is not held beyond its time, whatever else the cycle shows.
  pub settle_confirm_expires :
      (s : TdCaptureState F p) (t : String) (c : Cycle F p) (h : Hit F p)
      → is_stale F p c h ≡ true
      → (settle_confirm F p (record s { pending_confirm = some h }) t c).0.pending_confirm ≡ none
  unfolding settle_confirm
  settle_confirm_expires s t c h stale =
      elim (Bool-cases
        (any (λ a. a.decoded && is_near F p t rel a) c.attempts || leb decode_samples rel)) [
          | inl over ↦ rw over refl
          | inr on ↦
              elim (Option-cases (find (λ a. not a.decoded && is_near F p t rel a) c.attempts)) [
                | inl e ↦ rw (on, e, stale) refl
                | inr (a, e) ↦ elim (Bool-cases (is_truncation a.reason)) [
                  | inl cut ↦ rw (on, e, cut, stale) refl
                  | inr whole ↦ rw (on, e, whole) refl
                ]
              ]
        ]
    where
      rel : ℕ
      rel = back c.buf_len h.abs_start c.decode_start

  -- Switched off, or given another target, the machine keeps nothing of what was pending: the
  -- cycle is that of a machine with nothing pending.
  pub select_td_capture_forgets :
      (s : TdCaptureState F p) (td_on : Bool) (chip : Option String) (id : Option ℤ) (c : Cycle F p)
      → (td_on && same_target (current_target chip id) s.target) ≡ false
      → select_td_capture F p s td_on chip id c
        ≡ select_td_capture F p
            (record { pending_hit = none; pending_confirm = none; target = s.target })
            td_on
            chip
            id
            c
  unfolding select_td_capture reset_pending
  select_td_capture_forgets s false chip id c h = refl
  select_td_capture_forgets s true chip id c h =
      let changed : same_target (current_target chip id) s.target ≡ false = h in rw changed refl
