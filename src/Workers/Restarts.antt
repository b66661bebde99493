-- ===== src/Workers/Restarts.antt =====
-- How often the watchdog of src/stream_web/app.py restarts a worker.
use sdr_docker.Base.{
  ℕ, suc, ◌+◌, ◌-◌, ◌≤◌, ◌≡◌, refl, ap, Bool, true, false, List, [], ◌∷◌, ◌++◌, All, length,
  length-append, keep, length-keep-le, arith, leb, ltb, Bool-cases, ◌⊎◌, inl, inr, min,
  if◌then◌else◌,
}
use sdr_docker.Base.Floats.{FloatOps}
use sdr_docker.Config.{worker_max_restarts}
use sdr_docker.Workers.{Worker, is_recent, visit}

module _ (F : FloatOps) where
  -- A worker that dies again right after each look.
  pub crash_loop : List (FloatOps.Float F) → Worker F → Worker F
  crash_loop [] w = w
  crash_loop (now ∷ times) w = crash_loop times (record (visit F true now w) { alive = false })

  -- The looks fall so close together that every restart still counts at each later look.
  abbrev pub Burst : List (FloatOps.Float F) → List (FloatOps.Float F) → Type 0
  Burst past [] = Unit
  Burst past (now ∷ times) =
      All (λ t. is_recent F now t ≡ true) past × Burst (past ++ (now ∷ [])) times

  keep_unchanged :
      (test : FloatOps.Float F → Bool) (ts : List (FloatOps.Float F))
      → All (λ t. test t ≡ true) ts
      → keep test ts ≡ ts
  keep_unchanged test [] h = refl
  keep_unchanged test (t ∷ ts) h = rw (h.0) (ap (◌∷◌ t) (keep_unchanged test ts h.1))

  abbrev pub dead : ℕ → List (FloatOps.Float F) → Bool → Worker F
  dead generation restarts gave_up = record {
    alive = false;
    generation = generation;
    restarts = restarts;
    gave_up = gave_up;
  }

  given_up_stays :
      (times : List (FloatOps.Float F)) (n : ℕ) (r : List (FloatOps.Float F))
      → crash_loop times (dead n r true) ≡ dead n r true
  unfolding crash_loop visit
  given_up_stays [] n r = refl
  given_up_stays (now ∷ times) n r = given_up_stays times n r

  -- The restarts that are left to a worker.
  abbrev pub budget : List (FloatOps.Float F) → ℕ
  budget r = worker_max_restarts - length r

  restarted : FloatOps.Float F → ℕ → List (FloatOps.Float F) → Worker F
  restarted now n r = record {
    alive = true;
    generation = suc n;
    restarts = r ++ (now ∷ []);
    gave_up = false;
  }

  visit-dead :
      (now : FloatOps.Float F) (n : ℕ) (r : List (FloatOps.Float F))
      → All (λ t. is_recent F now t ≡ true) r
      → visit F true now (dead n r false)
        ≡ (if leb worker_max_restarts (length r) then dead n r true else restarted now n r)
  unfolding visit restarted
  visit-dead now n r h =
      ap
        (λ recent. if leb worker_max_restarts (length recent) then dead n r true else record {
          alive = true;
          generation = suc n;
          restarts = recent ++ (now ∷ []);
          gave_up = false;
        })
        (keep_unchanged (is_recent F now) r h)

  after_restart :
      (now : FloatOps.Float F) (times : List (FloatOps.Float F)) (n : ℕ)
      (r : List (FloatOps.Float F))
      → leb worker_max_restarts (length r) ≡ false
      → length (r ++ (now ∷ [])) ≡ length r + 1
      → let w = crash_loop times (dead (suc n) (r ++ (now ∷ [])) false) in
        let r' = r ++ (now ∷ []) in
        (w.generation ≡ suc n + min (length times) (budget r'))
          × (w.gave_up ≡ ltb (budget r') (length times))
        → let w = crash_loop times (record (restarted now n r) { alive = false }) in
          (w.generation ≡ n + min (suc (length times)) (budget r))
          × (w.gave_up ≡ ltb (budget r) (suc (length times)))
  unfolding restarted
  after_restart now times n r left longer rest =
      (ground (arith, rest.0, longer, left), ground (arith, rest.1, longer, left))

  crash_loop-generation :
      (times : List (FloatOps.Float F)) (n : ℕ) (r : List (FloatOps.Float F))
      → Burst r times
      → ((crash_loop times (dead n r false)).generation ≡ n + min (length times) (budget r))
        × ((crash_loop times (dead n r false)).gave_up ≡ ltb (budget r) (length times))
  unfolding crash_loop
  crash_loop-generation [] n r b = (omega arith, ground arith)
  crash_loop-generation (now ∷ times) n r b =
      elim (Bool-cases (leb worker_max_restarts (length r))) [
        | inl spent ↦
            let e : visit F true now (dead n r false) ≡ dead n r true =
              rw (visit-dead now n r b.0, spent) refl in
            rw (e, crash_loop, given_up_stays times n r) (ground arith, ground arith)
        | inr left ↦
            let e : visit F true now (dead n r false) ≡ restarted now n r =
              rw (visit-dead now n r b.0, left) refl in
            let rest = crash_loop-generation times (suc n) (r ++ (now ∷ [])) b.1 in
            let longer = length-append r (now ∷ []) in
            rw (e, crash_loop) (after_restart now times n r left longer rest)
      ]

  -- A worker that is found dead at each of a series of looks, all of them within the window of the
  -- restarts on record and of each other, is restarted at each until five restarts are on record, and
  -- at the next look it is given up, for good: it is given up just if there were more looks than the
  -- five less those on record at the start.
  pub crash_loop_ends :
      (times : List (FloatOps.Float F)) (n : ℕ) (r : List (FloatOps.Float F))
      → Burst r times
      → ((crash_loop times (dead n r false)).generation
          ≡ n + min (length times) (worker_max_restarts - length r))
        × ((crash_loop times (dead n r false)).gave_up
            ≡ ltb (worker_max_restarts - length r) (length times))
  crash_loop_ends times n r b = crash_loop-generation times n r b

  -- A look restarts a worker just if it is dead, not given up and wanted; it never keeps more than
  -- five restart times, and never forgets that it gave up.
  pub visit_restarts :
      (running : Bool) (now : FloatOps.Float F) (w : Worker F)
      → length w.restarts ≤ worker_max_restarts
      → let w' = visit F running now w in
        (length w'.restarts ≤ worker_max_restarts)
        × ((w'.generation ≡ w.generation)
            ⊎ ((w'.generation ≡ suc w.generation)
                × (w.alive ≡ false)
                × (w.gave_up ≡ false)
                × (running ≡ true)
                × (w'.alive ≡ true)))
        × ((w.gave_up ≡ false) ⊎ (w' ≡ w))
  unfolding visit
  visit_restarts running now w h =
      let fewer = length-keep-le (is_recent F now) w.restarts in
      let more = length-append (keep (is_recent F now) w.restarts) (now ∷ []) in
      (ground (arith, fewer, more), ground arith, ground arith)
