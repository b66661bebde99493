-- ===== src/Hitl/Counts.antt =====
-- The counters of the HITL annotator of src/stream_web/hitl.py.
use sdr_docker.Base.{
  ℕ, ◌+◌, ◌≤◌, ◌≡◌, Bool, true, false, Option, none, some, List, [], ◌∷◌, length, length-append,
  Bool-cases, ltb, ltb→lt, arith, inl, inr, All, All-append, subst,
}
use sdr_docker.Config.{hitl_queue_max}
use sdr_docker.Hitl.{
  HarvesterAnnotator, submit_one, submit, get, finish, Event, submits, gets, finishes, step, run,
}

module _ (Entry : Type 0) (is_phy_v1 : Entry → Bool) where
  abbrev in_flight : Option Entry → ℕ
  in_flight none = 0
  in_flight (some e) = 1

  abbrev IsPostedV1 : Option Entry → Type 0
  IsPostedV1 none = Unit
  IsPostedV1 (some e) = is_phy_v1 e ≡ true

  -- The entries that the annotator has been given, by where they are now.
  abbrev accounted : HarvesterAnnotator Entry is_phy_v1 → ℕ
  accounted a = a.sent + a.failed + a.dropped + a.skipped + length a.queue + in_flight a.posting

  abbrev n_submitted : Event Entry is_phy_v1 → ℕ
  n_submitted (submits es) = length es
  n_submitted gets = 0
  n_submitted (finishes returned) = 0

  abbrev total_submitted : List (Event Entry is_phy_v1) → ℕ
  total_submitted [] = 0
  total_submitted (e ∷ es) = n_submitted e + total_submitted es

  pub record Counted (n : ℕ) (a : HarvesterAnnotator Entry is_phy_v1) : Type 0 where
    pub adds_up : accounted a ≡ n
    pub fits : length a.queue ≤ hitl_queue_max
    pub queued_v1 : All (λ e. is_phy_v1 e ≡ true) a.queue
    pub posting_v1 : IsPostedV1 a.posting

  submit_one-Counted :
      (e : Entry) (n : ℕ) (a : HarvesterAnnotator Entry is_phy_v1)
      → Counted n a
      → Counted (n + 1) (submit_one Entry is_phy_v1 e a)
  unfolding submit_one
  submit_one-Counted e n a c = elim (Bool-cases (is_phy_v1 e)) [
    | inr other ↦ rw (other) (record {
      adds_up = let q = c.adds_up in omega arith;
      fits = c.fits;
      queued_v1 = c.queued_v1;
      posting_v1 = c.posting_v1;
    })
    | inl v1 ↦ elim (Bool-cases (ltb (length a.queue) hitl_queue_max)) [
      | inl room ↦
          rw (v1, room)
            (record {
              adds_up = let q = c.adds_up in omega (arith, length-append a.queue (e ∷ []));
              fits =
                  let l = ltb→lt (length a.queue) hitl_queue_max room in
                  omega (arith, length-append a.queue (e ∷ []));
              queued_v1 =
                  All-append (λ e. is_phy_v1 e ≡ true) a.queue (e ∷ []) c.queued_v1 (v1, tt);
              posting_v1 = c.posting_v1;
            })
      | inr full ↦
          rw (v1, full)
            (record {
              adds_up = let q = c.adds_up in omega arith;
              fits = c.fits;
              queued_v1 = c.queued_v1;
              posting_v1 = c.posting_v1;
            })
    ]
  ]

  submit-Counted :
      (es : List Entry) (n : ℕ) (a : HarvesterAnnotator Entry is_phy_v1)
      → Counted n a
      → Counted (n + length es) (submit Entry is_phy_v1 es a)
  unfolding submit
  submit-Counted [] n a c = subst (λ k. Counted k a) (omega arith) c
  submit-Counted (e ∷ es) n a c =
      let a' = submit_one Entry is_phy_v1 e a in
      let later = submit-Counted es (n + 1) a' (submit_one-Counted e n a c) in
      subst (λ k. Counted k (submit Entry is_phy_v1 es a')) (omega arith) later

  get-Counted_at :
      (n : ℕ) (a : HarvesterAnnotator Entry is_phy_v1)
      → (o : Option Entry) → (q : List Entry) → Counted n (record a { posting = o; queue = q })
      → Counted n (get Entry is_phy_v1 (record a { posting = o; queue = q }))
  unfolding get
  get-Counted_at n a (some e) q c = c
  get-Counted_at n a none [] c = c
  get-Counted_at n a none (e ∷ es) c = record {
    adds_up = let q = c.adds_up in omega arith;
    fits = let l = c.fits in omega arith;
    queued_v1 = c.queued_v1.1;
    posting_v1 = c.queued_v1.0;
  }

  finish-Counted_at :
      (n : ℕ) (a : HarvesterAnnotator Entry is_phy_v1)
      → (o : Option Entry) → (returned : Bool) → Counted n (record a { posting = o })
      → Counted n (finish Entry is_phy_v1 returned (record a { posting = o }))
  unfolding finish
  finish-Counted_at n a none returned c = c
  finish-Counted_at n a (some e) true c = record {
    adds_up = let q = c.adds_up in omega arith;
    fits = c.fits;
    queued_v1 = c.queued_v1;
    posting_v1 = tt;
  }
  finish-Counted_at n a (some e) false c = record {
    adds_up = let q = c.adds_up in omega arith;
    fits = c.fits;
    queued_v1 = c.queued_v1;
    posting_v1 = tt;
  }

  step-Counted :
      (e : Event Entry is_phy_v1) (n : ℕ) (a : HarvesterAnnotator Entry is_phy_v1)
      → Counted n a
      → Counted (n + n_submitted e) (step Entry is_phy_v1 e a)
  unfolding step
  step-Counted (submits es) n a c = submit-Counted es n a c
  step-Counted gets n a c =
      subst (λ k. Counted k (get Entry is_phy_v1 a)) (omega arith)
        (get-Counted_at n a a.posting a.queue c)
  step-Counted (finishes r) n a c =
      subst (λ k. Counted k (finish Entry is_phy_v1 r a)) (omega arith)
        (finish-Counted_at n a a.posting r c)

  -- Whatever is submitted and however the posts end, every entry submitted so far is counted once,
  -- as sent, failed, dropped or skipped, or is queued or being posted; the queue keeps its limit,
  -- and only phy v1 entries are queued or posted.
  pub run-Counted :
      (es : List (Event Entry is_phy_v1)) (n : ℕ) (a : HarvesterAnnotator Entry is_phy_v1)
      → Counted n a
      → Counted (n + total_submitted es) (run Entry is_phy_v1 es a)
  unfolding run
  run-Counted [] n a c = subst (λ k. Counted k a) (omega arith) c
  run-Counted (e ∷ es) n a c =
      let a' = step Entry is_phy_v1 e a in
      let later = run-Counted es (n + n_submitted e) a' (step-Counted e n a c) in
      subst (λ k. Counted k (run Entry is_phy_v1 es a')) (omega arith) later
