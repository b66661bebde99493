-- ===== src/Results/Feed.antt =====
-- The packet feed of src/stream_web/app.py: what a client that polls `/api/packets` receives.
use sdr_docker.Base.{
  ℕ, ◌+◌, ◌-◌, ◌≤◌, ◌≡◌, refl, sym, ap, ◌∙◌, Option, none, some, List, [], ◌∷◌, ◌++◌, append-nil,
  map, append_assoc, length, length-append, length-drop, arith, subst, true, All, All-append,
}
use sdr_docker.Config.{max_decode_history, packet_feed_max}
use sdr_docker.Results.{
  last_of, Carried, Result, State, entries_of, add_entries, merge_entries, drain, poll_packets,
  take_feed, all_encode, reset,
}

pub length-last_of-le {ℓ} : {A : Type ℓ} (n : ℕ) (xs : List A) → length (last_of n xs) ≤ n
unfolding last_of
length-last_of-le n xs = omega (arith, length-drop (length xs - n) xs)

last_of-all {ℓ} : {A : Type ℓ} (n : ℕ) (xs : List A) → length xs ≤ n → last_of n xs ≡ xs
unfolding last_of
last_of-all n xs h = let none_cut : length xs - n ≡ 0 = omega arith in rw none_cut refl

-- What the main process does to its state, in some order.
pub data Event (c : Carried) : Type 0 where
  drains : Result c → Event c
  injects : List (Carried.Entry c) → Event c
  polls : Event c
  resets : Event c

module _ (c : Carried) where
  unfoldable pub step : Event c → State c → List (Carried.Entry c) × State c
  step (drains r) s = ([], drain c r s)
  step (injects es) s = ([], add_entries c es s)
  step polls s = let (got, s') = poll_packets c s in (elim got [ none ↦ [] | some es ↦ es ], s')
  step resets s = ([], reset c s)

  -- All that the polls of a run of events return, in order, and the state after it.
  unfoldable pub run : List (Event c) → State c → List (Carried.Entry c) × State c
  run [] s = ([], s)
  run (e ∷ es) s = let (out, s') = step e s in let (rest, s'') = run es s' in (out ++ rest, s'')

  abbrev pub brought : Event c → List (Carried.Entry c)
  brought (drains r) = entries_of c r.decode_entries
  brought (injects es) = es
  brought polls = []
  brought resets = []

  abbrev pub all_brought : List (Event c) → List (Carried.Entry c)
  all_brought [] = []
  all_brought (e ∷ es) = brought e ++ all_brought es

  pub record IsBounded (s : State c) : Type 0 where
    pub history : length s.decode_results ≤ max_decode_history
    pub feed : length s.packet_feed ≤ packet_feed_max

  add_entries-IsBounded :
      (es : List (Carried.Entry c)) (s : State c) → IsBounded (add_entries c es s)
  unfolding add_entries
  add_entries-IsBounded es s = record {
    history = length-last_of-le max_decode_history (s.decode_results ++ es);
    feed = length-last_of-le packet_feed_max (s.packet_feed ++ es);
  }

  merge_entries-IsBounded :
      (o : Option (List (Carried.Entry c))) (s : State c)
      → IsBounded s
      → IsBounded (merge_entries c o s)
  unfolding merge_entries
  merge_entries-IsBounded none s b = b
  merge_entries-IsBounded (some []) s b = b
  merge_entries-IsBounded (some (x ∷ xs)) s b = add_entries-IsBounded (x ∷ xs) s

  step-IsBounded : (e : Event c) (s : State c) → IsBounded s → IsBounded ((step e s).1)
  unfolding step drain poll_packets take_feed reset
  step-IsBounded (drains r) s b =
      let m = merge_entries-IsBounded r.decode_entries s b in
      record { history = m.history; feed = m.feed }
  step-IsBounded (injects es) s b = add_entries-IsBounded es s
  step-IsBounded polls s b = record { history = b.history; feed = omega arith }
  step-IsBounded resets s b = record { history = omega arith; feed = b.feed }

  -- Whatever results are drained, entries injected, polls served and resets asked for, the decode
  -- history and the packet feed stay within their limits.
  pub run-IsBounded : (es : List (Event c)) (s : State c) → IsBounded s → IsBounded ((run es s).1)
  unfolding run
  run-IsBounded [] s b = b
  run-IsBounded (e ∷ es) s b = run-IsBounded es ((step e s).1) (step-IsBounded e s b)

  -- No more entries reach the feed between two polls than it holds: `k` are in it.
  abbrev pub NoOverflow : ℕ → List (Event c) → Type 0
  NoOverflow k [] = Unit
  NoOverflow k (polls ∷ es) = NoOverflow 0 es
  NoOverflow k (resets ∷ es) = NoOverflow k es
  NoOverflow k (injects xs ∷ es) = (k + length xs ≤ packet_feed_max) × NoOverflow (k + length xs) es
  NoOverflow k (drains r ∷ es) =
      let n = length (entries_of c r.decode_entries) in
      (k + n ≤ packet_feed_max) × NoOverflow (k + n) es

  pub add_entries-feed :
      (es : List (Carried.Entry c)) (s : State c)
      → length s.packet_feed + length es ≤ packet_feed_max
      → (add_entries c es s).packet_feed ≡ s.packet_feed ++ es
  unfolding add_entries
  add_entries-feed es s fits =
      last_of-all packet_feed_max (s.packet_feed ++ es)
        (omega (arith, length-append s.packet_feed es))

  merge_entries-feed :
      (o : Option (List (Carried.Entry c))) (s : State c)
      → length s.packet_feed + length (entries_of c o) ≤ packet_feed_max
      → (merge_entries c o s).packet_feed ≡ s.packet_feed ++ entries_of c o
  unfolding merge_entries
  merge_entries-feed none s fits = sym (append-nil s.packet_feed)
  merge_entries-feed (some []) s fits = sym (append-nil s.packet_feed)
  merge_entries-feed (some (x ∷ xs)) s fits = add_entries-feed (x ∷ xs) s fits

  -- Each of the entries can be made a line.
  abbrev pub Encode : List (Carried.Entry c) → Type 0
  Encode es = All (λ e. c.encodes e ≡ true) es

  all_encode_lem : (es : List (Carried.Entry c)) → Encode es → all_encode c es ≡ true
  unfolding all_encode
  all_encode_lem [] h = refl
  all_encode_lem (e ∷ es) (h, hs) = rw (h) (all_encode_lem es hs)

  -- An event's poll and the feed it leaves are the feed it met and what it brought.
  step-delivers :
      (e : Event c) (es : List (Event c)) (s : State c)
      → NoOverflow (length s.packet_feed) (e ∷ es)
      → Encode s.packet_feed
      → Encode (brought e)
      → (((step e s).0 ++ (step e s).1.packet_feed) ≡ s.packet_feed ++ brought e)
        × NoOverflow (length (step e s).1.packet_feed) es
        × Encode (step e s).1.packet_feed
  unfolding step drain poll_packets take_feed reset
  step-delivers (drains r) es s (fits, more) old new =
      let kept = merge_entries-feed r.decode_entries s fits in
      let n = length-append s.packet_feed (entries_of c r.decode_entries) in
      (
        kept,
        subst (λ k. NoOverflow k es) (sym (ap length kept ∙ n)) more,
        subst Encode (sym kept) (All-append _ s.packet_feed _ old new),
      )
  step-delivers (injects xs) es s (fits, more) old new =
      let kept = add_entries-feed xs s fits in
      let n = length-append s.packet_feed xs in
      (
        kept,
        subst (λ k. NoOverflow k es) (sym (ap length kept ∙ n)) more,
        subst Encode (sym kept) (All-append _ s.packet_feed _ old new),
      )
  step-delivers polls es s more old new = (rw (all_encode_lem s.packet_feed old) refl, more, tt)
  step-delivers resets es s more old new = (sym (append-nil s.packet_feed), more, old)

  All-append_split : (xs ys : List (Carried.Entry c)) → Encode (xs ++ ys) → Encode xs × Encode ys
  All-append_split [] ys h = (tt, h)
  All-append_split (x ∷ xs) ys (h, hs) =
      let (left, right) = All-append_split xs ys hs in ((h, left), right)

  -- While no more than a feed's worth of entries comes between two polls, and every entry of the
  -- feed and brought in can be encoded, what the polls return, followed by what is still in the feed,
  -- is what the feed held followed by every entry brought in: each once, in order, none lost.
  pub run-delivers :
      (es : List (Event c)) (s : State c)
      → NoOverflow (length s.packet_feed) es
      → Encode s.packet_feed
      → Encode (all_brought es)
      → (run es s).0 ++ (run es s).1.packet_feed ≡ s.packet_feed ++ all_brought es
  unfolding run
  run-delivers [] s fits old new = sym (append-nil s.packet_feed)
  run-delivers (e ∷ es) s fits old new =
      let (first, later) = All-append_split (brought e) (all_brought es) new in
      let (here, more, left) = step-delivers e es s fits old first in
      let there = run-delivers es ((step e s).1) more left later in
      append_assoc ((step e s).0) ((run es ((step e s).1)).0) _
      ∙ ap (λ q. (step e s).0 ++ q) there
      ∙ sym (append_assoc ((step e s).0) ((step e s).1.packet_feed) (all_brought es))
      ∙ ap (λ q. q ++ all_brought es) here
      ∙ append_assoc s.packet_feed (brought e) (all_brought es)

  abbrev pub all_drained : List (Result c) → List (Event c)
  all_drained rs = map drains rs

  NoOverflow-drained :
      (k : ℕ) (rs : List (Result c))
      → k + length (all_brought (all_drained rs)) ≤ packet_feed_max
      → NoOverflow k (all_drained rs ++ (polls ∷ []))
  NoOverflow-drained k [] h = tt
  NoOverflow-drained k (r ∷ rs) h =
      let n = length-append (entries_of c r.decode_entries) (all_brought (all_drained rs)) in
      (
        omega arith,
        NoOverflow-drained (k + length (entries_of c r.decode_entries)) rs (omega arith),
      )

  brought_then_polled :
      (rs : List (Result c))
      → all_brought (all_drained rs ++ (polls ∷ [])) ≡ all_brought (all_drained rs)
  brought_then_polled [] = refl
  brought_then_polled (r ∷ rs) =
      ap (λ q. entries_of c r.decode_entries ++ q) (brought_then_polled rs)

  feed_after_poll :
      (rs : List (Result c)) (s : State c)
      → (run (all_drained rs ++ (polls ∷ [])) s).1.packet_feed ≡ []
  unfolding run step poll_packets take_feed
  feed_after_poll [] s = refl
  feed_after_poll (r ∷ rs) s = feed_after_poll rs (drain c r s)

  -- The poll after results that the empty feed could hold, and that can be encoded, returns their
  -- entries.
  pub run-drained :
      (rs : List (Result c)) (s : State c)
      → s.packet_feed ≡ []
      → length (all_brought (all_drained rs)) ≤ packet_feed_max
      → Encode (all_brought (all_drained rs))
      → (run (all_drained rs ++ (polls ∷ [])) s).0 ≡ all_brought (all_drained rs)
  run-drained rs s e h encode =
      let es = all_drained rs ++ (polls ∷ []) in
      let fits : NoOverflow (length s.packet_feed) es =
        rw e (NoOverflow-drained 0 rs (omega arith)) in
      sym (append-nil (run es s).0)
      ∙ ap (λ q. (run es s).0 ++ q) (sym (feed_after_poll rs s))
      ∙ run-delivers es s fits (rw e tt) (rw (brought_then_polled rs) encode)
      ∙ ap (λ q. q ++ all_brought es) e
      ∙ brought_then_polled rs
