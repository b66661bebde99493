-- ===== src/Processor/Cycle/Delivery.antt =====
-- From the ring to the client: the cycles of src/stream_web/processor.py, and the results that they
-- post, drained and polled in src/stream_web/app.py.
use sdr_docker.Base.{
  ◌≤◌, ◌≡◌, refl, sym, ap, subst, ◌∙◌, Option, some, List, [], ◌∷◌, ◌++◌, length, ◌>>=◌, arith, All,
  true, append_assoc, append-nil,
}
use sdr_docker.Base.Floats.{FloatOps}
use sdr_docker.Config.{packet_feed_max}
use sdr_docker.Decoder.{Protocol, Attempt}
use sdr_docker.Timing.Stats.{Statistics}
use sdr_docker.Results.{Result, State}
use sdr_docker.Results.Feed.{Encode, polls, run, all_brought, all_drained, run-drained}
use sdr_docker.Processor.Dedup.{Recent}
use sdr_docker.Processor.Entries.{Entry, DescribeAll, payload_encodes}
use sdr_docker.Processor.Cycle.{cycle_carried, Tools, Observed, Loop, kept_packets, cycle}
use sdr_docker.Processor.Cycle.Sound.{IsSound, IsRead, cycle-Ran}

module _ (F : FloatOps) (p : Protocol) (st : Statistics F) (t : Tools F p st) where
  -- The loop of `processor_main`, on what each of its cycles observes.
  pub run_cycles : List (Observed F p st t) → Loop F p st t → Option (Loop F p st t)
  run_cycles [] l = some l
  run_cycles (o ∷ os) l = cycle F p st t o l >>= run_cycles os

  -- The packets that the cycles keep, one cycle after the other.
  abbrev pub all_kept : List (Observed F p st t) → Recent F → List (Attempt F)
  all_kept [] recent = []
  all_kept (o ∷ os) recent =
      let kept = kept_packets F p st t o recent in kept.0 ++ all_kept os kept.1

  DescribeAll-append :
      (pkts more : List (Attempt F)) (es rest : List (Entry F))
      → DescribeAll F p st t.round1 pkts es
      → DescribeAll F p st t.round1 more rest
      → DescribeAll F p st t.round1 (pkts ++ more) (es ++ rest)
  DescribeAll-append [] more [] rest h k = k
  DescribeAll-append [] more (e ∷ es) rest h k = absurd h
  DescribeAll-append (a ∷ pkts) more [] rest h k = absurd h
  DescribeAll-append (a ∷ pkts) more (e ∷ es) rest (h, hs) k =
      (h, DescribeAll-append pkts more es rest hs k)

  -- What a run of cycles did.
  pub record RanAll (os : List (Observed F p st t)) (l l' : Loop F p st t) : Type 1 where
    pub sound : IsSound F p st t l'
    pub new : List (Result (cycle_carried F p st t))
    pub posted : l'.results ≡ l.results ++ new
    pub described :
        DescribeAll F p st t.round1
          (all_kept os l.recent_decodes)
          (all_brought (cycle_carried F p st t) (all_drained (cycle_carried F p st t) new))

  pub run_cycles-RanAll :
      (os : List (Observed F p st t)) (l : Loop F p st t)
      → All (IsRead F p st t) os
      → IsSound F p st t l
      → (l' : Loop F p st t) × (run_cycles os l ≡ some l') × RanAll os l l'
  unfolding run_cycles
  run_cycles-RanAll [] l h s =
      (l, refl, record { sound = s; new = []; posted = sym (append-nil l.results); described = tt })
  run_cycles-RanAll (o ∷ os) l (h, hs) s =
      let (l1, e1, ran) = cycle-Ran F p st t o l h s in
      let (l2, e2, rest) = run_cycles-RanAll os l1 hs ran.sound in
      let later =
        all_brought (cycle_carried F p st t) (all_drained (cycle_carried F p st t) rest.new) in
      rw (e1, run_cycles)
        (
          l2,
          e2,
          record {
            sound = rest.sound;
            new = ran.result ∷ rest.new;
            posted =
                rest.posted
                ∙ ap (λ q. q ++ rest.new) ran.posted
                ∙ append_assoc l.results (ran.result ∷ []) rest.new;
            described = rw (ran.carried) (
                DescribeAll-append _ _ ran.entries later ran.described (
                  subst (λ r. DescribeAll F p st t.round1 (all_kept os r) later) ran.recent
                    rest.described));
          },
        )

  encodes_of_described :
      (pkts : List (Attempt F)) (es : List (Entry F))
      → DescribeAll F p st t.round1 pkts es
      → All (λ a. payload_encodes a.payload_val a.payload_bytes ≡ true) pkts
      → Encode (cycle_carried F p st t) es
  encodes_of_described [] [] d h = tt
  encodes_of_described [] (e ∷ es) d h = absurd d
  encodes_of_described (a ∷ pkts) [] d h = absurd d
  encodes_of_described (a ∷ pkts) (e ∷ es) (d, ds) (h, hs) =
      let (_, _, _, _, val, bytes) = d in
      (rw (sym val, sym bytes) h, encodes_of_described pkts es ds hs)

  length-DescribeAll :
      (pkts : List (Attempt F)) (es : List (Entry F))
      → DescribeAll F p st t.round1 pkts es
      → length es ≡ length pkts
  length-DescribeAll [] [] h = refl
  length-DescribeAll [] (e ∷ es) h = absurd h
  length-DescribeAll (a ∷ pkts) [] h = absurd h
  length-DescribeAll (a ∷ pkts) (e ∷ es) (h, hs) = omega (arith, length-DescribeAll pkts es hs)

  -- What the client receives that polls after the results of a run of cycles were drained.
  abbrev pub polled :
      List (Result (cycle_carried F p st t)) → State (cycle_carried F p st t) → List (Entry F)
  polled results s =
      (run (cycle_carried F p st t) (all_drained (cycle_carried F p st t) results ++ (polls ∷ []))
        s).0

  -- From the ring to the client: cycles that each read a ring, whose packets have their keys, and
  -- whose chipset name is empty or decodes, all run. If they keep no more packets than the feed
  -- holds, and the payload of each fits its bytes, then, drained in order into an empty feed, what
  -- they posted makes the next poll return a description of every packet they kept, once each and in
  -- order.
  pub run_cycles-polled :
      (os : List (Observed F p st t)) (l : Loop F p st t) (s : State (cycle_carried F p st t))
      → All (IsRead F p st t) os
      → IsSound F p st t l
      → s.packet_feed ≡ []
      → length (all_kept os l.recent_decodes) ≤ packet_feed_max
      → All
          (λ a. payload_encodes a.payload_val a.payload_bytes ≡ true)
          (all_kept os l.recent_decodes)
      → (l' : Loop F p st t) × (run_cycles os l ≡ some l')
        × ((new : List (Result (cycle_carried F p st t))) × (l'.results ≡ l.results ++ new)
            × DescribeAll F p st t.round1 (all_kept os l.recent_decodes) (polled new s))
  run_cycles-polled os l s h sound empty few fit =
      let (l', e, ran) = run_cycles-RanAll os l h sound in
      let n = length-DescribeAll _ _ ran.described in
      let encode = encodes_of_described _ _ ran.described fit in
      let got =
        subst (DescribeAll F p st t.round1 (all_kept os l.recent_decodes))
          (sym (run-drained (cycle_carried F p st t) ran.new s empty (omega arith) encode))
          ran.described in
      (l', e, (ran.new, ran.posted, got))
