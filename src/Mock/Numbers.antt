-- ===== src/Mock/Numbers.antt =====
-- The sequence numbers of the packets of `_mock_injector`, in src/stream_web/app.py.
use sdr_docker.Base.{
  ℕ, zero, suc, ◌+◌, ◌*◌, ◌%◌, ◌/◌, ◌==◌, ◌≤◌, ◌≡◌, refl, sym, ap, subst, ◌∙◌, some, List, [], ◌∷◌,
  ◌++◌, length, length-append, append_assoc, append-nil, if◌then◌else◌, arith,
}
use sdr_docker.Base.Floats.{FloatOps}
use sdr_docker.Config.{packet_feed_max}
use sdr_docker.Decoder.{Protocol}
use sdr_docker.Timing.Stats.{Statistics}
use sdr_docker.Results.{State, add_entries}
use sdr_docker.Results.Feed.{add_entries-feed}
use sdr_docker.Processor.Entries.{Entry}
use sdr_docker.Processor.Cycle.{Tools, cycle_carried}
use sdr_docker.Mock.{
  MockDevice, device_a, device_b, mock_devices, Counters, Clock, mock_entry, inject, mock_injector,
  next_device,
}

module _ (F : FloatOps) (p : Protocol) (st : Statistics F) (t : Tools F p st)
    (clock : ℕ → Clock F) where
  -- The device whose turn it is at packet `i`.
  abbrev pub device_at : ℕ → MockDevice
  device_at i = if i % 2 == 0 then device_a else device_b

  -- `n` packets from number `i` on: the devices in turn, each of which counts its own packets
  -- modulo 256.
  abbrev pub numbered : ℕ → ℕ → List (Entry F)
  numbered i zero = []
  numbered i (suc n) = mock_entry F (device_at i) ((i / 2) % 256) (clock i) ∷ numbered (suc i) n

  abbrev counters_at : ℕ → ℕ → Counters
  counters_at a b = (2_882_343_476, a) ∷ (3_735_928_559, b) ∷ []

  -- What `n` packets from number `i` on do to a state.
  abbrev Runs : ℕ → ℕ → List MockDevice → Counters → State (cycle_carried F p st t) → Type 0
  Runs n i upcoming counters s =
      length s.packet_feed + n ≤ packet_feed_max
      → (s' : State (cycle_carried F p st t)) × (inject F p st t clock n i upcoming counters s
          ≡ some s')
        × (s'.packet_feed ≡ s.packet_feed ++ numbered i n)

  -- An entry that is added, before the others.
  add_first :
      (i n : ℕ) (e : Entry F) (s : State (cycle_carried F p st t)) (upcoming : List MockDevice)
      (counters : Counters)
      → length s.packet_feed + suc n ≤ packet_feed_max
      → e ≡ mock_entry F (device_at i) ((i / 2) % 256) (clock i)
      → Runs n (suc i) upcoming counters (add_entries (cycle_carried F p st t) (e ∷ []) s)
      → (s' : State (cycle_carried F p st t)) × (inject F p st t clock n
            (suc i)
            upcoming
            counters
            (add_entries (cycle_carried F p st t) (e ∷ []) s)
          ≡ some s')
        × (s'.packet_feed ≡ s.packet_feed ++ numbered i (suc n))
  add_first i n e s upcoming counters fits is_it rest =
      let added = add_entries-feed (cycle_carried F p st t) (e ∷ []) s (omega arith) in
      let count = ap length added ∙ length-append s.packet_feed (e ∷ []) in
      let (s', e1, e2) = rest (omega arith) in
      (
        s',
        e1,
        e2
            ∙ ap (λ l. l ++ numbered (suc i) n) added
            ∙ append_assoc s.packet_feed (e ∷ []) (numbered (suc i) n)
            ∙ ap (λ x. s.packet_feed ++ (x ∷ numbered (suc i) n)) is_it,
      )

  inject-Runs :
      (n : ℕ)
      → ((i k : ℕ) (s : State (cycle_carried F p st t))
          → i ≡ k * 2
          → Runs n i [] (counters_at (k % 256) (k % 256)) s)
        × ((i k : ℕ) (s : State (cycle_carried F p st t))
            → i ≡ k * 2 + 1
            → Runs n i (device_b ∷ []) (counters_at ((k + 1) % 256) (k % 256)) s)
  unfolding inject next_device
  inject-Runs zero = (
    (λ i k s h fits. (s, refl, sym (append-nil s.packet_feed))),
    (λ i k s h fits. (s, refl, sym (append-nil s.packet_feed))),
  )
  inject-Runs (suc n) =
      let (even, odd) = inject-Runs n in
      let after = λ (e : Entry F) (s : State (cycle_carried F p st t)).
        add_entries (cycle_carried F p st t) (e ∷ []) s in
      (
        (λ i k s h fits.
            let e = mock_entry F device_a (k % 256) (clock i) in
            let even_i : i % 2 ≡ 0 = omega arith in
            let half : i / 2 ≡ k = omega arith in
            let up : (k + 1) % 256 ≡ (k % 256 + 1) % 256 = omega arith in
            add_first i n e s (device_b ∷ []) (counters_at ((k % 256 + 1) % 256) (k % 256)) fits
              (rw (even_i, half) refl)
              (subst (λ c. Runs n (suc i) (device_b ∷ []) (counters_at c (k % 256)) (after e s)) up
                (odd (suc i) k (after e s) (omega arith)))),
        (λ i k s h fits.
            let e = mock_entry F device_b (k % 256) (clock i) in
            let odd_i : i % 2 ≡ 1 = omega arith in
            let half : i / 2 ≡ k = omega arith in
            let up : (k + 1) % 256 ≡ (k % 256 + 1) % 256 = omega arith in
            add_first i n e s [] (counters_at ((k + 1) % 256) ((k % 256 + 1) % 256)) fits
              (rw (odd_i, half) refl)
              (subst (λ c. Runs n (suc i) [] (counters_at ((k + 1) % 256) c) (after e s)) up
                (even (suc i) (k + 1) (after e s) (omega arith)))),
      )

  -- The injector never raises, and while the feed has room, its packets are in the feed in the
  -- order of the devices, and the sequence numbers of each device go up by one from 0 and start
  -- again after 255.
  pub mock_injector-numbers :
      (n : ℕ) (s : State (cycle_carried F p st t))
      → s.packet_feed ≡ []
      → n ≤ packet_feed_max
      → (s' : State (cycle_carried F p st t)) × (mock_injector F p st t clock n s ≡ some s')
        × (s'.packet_feed ≡ numbered 0 n)
  unfolding mock_injector mock_devices inject next_device
  mock_injector-numbers zero s empty few = (s, refl, empty)
  mock_injector-numbers (suc n) s empty few =
      let (s', e1, e2) =
        (inject-Runs (suc n)).0 0 0 s refl (let none_yet = ap length empty in omega arith) in
      (s', e1, e2 ∙ ap (λ l. l ++ numbered 0 (suc n)) empty)
