-- ===== src/Processor/Cycle/Sound.antt =====
-- What a cycle of src/stream_web/processor.py keeps and gives.
use Prim.Native.String.{String}
use sdr_docker.Base.{
  ℕ, ◌-◌, ◌==◌, ◌≤◌, ◌≡◌, refl, sym, subst, Bool, true, false, Option, none, some, List, [], ◌∷◌,
  ◌++◌, length, take, drop, ltb, if◌then◌else◌, arith, All, All-append, All-drop, length-append,
  length-drop, length-take, inl, inr, Bool-cases, ◌⊎◌, IsThere,
}
use sdr_docker.Base.Floats.{FloatOps}
use sdr_docker.Config.{
  iq_buffer_size, decode_samples, spec_chunk_samples, max_spec_chunks, td_samples, td_pre_roll,
}
use sdr_docker.Decoder.{Protocol, Attempt, IsComplete}
use sdr_docker.IqRing.{Ring, extract_last}
use sdr_docker.IqRing.Window.{window, IsValid as RingIsValid, length-window}
use sdr_docker.IqRing.Reads.{extract_last-window}
use sdr_docker.Timing.Stats.{Statistics}
use sdr_docker.TdCapture.{Target, TdCaptureState, Capture}
use sdr_docker.TdCapture.Invariant.{IsValid, ShownBy, select_td_capture-Served}
use sdr_docker.Results.{last_of, Result}
use sdr_docker.Results.Feed.{length-last_of-le}
use sdr_docker.Processor.Dedup.{Recent, dedupe-All}
use sdr_docker.Processor.History.{Detection, update_history-IsThere}
use sdr_docker.Processor.Entries.{Entry, entries_of-IsThere, DescribeAll, entries_of-DescribeAll}
use sdr_docker.Processor.Cycle.{
  cycle_carried, submit, Tools, Observed, TdJob, Loop, next_chunks, decode_chunk, decoded,
  kept_packets, picture, td_decision, td_job_of, next_td_jobs, result_of, cycle, chipset_read,
  decode_info_of,
}

length-submit-le {ℓ} :
    {J : Type ℓ} (late : Bool) (job : J) (jobs : List J)
    → length jobs ≤ 1
    → length (submit late job jobs) ≤ 1
unfolding submit
length-submit-le late job jobs h =
    let left = (if late then jobs else drop 1 jobs) in
    elim (Bool-cases (ltb (length left) 1)) [
      | inl room ↦ rw (room) (ground (arith, length-append left (job ∷ [])))
      | inr full ↦ rw (full) (elim late as (λ b. length (if b then jobs else drop 1 jobs) ≤ 1) [
        | true ↦ h
        | false ↦ omega (arith, length-drop 1 jobs)
      ])
    ]

submit-All {ℓ κ} :
    {J : Type ℓ} (P : J → Type κ) (late : Bool) (job : J) (jobs : List J)
    → All P jobs
    → P job
    → All P (submit late job jobs)
unfolding submit
submit-All P late job jobs hs h =
    let left = (if late then jobs else drop 1 jobs) in
    let held : All P left = elim late as (λ b. All P (if b then jobs else drop 1 jobs)) [
      | true ↦ hs
      | false ↦ All-drop P 1 jobs hs
    ] in
    elim (Bool-cases (ltb (length left) 1)) [
      | inl room ↦ rw (room) (All-append P left (job ∷ []) held (h, tt))
      | inr full ↦ rw (full) held
    ]

module _ (F : FloatOps) (p : Protocol) (st : Statistics F) (t : Tools F p st) where
  open t use {Sample, Chunk, above, round1}

  -- A request that the renderer can draw: the whole window, with the packet after at most the
  -- pre-roll.
  abbrev pub IsWhole : TdJob F p st t → Type 0
  IsWhole job =
      (length job.td_seg ≡ td_samples)
      × ((k : ℕ) × (job.decode_info.start_sample ≡ some k) × (k ≤ td_pre_roll))

  -- What holds of the loop's variables between two cycles.
  pub record IsSound (l : Loop F p st t) : Type 0 where
    pub chunks : length l.spec_chunks ≤ max_spec_chunks
    pub td : IsValid F p l.td_state.target l.td_state
    pub one_td_job : length l.td_jobs ≤ 1
    pub whole : All IsWhole l.td_jobs
    pub one_spectrum_job : length l.spectrum_jobs ≤ 1
    pub few : All (λ job. length job.0 ≤ max_spec_chunks) l.spectrum_jobs

  -- The buffer and the write index that a cycle reads are a ring's, what the decoder finds in it has
  -- its keys, and the chipset name of the settings is empty or decodes.
  pub record IsRead (o : Observed F p st t) : Type 0 where
    pub ring :
        RingIsValid iq_buffer_size (record { iq_buffer = o.decode_buffer; buf_write_idx = o.widx })
    pub complete : All (IsComplete F) (decoded F p st t o).0
    pub name : (o.td_chipset ≡ []) ⊎ IsThere (t.decode_utf8 o.td_chipset)

  chipset_read-IsThere :
      (bytes : List ℕ)
      → (bytes ≡ []) ⊎ IsThere (t.decode_utf8 bytes)
      → IsThere (chipset_read F p st t bytes)
  unfolding chipset_read
  chipset_read-IsThere [] h = (none, refl)
  chipset_read-IsThere (b ∷ bs) (inl e) = cc
  chipset_read-IsThere (b ∷ bs) (inr (name, e)) = rw (e) (some name, refl)

  next_chunks-le :
      (o : Observed F p st t) (chunks : List Chunk)
      → length chunks ≤ max_spec_chunks
      → length (next_chunks F p st t o chunks) ≤ max_spec_chunks
  unfolding next_chunks
  next_chunks-le o chunks h =
      elim (t.compute_spec_chunk
          (extract_last iq_buffer_size o.spec_buffer o.widx spec_chunk_samples))
        as (λ c.
          length (elim c [ none ↦ chunks | some c ↦ last_of max_spec_chunks (chunks ++ (c ∷ [])) ])
          ≤ max_spec_chunks) [
            | none ↦ h
            | some c ↦ length-last_of-le max_spec_chunks (chunks ++ (c ∷ []))
          ]

  -- The decode chunk is the newest part of the ring.
  pub decode_chunk-window :
      (o : Observed F p st t)
      → IsRead o
      → decode_chunk F p st t o
        ≡ drop
            (iq_buffer_size - decode_samples)
            (window (record { iq_buffer = o.decode_buffer; buf_write_idx = o.widx }))
  unfolding decode_chunk
  decode_chunk-window o h =
      extract_last-window iq_buffer_size _ decode_samples h.ring (omega arith) (omega arith)

  length-decode_chunk :
      (o : Observed F p st t) → IsRead o → length (decode_chunk F p st t o) ≡ decode_samples
  length-decode_chunk o h =
      let ring : Ring Sample = record { iq_buffer = o.decode_buffer; buf_write_idx = o.widx } in
      rw (decode_chunk-window o h) (
        omega (
          arith,
          length-drop (iq_buffer_size - decode_samples) (window ring),
          length-window iq_buffer_size ring h.ring,
        ))

  td_job_of-IsWhole :
      (o : Observed F p st t) (target : Option Target) (s : TdCaptureState F p) (cap : Capture F p)
      → ShownBy F p (length (decode_chunk F p st t o)) target s (some cap)
      → IsWhole (td_job_of F p st t o cap)
  unfolding td_job_of decode_info_of
  td_job_of-IsWhole o target s cap (fits, h1, h2, h3, h4, kept) = (
    omega (
      arith,
      length-drop cap.td_start (take cap.td_end (decode_chunk F p st t o)),
      length-take cap.td_end (decode_chunk F p st t o),
    ),
    (_, refl, omega arith),
  )

  picture-le :
      (o : Observed F p st t) (chunks : List Chunk) (history : List (Detection F))
      (jobs : List (List Chunk × ℕ))
      → length chunks ≤ max_spec_chunks
      → length jobs ≤ 1
      → All (λ job. length job.0 ≤ max_spec_chunks) jobs
      → let jobs' = (picture F p st t o chunks history jobs).1 in
        (length jobs' ≤ 1) × All (λ job. length job.0 ≤ max_spec_chunks) jobs'
  unfolding picture
  picture-le o chunks history jobs hc h hs = elim (Bool-cases (o.view_mode == 1)) [
    | inl spectrum ↦ rw (spectrum) (
      length-submit-le o.spectrum_late (chunks, o.lo_freq) jobs h,
      submit-All (λ job. length job.0 ≤ max_spec_chunks) o.spectrum_late (chunks, o.lo_freq) jobs hs
          hc,
    )
    | inr spectrogram ↦ rw (spectrogram) (h, hs)
  ]

  next_td_jobs-IsWhole :
      (o : Observed F p st t) (target : Option Target) (s : TdCaptureState F p)
      (cap : Option (Capture F p)) (jobs : List (TdJob F p st t))
      → ShownBy F p (length (decode_chunk F p st t o)) target s cap
      → length jobs ≤ 1
      → All IsWhole jobs
      → let jobs' = next_td_jobs F p st t o cap jobs in (length jobs' ≤ 1) × All IsWhole jobs'
  unfolding next_td_jobs
  next_td_jobs-IsWhole o target s none jobs h one whole = (one, whole)
  next_td_jobs-IsWhole o target s (some cap) jobs h one whole = (
    length-submit-le o.td_late _ jobs one,
    submit-All IsWhole o.td_late _ jobs whole (td_job_of-IsWhole o target s cap h),
  )

  -- The decision of a cycle: the next state is valid for its own target, and what is captured is
  -- shown by it.
  td_decision-Served :
      (o : Observed F p st t) (chip : Option String) (pkts : List (Attempt F))
      (s : TdCaptureState F p)
      → IsValid F p s.target s
      → let r = td_decision F p st t o chip pkts s in
        IsValid F p r.0.target r.0
        × ShownBy F p (length (decode_chunk F p st t o)) r.0.target r.0 r.1.capture
  unfolding td_decision
  td_decision-Served o chip pkts s v =
      let (valid, shown) = select_td_capture-Served F p s o.td_running _ _ _ v in
      let e = sym valid.same in
      let r = td_decision F p st t o chip pkts s in
      (
        subst (λ g. IsValid F p g r.0) e valid,
        subst (λ g. ShownBy F p (length (decode_chunk F p st t o)) g r.0 r.1.capture) e shown,
      )

  kept_packets-All :
      (P : Attempt F → Type 0) (o : Observed F p st t) (recent : Recent F)
      → All P (decoded F p st t o).0
      → All P (kept_packets F p st t o recent).0
  unfolding kept_packets
  kept_packets-All P o recent h = dedupe-All F P o.t0 _ _ h

  -- What a cycle did: the variables stay sound, and the result that it added carries the packets
  -- that were kept and an entry for each of them, in order.
  pub record Ran (o : Observed F p st t) (l l' : Loop F p st t) : Type 1 where
    pub sound : IsSound l'
    pub recent : l'.recent_decodes ≡ (kept_packets F p st t o l.recent_decodes).1
    pub result : Result (cycle_carried F p st t)
    pub posted : l'.results ≡ l.results ++ (result ∷ [])
    pub entries : List (Entry F)
    pub carried : result.decode_entries ≡ some entries
    pub detections : result.detections ≡ some (kept_packets F p st t o l.recent_decodes).0
    pub described : DescribeAll F p st round1 (kept_packets F p st t o l.recent_decodes).0 entries

  -- A cycle that reads a ring, whose packets have their keys, and whose chipset name is empty or
  -- decodes, does not raise: from sound variables it goes on with sound ones, and posts a result that
  -- describes each packet it kept.
  pub cycle-Ran :
      (o : Observed F p st t) (l : Loop F p st t)
      → IsRead o
      → IsSound l
      → (l' : Loop F p st t) × (cycle F p st t o l ≡ some l') × Ran o l l'
  unfolding cycle result_of
  cycle-Ran o l h s =
      let kept = (kept_packets F p st t o l.recent_decodes).0 in
      let complete = kept_packets-All (IsComplete F) o l.recent_decodes h.complete in
      let (history, e1) = update_history-IsThere F l.detection_history kept complete in
      let (entries, e2) =
        entries_of-IsThere F p st round1 o.clocks (above (decode_chunk F p st t o)) kept complete in
      let chunks = next_chunks-le o l.spec_chunks s.chunks in
      let drawn = picture-le o _ history l.spectrum_jobs chunks s.one_spectrum_job s.few in
      let (chip, e3) = chipset_read-IsThere o.td_chipset h.name in
      let (td, shown) = td_decision-Served o chip kept l.td_state s.td in
      let r = td_decision F p st t o chip kept l.td_state in
      let jobs =
        next_td_jobs-IsWhole o r.0.target r.0 r.1.capture l.td_jobs shown s.one_td_job s.whole in
      rw (e1, e2, e3, cycle)
        (
          _,
          refl,
          record {
            sound = record {
              chunks = chunks;
              td = td;
              one_td_job = jobs.0;
              whole = jobs.1;
              one_spectrum_job = drawn.0;
              few = drawn.1;
            };
            recent = refl;
            result = _;
            posted = refl;
            entries = entries;
            carried = refl;
            detections = refl;
            described = entries_of-DescribeAll F p st round1 o.clocks _ kept e2;
          },
        )
