-- ===== src/Processor/Cycle.antt =====
-- One cycle of `processor_main` in src/stream_web/processor.py, from the write index that it reads
-- to the result that it puts on the queue. The decoder, the spectra, the pictures and the
-- formatting of a status line are parameters. Times that are only measured to be reported are part
-- of what a cycle observes.
pub mod Sound
pub mod Delivery
pub mod Tests
use Prim.Native.String.{String}
use sdr_docker.Base.{
  ℕ, ◌+◌, ◌-◌, ◌==◌, Bool, true, false, not, Option, none, some, List, [], ◌∷◌, ◌++◌, length, take,
  drop, ltb, if◌then◌else◌, ◌>>=◌,
}
use sdr_docker.Base.Int.{ℤ, pos}
use sdr_docker.Base.Floats.{FloatOps, is_zero}
use sdr_docker.Config.{
  sample_rate, iq_buffer_size, decode_samples, spec_chunk_samples, max_spec_chunks,
}
use sdr_docker.Decoder.{Protocol, Attempt}
use sdr_docker.IqRing.{back, extract_last}
use sdr_docker.Timing.Stats.{Statistics}
use sdr_docker.TdCapture.{
  TdCaptureState, TdCaptureResult, Cycle, Capture, Hit, Status, select_td_capture,
}
use sdr_docker.Results.{last_of, Carried, Result}
use sdr_docker.Processor.Drops.{drop_sample_offsets, annotate_all}
use sdr_docker.Processor.Dedup.{Recent, purge, dedupe}
use sdr_docker.Processor.History.{Detection, update_history}
use sdr_docker.Processor.Entries.{Entry, Clocks, entries_of, payload_encodes}

-- `_submit_td_render` and `_submit_spectrum_render`: a pending request makes way, unless it was put
-- so lately that `get_nowait` does not see it yet; then the queue is full and the new one goes.
pub submit {ℓ} : {J : Type ℓ} → (late : Bool) → J → List J → List J
submit late job jobs =
    let left = (if late then jobs else drop 1 jobs) in
    if ltb (length left) 1 then left ++ (job ∷ []) else left

module _ (F : FloatOps) (p : Protocol) (st : Statistics F) where
  open F use {Float, frac, of_int, times, over}

  pub record Tools : Type 1 where
    pub Sample : Type 0
    pub Chunk : Type 0
    pub ChipsetStats : Type 0
    -- `none` where the call raises
    pub compute_spec_chunk : List Sample → Option Chunk
    -- the packets and the attempts
    pub decode_signal : List Sample → Option (List (Attempt F) × List (Attempt F))
    pub render_spec_image : List Chunk → List (Detection F) → Option (List ℕ)
    -- the thresholded magnitude of `build_crossings`
    pub above : List Sample → List Bool
    pub round1 : Float → Float
    pub status_text : Status F p → List ℕ
    -- `bytes.decode`; `none` where the bytes are not UTF-8
    pub decode_utf8 : List ℕ → Option String
    pub has_chipsets : ChipsetStats → Bool
    pub no_chipsets : ChipsetStats

  pub record CycleStats : Type 0 where
    pub process_time_ms : Float
    pub n_detections : ℕ
    pub timestamp : String
    pub t_spec_ms : Float
    pub t_render_ms : Float
    pub t_decode_ms : Float
    pub rx_gain_db : Float
    pub rx_peak_pct : Float
    pub rx_overflows : ℕ

  module _ (t : Tools) where
    open t use {
      Sample, Chunk, ChipsetStats, compute_spec_chunk, decode_signal, render_spec_image, above,
      round1, status_text, decode_utf8,
    }

    -- What a cycle reads: the write index, the buffer as each of the two copies sees it, the drop
    -- positions in the queue, the clocks, the measured times and the settings.
    pub record Observed : Type 0 where
      pub widx : ℕ
      pub spec_buffer : List Sample
      pub decode_buffer : List Sample
      pub drop_positions : List ℕ
      pub t0 : Float
      pub clocks : Clocks F
      pub dt_ms : Float
      pub spec_ms : Float
      pub dec_ms : Float
      pub render_ms : Float
      pub rx_gain : Float
      pub rx_peak_frac : Float
      pub rx_overflows : ℕ
      pub chipset_stats : ChipsetStats
      pub view_mode : ℕ
      pub lo_freq : ℕ
      pub td_running : Bool
      pub td_has_ntw : Bool
      pub td_ntw_id : ℤ
      -- the bytes of `td_chipset_arr.value`
      pub td_chipset : List ℕ
      pub td_zoom_n_syms : ℕ
      pub td_late : Bool
      pub spectrum_late : Bool

    pub record TdJob : Type 0 where
      pub td_seg : List Sample
      pub decode_info : Attempt F
      pub n_syms : ℕ

    -- What is carried to the main process.
    abbrev pub cycle_carried : Carried
    cycle_carried = record {
      Entry = Entry F;
      Detection = Attempt F;
      Stats = CycleStats;
      ChipsetStats = ChipsetStats;
      Info = Attempt F;
      Segment = List Sample;
      has_chipsets = t.has_chipsets;
      no_chipsets = t.no_chipsets;
      zero_stats = λ s. record s {
        process_time_ms = of_int (pos 0);
        n_detections = 0;
        timestamp = "";
        t_spec_ms = of_int (pos 0);
        t_render_ms = of_int (pos 0);
        t_decode_ms = of_int (pos 0);
      };
      encodes = λ e. payload_encodes e.payload_val e.payload_bytes;
    }

    pub record Loop : Type 0 where
      pub spec_chunks : List Chunk
      pub detection_history : List (Detection F)
      pub recent_decodes : Recent F
      pub td_state : TdCaptureState F p
      pub td_jobs : List TdJob
      pub spectrum_jobs : List (List Chunk × ℕ)
      pub results : List (Result cycle_carried)

    -- 1) A chunk of the spectrogram, if it can be computed; the deque keeps the newest.
    pub next_chunks : Observed → List Chunk → List Chunk
    next_chunks o chunks =
        elim (compute_spec_chunk
          (extract_last iq_buffer_size o.spec_buffer o.widx spec_chunk_samples)) [
            | none ↦ chunks
            | some c ↦ last_of max_spec_chunks (chunks ++ (c ∷ []))
          ]

    pub decode_chunk : Observed → List Sample
    decode_chunk o = extract_last iq_buffer_size o.decode_buffer o.widx decode_samples

    -- 2) Decode; where the decoder raises, nothing was found.
    pub decoded : Observed → List (Attempt F) × List (Attempt F)
    unfolding decode_chunk
    decoded o = elim (decode_signal (decode_chunk o)) [ none ↦ ([], []) | some r ↦ r ]

    pub kept_packets : Observed → Recent F → List (Attempt F) × Recent F
    unfolding decoded
    kept_packets o recent = dedupe F o.t0 (purge F o.t0 recent) (decoded o).0

    pub decode_start : Observed → ℕ
    decode_start o = back iq_buffer_size o.widx decode_samples

    pub annotated : Observed → List (Attempt F)
    unfolding decoded decode_start
    annotated o =
        annotate_all F (drop_sample_offsets iq_buffer_size (decode_start o) o.widx o.drop_positions)
          (decoded o).1

    -- 4) The picture of this cycle, and the requests for the spectrum renderer.
    pub picture :
        Observed
        → List Chunk
        → List (Detection F)
        → List (List Chunk × ℕ)
        → List ℕ × List (List Chunk × ℕ)
    unfolding submit
    picture o chunks history jobs =
        if o.view_mode == 1
        then ([], submit o.spectrum_late (chunks, o.lo_freq) jobs)
        else (elim (render_spec_image chunks history) [ none ↦ [] | some img ↦ img ], jobs)

    -- The chipset name of the settings: no bytes are no name, and others are decoded strictly.
    pub chipset_read : List ℕ → Option (Option String)
    chipset_read [] = some none
    chipset_read (b ∷ bs) = decode_utf8 (b ∷ bs) >>= λ name. some (some name)

    -- 5) The decision on the time-domain plot.
    pub td_decision :
        Observed
        → Option String
        → List (Attempt F)
        → TdCaptureState F p
        → TdCaptureState F p × TdCaptureResult F p
    unfolding annotated decode_start decode_chunk
    td_decision o chip packets s =
        select_td_capture F p s o.td_running chip (if o.td_has_ntw then some o.td_ntw_id else none)
          (record {
            attempts = annotated o;
            packets = packets;
            decode_start = decode_start o;
            buf_len = iq_buffer_size;
            chunk_len = length (decode_chunk o);
            now = o.t0;
          })

    -- The positions are those of this chunk, not those of the cycle in which the hit was found.
    pub decode_info_of : Capture F p → Attempt F
    decode_info_of cap =
        let a = cap.td_hit.attempt in
        record a {
          reason = some (elim a.reason [ none ↦ "unknown" | some r ↦ r ]);
          start_sample = some (cap.td_center - cap.td_start);
          time_s = some (over (of_int (pos cap.td_center)) (of_int (pos sample_rate)));
          energy_db = elim a.energy_db [
            | none ↦ a.total_energy_db
            | some e ↦ if is_zero F e then a.total_energy_db else some e
          ];
        }

    pub td_job_of : Observed → Capture F p → TdJob
    unfolding decode_info_of decode_chunk
    td_job_of o cap = record {
      td_seg = drop cap.td_start (take cap.td_end (decode_chunk o));
      decode_info = decode_info_of cap;
      n_syms = o.td_zoom_n_syms;
    }

    pub next_td_jobs : Observed → Option (Capture F p) → List TdJob → List TdJob
    unfolding submit td_job_of
    next_td_jobs o none jobs = jobs
    next_td_jobs o (some cap) jobs = submit o.td_late (td_job_of o cap) jobs

    pub stats_of : Observed → ℕ → CycleStats
    stats_of o n = record {
      process_time_ms = round1 o.dt_ms;
      n_detections = n;
      timestamp = o.clocks.ts;
      t_spec_ms = round1 o.spec_ms;
      t_render_ms = round1 o.render_ms;
      t_decode_ms = round1 o.dec_ms;
      rx_gain_db = round1 o.rx_gain;
      rx_peak_pct = round1 (times o.rx_peak_frac (frac 100 1));
      rx_overflows = o.rx_overflows;
    }

    pub result_of :
        Observed
        → List ℕ
        → List (Attempt F)
        → List (Entry F)
        → Option (Status F p)
        → Result cycle_carried
    unfolding stats_of
    result_of o img packets entries status = record {
      img = some img;
      detections = some packets;
      decode_entries = some entries;
      stats = some (stats_of o (length packets));
      chipset_stats = some o.chipset_stats;
      td_img = none;
      td_zoom_img = none;
      td_status = elim status [ none ↦ none | some s ↦ some (status_text s) ];
      td_decode_info = none;
      td_iq_segment = none;
    }

    -- The cycle. It raises where a kept packet lacks a key, and where the chipset name does not
    -- decode: `none`.
    pub cycle : Observed → Loop → Option Loop
    unfolding next_chunks kept_packets picture td_decision next_td_jobs result_of decode_chunk
        chipset_read
    cycle o l = do
      let chunks = next_chunks o l.spec_chunks
      let kept = kept_packets o l.recent_decodes
      history ← update_history F l.detection_history kept.0
      let drawn = picture o chunks history l.spectrum_jobs
      entries ← entries_of F p st round1 o.clocks (above (decode_chunk o)) kept.0
      chip ← chipset_read o.td_chipset
      let td = td_decision o chip kept.0 l.td_state
      some (record {
        spec_chunks = chunks;
        detection_history = history;
        recent_decodes = kept.1;
        td_state = td.0;
        td_jobs = next_td_jobs o td.1.capture l.td_jobs;
        spectrum_jobs = drawn.1;
        results = l.results ++ (result_of o drawn.0 kept.0 entries td.1.status ∷ []);
      })
