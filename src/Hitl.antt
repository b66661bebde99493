-- ===== src/Hitl.antt =====
-- The HITL annotator of src/stream_web/hitl.py: `submit`, `stats`, the worker thread's `_run` and
-- the values of `annotation_data`. The queue is a list, oldest first; the entry that the thread has
-- taken and not yet finished is part of the state. Posting is a parameter: it returns or raises.
mod Tests
pub mod Counts
pub mod Annotation
use sdr_docker.Base.{
  ℕ, suc, ◌+◌, Bool, true, false, not, ◌&&◌, Option, none, some, List, [], ◌∷◌, ◌++◌, length, ltb,
  if◌then◌else◌,
}
use sdr_docker.Config.{hitl_queue_max}

module _ (Entry : Type 0) (is_phy_v1 : Entry → Bool) where
  pub record HarvesterAnnotator : Type 0 where
    pub queue : List Entry
    pub posting : Option Entry
    pub failing : Bool
    pub sent : ℕ
    pub dropped : ℕ
    pub failed : ℕ
    pub skipped : ℕ

  -- The body of `submit`'s loop.
  pub submit_one : Entry → HarvesterAnnotator → HarvesterAnnotator
  submit_one e a =
      if not (is_phy_v1 e)
      then record a { skipped = suc a.skipped }
      else if ltb (length a.queue) hitl_queue_max
      then record a { queue = a.queue ++ (e ∷ []) }
      else record a { dropped = suc a.dropped }

  pub submit : List Entry → HarvesterAnnotator → HarvesterAnnotator
  submit [] a = a
  submit (e ∷ es) a = submit es (submit_one e a)

  -- `self._queue.get()`, when the thread is waiting there and the queue is not empty.
  pub get : HarvesterAnnotator → HarvesterAnnotator
  get a = elim a.posting [
    | some e ↦ a
    | none ↦ elim a.queue [ [] ↦ a | e ∷ es ↦ record a { queue = es; posting = some e } ]
  ]

  -- The end of a `post`: `returned` is false when it raises.
  pub finish : Bool → HarvesterAnnotator → HarvesterAnnotator
  finish returned a = elim a.posting [
    | none ↦ a
    | some e ↦
        if returned
        then record a { posting = none; sent = suc a.sent; failing = false }
        else record a { posting = none; failed = suc a.failed; failing = true }
  ]

  pub record Stats : Type 0 where
    pub n_sent : ℕ
    pub n_failed : ℕ
    pub n_dropped : ℕ
    pub n_skipped : ℕ
    pub queued : ℕ
    pub alive : Bool
    pub ok : Bool

  pub stats : Bool → HarvesterAnnotator → Stats
  stats is_alive a = record {
    n_sent = a.sent;
    n_failed = a.failed;
    n_dropped = a.dropped;
    n_skipped = a.skipped;
    queued = length a.queue;
    alive = is_alive;
    ok = is_alive && not a.failing;
  }

  -- What the decode thread and the annotator's thread do, in some order.
  pub data Event : Type 0 where
    submits : List Entry → Event
    gets : Event
    finishes : Bool → Event

  pub step : Event → HarvesterAnnotator → HarvesterAnnotator
  step (submits es) a = submit es a
  step gets a = get a
  step (finishes returned) a = finish returned a

  pub run : List Event → HarvesterAnnotator → HarvesterAnnotator
  run [] a = a
  run (e ∷ es) a = run es (step e a)

  abbrev pub started : HarvesterAnnotator
  started = record {
    queue = [];
    posting = none;
    failing = false;
    sent = 0;
    dropped = 0;
    failed = 0;
    skipped = 0;
  }
