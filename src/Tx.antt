-- ===== src/Tx.antt =====
-- The transmitter: `TXFlowgraph` of src/stream_web/gnuradio_tx.py and the `/api/tx` routes of
-- src/stream_web/app.py. The radio's own calls are left out; whether a file is there and GNU Radio
-- takes it, and whether its flowgraph starts, are parameters. A file is its path.
mod Tests
pub mod Routes
pub mod Requests
pub mod Files
use Prim.Native.String.{String}
use sdr_docker.Base.{Bool, true, false, Option, none, some, if◌then◌else◌, ℕ}
use sdr_docker.Base.Int.{ℤ}
use sdr_docker.Base.Floats.{FloatOps}

pub data Source : Type 0 where
  tone_source : Source
  file_source : String → (repeat : Bool) → Source

pub data TxMode : Type 0 where
  tone packet : TxMode

-- What is at a path: no file, one that `blocks.file_source` refuses, or one that it opens.
pub data TxFile : Type 0 where
  missing refused readable : TxFile

module _ (F : FloatOps) where
  open F use {Float, frac, lt}

  pub record TxFlowgraph : Type 0 where
    pub source_block : Option Source
    pub mode : Option TxMode
    pub freq_hz : ℤ
    pub attn_db : Float
    pub is_running : Bool

  -- `start` raises without a source, or when the flowgraph does not start: `none`.
  pub start : (starts : Bool) → TxFlowgraph → Option TxFlowgraph
  start starts fg = elim fg.source_block [
    | none ↦ none
    | some src ↦ if starts then some (record fg { is_running = true }) else none
  ]

  pub stop : TxFlowgraph → TxFlowgraph
  stop fg = record fg { is_running = false }

  -- Connect another source: a running flowgraph is stopped for it and started again. When it does
  -- not start again, the exception leaves it stopped, with the new source: the state is returned
  -- with false.
  pub switch : (starts : Bool) → Source → TxMode → TxFlowgraph → Bool × TxFlowgraph
  unfolding start stop
  switch starts src m fg =
      let stopped : TxFlowgraph = if fg.is_running then stop fg else fg in
      let ready : TxFlowgraph = record stopped { source_block = some src; mode = some m } in
      if fg.is_running
      then elim (start starts ready) [ none ↦ (false, ready) | some fg' ↦ (true, fg') ]
      else (true, ready)

  pub tone_mode : (starts : Bool) → TxFlowgraph → Bool × TxFlowgraph
  unfolding switch
  tone_mode starts fg = switch starts tone_source tone fg

  -- A missing file raises before anything is changed; one that is refused raises after the
  -- flowgraph was stopped and its blocks disconnected, and the old source and mode stay.
  pub packet_mode :
      TxFile → (starts : Bool) → String → (repeat : Bool) → TxFlowgraph → Bool × TxFlowgraph
  unfolding switch stop
  packet_mode missing starts path repeat fg = (false, fg)
  packet_mode refused starts path repeat fg = (false, if fg.is_running then stop fg else fg)
  packet_mode readable starts path repeat fg = switch starts (file_source path repeat) packet fg

  -- `max(0.0, min(89.75, attn_db))`
  pub set_attn : Float → TxFlowgraph → TxFlowgraph
  set_attn a fg =
      let low : Float = if lt a (frac 8975 100) then a else frac 8975 100 in
      record fg { attn_db = if lt (frac 0 1) low then low else frac 0 1 }

  pub set_frequency : ℤ → TxFlowgraph → TxFlowgraph
  set_frequency f fg = record fg { freq_hz = f }

  -- What `/api/tx/start` asks for; a packet request without a file name has none.
  pub data StartRequest : Type 0 where
    wants_tone : StartRequest
    wants_packet : Option String → (repeat : Bool) → StartRequest
    wants_other : StartRequest

  -- The reply's status, and the flowgraph after it.
  pub start_after : (starts : Bool) → Bool × TxFlowgraph → ℕ × TxFlowgraph
  unfolding start
  start_after starts (false, fg) = (500, fg)
  start_after starts (true, fg) =
      if fg.is_running
      then (200, fg)
      else elim (start starts fg) [ none ↦ (500, fg) | some fg' ↦ (200, fg') ]

  pub api_tx_start :
      (file_at : String → TxFile) (starts : Bool) → StartRequest → TxFlowgraph → ℕ × TxFlowgraph
  unfolding tone_mode packet_mode start_after
  api_tx_start file_at starts wants_tone fg = start_after starts (tone_mode starts fg)
  api_tx_start file_at starts (wants_packet none repeat) fg = (400, fg)
  api_tx_start file_at starts (wants_packet (some path) repeat) fg =
      start_after starts (packet_mode (file_at path) starts path repeat fg)
  api_tx_start file_at starts wants_other fg = (400, fg)

  pub api_tx_stop : TxFlowgraph → TxFlowgraph
  unfolding stop
  api_tx_stop fg = if fg.is_running then stop fg else fg
