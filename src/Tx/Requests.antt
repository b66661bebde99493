-- ===== src/Tx/Requests.antt =====
-- The `/api/tx` routes of src/stream_web/app.py that drive the transmitter, one after another: the
-- flowgraph that is opened at the first request that needs it, start, stop, frequency, attenuation and
-- status. Whether the device opens, takes a setting or starts is the environment of a request.
pub mod Steps
pub mod Served
use Prim.Native.String.{String}
use sdr_docker.Base.{ℕ, ◌==◌, Bool, false, Option, none, some, List, [], ◌∷◌, if◌then◌else◌}
use sdr_docker.Base.Int.{ℤ, pos}
use sdr_docker.Base.Floats.{FloatOps}
use sdr_docker.Config.{center_freq_hz}
use sdr_docker.Tx.{
  TxFile, TxMode, TxFlowgraph, StartRequest, api_tx_start, api_tx_stop, set_frequency, set_attn,
}

-- A value of a request's body: the key is missing, `int` or `float` does not take it, or it is read.
pub data Given {ℓ} (A : Type ℓ) : Type ℓ where
  absent unreadable : Given A
  given : A → Given A

pub record Env : Type 0 where
  pub opens : Bool
  pub takes : Bool
  pub starts : Bool
  pub file_at : String → TxFile

module _ (F : FloatOps) where
  open F use {Float, frac}

  -- Of freq and attn, `none` is a GET.
  pub data Request : Type 0 where
    asks_start : StartRequest F → Request
    asks_stop asks_status : Request
    asks_freq : Option (Given ℤ) → Request
    asks_attn : Option (Given Float) → Request

  pub record TxStatus : Type 0 where
    pub running : Bool
    pub mode : Option TxMode
    pub freq_hz : ℤ
    pub attn_db : Float

  -- A reply of status 200, or the status of an error.
  pub data Reply : Type 0 where
    error : ℕ → Reply
    tells_running : Bool → Reply
    tells_freq : ℤ → Reply
    tells_attn : Float → Reply
    tells_status : TxStatus → Reply

  abbrev pub default_freq_hz : ℤ
  default_freq_hz = pos center_freq_hz

  abbrev pub default_attn_db : Float
  default_attn_db = frac 30 1

  -- `TXFlowgraph()`.
  pub new_flowgraph : TxFlowgraph F
  new_flowgraph = record {
    source_block = none;
    mode = none;
    freq_hz = default_freq_hz;
    attn_db = default_attn_db;
    is_running = false;
  }

  pub status_dict : TxFlowgraph F → TxStatus
  status_dict fg = record {
    running = fg.is_running;
    mode = fg.mode;
    freq_hz = fg.freq_hz;
    attn_db = fg.attn_db;
  }

  -- `_get_tx`; `none` where the device does not open.
  pub get_tx : Env → Option (TxFlowgraph F) → Option (TxFlowgraph F)
  unfolding new_flowgraph
  get_tx env (some fg) = some fg
  get_tx env none = if env.opens then some new_flowgraph else none

  -- A route that works on the flowgraph; where none opens, it raises.
  abbrev on_flowgraph :
      Env
      → Option (TxFlowgraph F)
      → (TxFlowgraph F → Reply × TxFlowgraph F)
      → Reply × Option (TxFlowgraph F)
  on_flowgraph env tx route = elim (get_tx env tx) [
    | none ↦ (error 500, none)
    | some fg ↦ let (reply, fg') = route fg in (reply, some fg')
  ]

  -- The reply to a start that ended with a status.
  pub started : ℕ × TxFlowgraph F → Reply × TxFlowgraph F
  unfolding status_dict
  started (status, fg) =
      if status == 200 then (tells_status (status_dict fg), fg) else (error status, fg)

  pub api_tx_freq : Env → Option (Given ℤ) → TxFlowgraph F → Reply × TxFlowgraph F
  api_tx_freq env none fg = (tells_freq fg.freq_hz, fg)
  api_tx_freq env (some unreadable) fg = (error 500, fg)
  api_tx_freq env (some absent) fg =
      if env.takes then (tells_freq fg.freq_hz, set_frequency F fg.freq_hz fg) else (error 500, fg)
  api_tx_freq env (some (given freq)) fg =
      let fg' = set_frequency F freq fg in
      if env.takes then (tells_freq fg'.freq_hz, fg') else (error 500, fg)

  pub api_tx_attn : Env → Option (Given Float) → TxFlowgraph F → Reply × TxFlowgraph F
  api_tx_attn env none fg = (tells_attn fg.attn_db, fg)
  api_tx_attn env (some unreadable) fg = (error 500, fg)
  api_tx_attn env (some absent) fg =
      let fg' = set_attn F fg.attn_db fg in
      if env.takes then (tells_attn fg'.attn_db, fg') else (error 500, fg)
  api_tx_attn env (some (given attn)) fg =
      let fg' = set_attn F attn fg in
      if env.takes then (tells_attn fg'.attn_db, fg') else (error 500, fg)

  pub api_tx_status : Option (TxFlowgraph F) → Reply
  unfolding status_dict
  api_tx_status none =
      tells_status (record { running = false; mode = none; freq_hz = pos 0; attn_db = frac 30 1 })
  api_tx_status (some fg) = tells_status (status_dict fg)

  pub handle : Env → Request → Option (TxFlowgraph F) → Reply × Option (TxFlowgraph F)
  unfolding get_tx started api_tx_freq api_tx_attn api_tx_status
  handle env (asks_start r) tx =
      on_flowgraph env tx (λ fg. started (api_tx_start F env.file_at env.starts r fg))
  handle env asks_stop none = (tells_running false, none)
  handle env asks_stop (some fg) = (tells_running false, some (api_tx_stop F fg))
  handle env asks_status tx = (api_tx_status tx, tx)
  handle env (asks_freq body) tx = on_flowgraph env tx (api_tx_freq env body)
  handle env (asks_attn body) tx = on_flowgraph env tx (api_tx_attn env body)

  -- Each request with its reply and the transmitter after it.
  abbrev pub Trace : Type 0
  Trace = List (Request × Reply × Option (TxFlowgraph F))

  pub handle_all : List (Env × Request) → Option (TxFlowgraph F) → Trace
  unfolding handle
  handle_all [] tx = []
  handle_all ((env, request) ∷ later) tx =
      let (reply, tx') = handle env request tx in (request, reply, tx') ∷ handle_all later tx'
