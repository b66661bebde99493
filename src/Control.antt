-- ===== src/Control.antt =====
-- The shared settings of src/stream_web/app.py that the web routes change and the processor reads:
-- the accessors of `SharedState`, and `/api/view`, `/api/lo` and `/api/timedomain`. A request is its
-- parsed JSON body: `none` is a missing key, and an inner `none` a value that `int` refuses. Texts
-- are byte lists.
mod Tests
pub mod Requests
use Prim.Native.String.{String}
use sdr_docker.Base.{
  ℕ, Bool, true, false, Option, none, some, List, [], ◌∷◌, take, ◌==◌, if◌then◌else◌,
}
use sdr_docker.Base.Int.{ℤ, pos, ◌+ℤ◌, ◌*ℤ◌}
use sdr_docker.Rx.{max_ℤ, min_ℤ}

pub record Settings : Type 0 where
  pub running_flag : Bool
  pub has_ntw_id : Bool
  pub ntw_id_value : ℤ
  pub chipset_arr : List ℕ
  pub zoom_n_syms : ℤ
  pub view_value : ℕ
  pub lo_freq_hz : ℤ

pub td_target_ntw_id : Settings → Option ℤ
td_target_ntw_id s = if s.has_ntw_id then some s.ntw_id_value else none

pub set_td_target_ntw_id : Option ℤ → Settings → Settings
set_td_target_ntw_id none s = record s { has_ntw_id = false }
set_td_target_ntw_id (some v) s = record s { ntw_id_value = v; has_ntw_id = true }

-- What is read of an array of `c_char`: the bytes before the first NUL.
pub before_nul : List ℕ → List ℕ
before_nul [] = []
before_nul (b ∷ bs) = let rest = before_nul bs in if b == 0 then [] else b ∷ rest

abbrev decoded_name : (List ℕ → Option String) → List ℕ → Option (Option String)
decoded_name decode [] = some none
decoded_name decode (b ∷ bs) = elim (decode (b ∷ bs)) [ none ↦ none | some t ↦ some (some t) ]

-- `decode` is `bytes.decode`, `none` where the bytes are not UTF-8; then the getter raises: `none`.
pub td_target_chipset : (decode : List ℕ → Option String) → Settings → Option (Option String)
unfolding before_nul
td_target_chipset decode s = decoded_name decode (before_nul s.chipset_arr)

-- `(v or "").encode()[:31]`
pub set_td_target_chipset : Option (List ℕ) → Settings → Settings
set_td_target_chipset none s = record s { chipset_arr = [] }
set_td_target_chipset (some v) s = record s { chipset_arr = take 31 v }

pub set_td_zoom_n_syms : (preamble_len : ℤ) → ℤ → Settings → Settings
set_td_zoom_n_syms preamble_len v s = record s {
  zoom_n_syms = max_ℤ (pos 1) (min_ℤ v preamble_len);
}

pub data ViewMode : Type 0 where
  spectrogram spectrum : ViewMode

pub view_mode : Settings → ViewMode
view_mode s = if s.view_value == 0 then spectrogram else spectrum

pub set_view_mode : ViewMode → Settings → Settings
set_view_mode spectrogram s = record s { view_value = 0 }
set_view_mode spectrum s = record s { view_value = 1 }

-- A POST to `/api/view`: `none` flips the view, and an unknown mode (`some none`) is refused.
pub api_view : Option (Option ViewMode) → Settings → Bool × Settings
unfolding set_view_mode view_mode
api_view none s =
    (true, set_view_mode (elim (view_mode s) [ spectrum ↦ spectrogram | spectrogram ↦ spectrum ]) s)
api_view (some none) s = (false, s)
api_view (some (some mode)) s = (true, set_view_mode mode s)

pub api_lo : ℤ → Settings → Settings
api_lo delta_khz s = record s { lo_freq_hz = s.lo_freq_hz +ℤ delta_khz *ℤ pos 1000 }

pub data Action : Type 0 where
  start : (chipset : Option (List ℕ)) → (device_id : Option (Option ℤ)) → Action
  stop : Action
  set_n_syms : Option ℤ → Action
  unknown : Action

start_device : Option (Option ℤ) → Settings → Bool × Settings
unfolding set_td_target_ntw_id set_td_target_chipset
start_device none s = (true, s)
start_device (some none) s = (false, s)
start_device (some (some v)) s = (
  true,
  record (set_td_target_chipset none (set_td_target_ntw_id (some v) s)) { running_flag = true },
)

-- A POST to `/api/timedomain`; false is the status 400.
pub api_timedomain : (preamble_len : ℤ) → Action → Settings → Bool × Settings
unfolding start_device set_td_zoom_n_syms
api_timedomain preamble_len (start none device_id) s = start_device device_id s
api_timedomain preamble_len (start (some []) device_id) s = start_device device_id s
api_timedomain preamble_len (start (some (b ∷ bs)) device_id) s = (
  true,
  record (set_td_target_ntw_id none (set_td_target_chipset (some (b ∷ bs)) s)) {
    running_flag = true;
  },
)
api_timedomain preamble_len stop s = (true, record s { running_flag = false })
api_timedomain preamble_len (set_n_syms none) s = (false, s)
api_timedomain preamble_len (set_n_syms (some v)) s = (true, set_td_zoom_n_syms preamble_len v s)
api_timedomain preamble_len unknown s = (true, s)

-- What `/api/timedomain` replies, to a GET and to a POST that is not refused; it raises where the
-- chipset name does not decode: `none`.
pub record TimedomainReply : Type 0 where
  pub running : Bool
  pub device_id : Option ℤ
  pub chipset : Option String
  pub status : List ℕ
  pub td_zoom_n_syms : ℤ

pub timedomain_reply :
    (decode : List ℕ → Option String) (td_status : List ℕ) → Settings → Option TimedomainReply
unfolding td_target_ntw_id td_target_chipset
timedomain_reply decode td_status s = elim (td_target_chipset decode s) [
  | none ↦ none
  | some name ↦ some (record {
    running = s.running_flag;
    device_id = td_target_ntw_id s;
    chipset = name;
    status = td_status;
    td_zoom_n_syms = s.zoom_n_syms;
  })
]
