-- ===== src/Rx/Device.antt =====
-- The device of the receive thread of src/stream_web/gnuradio_rx.py: how `SDRFlowgraph` opens it, and
-- the calls that the passes of `rx_loop` make on it. A text is a list of code points; what the driver
-- of the radio does with a setting is left out.
use sdr_docker.Base.{
  ℕ, ◌≡◌, refl, sym, ◌∙◌, Bool, true, false, ◌&&◌, not, ◌==◌, List, [], ◌∷◌, if◌then◌else◌,
  Bool-cases, inl, inr, All,
}
use sdr_docker.Base.Int.{ℤ, pos}
use sdr_docker.TdCapture.{int_eq}
use sdr_docker.Config.{sample_rate, rx_initial_gain_db, center_freq_hz}
use sdr_docker.Rx.{Tuner, clamp_gain, tune_gain, tune_lo, tune}
use sdr_docker.Rx.Tuning.{InSync, tune_gain-syncs, tune_lo-syncs}
use sdr_docker.Rx.Loop.{Pass, asked, rx_stopped, rx_passes}

pub data SdrType : Type 0 where
  bladerf pluto : SdrType

-- The driver, with its serial number or its address where one is named.
pub data DriverArgs : Type 0 where
  driver_bladerf driver_plutosdr : DriverArgs
  bladerf_serial plutosdr_uri : List ℕ → DriverArgs

-- `uri.startswith("ip:")`
pub starts_with_ip : List ℕ → Bool
starts_with_ip (a ∷ b ∷ c ∷ rest) = a == 105 && (b == 112 && c == 58)
starts_with_ip _ = false

pub soapy_driver_args : SdrType → (serial pluto_uri : List ℕ) → DriverArgs
unfolding starts_with_ip
soapy_driver_args bladerf [] pluto_uri = driver_bladerf
soapy_driver_args bladerf (c ∷ cs) pluto_uri = bladerf_serial (c ∷ cs)
soapy_driver_args pluto serial pluto_uri =
    if starts_with_ip pluto_uri then plutosdr_uri pluto_uri else driver_plutosdr

-- What is set on channel 0 of the source.
pub record Radio : Type 0 where
  pub dev_args : DriverArgs
  pub rate : ℕ
  pub bandwidth : ℕ
  pub freq_hz : ℤ
  pub gain_mode : Bool
  pub gain_db : ℤ

-- `SDRFlowgraph.set_gain` and `set_frequency`.
pub set_gain : ℤ → Radio → Radio
set_gain gain_db r = record r { gain_mode = false; gain_db = gain_db }

pub set_frequency : ℤ → Radio → Radio
set_frequency freq_hz r = record r { freq_hz = freq_hz }

-- `SDRFlowgraph.__init__`; `gain_db` is the gain of a device that was just made.
pub open_device : (manual : Bool) → DriverArgs → (gain_db : ℤ) → Radio
unfolding set_gain
open_device manual dev_args gain_db =
    let r : Radio = record {
      dev_args = dev_args;
      rate = sample_rate;
      bandwidth = sample_rate;
      freq_hz = pos center_freq_hz;
      gain_mode = true;
      gain_db = gain_db;
    } in
    if manual then set_gain (pos rx_initial_gain_db) r else r

module _ (gain_min gain_max : ℤ) where
  -- The calls of a pass in manual gain mode; one that raises sets nothing.
  pub drive_gain : (taken : Bool) → Tuner → Radio → Radio
  unfolding set_gain
  drive_gain taken s r =
      if not (int_eq s.rx_gain s.cur_gain) && taken
      then set_gain (clamp_gain gain_min gain_max true s.rx_gain) r
      else r

  pub drive_lo : (taken : Bool) → Tuner → Radio → Radio
  unfolding set_frequency
  drive_lo taken s r =
      if not (int_eq s.lo_freq s.cur_freq) && taken then set_frequency s.lo_freq r else r

  -- A pass that does not exit.
  pub drive : Pass → Radio × Tuner → Radio × Tuner
  unfolding drive_gain drive_lo
  drive q (r, s) =
      let t = asked q s in
      let t' = tune_gain gain_min gain_max true q.gain_taken t in
      (
        drive_lo q.lo_taken t' (drive_gain q.gain_taken t r),
        tune_lo gain_min gain_max true q.lo_taken t',
      )

  pub drive_all : List Pass → Radio × Tuner → Radio × Tuner
  unfolding drive
  drive_all [] rs = rs
  drive_all (q ∷ qs) rs = drive_all qs (drive q rs)

  -- What the loop takes for set is set on the device.
  pub record IsTuned (rs : Radio × Tuner) : Type 0 where
    pub freq : rs.0.freq_hz ≡ rs.1.cur_freq
    pub gain : rs.0.gain_db ≡ rs.1.cur_gain
    pub mode : rs.0.gain_mode ≡ false

  drive_gain-IsTuned :
      (taken : Bool) (s : Tuner) (r : Radio)
      → IsTuned (r, s)
      → IsTuned (drive_gain taken s r, tune_gain gain_min gain_max true taken s)
  unfolding drive_gain tune_gain set_gain
  drive_gain-IsTuned taken s r h = elim (Bool-cases (int_eq s.rx_gain s.cur_gain)) [
    | inl same ↦ rw (same) (record { freq = h.freq; gain = h.gain; mode = h.mode })
    | inr changed ↦ elim (Bool-cases taken) [
      | inl took ↦ rw (changed, took) (record { freq = h.freq; gain = refl; mode = refl })
      | inr failed ↦ rw (changed, failed) (record { freq = h.freq; gain = h.gain; mode = h.mode })
    ]
  ]

  drive_lo-IsTuned :
      (taken : Bool) (s : Tuner) (r : Radio)
      → IsTuned (r, s)
      → IsTuned (drive_lo taken s r, tune_lo gain_min gain_max true taken s)
  unfolding drive_lo tune_lo set_frequency
  drive_lo-IsTuned taken s r h = elim (Bool-cases (int_eq s.lo_freq s.cur_freq)) [
    | inl same ↦ rw (same) (record { freq = h.freq; gain = h.gain; mode = h.mode })
    | inr changed ↦ elim (Bool-cases taken) [
      | inl took ↦ rw (changed, took) (record { freq = refl; gain = h.gain; mode = h.mode })
      | inr failed ↦ rw (changed, failed) (record { freq = h.freq; gain = h.gain; mode = h.mode })
    ]
  ]

  drive-IsTuned : (q : Pass) (rs : Radio × Tuner) → IsTuned rs → IsTuned (drive q rs)
  unfolding drive asked
  drive-IsTuned q (r, s) h =
      let t = asked q s in
      drive_lo-IsTuned q.lo_taken (tune_gain gain_min gain_max true q.gain_taken t)
        (drive_gain q.gain_taken t r)
        (drive_gain-IsTuned q.gain_taken t r
          (record { freq = h.freq; gain = h.gain; mode = h.mode }))

  drive-InSync : (q : Pass) (rs : Radio × Tuner) → InSync (drive q rs).1
  unfolding drive
  drive-InSync q (r, s) =
      tune_lo-syncs gain_min gain_max q.lo_taken
        (tune_gain gain_min gain_max true q.gain_taken (asked q s))
        (tune_gain-syncs gain_min gain_max q.gain_taken (asked q s))

  drive_all-IsTuned :
      (qs : List Pass) (rs : Radio × Tuner)
      → IsTuned rs
      → InSync rs.1
      → IsTuned (drive_all qs rs) × InSync (drive_all qs rs).1
  unfolding drive_all
  drive_all-IsTuned [] rs h k = (h, k)
  drive_all-IsTuned (q ∷ qs) rs h k =
      drive_all-IsTuned qs (drive q rs) (drive-IsTuned q rs h) (drive-InSync q rs)

  rx_passes-drive_all :
      (qs : List Pass) (rs : Radio × Tuner)
      → All (λ q. q.is_stale ≡ false) qs
      → rx_passes gain_min gain_max true qs rs.1 ≡ rx_stopped (drive_all qs rs).1
  unfolding rx_passes tune drive_all drive
  rx_passes-drive_all [] rs h = refl
  rx_passes-drive_all (q ∷ qs) rs h = rw (h.0) (rx_passes-drive_all qs (drive q rs) h.1)

  -- The tuner with which `rx_loop` starts.
  abbrev pub first_tuner : (lo : ℤ) → Tuner
  first_tuner lo = record {
    cur_gain = pos rx_initial_gain_db;
    cur_freq = pos center_freq_hz;
    rx_gain = pos rx_initial_gain_db;
    lo_freq = lo;
  }

  -- The device has what the web page shows: through one pass of the loop or more, all with samples, in
  -- manual gain mode, from a device as it is opened, the loop goes on with shared values that are the
  -- frequency and the gain that the device has, whatever the routes asked for and the device refused.
  pub rx_passes-OnDevice :
      (q : Pass) (qs : List Pass) (dev_args : DriverArgs) (gain_db lo : ℤ)
      → All (λ q. q.is_stale ≡ false) (q ∷ qs)
      → let (r, s) = drive_all (q ∷ qs) (open_device true dev_args gain_db, first_tuner lo) in
        (rx_passes gain_min gain_max true (q ∷ qs) (first_tuner lo) ≡ rx_stopped s)
        × (s.lo_freq ≡ r.freq_hz)
        × (s.rx_gain ≡ r.gain_db)
        × (r.gain_mode ≡ false)
  unfolding open_device drive_all set_gain
  rx_passes-OnDevice q qs dev_args gain_db lo h =
      let rs : Radio × Tuner = (open_device true dev_args gain_db, first_tuner lo) in
      let opened : IsTuned rs = record { freq = refl; gain = refl; mode = refl } in
      let (set, sync) =
        drive_all-IsTuned qs (drive q rs) (drive-IsTuned q rs opened) (drive-InSync q rs) in
      (
        rx_passes-drive_all (q ∷ qs) rs h,
        sync.lo ∙ sym set.freq,
        sync.gain ∙ sym set.gain,
        set.mode,
      )
