-- ===== src/Tx/Requests/Steps.antt =====
-- One request to the transmitter, through the `/api/tx` routes of src/stream_web/app.py: what it
-- leaves and what its reply means.
use Prim.Native.String.{String}
use sdr_docker.Base.{
  ℕ, ◌==◌, ◌≡◌, refl, sym, subst, ◌∙◌, Bool, true, false, Option, none, some, inl, inr, Bool-cases,
  ==_iff, arith,
}
use sdr_docker.Base.Int.{ℤ}
use sdr_docker.Base.Floats.{FloatOps}
use sdr_docker.Tx.{
  TxFile, missing, refused, readable, TxFlowgraph, StartRequest, wants_tone, wants_packet,
  wants_other, tone_mode, packet_mode, switch, start, start_after, api_tx_start, api_tx_stop,
  set_frequency, set_attn, stop,
}
use sdr_docker.Tx.Routes.{IsSteady, wanted, Started, api_tx_start-Started}
use sdr_docker.Tx.Requests.{
  Given, absent, unreadable, given, Env, Request, asks_start, asks_stop, asks_status, asks_freq,
  asks_attn, Reply, error, tells_running, tells_freq, tells_attn, tells_status, default_freq_hz,
  default_attn_db, new_flowgraph, status_dict, get_tx, started, api_tx_freq, api_tx_attn,
  api_tx_status, handle,
}

module _ (F : FloatOps) where
  open F use {Float, frac, lt}

  -- The attenuation is one that the device has, 0 to 89.75 dB.
  pub record IsInRange (attn_db : Float) : Type 0 where
    pub not_below : lt attn_db (frac 0 1) ≡ false
    pub not_above : lt (frac 8975 100) attn_db ≡ false

  -- What IEEE's order promises, NaN included, of the numbers that are compared.
  pub record IsOrder : Type 0 where
    pub irreflexive : (a : Float) → lt a a ≡ false
    pub asymmetric : (a b : Float) → lt a b ≡ true → lt b a ≡ false
    pub bounds : lt (frac 8975 100) (frac 0 1) ≡ false
    pub default_fits : IsInRange (default_attn_db F)

  set_attn-IsInRange :
      IsOrder → (a : Float) (fg : TxFlowgraph F) → IsInRange (TxFlowgraph.attn_db (set_attn F a fg))
  unfolding set_attn
  set_attn-IsInRange o a fg = elim (Bool-cases (lt a (frac 8975 100))) [
    | inl low ↦ elim (Bool-cases (lt (frac 0 1) a)) [
      | inl above ↦ rw (low) (
          rw (above) (record {
            not_below = o.asymmetric (frac 0 1) a above;
            not_above = o.asymmetric a (frac 8975 100) low;
          }))
      | inr below ↦
          rw (low)
            (rw (below) (record { not_below = o.irreflexive (frac 0 1); not_above = o.bounds }))
    ]
    | inr high ↦ elim (Bool-cases (lt (frac 0 1) (frac 8975 100))) [
      | inl above ↦
          rw (high) (
            rw (above) (record { not_below = o.bounds; not_above = o.irreflexive (frac 8975 100) }))
      | inr below ↦
          rw (high)
            (rw (below) (record { not_below = o.irreflexive (frac 0 1); not_above = o.bounds }))
    ]
  ]

  -- The frequency and the attenuation that a client was last told.
  pub record Settings : Type 0 where
    pub freq_hz : ℤ
    pub attn_db : Float

  pub told : Settings → Reply F → Settings
  told s (tells_freq f) = record s { freq_hz = f }
  told s (tells_attn a) = record s { attn_db = a }
  told s reply = s

  -- The transmitter has the settings that were told: before it is opened, the defaults.
  abbrev pub Serves : Settings → Option (TxFlowgraph F) → Type 0
  Serves s none = (s.freq_hz ≡ default_freq_hz F) × (s.attn_db ≡ default_attn_db F)
  Serves s (some fg) =
      IsSteady F fg × IsInRange fg.attn_db × (fg.freq_hz ≡ s.freq_hz) × (fg.attn_db ≡ s.attn_db)

  -- What a reply means to who asked: an error, or a transmitter as it was asked for.
  abbrev pub Answers : Request F → Reply F → Option (TxFlowgraph F) → Type 0
  Answers request (error n) tx = Unit
  Answers (asks_start r) (tells_status s) (some fg) =
      (s ≡ status_dict F fg) × (s.running ≡ true) × (s.mode ≡ wanted F r)
  Answers asks_stop (tells_running b) none = b ≡ false
  Answers asks_stop (tells_running b) (some fg) = (b ≡ false) × (fg.is_running ≡ false)
  Answers asks_status (tells_status s) none = s.running ≡ false
  Answers asks_status (tells_status s) (some fg) = s ≡ status_dict F fg
  Answers (asks_freq (some (given f))) (tells_freq f') (some fg) = f' ≡ f
  Answers (asks_freq body) (tells_freq f') (some fg) = Unit
  Answers (asks_attn (some (given a))) (tells_attn b) (some fg) =
      lt (frac 0 1) a ≡ true → lt a (frac 8975 100) ≡ true → b ≡ a
  Answers (asks_attn body) (tells_attn b) (some fg) = Unit
  Answers request reply tx = ⊥

  -- The step of a request, by its reply and the transmitter after it.
  abbrev pub Goes : Settings → Request F → Reply F × Option (TxFlowgraph F) → Type 0
  Goes s request (reply, tx) = Serves (told s reply) tx × Answers request reply tx

  new_flowgraph-Serves :
      IsOrder → (s : Settings) → Serves s none → Serves s (some (new_flowgraph F))
  unfolding new_flowgraph
  new_flowgraph-Serves o s (f, a) =
      (record { fits = refl; sends = inl refl }, o.default_fits, sym f, sym a)

  -- A reply to a start that is no error has status 200.
  started-Goes :
      (s : Settings) (r : StartRequest F) (status : ℕ) (fg fg' : TxFlowgraph F)
      → Serves s (some fg)
      → (fg'.freq_hz ≡ fg.freq_hz) × (fg'.attn_db ≡ fg.attn_db)
      → Started F r (status, fg')
      → let (reply, after) = started F (status, fg') in Goes s (asks_start r) (reply, some after)
  unfolding started told
  started-Goes s r status fg fg' (steady, fits, f, a) (same_f, same_a) (steady', runs) =
      let kept : Serves s (some fg') =
        (steady', subst IsInRange (sym same_a) fits, same_f ∙ f, same_a ∙ a) in
      elim (Bool-cases (status == 200)) [
        | inl fine ↦
            let is_200 = (==_iff status 200).0 fine in
            elim runs [
              | inl other ↦ absurd (other is_200)
              | inr (up, mode) ↦ rw (fine) (kept, (refl, up, mode))
            ]
        | inr failed ↦ rw (failed) (kept, tt)
      ]

  -- A start leaves the settings of the transmitter.
  start_after-settings :
      (starts took : Bool) (fg : TxFlowgraph F)
      → let (status, after) = start_after F starts (took, fg) in
        (after.freq_hz ≡ fg.freq_hz) × (after.attn_db ≡ fg.attn_db)
  unfolding start_after start
  start_after-settings starts false fg = (refl, refl)
  start_after-settings starts true fg = (ground arith, ground arith)

  packet-settings :
      (file : TxFile) (starts : Bool) (path : String) (repeat : Bool) (fg : TxFlowgraph F)
      → let (status, after) = start_after F starts (packet_mode F file starts path repeat fg) in
        (after.freq_hz ≡ fg.freq_hz) × (after.attn_db ≡ fg.attn_db)
  unfolding packet_mode switch start_after start stop
  packet-settings missing starts path repeat fg = (refl, refl)
  packet-settings refused starts path repeat fg = (ground arith, ground arith)
  packet-settings readable starts path repeat fg = (ground arith, ground arith)

  api_tx_start-settings :
      (file_at : String → TxFile) (starts : Bool) (r : StartRequest F) (fg : TxFlowgraph F)
      → let (status, after) = api_tx_start F file_at starts r fg in
        (after.freq_hz ≡ fg.freq_hz) × (after.attn_db ≡ fg.attn_db)
  unfolding api_tx_start tone_mode packet_mode switch start_after start stop
  api_tx_start-settings file_at starts wants_tone fg = (ground arith, ground arith)
  api_tx_start-settings file_at starts (wants_packet none repeat) fg = (refl, refl)
  api_tx_start-settings file_at starts (wants_packet (some path) repeat) fg =
      packet-settings (file_at path) starts path repeat fg
  api_tx_start-settings file_at starts wants_other fg = (refl, refl)

  freq-Goes :
      (s : Settings) (env : Env) (body : Option (Given ℤ)) (fg : TxFlowgraph F)
      → Serves s (some fg)
      → let (reply, after) = api_tx_freq F env body fg in
        Goes s (asks_freq body) (reply, some after)
  unfolding api_tx_freq set_frequency told
  freq-Goes s env none fg (steady, fits, f, a) = ((steady, fits, refl, a), tt)
  freq-Goes s env (some unreadable) fg serves = (serves, tt)
  freq-Goes s env (some absent) fg (steady, fits, f, a) = elim (Bool-cases env.takes) [
    | inl takes ↦ rw (takes) ((steady, fits, refl, a), tt)
    | inr refuses ↦ rw (refuses) ((steady, fits, f, a), tt)
  ]
  freq-Goes s env (some (given freq)) fg (steady, fits, f, a) = elim (Bool-cases env.takes) [
    | inl takes ↦
        rw (takes) ((record { fits = steady.fits; sends = steady.sends }, fits, refl, a), refl)
    | inr refuses ↦ rw (refuses) ((steady, fits, f, a), tt)
  ]

  -- An attenuation between the ends is set as it is.
  set_attn_within :
      (a : Float) (fg : TxFlowgraph F)
      → lt (frac 0 1) a ≡ true
      → lt a (frac 8975 100) ≡ true
      → TxFlowgraph.attn_db (set_attn F a fg) ≡ a
  unfolding set_attn
  set_attn_within a fg low high = rw (high) (rw (low) refl)

  -- The transmitter with another attenuation.
  set_attn-Serves :
      (o : IsOrder) (s : Settings) (a : Float) (fg : TxFlowgraph F)
      → Serves s (some fg)
      → let after = set_attn F a fg in Serves (told s (tells_attn after.attn_db)) (some after)
  unfolding set_attn told
  set_attn-Serves o s a fg (steady, fits, f, same) =
      (record { fits = steady.fits; sends = steady.sends }, set_attn-IsInRange o a fg, f, refl)

  attn-Goes :
      (o : IsOrder) (s : Settings) (env : Env) (body : Option (Given Float)) (fg : TxFlowgraph F)
      → Serves s (some fg)
      → let (reply, after) = api_tx_attn F env body fg in
        Goes s (asks_attn body) (reply, some after)
  unfolding api_tx_attn told
  attn-Goes o s env none fg (steady, fits, f, a) = ((steady, fits, f, refl), tt)
  attn-Goes o s env (some unreadable) fg serves = (serves, tt)
  attn-Goes o s env (some absent) fg serves = elim (Bool-cases env.takes) [
    | inl takes ↦ rw (takes) (set_attn-Serves o s fg.attn_db fg serves, tt)
    | inr refuses ↦ rw (refuses) (serves, tt)
  ]
  attn-Goes o s env (some (given a)) fg serves = elim (Bool-cases env.takes) [
    | inl takes ↦ rw (takes) (set_attn-Serves o s a fg serves, set_attn_within a fg)
    | inr refuses ↦ rw (refuses) (serves, tt)
  ]

  stop-IsSteady : (fg : TxFlowgraph F) → IsSteady F fg → IsSteady F (api_tx_stop F fg)
  unfolding api_tx_stop stop
  stop-IsSteady fg h = elim (Bool-cases fg.is_running) [
    | inl up ↦ rw (up) (record { fits = h.fits; sends = inl refl })
    | inr down ↦ rw (down) (record { fits = h.fits; sends = inl refl })
  ]

  stop-settings :
      (fg : TxFlowgraph F)
      → let after = api_tx_stop F fg in
        (after.freq_hz ≡ fg.freq_hz) × (after.attn_db ≡ fg.attn_db) × (after.is_running ≡ false)
  unfolding api_tx_stop stop
  stop-settings fg = (ground arith, ground arith, ground arith)

  start-Goes :
      (s : Settings) (env : Env) (r : StartRequest F) (fg : TxFlowgraph F)
      → Serves s (some fg)
      → let (reply, after) = started F (api_tx_start F env.file_at env.starts r fg) in
        Goes s (asks_start r) (reply, some after)
  start-Goes s env r fg serves =
      let (status, after) = api_tx_start F env.file_at env.starts r fg in
      started-Goes s r status fg after serves (api_tx_start-settings env.file_at env.starts r fg)
        (api_tx_start-Started F env.file_at env.starts r fg serves.0)

  pub handle-Goes :
      (o : IsOrder) (s : Settings) (env : Env) (request : Request F) (tx : Option (TxFlowgraph F))
      → Serves s tx
      → Goes s request (handle F env request tx)
  unfolding handle get_tx api_tx_status told
  handle-Goes o s env (asks_start r) (some fg) serves = start-Goes s env r fg serves
  handle-Goes o s env (asks_start r) none serves = elim (Bool-cases env.opens) [
    | inl opens ↦
        rw (opens) (start-Goes s env r (new_flowgraph F) (new_flowgraph-Serves o s serves))
    | inr fails ↦ rw (fails) (serves, tt)
  ]
  handle-Goes o s env asks_stop none serves = (serves, refl)
  handle-Goes o s env asks_stop (some fg) (steady, fits, f, a) =
      let (same_f, same_a, down) = stop-settings fg in
      (
        (stop-IsSteady fg steady, subst IsInRange (sym same_a) fits, same_f ∙ f, same_a ∙ a),
        (refl, down),
      )
  handle-Goes o s env asks_status none serves = (serves, refl)
  handle-Goes o s env asks_status (some fg) serves = (serves, refl)
  handle-Goes o s env (asks_freq body) (some fg) serves = freq-Goes s env body fg serves
  handle-Goes o s env (asks_freq body) none serves = elim (Bool-cases env.opens) [
    | inl opens ↦
        rw (opens) (freq-Goes s env body (new_flowgraph F) (new_flowgraph-Serves o s serves))
    | inr fails ↦ rw (fails) (serves, tt)
  ]
  handle-Goes o s env (asks_attn body) (some fg) serves = attn-Goes o s env body fg serves
  handle-Goes o s env (asks_attn body) none serves = elim (Bool-cases env.opens) [
    | inl opens ↦
        rw (opens) (attn-Goes o s env body (new_flowgraph F) (new_flowgraph-Serves o s serves))
    | inr fails ↦ rw (fails) (serves, tt)
  ]
