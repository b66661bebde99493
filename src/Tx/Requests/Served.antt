-- ===== src/Tx/Requests/Served.antt =====
-- What a client may rely on that drives the transmitter through the `/api/tx` routes of
-- src/stream_web/app.py.
use sdr_docker.Base.{refl, Option, none, List, [], ◌∷◌}
use sdr_docker.Base.Floats.{FloatOps}
use sdr_docker.Tx.{TxFlowgraph}
use sdr_docker.Tx.Requests.{
  Env, Request, default_freq_hz, default_attn_db, handle, Trace, handle_all,
}
use sdr_docker.Tx.Requests.Steps.{IsOrder, Settings, Answers, Serves, told, handle-Goes}

module _ (F : FloatOps) where
  open F use {Float, frac, lt}

  -- Along a trace, each reply answers its request, and after each the transmitter has the settings
  -- that were last told.
  abbrev pub AllServed : Settings F → Trace F → Type 0
  AllServed s [] = Unit
  AllServed s ((request, reply, tx) ∷ later) =
      Answers F request reply tx × Serves F (told F s reply) tx × AllServed (told F s reply) later

  abbrev pub defaults : Settings F
  defaults = record { freq_hz = default_freq_hz F; attn_db = default_attn_db F }

  handle_all-AllServed :
      (o : IsOrder F) (s : Settings F) (requests : List (Env × Request F))
      (tx : Option (TxFlowgraph F))
      → Serves F s tx
      → AllServed s (handle_all F requests tx)
  unfolding handle_all
  handle_all-AllServed o s [] tx serves = tt
  handle_all-AllServed o s ((env, request) ∷ later) tx serves =
      let (serves', answers) = handle-Goes F o s env request tx serves in
      (
        answers,
        serves',
        handle_all-AllServed o (told F s (handle F env request tx).0) later
            (handle F env request tx).1 serves',
      )

  -- From the start of the program, whatever requests drive the transmitter and whatever the device
  -- refuses, each reply answers its request: a start of status 200 tells of a transmitter that runs in
  -- the mode asked for, after a stop it does not run, a frequency is the one given and so is an
  -- attenuation between the ends of its range. After each request the frequency and the attenuation are
  -- those that a client was last told, or the defaults, the attenuation is in the range of the device,
  -- the mode is that of the source, and only a transmitter with a source runs.
  pub requests-AllServed :
      (o : IsOrder F) (requests : List (Env × Request F))
      → AllServed defaults (handle_all F requests none)
  requests-AllServed o requests = handle_all-AllServed o defaults requests none (refl, refl)
