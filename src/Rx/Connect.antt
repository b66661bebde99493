-- ===== src/Rx/Connect.antt =====
-- How `_connect` of src/stream_web/gnuradio_rx.py ends.
use sdr_docker.Base.{
  ℕ, zero, suc, ◌+◌, ◌*◌, ◌≤◌, ◌<◌, ◌≡◌, refl, sym, subst, false, ◌⊎◌, inl, inr, none, some,
  Bool-cases, Option-cases, leb, arith, leb→le,
}
use sdr_docker.Config.{open_attempts_before_restart, sdr_retry_interval_s}
use sdr_docker.Rx.{
  Connected, connected, stopped, exited, out_of_fuel, Outside, wait_out, connect,
  exit_code_connection_lost,
}

fewer_of : (n : ℕ) → leb open_attempts_before_restart n ≡ false → n < open_attempts_before_restart
fewer_of n h = ground arith

module _ {A : Type 0} (o : Outside A) where
  open o use {runs, opens, waits}

  unfoldable pub Failed : ℕ → Type 0
  Failed n = (i : ℕ) → i < n → opens i ≡ none

  -- What each way to end means.
  unfoldable pub Ended : Connected A → Type 0
  Ended (connected fg) =
      (i : ℕ) × (i < open_attempts_before_restart) × (opens i ≡ some fg) × Failed i
  Ended stopped =
      (i : ℕ) × (i < open_attempts_before_restart)
      × ((runs i ≡ false) ⊎ (wait_out (waits i) (sdr_retry_interval_s * 10) 0 ≡ false))
  Ended (exited code) = (code ≡ exit_code_connection_lost) × Failed open_attempts_before_restart
  Ended out_of_fuel = ⊥

  Failed-suc : (n : ℕ) → Failed n → opens n ≡ none → Failed (suc n)
  unfolding Failed
  Failed-suc n before now i h =
      let at : (i < n) ⊎ (i ≡ n) = omega arith in
      elim at [
        | inl earlier ↦ before i earlier
        | inr here ↦ subst (λ k. opens k ≡ none) (sym here) now
      ]

  connect-Ended_from :
      (fuel i : ℕ)
      → i < open_attempts_before_restart
      → open_attempts_before_restart ≤ fuel + i
      → Failed i
      → Ended (connect o fuel i)
  unfolding connect Ended Failed
  connect-Ended_from zero i few enough before = absurd (omega arith)
  connect-Ended_from (suc fuel) i few enough before = elim (Bool-cases (runs i)) [
    | inr gone ↦ rw (gone) (i, few, inl gone)
    | inl runs_on ↦ elim (Option-cases (opens i)) [
      | inr (fg, opened) ↦ rw (runs_on, opened) (i, few, opened, before)
      | inl failed ↦
          let failed_all = Failed-suc i before failed in
          elim (Bool-cases (leb open_attempts_before_restart (suc i))) [
            | inl last ↦
                let all : suc i ≡ open_attempts_before_restart =
                  let l = leb→le open_attempts_before_restart (suc i) last in omega arith in
                rw (runs_on, failed, last) (refl, subst Failed all failed_all)
            | inr more ↦
                let fewer : suc i < open_attempts_before_restart = fewer_of (suc i) more in
                elim (Bool-cases (wait_out (waits i) (sdr_retry_interval_s * 10) 0)) [
                  | inr gone ↦ rw (runs_on, failed, more, gone) (i, few, inr gone)
                  | inl waited ↦
                      rw (runs_on, failed, more, waited)
                        (connect-Ended_from fuel (suc i) fewer (omega arith) failed_all)
                ]
          ]
    ]
  ]

  -- `_connect` ends within as many attempts as it allows: with the flowgraph of the first attempt
  -- that opens one, with nothing when `running` was cleared at a test of the loop or of a wait, or
  -- by an exit with the supervisor's restart code when that many attempts have failed, one after
  -- another.
  pub connect-Ended : (fuel : ℕ) → open_attempts_before_restart ≤ fuel → Ended (connect o fuel 0)
  unfolding Failed
  connect-Ended fuel enough =
      connect-Ended_from fuel 0 (omega arith) (omega arith) (λ i h. absurd (omega arith))
