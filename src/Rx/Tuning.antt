-- ===== src/Rx/Tuning.antt =====
-- The gain and LO loop of src/stream_web/gnuradio_rx.py: what the shared values say of the radio.
use sdr_docker.Base.{◌≡◌, refl, Bool, true, false, some, Bool-cases, arith, inl, inr}
use sdr_docker.Base.Int.{ℤ, eq_of_parts}
use sdr_docker.TdCapture.{int_eq}
use sdr_docker.Rx.{Tuner, tune_gain, tune_lo, tune}

-- The shared values are the ones last set on the radio.
pub record InSync (s : Tuner) : Type 0 where
  pub gain : s.rx_gain ≡ s.cur_gain
  pub lo : s.lo_freq ≡ s.cur_freq

int_eq-eq : (a b : ℤ) → int_eq a b ≡ true → a ≡ b
int_eq-eq a b h = eq_of_parts a b (ground arith)

module _ (gain_min gain_max : ℤ) where
  pub tune_gain-syncs :
      (taken : Bool) (s : Tuner)
      → (tune_gain gain_min gain_max true taken s).rx_gain
        ≡ (tune_gain gain_min gain_max true taken s).cur_gain
  unfolding tune_gain
  tune_gain-syncs taken s = elim (Bool-cases (int_eq s.rx_gain s.cur_gain)) [
    | inl same ↦ rw (same) (int_eq-eq s.rx_gain s.cur_gain same)
    | inr changed ↦ elim (Bool-cases taken) [
      | inl took ↦ rw (changed, took) refl
      | inr failed ↦ rw (changed, failed) refl
    ]
  ]

  pub tune_lo-syncs :
      (taken : Bool) (s : Tuner)
      → s.rx_gain ≡ s.cur_gain
      → InSync (tune_lo gain_min gain_max true taken s)
  unfolding tune_lo
  tune_lo-syncs taken s g = elim (Bool-cases (int_eq s.lo_freq s.cur_freq)) [
    | inl same ↦ rw (same) (record { gain = g; lo = int_eq-eq s.lo_freq s.cur_freq same })
    | inr changed ↦ elim (Bool-cases taken) [
      | inl took ↦ rw (changed, took) (record { gain = g; lo = refl })
      | inr failed ↦ rw (changed, failed) (record { gain = g; lo = refl })
    ]
  ]

  -- After a pass that does not exit, in manual gain mode, the shared gain and LO frequency are
  -- those last set on the radio, whatever a web route asked for before it and whether the radio
  -- took it or not.
  pub tune-InSync :
      (gain_taken lo_taken : Bool) (s : Tuner)
      → (s' : Tuner) × (tune gain_min gain_max true false gain_taken lo_taken s ≡ some s')
        × InSync s'
  unfolding tune
  tune-InSync gain_taken lo_taken s =
      let t = tune_gain gain_min gain_max true gain_taken s in
      (
        tune_lo gain_min gain_max true lo_taken t,
        refl,
        tune_lo-syncs lo_taken t (tune_gain-syncs gain_taken s),
      )
