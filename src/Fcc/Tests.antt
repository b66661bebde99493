-- ===== src/Fcc/Tests.antt =====
-- A verdict of src/stream_web/spectrogram.py on a small spectrum with one spur.
use sdr_docker.Base.{◌≡◌, refl, List, [], ◌∷◌, some, arith, ◌==◌, if◌then◌else◌}
use sdr_docker.Base.Int.{ℤ, pos}
use sdr_docker.Base.Floats.{milli_floats}
use sdr_docker.Config.{spectrum_avg_chunks}
use sdr_docker.Results.{last_of}
use sdr_docker.Fcc.{Limits, SpurSearch, Trace, Verdict, evaluate_fcc_compliance}
use sdr_docker.Fcc.Agreement.{Agrees, render_spectrum_image-Agrees}
use sdr_docker.Fcc.Overlay.{render_spectrum_image}
use sdr_docker.Fcc.Spectrum.{Routines, Chunk, fcc_reply}
use sdr_docker.Fcc.Band.{IsBand, evaluate_fcc_compliance-IsBand}
use sdr_docker.Fcc.Scores.{IsFair, evaluate_fcc_compliance-IsFair}

abbrev limits : Limits milli_floats
limits = record {
  min_snr_db = pos 15000;
  channel_spacing = pos 25750000;
  spur_limit_dbc = pos 20000;
}

-- A tone at bin 10 and a spur 12 dB below it at bin 30, over a floor of 10 dB.
abbrev spectrum : Trace milli_floats
spectrum = record {
  bins = 40;
  avg_db = λ i. if i == 10 then pos 60000 else if i == 30 then pos 48000 else pos 10000;
  freqs_hz = λ i. pos 0;
  bin_hz = pos 10000000;
}

evaluate_fcc_compliance-IsBand_example :
    (v : Verdict milli_floats) × (evaluate_fcc_compliance milli_floats limits spectrum
        (pos 10000)
        10
        (30 ∷ [])
      ≡ some v)
    × IsBand milli_floats spectrum 10 v
evaluate_fcc_compliance-IsBand_example =
    evaluate_fcc_compliance-IsBand milli_floats limits spectrum (pos 10000) 10 (30 ∷ [])
      (omega arith) refl

evaluate_fcc_compliance-IsFair_example :
    (v : Verdict milli_floats) × (evaluate_fcc_compliance milli_floats limits spectrum
        (pos 10000)
        10
        (30 ∷ [])
      ≡ some v)
    × IsFair milli_floats limits spectrum 10 (30 ∷ []) v
evaluate_fcc_compliance-IsFair_example =
    evaluate_fcc_compliance-IsFair milli_floats limits spectrum (pos 10000) 10 (30 ∷ []) refl

abbrev first : List ℤ → ℤ
first [] = pos 0
first (x ∷ xs) = x

-- One column stands for a mean and a maximum; the tone is at bin 3 and its spur at bin 35.
abbrev routines : Routines milli_floats
routines = record {
  mean = first;
  greatest = first;
  power_of_10 = λ x. x;
  log10 = λ x. x;
  median = λ n t. pos 10000;
  arg_max = λ n t. 3;
  find_peaks = λ n t height distance prominence. 3 ∷ 35 ∷ [];
}

abbrev chunk : Chunk milli_floats
chunk = record {
  n_bins = 40;
  columns = (λ i. if i == 3 then pos 60000 else if i == 35 then pos 48000 else pos 10000) ∷ [];
}

abbrev search_for : SpurSearch milli_floats
search_for = record {
  spur_min_snr_db = pos 10000;
  spur_min_sep_khz = pos 10000;
  spur_min_prominence_db = pos 6000;
}

render_spectrum_image-Agrees_example :
    Agrees milli_floats
      (fcc_reply milli_floats routines limits search_for
        (pos 2482440375)
        (pos 20000)
        5
        (last_of spectrum_avg_chunks (chunk ∷ chunk ∷ [])))
      (render_spectrum_image milli_floats routines
        (λ n t. t 0)
        (λ n t. t 3)
        limits
        search_for
        (chunk ∷ chunk ∷ [])
        (pos 2482440375))
render_spectrum_image-Agrees_example =
    render_spectrum_image-Agrees milli_floats routines (λ n t. t 0) (λ n t. t 3) limits search_for
      chunk (chunk ∷ []) (pos 2482440375) (pos 20000) 5
