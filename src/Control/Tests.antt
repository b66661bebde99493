-- ===== src/Control/Tests.antt =====
-- A run of requests to src/stream_web/app.py from the settings that it starts with.
use sdr_docker.Base.{refl, false, none, some, List, [], ◌∷◌, inl, arith}
use sdr_docker.Base.Int.{pos}
use sdr_docker.Control.{Settings, td_target_ntw_id, before_nul, start, set_n_syms}
use sdr_docker.Control.Requests.{Request, views, tunes, acts, requests, IsSound, requests-IsSound}

abbrev initial : Settings
initial = record {
  running_flag = false;
  has_ntw_id = false;
  ntw_id_value = pos 0;
  chipset_arr = [];
  zoom_n_syms = pos 6;
  view_value = 0;
  lo_freq_hz = pos 2482440375;
}

abbrev some_requests : List Request
some_requests =
    acts (start (some (101 ∷ 115 ∷ [])) none)
    ∷ views none
    ∷ acts (set_n_syms (some (pos 99)))
    ∷ acts (start none (some (some (pos 77))))
    ∷ tunes (pos 25)
    ∷ views (some none)
    ∷ []

requests-IsSound_example : IsSound (pos 8) (requests (pos 8) some_requests initial)
unfolding td_target_ntw_id before_nul
requests-IsSound_example =
    requests-IsSound (pos 8) some_requests initial (omega arith)
      (omega arith, (tt, (tt, (tt, (tt, (tt, tt))))))
      (record {
        one_target = inl refl;
        aimed = inl refl;
        view_flag = omega arith;
        zoom_low = omega arith;
        zoom_high = omega arith;
      })
