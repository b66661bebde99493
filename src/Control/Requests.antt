-- ===== src/Control/Requests.antt =====
-- What the settings of src/stream_web/app.py keep through any sequence of requests.
use sdr_docker.Base.{
  ℕ, ◌≤◌, ◌≡◌, refl, false, Option, none, some, List, [], ◌∷◌, ◌⊎◌, inl, inr, arith, ◌<◌, ◌==◌, ◌≢◌,
  All,
}
use sdr_docker.Base.Int.{ℤ, pos, ◌≤ℤ◌}
use sdr_docker.Rx.{max_ℤ, min_ℤ}
use sdr_docker.Control.{
  Settings, td_target_ntw_id, before_nul, ViewMode, spectrogram, spectrum, api_view, api_lo, Action,
  start, stop, set_n_syms, unknown, api_timedomain, start_device, set_td_zoom_n_syms, set_view_mode,
  view_mode, set_td_target_ntw_id, set_td_target_chipset,
}

pub data Request : Type 0 where
  views : Option (Option ViewMode) → Request
  tunes : ℤ → Request
  acts : Action → Request

module _ (preamble_len : ℤ) where
  pub request : Request → Settings → Settings
  request (views v) s = (api_view v s).1
  request (tunes d) s = api_lo d s
  request (acts a) s = (api_timedomain preamble_len a s).1

  pub requests : List Request → Settings → Settings
  requests [] s = s
  requests (r ∷ rs) s = requests rs (request r s)

  -- What the processor relies on; the chipset is the bytes that it reads.
  pub record IsSound (s : Settings) : Type 0 where
    pub one_target : (td_target_ntw_id s ≡ none) ⊎ (before_nul s.chipset_arr ≡ [])
    pub aimed :
        (s.running_flag ≡ false) ⊎ (td_target_ntw_id s ≢ none) ⊎ (before_nul s.chipset_arr ≢ [])
    pub view_flag : s.view_value ≤ 1
    pub zoom_low : pos 1 ≤ℤ s.zoom_n_syms
    pub zoom_high : s.zoom_n_syms ≤ℤ preamble_len

  -- A chipset that is asked for does not begin with NUL.
  abbrev pub Names : Request → Type 0
  Names (views v) = Unit
  Names (tunes d) = Unit
  Names (acts (start none d)) = Unit
  Names (acts (start (some []) d)) = Unit
  Names (acts (start (some (b ∷ bs)) d)) = 0 < b
  Names (acts stop) = Unit
  Names (acts (set_n_syms v)) = Unit
  Names (acts unknown) = Unit

  start_device-IsSound :
      (d : Option (Option ℤ)) (s : Settings) → IsSound s → IsSound ((start_device d s).1)
  unfolding start_device td_target_ntw_id before_nul set_td_target_chipset set_td_target_ntw_id
  start_device-IsSound none s h = h
  start_device-IsSound (some none) s h = h
  start_device-IsSound (some (some v)) s h = record {
    one_target = inr refl;
    aimed = inr (inl (λ e. cc));
    view_flag = h.view_flag;
    zoom_low = h.zoom_low;
    zoom_high = h.zoom_high;
  }

  clamped :
      (v : ℤ)
      → pos 1 ≤ℤ preamble_len
      → (pos 1 ≤ℤ max_ℤ (pos 1) (min_ℤ v preamble_len))
        × (max_ℤ (pos 1) (min_ℤ v preamble_len) ≤ℤ preamble_len)
  clamped v h = (ground arith, ground arith)

  timedomain-IsSound :
      (a : Action) (s : Settings)
      → pos 1 ≤ℤ preamble_len
      → Names (acts a)
      → IsSound s
      → IsSound ((api_timedomain preamble_len a s).1)
  unfolding api_timedomain set_td_zoom_n_syms td_target_ntw_id before_nul set_td_target_chipset
      set_td_target_ntw_id
  timedomain-IsSound (start none d) s some_syms name h = start_device-IsSound d s h
  timedomain-IsSound (start (some []) d) s some_syms name h = start_device-IsSound d s h
  timedomain-IsSound (start (some (b ∷ bs)) d) s some_syms name h =
      let no_nul : (b == 0) ≡ false = ground arith in
      record {
        one_target = inl refl;
        aimed = inr (inr (λ e. cc (rw (no_nul) at e)));
        view_flag = h.view_flag;
        zoom_low = h.zoom_low;
        zoom_high = h.zoom_high;
      }
  timedomain-IsSound stop s some_syms name h = record {
    one_target = h.one_target;
    aimed = inl refl;
    view_flag = h.view_flag;
    zoom_low = h.zoom_low;
    zoom_high = h.zoom_high;
  }
  timedomain-IsSound (set_n_syms none) s some_syms name h = h
  timedomain-IsSound (set_n_syms (some v)) s some_syms name h = record {
    one_target = h.one_target;
    aimed = h.aimed;
    view_flag = h.view_flag;
    zoom_low = (clamped v some_syms).0;
    zoom_high = (clamped v some_syms).1;
  }
  timedomain-IsSound unknown s some_syms name h = h

  with_view : ℕ → Settings → Settings
  with_view k s = record s { view_value = k }

  with_view-IsSound : (k : ℕ) (s : Settings) → k ≤ 1 → IsSound s → IsSound (with_view k s)
  unfolding with_view td_target_ntw_id before_nul
  with_view-IsSound k s le h = record {
    one_target = h.one_target;
    aimed = h.aimed;
    view_flag = le;
    zoom_low = h.zoom_low;
    zoom_high = h.zoom_high;
  }

  view-IsSound :
      (v : Option (Option ViewMode)) (s : Settings) → IsSound s → IsSound ((api_view v s).1)
  unfolding api_view set_view_mode with_view td_target_ntw_id before_nul
  view-IsSound none s h =
      elim (view_mode s)
        as (λ m.
          IsSound (set_view_mode (elim m [ spectrum ↦ spectrogram | spectrogram ↦ spectrum ]) s)) [
            | spectrogram ↦ with_view-IsSound 1 s (omega arith) h
            | spectrum ↦ with_view-IsSound 0 s (omega arith) h
          ]
  view-IsSound (some none) s h = h
  view-IsSound (some (some spectrogram)) s h = with_view-IsSound 0 s (omega arith) h
  view-IsSound (some (some spectrum)) s h = with_view-IsSound 1 s (omega arith) h

  request-IsSound :
      (r : Request) (s : Settings)
      → pos 1 ≤ℤ preamble_len
      → Names r
      → IsSound s
      → IsSound (request r s)
  unfolding request api_lo td_target_ntw_id before_nul
  request-IsSound (views v) s some_syms name h = view-IsSound v s h
  request-IsSound (tunes d) s some_syms name h = record {
    one_target = h.one_target;
    aimed = h.aimed;
    view_flag = h.view_flag;
    zoom_low = h.zoom_low;
    zoom_high = h.zoom_high;
  }
  request-IsSound (acts a) s some_syms name h = timedomain-IsSound a s some_syms name h

  -- Through any requests, well-formed or refused, of which none asks for a chipset that begins with
  -- NUL, at most one capture target is set, one is set while the capture runs, the view is one of the
  -- two, and the zoom shows from 1 to as many symbols as the preamble has, when it has one.
  pub requests-IsSound :
      (rs : List Request) (s : Settings)
      → pos 1 ≤ℤ preamble_len
      → All Names rs
      → IsSound s
      → IsSound (requests rs s)
  unfolding requests
  requests-IsSound [] s some_syms names h = h
  requests-IsSound (r ∷ rs) s some_syms names h =
      requests-IsSound rs (request r s) some_syms names.1 (request-IsSound r s some_syms names.0 h)
