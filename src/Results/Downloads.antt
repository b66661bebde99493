-- ===== src/Results/Downloads.antt =====
-- What the web page gets of a capture: `/api/td_iq`, `/api/td_info` and `/spectrogram.jpg` of
-- src/stream_web/app.py, after what the worker processes posted. A reply is its status and its body.
use sdr_docker.Base.{ℕ, ◌≡◌, refl, ◌∙◌, Option, none, some, List, [], ◌∷◌, map}
use sdr_docker.Results.{Carried, Result, State, add_entries, drain, poll_packets, take_feed, reset}
use sdr_docker.Results.Feed.{Event, drains, injects, polls, resets, step, run}
use sdr_docker.Results.Render.{Drawn, drawn, raised, td_render, spectrum_render}

module _ (c : Carried) where
  open c use {Entry, Info, Segment}

  unfoldable pub api_td_iq : State c → ℕ × Option Segment
  api_td_iq s = elim s.td_iq_segment [ none ↦ (404, none) | some seg ↦ (200, some seg) ]

  unfoldable pub api_td_info : State c → ℕ × Option Info
  api_td_info s = elim s.td_decode_info [ none ↦ (404, none) | some info ↦ (200, some info) ]

  pub spectrogram_jpg : State c → ℕ × List ℕ
  spectrogram_jpg s = elim s.latest_img [ [] ↦ (204, []) | b ∷ bs ↦ (200, b ∷ bs) ]

  -- What the workers post: the processor nothing of a capture, the renderers what they drew.
  pub data Posted : Type 0 where
    by_processor : Result c → Posted
    by_td_renderer : Drawn (List ℕ × Info) → Drawn (List ℕ) → Segment → Posted
    by_spectrum_renderer : Drawn (List ℕ) → Posted

  pub posted : Posted → Result c
  posted (by_processor r) = record r {
    td_img = none;
    td_zoom_img = none;
    td_decode_info = none;
    td_iq_segment = none;
  }
  posted (by_td_renderer plot zoom seg) = td_render c plot zoom seg
  posted (by_spectrum_renderer img) = spectrum_render c img

  pub data Happening : Type 0 where
    posts : Posted → Happening
    adds : List Entry → Happening
    asks_packets asks_reset : Happening

  pub event_of : Happening → Event c
  unfolding posted
  event_of (posts p) = drains (posted p)
  event_of (adds es) = injects es
  event_of asks_packets = polls
  event_of asks_reset = resets

  -- A capture: its plot, its decode information and its samples.
  abbrev pub Shot : Type 0
  Shot = List ℕ × Info × Segment

  -- The newest capture whose plot was drawn, after an earlier one or none.
  abbrev pub newest : Option Shot → List Happening → Option Shot
  newest o [] = o
  newest o (posts (by_td_renderer (drawn (img, info)) zoom seg) ∷ hs) =
      newest (some (img, info, seg)) hs
  newest o (_ ∷ hs) = newest o hs

  -- All that is shown of a capture is of this one.
  abbrev pub Shows : State c → Option Shot → Type 0
  Shows s none = (api_td_iq s ≡ (404, none)) × (api_td_info s ≡ (404, none))
  Shows s (some (img, info, seg)) =
      (api_td_iq s ≡ (200, some seg)) × (api_td_info s ≡ (200, some info)) × (s.td_latest_img ≡ img)

  -- What a capture's download, its information and its plot are read from.
  record SameCapture (s s' : State c) : Type 0 where
    segment : s'.td_iq_segment ≡ s.td_iq_segment
    info : s'.td_decode_info ≡ s.td_decode_info
    plot : s'.td_latest_img ≡ s.td_latest_img

  SameCapture-Shows : (s s' : State c) (o : Option Shot) → SameCapture s s' → Shows s o → Shows s' o
  unfolding api_td_iq api_td_info
  SameCapture-Shows s s' none k h = (rw (k.segment) h.0, rw (k.info) h.1)
  SameCapture-Shows s s' (some shot) k (h1, h2, h3) =
      (rw (k.segment) h1, rw (k.info) h2, k.plot ∙ h3)

  -- The state after a happening.
  abbrev pub after : Happening → State c → State c
  after h s = (step c (event_of h) s).1

  kept :
      (h : Happening) (s : State c) (o : Option Shot)
      → (after h s).td_iq_segment ≡ s.td_iq_segment
      → (after h s).td_decode_info ≡ s.td_decode_info
      → (after h s).td_latest_img ≡ s.td_latest_img
      → Shows s o
      → Shows (after h s) o
  kept h s o a b d = SameCapture-Shows s (after h s) o (record { segment = a; info = b; plot = d })

  -- Only a plot that is drawn changes what is shown of a capture.
  step-Shows :
      (h : Happening) (s : State c) (o : Option Shot)
      → Shows s o
      → Shows (after h s) (newest o (h ∷ []))
  unfolding event_of posted step drain td_render spectrum_render poll_packets take_feed reset
      add_entries api_td_iq api_td_info
  step-Shows (posts (by_td_renderer (drawn (img, info)) zoom seg)) s o k = (refl, refl, refl)
  step-Shows (posts (by_td_renderer (raised e) zoom seg)) s o k =
      kept (posts (by_td_renderer (raised e) zoom seg)) s o refl refl refl k
  step-Shows (posts (by_processor r)) s o k = kept (posts (by_processor r)) s o refl refl refl k
  step-Shows (posts (by_spectrum_renderer (drawn img))) s o k =
      kept (posts (by_spectrum_renderer (drawn img))) s o refl refl refl k
  step-Shows (posts (by_spectrum_renderer (raised e))) s o k =
      kept (posts (by_spectrum_renderer (raised e))) s o refl refl refl k
  step-Shows (adds es) s o k = kept (adds es) s o refl refl refl k
  step-Shows asks_packets s o k = kept asks_packets s o refl refl refl k
  step-Shows asks_reset s o k = kept asks_reset s o refl refl refl k

  newest-cons :
      (o : Option Shot) (h : Happening) (hs : List Happening)
      → newest o (h ∷ hs) ≡ newest (newest o (h ∷ [])) hs
  newest-cons o (posts (by_processor r)) hs = refl
  newest-cons o (posts (by_td_renderer (drawn (img, info)) zoom seg)) hs = refl
  newest-cons o (posts (by_td_renderer (raised e) zoom seg)) hs = refl
  newest-cons o (posts (by_spectrum_renderer img)) hs = refl
  newest-cons o (adds es) hs = refl
  newest-cons o asks_packets hs = refl
  newest-cons o asks_reset hs = refl

  -- Whatever the workers post, the mock injector adds and clients ask for, the two downloads and the
  -- time-domain plot belong to one and the same capture, the newest whose plot was drawn; while there
  -- is none, both downloads are answered with the status 404.
  pub run-Shows :
      (hs : List Happening) (s : State c) (o : Option Shot)
      → Shows s o
      → Shows (run c (map event_of hs) s).1 (newest o hs)
  unfolding run
  run-Shows [] s o k = k
  run-Shows (h ∷ hs) s o k =
      rw (newest-cons o h hs) (run-Shows hs (after h s) (newest o (h ∷ [])) (step-Shows h s o k))
