-- ===== src/Results/Render.antt =====
-- The renderer processes' loop bodies: `td_renderer_main` of src/stream_web/td_renderer.py and
-- `spectrum_renderer_main` of src/stream_web/spectrum_renderer.py. The drawing itself is a
-- parameter: each call gives its picture or the message of the exception it raises.
use sdr_docker.Base.{ℕ, ◌≡◌, refl, Option, none, some, List, [], ◌∷◌, ◌++◌}
use sdr_docker.Results.{Carried, Result, State, drain, merge_entries, or_old_bytes}

pub data Drawn {ℓ} (A : Type ℓ) : Type ℓ where
  drawn : A → Drawn A
  raised : List ℕ → Drawn A

-- "Render error: "
abbrev pub render_error : List ℕ
render_error = 82 ∷ 101 ∷ 110 ∷ 100 ∷ 101 ∷ 114 ∷ 32 ∷ 101 ∷ 114 ∷ 114 ∷ 111 ∷ 114 ∷ 58 ∷ 32 ∷ []

-- `zoom or None`
abbrev pub or_none : Drawn (List ℕ) → Option (List ℕ)
or_none (drawn []) = none
or_none (drawn (b ∷ bs)) = some (b ∷ bs)
or_none (raised e) = none

module _ (c : Carried) where
  open c use {Info, Segment}

  abbrev pub blank : Result c
  blank = record {
    img = none;
    detections = none;
    decode_entries = none;
    stats = none;
    chipset_stats = none;
    td_img = none;
    td_zoom_img = none;
    td_status = none;
    td_decode_info = none;
    td_iq_segment = none;
  }

  -- What a time-domain job sends back: the plot comes with the decode information it is shown with.
  unfoldable pub td_render : Drawn (List ℕ × Info) → Drawn (List ℕ) → Segment → Result c
  td_render (drawn (img, info)) zoom seg = record blank {
    td_img = some img;
    td_decode_info = some info;
    td_iq_segment = some seg;
    td_zoom_img = or_none zoom;
  }
  td_render (raised e) zoom seg = record blank {
    td_status = some (render_error ++ e);
    td_zoom_img = or_none zoom;
  }

  unfoldable pub spectrum_render : Drawn (List ℕ) → Result c
  spectrum_render (drawn img) = record blank { img = some img }
  spectrum_render (raised e) = blank

  -- After a failed plot is drained, the status names the error, and the plot, the decode
  -- information, the IQ segment, the display image and the packet feed are what they were; an
  -- empty or failed zoom leaves the zoom image too.
  pub drain-td_render_raised :
      (e : List ℕ) (zoom : Drawn (List ℕ)) (seg : Segment) (s : State c)
      → or_none zoom ≡ none
      → drain c (td_render (raised e) zoom seg) s ≡ record s { td_status = render_error ++ e }
  unfolding td_render drain merge_entries
  drain-td_render_raised e zoom seg s h = rw (h) refl

  -- A drained spectrum replaces the display image when it was drawn and is not empty, and in every
  -- other case changes nothing.
  pub drain-spectrum_render :
      (d : Drawn (List ℕ)) (s : State c)
      → drain c (spectrum_render d) s
        ≡ record s { latest_img = or_old_bytes c (or_none d) s.latest_img }
  unfolding spectrum_render drain merge_entries
  drain-spectrum_render (drawn []) s = refl
  drain-spectrum_render (drawn (b ∷ bs)) s = refl
  drain-spectrum_render (raised e) s = refl
