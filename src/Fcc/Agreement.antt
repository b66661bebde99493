-- ===== src/Fcc/Agreement.antt =====
-- The spectrum view of src/stream_web/spectrogram.py and `/api/fcc_check` of src/stream_web/app.py on
-- the same chunks.
use sdr_docker.Base.{
  ℕ, ◌≡◌, refl, ap, sym, Bool, true, false, Option, none, some, List, [], ◌∷◌, ◌++◌, length, map,
  All, All-append, IsThere, inl, inr, Bool-cases, abs_diff, leb, ◌==◌, ==_iff, ◌⊎◌, max,
}
use sdr_docker.Base.Int.{ℤ, pos}
use sdr_docker.Base.Floats.{FloatOps}
use sdr_docker.Config.{spectrum_avg_chunks}
use sdr_docker.Results.{last_of}
use sdr_docker.Fcc.{
  Limits, SpurSearch, Trace, Spur, Spurs, Verdict, worse, score, score_all, no_spurs, verdict,
  evaluate_fcc_compliance,
}
use sdr_docker.Fcc.Spectrum.{
  Routines, Chunk, trace_of, evaluate, SpurInfo, spur_info, Judgement, judgement, SpuriousEmissions,
  FccReply, no_signal, judged, fcc_reply,
}
use sdr_docker.Fcc.Overlay.{
  colour_of, Row, carrier_row, bandwidth_row, spacing_row, spurs_row, no_spurs_row, within_row,
  over_row, SpurMark, spur_mark, spur_rows, Overlay, million, draw_fcc_tone_overlay, Rendering,
  empty, raised, picture, view_of, render_spectrum_image,
}

module _ (F : FloatOps) where
  open F use {Float, frac, plus, over, lt, minus}

  -- The loop over the candidates keeps the worst spur as soon as there is one.
  abbrev Tells : List (Spur F) → (n_spur_fail : ℕ) → (worst_dbc : Option Float) → Type 0
  Tells [] n worst = (n ≡ 0) × (worst ≡ none)
  Tells (s ∷ ss) n worst = IsThere worst

  Tells-append :
      (ss : List (Spur F)) (s : Spur F) (n : ℕ) (w : Float) → Tells (ss ++ (s ∷ [])) n (some w)
  Tells-append [] s n w = (w, refl)
  Tells-append (r ∷ rs) s n w = (w, refl)

  worse-IsThere : (d : Float) (o : Option Float) → IsThere (worse F d o)
  worse-IsThere d none = (d, refl)
  worse-IsThere d (some w) = elim (Bool-cases (lt w d)) [
    | inl worse_now ↦ rw (worse_now) (d, refl)
    | inr as_before ↦ rw (as_before) (w, refl)
  ]

  -- Each spur's frequency is that of its bin.
  abbrev ArePlaced : Trace F → List (Spur F) → Type 0
  ArePlaced t = All (λ p. p.freq_hz ≡ t.freqs_hz p.idx)

  record IsPlaced (t : Trace F) (s : Spurs F) : Type 0 where
    places : ArePlaced t s.spurs
    tells : Tells s.spurs s.n_spur_fail s.worst_dbc

  module _ (lim : Limits F) (t : Trace F) where
    score-IsPlaced :
        (peak guard p : ℕ) (s : Spurs F) → IsPlaced t s → IsPlaced t (score F lim t peak guard p s)
    unfolding score
    score-IsPlaced peak guard p s h = elim (Bool-cases (leb (abs_diff p peak) guard)) [
      | inl skirt ↦ rw (skirt) h
      | inr out ↦
          let dbc = minus (t.avg_db p) (t.avg_db peak) in
          let (w, e) = worse-IsThere dbc s.worst_dbc in
          rw (out) (record {
            places =
                All-append (λ q. Spur.freq_hz q ≡ t.freqs_hz (Spur.idx q)) s.spurs _ h.places
                  (refl, tt);
            tells = rw (e) (Tells-append s.spurs _ _ w);
          })
    ]

    score_all-IsPlaced :
        (peak guard : ℕ) (ps : List ℕ) (s : Spurs F)
        → IsPlaced t s
        → IsPlaced t (score_all F lim t peak guard ps s)
    unfolding score_all
    score_all-IsPlaced peak guard [] s h = h
    score_all-IsPlaced peak guard (p ∷ ps) s h =
        score_all-IsPlaced peak guard ps (score F lim t peak guard p s)
          (score-IsPlaced peak guard p s h)

    verdict-IsPlaced :
        (noise_db : Float) (peak : ℕ) (cand : List ℕ)
        → IsPlaced t (Verdict.found (verdict F lim t noise_db peak cand))
    unfolding verdict
    verdict-IsPlaced noise_db peak cand =
        score_all-IsPlaced peak _ cand (no_spurs F) (record { places = tt; tells = (refl, refl) })

  -- What the rows of a picture say of the spurs: whether they pass, how many there are, how many are
  -- over the limit, and the worst.
  pub spurs_verdict : List (Row F) → Option Bool
  spurs_verdict [] = none
  spurs_verdict (within_row l ∷ rows) = some true
  spurs_verdict (over_row n l ∷ rows) = some false
  spurs_verdict (r ∷ rows) = spurs_verdict rows

  pub spurs_found : List (Row F) → Option ℕ
  spurs_found [] = none
  spurs_found (spurs_row n w ∷ rows) = some n
  spurs_found (no_spurs_row ∷ rows) = some 0
  spurs_found (r ∷ rows) = spurs_found rows

  pub spurs_over : List (Row F) → Option ℕ
  spurs_over [] = none
  spurs_over (within_row l ∷ rows) = some 0
  spurs_over (over_row n l ∷ rows) = some n
  spurs_over (r ∷ rows) = spurs_over rows

  pub worst_shown : List (Row F) → Option Float
  worst_shown [] = none
  worst_shown (spurs_row n w ∷ rows) = some w
  worst_shown (r ∷ rows) = worst_shown rows

  -- The rows say what the reply says of the spurious emissions.
  pub record TellsOf (e : SpuriousEmissions F) (rows : List (Row F)) : Type 0 where
    pub verdict_row : spurs_verdict rows ≡ some e.passes
    pub counted : spurs_found rows ≡ some e.n_spurs
    pub failing : spurs_over rows ≡ some e.n_over_limit
    pub worst : worst_shown rows ≡ e.worst_dbc

  spur_rows-TellsOf :
      (limit_dbc limit : Float) (spurs : List (Spur F)) (n : ℕ) (worst_dbc : Option Float)
      → Tells spurs n worst_dbc
      → (rows : List (Row F)) × (spur_rows F limit_dbc
            (record { spurs = spurs; n_spur_fail = n; worst_dbc = worst_dbc })
          ≡ some rows)
        × TellsOf
            (record {
              passes = n == 0;
              n_spurs = length spurs;
              n_over_limit = n;
              worst_dbc = worst_dbc;
              limit_dbc = limit;
            })
            rows
  unfolding spur_rows spurs_verdict spurs_found spurs_over worst_shown
  spur_rows-TellsOf limit_dbc limit [] n worst_dbc (none_fails, no_worst) = (
    _,
    refl,
    rw (none_fails, no_worst)
        (record { verdict_row = refl; counted = refl; failing = refl; worst = refl }),
  )
  spur_rows-TellsOf limit_dbc limit (s ∷ ss) n worst_dbc (w, e) =
      rw (e) (elim (Bool-cases (n == 0)) [
        | inl all_pass ↦ (
          _,
          refl,
          rw (all_pass) (record {
            verdict_row = refl;
            counted = refl;
            failing = ap some (sym ((==_iff n 0).0 all_pass));
            worst = refl;
          }),
        )
        | inr some_fail ↦ (
          _,
          refl,
          rw (some_fail)
              (record { verdict_row = refl; counted = refl; failing = refl; worst = refl }),
        )
      ])

  -- The mark of a spur of the reply.
  pub mark_of : SpurInfo F → SpurMark F
  mark_of s = record {
    at_mhz = over s.freq_hz (million F);
    power_db = s.power_db;
    text_db = plus s.power_db (frac 15 10);
    dbc = s.dbc;
    colour = colour_of s.passes;
  }

  spur_marks-mark_of :
      (t : Trace F) (spurs : List (Spur F))
      → ArePlaced t spurs
      → map (spur_mark F (λ i. over (t.freqs_hz i) (million F))) spurs
        ≡ map mark_of (map (spur_info F) spurs)
  unfolding spur_mark mark_of spur_info
  spur_marks-mark_of t [] h = refl
  spur_marks-mark_of t (s ∷ ss) h = rw (h.0, spur_marks-mark_of t ss h.1)

  -- A picture's overlay says what a reply says: the same verdicts, the same carrier and band, and the
  -- same spurs, each at its frequency and in the colour of its verdict.
  pub record Says (j : Judgement F) (o : Overlay F) : Type 0 where
    pub overall : o.box_colour ≡ colour_of j.passes
    pub spacing : o.channel_colour ≡ colour_of j.occupied_bandwidth.passes
    pub carrier : o.carrier_mhz ≡ over j.carrier.freq_hz (million F)
    pub marks : o.spur_marks ≡ map mark_of j.spurs
    pub later : List (Row F)
    pub rows :
        o.rows
        ≡ carrier_row (over j.carrier.freq_hz (million F)) j.carrier.power_db
          ∷ bandwidth_row (over j.occupied_bandwidth.bw_20db_hz (frac 1000 1))
          ∷ spacing_row j.occupied_bandwidth.passes
              (over j.occupied_bandwidth.channel_spacing_hz (frac 1000 1))
          ∷ later
    pub tells : TellsOf j.spurious_emissions later

  verdict-Says :
      (lim : Limits F) (t : Trace F) (lo_freq_hz : ℤ) (noise_db : Float) (peak : ℕ) (cand : List ℕ)
      → let v = verdict F lim t noise_db peak cand in
        (o : Overlay F) × (draw_fcc_tone_overlay F (λ i. over (t.freqs_hz i) (million F)) v
          ≡ some o)
        × Says (judgement F lo_freq_hz v) o
  unfolding draw_fcc_tone_overlay judgement verdict
  verdict-Says lim t lo_freq_hz noise_db peak cand =
      let v = verdict F lim t noise_db peak cand in
      let h = verdict-IsPlaced lim t noise_db peak cand in
      let (later, e, tells) =
        spur_rows-TellsOf v.spur_limit_dbc (minus (F.of_int (pos 0)) v.spur_limit_dbc) v.found.spurs
          v.found.n_spur_fail v.found.worst_dbc h.tells in
      rw (e) (
        _,
        refl,
        record {
          overall = refl;
          spacing = refl;
          carrier = refl;
          marks = spur_marks-mark_of t v.found.spurs h.places;
          later = later;
          rows = refl;
          tells = tells;
        },
      )

  -- A reply and a picture agree: no tone and no overlay, or a judgement and an overlay that says it.
  pub Agrees : FccReply F → Rendering F → Type 0
  Agrees (no_signal info) (picture p) = p.overlay ≡ none
  Agrees (judged j info) (picture p) = (o : Overlay F) × (p.overlay ≡ some o) × Says j o
  Agrees (no_signal info) empty = ⊥
  Agrees (no_signal info) raised = ⊥
  Agrees (judged j info) empty = ⊥
  Agrees (judged j info) raised = ⊥

  module _ (np : Routines F) (percentile_2 : ℕ → (ℕ → Float) → Float)
      (highest : ℕ → (ℕ → Float) → Float) (lim : Limits F) (search : SpurSearch F) where
    -- An evaluation finds no tone or gives a verdict.
    evaluate-cases :
        (t : Trace F)
        → (evaluate F np lim search t ≡ none)
          ⊎ ((noise_db : Float) × (peak : ℕ) × (cand : List ℕ) × (evaluate F np lim search t
                ≡ some (verdict F lim t noise_db peak cand)))
    unfolding evaluate evaluate_fcc_compliance
    evaluate-cases t =
        elim (Bool-cases (
          lt (minus (t.avg_db (np.arg_max t.bins t.avg_db)) (np.median t.bins t.avg_db))
            lim.min_snr_db)) [
              | inl weak ↦ inl (rw (weak) refl)
              | inr strong ↦ inr (
                np.median t.bins t.avg_db,
                np.arg_max t.bins t.avg_db,
                np.find_peaks t.bins t.avg_db
                    (plus (np.median t.bins t.avg_db) search.spur_min_snr_db)
                    (max 1
                      (F.truncate (over (F.times search.spur_min_sep_khz (frac 1000 1)) t.bin_hz)))
                    search.spur_min_prominence_db,
                rw (strong) refl,
              )
            ]

    -- The rendering of chunks, of which there is one at least, gives a picture, and the overlay of the
    -- picture agrees with the reply of `/api/fcc_check` on the chunks that are averaged, the last ten.
    pub render_spectrum_image-Agrees :
        (c : Chunk F) (cs : List (Chunk F)) (lo_freq_hz : ℤ) (rx_gain_db : Float) (seconds : ℕ)
        → Agrees
            (fcc_reply F np lim search lo_freq_hz rx_gain_db seconds
              (last_of spectrum_avg_chunks (c ∷ cs)))
            (render_spectrum_image F np percentile_2 highest lim search (c ∷ cs) lo_freq_hz)
    unfolding render_spectrum_image fcc_reply Agrees view_of trace_of
    render_spectrum_image-Agrees c cs lo_freq_hz rx_gain_db seconds =
        let t = trace_of F np (last_of spectrum_avg_chunks (c ∷ cs)) lo_freq_hz in
        elim (evaluate-cases t) [
          | inl no_tone ↦ rw (no_tone, Agrees, fcc_reply, render_spectrum_image) refl
          | inr (noise_db, peak, cand, tone) ↦
              let (o, drawn, says) = verdict-Says lim t lo_freq_hz noise_db peak cand in
              rw (tone, Agrees, fcc_reply, render_spectrum_image)
                (rw (drawn, Agrees, render_spectrum_image) (o, refl, says))
        ]
