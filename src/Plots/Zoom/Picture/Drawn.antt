-- ===== src/Plots/Zoom/Picture/Drawn.antt =====
-- The zoomed plot of src/stream_web/spectrogram.py is drawn, and marks what it says.
use sdr_docker.Base.{
  ℕ, suc, ◌+◌, ◌-◌, ◌*◌, ◌/◌, ◌≤◌, ◌<◌, ◌≡◌, refl, ap, sym, ◌∙◌, Bool, true, false, not,
  if◌then◌else◌, Option, none, some, List, [], ◌∷◌, ◌++◌, length, drop, take, map, any, arith,
  length-drop, length-take, ◌>>=◌,
}
use sdr_docker.Base.Int.{sub_ℕ}
use sdr_docker.Base.Floats.{FloatOps}
use sdr_docker.Decoder.{Protocol}
use sdr_docker.Timing.Stats.{filtfilt_takes}
use sdr_docker.Plots.Zoom.{
  CanMeasureAll, zoom_edges, zoom_view_whole, SymInfo, InSequence, whole_view, zoomed-InSequence,
}
use sdr_docker.Plots.Zoom.Picture.{
  nperseg_sg, noverlap_sg, ZoomMark, zoom_mark, ZoomLine, rise_line, fall_line, put_known, known,
  ZoomPicture, ZoomRoutines, line_of, stats_lines, zoom_picture, draw_view, draw_symbol_zoom,
}
use sdr_docker.Plots.TdPlot.{TdInfo, not_empty}

any-map {ℓ κ} :
    {A : Type ℓ} {B : Type κ} (p : B → Bool) (f : A → B) (xs : List A)
    → any p (map f xs) ≡ any (λ x. p (f x)) xs
any-map p f [] = refl
any-map p f (x ∷ xs) = ap (λ b. if p (f x) then true else b) (any-map p f xs)

zoom_window_fits : (n : ℕ) → 16 ≤ n → (nperseg_sg n ≤ n) × (noverlap_sg n < nperseg_sg n)
unfolding nperseg_sg noverlap_sg
zoom_window_fits n h = (ground arith, ground arith)

module _ (p : Protocol) (F : FloatOps) where
  open F use {Float}

  abbrev pub is_rise : ZoomLine p F → Bool
  is_rise (rise_line mean std least greatest) = true
  is_rise (fall_line mean std least greatest) = false

  abbrev pub is_fall : ZoomLine p F → Bool
  is_fall l = not (is_rise l)

  abbrev pub is_there : Option Float → Bool
  is_there none = false
  is_there (some x) = true

  -- Marks on the symbols of the preamble from `k` on, `n` of them.
  abbrev pub Numbered : ℕ → ℕ → List (ZoomMark p F) → Type 0
  Numbered k n [] = n ≡ 0
  Numbered k n (m ∷ ms) = (m.preamble_idx ≡ k) × (0 < n) × Numbered (suc k) (n - 1) ms

  -- The last `n` symbols of the preamble are marked in order, the title says so, and there is a line on
  -- the rises just where one is marked, and on the falls likewise.
  pub record IsZoom (n : ℕ) (pic : ZoomPicture p F) : Type 0 where
    pub numbered : Numbered (p.preamble_len - n) n pic.marks
    pub first : pic.title.first ≡ p.preamble_len - n
    pub last : pic.title.last ≡ sub_ℕ p.preamble_len 1
    pub count : pic.title.count ≡ n
    pub rises : any is_rise pic.lines ≡ any (λ m. is_there m.rise_us) pic.marks
    pub falls : any is_fall pic.lines ≡ any (λ m. is_there m.fall_us) pic.marks

  abbrev is_some : List Float → Bool
  is_some [] = false
  is_some (x ∷ xs) = true

  put_known-is_some :
      (o : Option Float) (later : List Float)
      → is_some (put_known p F o later) ≡ (if is_there o then true else is_some later)
  put_known-is_some none later = refl
  put_known-is_some (some x) later = refl

  known-any :
      (value : SymInfo p F → Option Float) (is : List (SymInfo p F))
      → is_some (known p F value is) ≡ any (λ i. is_there (value i)) is
  unfolding known
  known-any value [] = refl
  known-any value (i ∷ is) =
      put_known-is_some (value i) (known p F value is)
      ∙ ap (λ b. if is_there (value i) then true else b) (known-any value is)

  module _ {ℓ} {A : Type ℓ} (z : ZoomRoutines p F A) where
    line_of-rises :
        (rs fs : List Float)
        → any is_rise (line_of p F z rise_line rs ++ line_of p F z fall_line fs) ≡ is_some rs
    line_of-rises [] [] = refl
    line_of-rises [] (f ∷ fs) = refl
    line_of-rises (r ∷ rs) fs = refl

    line_of-falls :
        (rs fs : List Float)
        → any is_fall (line_of p F z rise_line rs ++ line_of p F z fall_line fs) ≡ is_some fs
    line_of-falls [] [] = refl
    line_of-falls [] (f ∷ fs) = refl
    line_of-falls (r ∷ rs) [] = refl
    line_of-falls (r ∷ rs) (f ∷ fs) = refl

    stats_lines-rises :
        (is : List (SymInfo p F))
        → any is_rise (stats_lines p F z is)
          ≡ any (λ m. is_there m.rise_us) (map (zoom_mark p F) is)
    unfolding stats_lines zoom_mark
    stats_lines-rises is =
        line_of-rises (known p F (λ i. i.rise_us) is) (known p F (λ i. i.fall_us) is)
        ∙ (known-any (λ i. i.rise_us) is
            ∙ sym (any-map (λ m. is_there m.rise_us) (zoom_mark p F) is))

    stats_lines-falls :
        (is : List (SymInfo p F))
        → any is_fall (stats_lines p F z is)
          ≡ any (λ m. is_there m.fall_us) (map (zoom_mark p F) is)
    unfolding stats_lines zoom_mark
    stats_lines-falls is =
        line_of-falls (known p F (λ i. i.rise_us) is) (known p F (λ i. i.fall_us) is)
        ∙ (known-any (λ i. i.fall_us) is
            ∙ sym (any-map (λ m. is_there m.fall_us) (zoom_mark p F) is))

    module _ (smooth : ℕ → List A → List Float) (above : List A → List Bool) where
      marks-Numbered :
          (k n : ℕ) (is : List (SymInfo p F))
          → InSequence p F smooth k n is
          → Numbered k n (map (zoom_mark p F) is)
      unfolding zoom_mark
      marks-Numbered k n [] h = h
      marks-Numbered k n (i ∷ is) (h1, h2, h) = (h1, h2, marks-Numbered (suc k) (n - 1) is h)

      -- Where the segment holds the preamble and half a symbol after it, a slot holds a symbol, a symbol
      -- has more than sixteen samples, from one to all symbols of the preamble are asked for, and no span
      -- that is measured around an edge, half a gap to each side and cut to the view, has from 64 to 96
      -- samples, the plot is drawn without an exception, when scipy takes a window that fits the view
      -- with an overlap that fits the window: it marks the last `n_symbols` symbols of the preamble in
      -- order, its title says so, and its box has a line on the rises just where one is marked, and on
      -- the falls likewise.
      pub draw_symbol_zoom-IsZoom :
          (iq_segment : List A) (d : TdInfo F) (start_sample n_symbols : ℕ)
          → d.start_sample ≡ some start_sample
          → 16 < p.samples_per_symbol
          → p.samples_per_symbol ≤ p.slot_v1
          → 0 < n_symbols
          → n_symbols ≤ p.preamble_len
          → start_sample + p.preamble_len * p.slot_v1 + p.samples_per_symbol / 2 ≤ length iq_segment
          → ((n nperseg noverlap : ℕ)
              → nperseg ≤ n
              → noverlap < nperseg
              → z.runs n nperseg noverlap ≡ true)
          → (let v = whole_view p F smooth start_sample n_symbols (p.preamble_len - n_symbols) in
              let zoom_seg = drop v.view_start (take v.view_end iq_segment) in
              CanMeasureAll p F smooth zoom_seg (zoom_edges p (above zoom_seg) start_sample v))
          → (pic : ZoomPicture p F) × (draw_symbol_zoom p F z smooth above iq_segment
                (some d)
                n_symbols
              ≡ some (some pic))
            × IsZoom n_symbols pic
      unfolding draw_symbol_zoom draw_view zoom_picture filtfilt_takes
      draw_symbol_zoom-IsZoom iq_segment d start_sample n_symbols e a b c k h takes spans =
          let off = p.preamble_len - n_symbols in
          let split : p.preamble_len ≡ off + n_symbols = omega arith in
          let v = whole_view p F smooth start_sample n_symbols off in
          let view =
            zoom_view_whole p (length iq_segment) start_sample n_symbols off b (omega arith) c split
              h in
          let zoom_seg = drop v.view_start (take v.view_end iq_segment) in
          let slots : p.preamble_len * p.slot_v1 ≡ off * p.slot_v1 + n_symbols * p.slot_v1 =
            ap (λ m. m * p.slot_v1) split ∙ grind arith in
          let some_slot : p.slot_v1 ≤ n_symbols * p.slot_v1 = grind arith in
          let long : 24 < length zoom_seg = omega (
            arith,
            length-drop v.view_start (take v.view_end iq_segment),
            length-take v.view_end iq_segment,
            slots,
            some_slot,
          ) in
          let (fits, overlap) = zoom_window_fits (length zoom_seg) (omega arith) in
          let filtered : filtfilt_takes 8 (length zoom_seg) ≡ true = ground arith in
          let runs = takes (length zoom_seg) (nperseg_sg _) (noverlap_sg _) fits overlap in
          let (is, measured, numbered) =
            zoomed-InSequence p F smooth above iq_segment start_sample n_symbols off (omega arith) b
              c split h spans in
          (
            zoom_picture p F z zoom_seg v is (not_empty F d.chipset),
            rw (e, view) (rw (filtered) (rw (measured, ◌>>=◌) (rw (runs) refl))),
            record {
              numbered = marks-Numbered off n_symbols is numbered;
              first = refl;
              last = refl;
              count = refl;
              rises = stats_lines-rises is;
              falls = stats_lines-falls is;
            },
          )
