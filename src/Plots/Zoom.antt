-- ===== src/Plots/Zoom.antt =====
-- `render_symbol_zoom_plot` of src/stream_web/spectrogram.py: the part of the segment that it shows
-- and the symbols that it annotates; and the segments of `render_td_plot`.
pub mod Picture
use sdr_docker.Base.{
  ℕ, suc, ◌+◌, ◌-◌, ◌*◌, ◌/◌, ◌≤◌, ◌<◌, ◌≡◌, refl, sym, ap, subst, ◌∙◌, Bool, true, false, ◌||◌,
  Option, none, some, List, [], ◌∷◌, length, drop, take, min, max, ltb, leb, if◌then◌else◌, ◌>>=◌,
  arith, ◌⊎◌, inl, inr, IsThere, All,
}
use sdr_docker.Base.Int.{ℤ, pos, sub_ℕ, pos_part}
use sdr_docker.Base.Floats.{FloatOps}
use sdr_docker.Config.{sample_rate}
use sdr_docker.Decoder.{Protocol, total_symbols}
use sdr_docker.Timing.{Grid, correct_symbol_edges}
use sdr_docker.Timing.Edges.{length-correct_symbol_edges}
use sdr_docker.Timing.Stats.{filtfilt_takes, measure_transition_us, measure_transition_us-IsThere}
use sdr_docker.Plots.Envelope.{envelope_segments}

pub record ZoomView : Type 0 where
  pub view_start : ℕ
  pub view_end : ℕ
  pub n_sym : ℕ
  pub sym_offset : ℕ

module _ (p : Protocol) where
  -- `none` where the empty picture is returned.
  pub zoom_view : (len : ℕ) → Option ℕ → ℕ → Option ZoomView
  zoom_view len none n_symbols = none
  zoom_view len (some start_sample) n_symbols =
      let sym_len = p.samples_per_symbol in
      let n_sym = min (max 1 n_symbols) p.preamble_len in
      let sym_offset = p.preamble_len - n_sym in
      let first_sym_abs = start_sample + sym_offset * p.slot_v1 in
      let last_sym_end_abs = start_sample + p.preamble_len * p.slot_v1 in
      let margin = sym_len / 2 in
      let view_start = first_sym_abs - margin in
      let view_end = min len (last_sym_end_abs + margin) in
      if (leb view_end view_start || ltb len view_end) || ltb (view_end - view_start) sym_len
      then none
      else some (record {
        view_start = view_start;
        view_end = view_end;
        n_sym = n_sym;
        sym_offset = sym_offset;
      })

  -- The grid of a zoomed segment.
  abbrev pub zoom_grid : ZoomView → Grid
  zoom_grid v = record {
    n = v.view_end - v.view_start;
    slot = p.slot_v1;
    sym_len = p.samples_per_symbol;
  }

  pub zoom_edges : List Bool → ℕ → ZoomView → List (ℕ × ℕ)
  zoom_edges above start_sample v =
      correct_symbol_edges (zoom_grid v) above start_sample v.view_start v.n_sym v.sym_offset

  -- The positions of the annotated symbols in the preamble.
  pub preamble_indices : ℕ → List (ℕ × ℕ) → List ℕ
  preamble_indices k [] = []
  preamble_indices k (e ∷ es) = k ∷ preamble_indices (suc k) es

  -- Where the segment holds the preamble and half a symbol more, the view is the last symbols with
  -- half a symbol before them and after them.
  pub zoom_view_whole :
      (len start n off : ℕ)
      → p.samples_per_symbol ≤ p.slot_v1
      → 0 < p.samples_per_symbol
      → 0 < n
      → p.preamble_len ≡ off + n
      → start + p.preamble_len * p.slot_v1 + p.samples_per_symbol / 2 ≤ len
      → zoom_view len (some start) n
        ≡ some (record {
          view_start = start + off * p.slot_v1 - p.samples_per_symbol / 2;
          view_end = start + p.preamble_len * p.slot_v1 + p.samples_per_symbol / 2;
          n_sym = n;
          sym_offset = off;
        })
  unfolding zoom_view
  zoom_view_whole len start n off a b c d h =
      let one : min (max 1 n) p.preamble_len ≡ n = omega arith in
      let offset : p.preamble_len - n ≡ off = omega arith in
      let end : min len (start + p.preamble_len * p.slot_v1 + p.samples_per_symbol / 2)
          ≡ start + p.preamble_len * p.slot_v1 + p.samples_per_symbol / 2 =
        omega arith in
      let slots : p.preamble_len * p.slot_v1 ≡ off * p.slot_v1 + n * p.slot_v1 =
        ap (λ k. k * p.slot_v1) d ∙ grind arith in
      let some_slot : p.slot_v1 ≤ n * p.slot_v1 = grind arith in
      rw (one, offset, end) (ground arith)

  module _ (F : FloatOps) where
    open F use {Float}

    pub record SymInfo : Type 0 where
      pub preamble_idx : ℕ
      pub s : ℕ
      pub e : ℕ
      pub rise_us : Option Float
      pub fall_us : Option Float

    module _ {ℓ} {A : Type ℓ} (smooth : ℕ → List A → List Float) where
      -- The rise or the fall at an edge, measured half a gap to each side of it.
      pub transition : List A → ℕ → Bool → Option (Option Float)
      transition zoom_seg at rise =
          let meas_margin = (p.slot_v1 - p.samples_per_symbol) / 2 in
          measure_transition_us F smooth zoom_seg (sub_ℕ at meas_margin) (pos (at + meas_margin))
            sample_rate rise 32

      -- The annotations of the edges, from the symbol `idx` of the preamble on.
      -- `none` where a measurement raises.
      pub sym_infos : List A → ℕ → List (ℕ × ℕ) → Option (List SymInfo)
      unfolding transition
      sym_infos zoom_seg idx [] = some []
      sym_infos zoom_seg idx ((s, e) ∷ edges) = do
        rise ← transition zoom_seg s true
        fall ← transition zoom_seg e false
        later ← sym_infos zoom_seg (suc idx) edges
        some (record { preamble_idx = idx; s = s; e = e; rise_us = rise; fall_us = fall } ∷ later)

      -- The span around an edge, half a gap to each side and cut to the view, is too short to be
      -- measured or long enough to be filtered: below 64 samples, or above 96.
      abbrev pub CanMeasure : List A → ℕ → Type 0
      CanMeasure zoom_seg at =
          let meas_margin = (p.slot_v1 - p.samples_per_symbol) / 2 in
          let upto = min (length zoom_seg) (at + meas_margin) in
          (upto < (at - meas_margin) + 64) ⊎ ((at - meas_margin) + 96 < upto)

      abbrev pub CanMeasureAll : List A → List (ℕ × ℕ) → Type 0
      CanMeasureAll zoom_seg edges =
          All (λ q. CanMeasure zoom_seg q.0 × CanMeasure zoom_seg q.1) edges

      transition-IsThere :
          (zoom_seg : List A) (at : ℕ) (rise : Bool)
          → CanMeasure zoom_seg at
          → IsThere (transition zoom_seg at rise)
      unfolding transition
      transition-IsThere zoom_seg at rise h =
          let meas_margin = (p.slot_v1 - p.samples_per_symbol) / 2 in
          let from : pos_part (sub_ℕ at meas_margin) ≡ at - meas_margin = ground arith in
          measure_transition_us-IsThere F smooth zoom_seg (sub_ℕ at meas_margin)
            (pos (at + meas_margin)) sample_rate rise 32 (rw (from) h)

      -- Consecutive symbols from `k` on, `n` of them.
      abbrev pub InSequence : ℕ → ℕ → List SymInfo → Type 0
      InSequence k n [] = n ≡ 0
      InSequence k n (i ∷ is) = (i.preamble_idx ≡ k) × (0 < n) × InSequence (suc k) (n - 1) is

      sym_infos-InSequence :
          (zoom_seg : List A) (k : ℕ) (edges : List (ℕ × ℕ))
          → CanMeasureAll zoom_seg edges
          → (is : List SymInfo) × (sym_infos zoom_seg k edges ≡ some is)
            × InSequence k (length edges) is
      unfolding sym_infos
      sym_infos-InSequence zoom_seg k [] h = ([], refl, refl)
      sym_infos-InSequence zoom_seg k ((s, e) ∷ edges) ((hs, he), h) =
          let left : suc (length edges) - 1 ≡ length edges = omega arith in
          let (rise, e1) = transition-IsThere zoom_seg s true hs in
          let (fall, e2) = transition-IsThere zoom_seg e false he in
          let (later, e3, numbered) = sym_infos-InSequence zoom_seg (suc k) edges h in
          rw (e1, e2, e3, sym_infos)
            (
              _,
              refl,
              (refl, omega arith, subst (λ n. InSequence (suc k) n later) (sym left) numbered),
            )

      -- The view of the last `n` symbols, the preamble having `off` before them.
      abbrev pub whole_view : (start n off : ℕ) → ZoomView
      whole_view start n off = record {
        view_start = start + off * p.slot_v1 - p.samples_per_symbol / 2;
        view_end = start + p.preamble_len * p.slot_v1 + p.samples_per_symbol / 2;
        n_sym = n;
        sym_offset = off;
      }

      pub zoomed-InSequence :
          (above : List A → List Bool) (iq_segment : List A) (start n off : ℕ)
          → 0 < p.samples_per_symbol
          → p.samples_per_symbol ≤ p.slot_v1
          → 0 < n
          → p.preamble_len ≡ off + n
          → start + p.preamble_len * p.slot_v1 + p.samples_per_symbol / 2 ≤ length iq_segment
          → let v = whole_view start n off in
            let zoom_seg = drop v.view_start (take v.view_end iq_segment) in
            let edges = zoom_edges (above zoom_seg) start v in
            CanMeasureAll zoom_seg edges
            → (is : List SymInfo) × (sym_infos zoom_seg off edges ≡ some is) × InSequence off n is
      unfolding zoom_edges
      zoomed-InSequence above iq_segment start n off a b c d h spans =
          let v = whole_view start n off in
          let zoom_seg = drop v.view_start (take v.view_end iq_segment) in
          let edges = zoom_edges (above zoom_seg) start v in
          let as_many : length edges ≡ n =
            length-correct_symbol_edges (zoom_grid v) (above zoom_seg) start v.view_start n off
              (omega arith) (rw (sym d) (omega arith)) b in
          let (is, e, numbered) = sym_infos-InSequence zoom_seg off edges spans in
          (is, e, subst (λ k. InSequence off k is) as_many numbered)

module _ (F : FloatOps) (p : Protocol) where
  -- The segments of `render_td_plot`: the corrected edges, or else those of the envelope. An
  -- unknown version raises, and so does a segment that `build_crossings` cannot filter with its
  -- window of 8: `none`. The version is 1 where it is missing.
  unfoldable pub td_segments :
      List Bool → List Bool → Option ℕ → Option ℤ → Option ℕ → Option (List (ℕ × ℕ))
  unfolding filtfilt_takes
  td_segments above envelope none phy_ver num_pdu_symbols = some (envelope_segments envelope)
  td_segments above envelope (some start_sample) phy_ver num_pdu_symbols = do
    slot ← p.slot (elim phy_ver [ none ↦ pos 1 | some v ↦ v ])
    (if filtfilt_takes 8 (length above)
        then some
            (elim (correct_symbol_edges
              (record { n = length above; slot = slot; sym_len = p.samples_per_symbol }) above
              start_sample 0 (total_symbols p num_pdu_symbols) 0) [
                | [] ↦ envelope_segments envelope
                | e ∷ es ↦ e ∷ es
              ])
        else none)
