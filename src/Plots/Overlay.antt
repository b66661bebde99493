-- ===== src/Plots/Overlay.antt =====
-- The hop segments that `_draw_decoder_overlay` of src/stream_web/spectrogram.py draws. The hopping
-- sequences are the decoder package's. A frequency is a float; a symbol is counted from the start.
use sdr_docker.Base.{
  ℕ, zero, suc, ◌+◌, ◌-◌, ◌/◌, ◌%◌, ◌==◌, ◌≤◌, ◌<◌, ◌≡◌, refl, sym, ap, subst, ==_iff, ◌∙◌, Option,
  none, some, List, [], ◌∷◌, ◌++◌, length, get_elem?, if◌then◌else◌, ◌>>=◌, arith, inl, inr,
  Bool-cases, Option-cases, IsThere, ◌≢◌,
}
use sdr_docker.Base.Int.{pos, ◌-ℤ◌}
use sdr_docker.Base.Floats.{FloatOps}
use sdr_docker.Decoder.{Protocol, total_symbols}

-- `hop_seq.index(channel)`; `none` is a ValueError.
pub index_from : ℕ → ℕ → List ℕ → Option ℕ
index_from i channel [] = none
index_from i channel (c ∷ cs) =
    let later = index_from (suc i) channel cs in if c == channel then some i else later

-- The channel of a symbol, in a sequence that is not empty.
pub channel_at : List ℕ → ℕ → ℕ → ℕ → ℕ
channel_at hop_seq hop_index sym_per_hop sym =
    elim (get_elem? hop_seq ((hop_index + sym / sym_per_hop) % length hop_seq)) [
      | none ↦ 0
      | some c ↦ c
    ]

module _ (F : FloatOps) where
  open F use {Float, frac, of_int, plus, times, over, magnitude, nearest}

  -- (sym_start, sym_end, channel, f0)
  pub record Segment : Type 0 where
    pub sym_start : ℕ
    pub sym_end : ℕ
    pub channel : ℕ
    pub f0 : Float

  -- The loop's variables.
  pub record Walk : Type 0 where
    pub cur_ch : ℕ
    pub f0_cur : Float
    pub segments : List Segment
    pub seg_start : ℕ

  module _ (channel_of : ℕ → ℕ) (q_step : Float) where
    -- The body of the loop: a symbol on another channel closes the segment.
    pub walk_sym : ℕ → Walk → Walk
    walk_sym sym_abs w =
        let nxt = channel_of sym_abs in
        if nxt == w.cur_ch then w else record {
          cur_ch = nxt;
          f0_cur = plus w.f0_cur (times (of_int (pos nxt -ℤ pos w.cur_ch)) q_step);
          segments =
              w.segments
              ++ (record {
                sym_start = w.seg_start;
                sym_end = sym_abs;
                channel = w.cur_ch;
                f0 = w.f0_cur;
              }
                  ∷ []);
          seg_start = sym_abs;
        }

    -- `n` symbols from `sym_abs` on.
    pub walk : ℕ → ℕ → Walk → Walk
    unfolding walk_sym
    walk zero sym_abs w = w
    walk (suc n) sym_abs w = walk n (suc sym_abs) (walk_sym sym_abs w)

    pub hop_segments : ℕ → ℕ → Float → List Segment
    unfolding walk
    hop_segments total_syms channel_num f0 =
        let w =
          walk (total_syms + 1) 0
            (record { cur_ch = channel_num; f0_cur = f0; segments = []; seg_start = 0 }) in
        w.segments
        ++ (record {
          sym_start = w.seg_start;
          sym_end = total_syms;
          channel = w.cur_ch;
          f0 = w.f0_cur;
        }
            ∷ [])

    -- Segments that follow one another from symbol `a` to symbol `b`, each on the one channel that
    -- its symbols have.
    abbrev pub Tiles : ℕ → ℕ → List Segment → Type 0
    Tiles a b [] = a ≡ b
    Tiles a b (g ∷ gs) =
        (g.sym_start ≡ a)
        × (g.sym_start ≤ g.sym_end)
        × ((k : ℕ) → g.sym_start ≤ k → k < g.sym_end → channel_of k ≡ g.channel)
        × Tiles g.sym_end b gs

    Tiles-append :
        (a b c : ℕ) (gs : List Segment) (hs : List Segment)
        → Tiles a b gs
        → Tiles b c hs
        → Tiles a c (gs ++ hs)
    Tiles-append a b c [] hs h k = subst (λ x. Tiles x c hs) (sym h) k
    Tiles-append a b c (g ∷ gs) hs (h1, h2, h3, h) k =
        (h1, h2, h3, Tiles-append g.sym_end b c gs hs h k)

    -- The walk before symbol `at`.
    record IsWalk (at : ℕ) (w : Walk) : Type 0 where
      tiles : Tiles 0 w.seg_start w.segments
      behind : w.seg_start ≤ at - 1
      same : (k : ℕ) → w.seg_start ≤ k → k < at → channel_of k ≡ w.cur_ch

    walk_sym-IsWalk : (at : ℕ) (w : Walk) → IsWalk at w → IsWalk (suc at) (walk_sym at w)
    unfolding walk_sym
    walk_sym-IsWalk at w h = elim (Bool-cases (channel_of at == w.cur_ch)) [
      | inl stays ↦ rw (stays) (record {
        tiles = h.tiles;
        behind = omega (arith, h.behind);
        same = λ k lo hi. elim (Bool-cases (k == at)) [
          | inl here ↦
              ap channel_of ((==_iff k at).0 here) ∙ ((==_iff (channel_of at) w.cur_ch).0 stays)
          | inr before ↦ h.same k lo (ground arith)
        ];
      })
      | inr hops ↦ rw (hops) (record {
        tiles =
            Tiles-append 0 w.seg_start at w.segments _ h.tiles
              (refl, omega (arith, h.behind), h.same, refl);
        behind = omega arith;
        same = λ k lo hi. let e : k ≡ at = omega arith in ap channel_of e;
      })
    ]

    walk-IsWalk : (n at : ℕ) (w : Walk) → IsWalk at w → IsWalk (at + n) (walk n at w)
    unfolding walk
    walk-IsWalk zero at w h = let e : at + 0 ≡ at = omega arith in subst (λ k. IsWalk k w) (sym e) h
    walk-IsWalk (suc n) at w h =
        let e : suc at + n ≡ at + suc n = omega arith in
        subst (λ k. IsWalk k (walk n (suc at) (walk_sym at w))) e
          (walk-IsWalk n (suc at) (walk_sym at w) (walk_sym-IsWalk at w h))

    -- The segments that are drawn follow one another over all the symbols, none left out, and the
    -- channel of a segment is that of each of its symbols in the hopping sequence.
    pub hop_segments-Tiles :
        (total_syms channel_num : ℕ) (f0 : Float)
        → Tiles 0 total_syms (hop_segments total_syms channel_num f0)
    unfolding hop_segments
    hop_segments-Tiles total_syms channel_num f0 =
        let before : Walk = record {
          cur_ch = channel_num;
          f0_cur = f0;
          segments = [];
          seg_start = 0;
        } in
        let first : IsWalk 0 before = record {
          tiles = refl;
          behind = omega arith;
          same = λ k lo hi. absurd (omega arith);
        } in
        let w = walk (total_syms + 1) 0 before in
        let h : IsWalk (0 + (total_syms + 1)) w = walk-IsWalk (total_syms + 1) 0 before first in
        Tiles-append 0 w.seg_start total_syms w.segments _ h.tiles
          (refl, omega (arith, h.behind), (λ k lo hi. h.same k lo (omega arith)), refl)

  -- What the overlay reads of the decode information; `num_pdu_symbols` is 0 where the key is missing,
  -- and the inner `none` is the value `None`.
  pub record OverlayInfo : Type 0 where
    pub f0_hz : Option Float
    pub channel_num : Option ℕ
    pub hop_seq_idx : Option ℕ
    pub num_pdu_symbols : Option (Option ℕ)

  -- The constants that the package gives: the hopping sequences, the symbols of a hop, the channel
  -- spacing, and the resolution of the chipset's synthesizer, 400 Hz where it is not known.
  pub record Hopping : Type 0 where
    pub hopping_seqs : List (List ℕ)
    pub num_sym_per_hop : ℕ
    pub channel_spacing : Float
    pub synth_res : Float

  pub q_step_of : Hopping → Float
  q_step_of c =
      let res = magnitude c.synth_res in
      times (of_int (pos (nearest (over c.channel_spacing res)))) res

  -- The channel of each symbol, the first channel and its tone; `none` where nothing is drawn.
  pub hops_of : Hopping → OverlayInfo → Option ((ℕ → ℕ) × ℕ × Float)
  unfolding index_from channel_at
  hops_of c info = do
    f0 ← info.f0_hz
    channel ← info.channel_num
    idx ← info.hop_seq_idx
    hop_seq ← get_elem? c.hopping_seqs idx
    hop_index ← index_from 0 channel hop_seq
    some (channel_at hop_seq hop_index c.num_sym_per_hop, channel, f0)

  -- `some none` where nothing is drawn; a count that is `None` cannot be added: `none`.
  pub draw_decoder_overlay : Protocol → Hopping → OverlayInfo → Option (Option (List Segment))
  unfolding hops_of hop_segments q_step_of
  draw_decoder_overlay p c info = elim (hops_of c info) [
    | none ↦ some none
    | some (channel_of, channel, f0) ↦ elim info.num_pdu_symbols [
      | none ↦ some (some (hop_segments channel_of (q_step_of c) (total_symbols p none) channel f0))
      | some none ↦ none
      | some (some n) ↦
          some (some (hop_segments channel_of (q_step_of c) (total_symbols p (some n)) channel f0))
    ]
  ]

  -- A count that is a number, or missing, is drawn or nothing is.
  pub draw_decoder_overlay-IsThere :
      (p : Protocol) (c : Hopping) (info : OverlayInfo)
      → info.num_pdu_symbols ≢ some none
      → IsThere (draw_decoder_overlay p c info)
  unfolding draw_decoder_overlay
  draw_decoder_overlay-IsThere p c info h = elim (Option-cases (hops_of c info)) [
    | inl e ↦ rw (draw_decoder_overlay, e) (none, refl)
    | inr ((channel_of, channel, f0), e) ↦ elim (Option-cases info.num_pdu_symbols) [
      | inl missing ↦ rw (draw_decoder_overlay, e, missing) (_, refl)
      | inr (some n, given) ↦ rw (draw_decoder_overlay, e, given) (_, refl)
      | inr (none, given) ↦ absurd (h given)
    ]
  ]
