-- ===== src/Processor/Drops.antt =====
-- Where the samples that the RX thread lost stand in the decode chunk, and the failures that they
-- explain: `processor_main` in src/stream_web/processor.py.
use Prim.Native.String.{String}
use Prim.Native.String.{◌++◌ as text_append}
use text.Mathlib.Text.{◌==◌ as str_eq}
use native.Mathlib.Nat.{mod-eq_of_lt, mod-eq-sub-mod}
use sdr_docker.Base.{
  ℕ, ◌+◌, ◌-◌, ◌%◌, ◌≤◌, ◌<◌, ◌≡◌, ◌∙◌, true, not, ◌&&◌, ◌||◌, Option, none, some, List, [], ◌∷◌,
  map, any, arith, ◌↔◌, ◌⊎◌, inl, inr, leb, ltb, if◌then◌else◌, Bool-cases,
}
use sdr_docker.Base.Int.{pos}
use sdr_docker.Base.Floats.{FloatOps}
use sdr_docker.Config.{sample_rate}
use sdr_docker.Decoder.{Attempt}
use sdr_docker.IqRing.{back}
use sdr_docker.IqRing.Reads.{back_cases}

-- The offset of the ring position `dp` in a decode chunk that runs from `decode_start` up to `widx`.
pub drop_offset : ℕ → ℕ → ℕ → ℕ → Option ℕ
drop_offset buf_len decode_start widx dp =
    if ltb decode_start widx
    then (if leb decode_start dp && ltb dp widx then some (dp - decode_start) else none)
    else if leb decode_start dp
    then some (dp - decode_start)
    else if ltb dp widx
    then some (buf_len - decode_start + dp)
    else none

pub drop_sample_offsets : ℕ → ℕ → ℕ → List ℕ → List ℕ
drop_sample_offsets buf_len decode_start widx [] = []
drop_sample_offsets buf_len decode_start widx (dp ∷ dps) =
    elim (drop_offset buf_len decode_start widx dp) [
      | none ↦ drop_sample_offsets buf_len decode_start widx dps
      | some o ↦ o ∷ drop_sample_offsets buf_len decode_start widx dps
    ]

module _ (F : FloatOps) where
  open F use {Float, frac, of_int, times, truncate}

  abbrev to_samples : Float → ℕ
  to_samples t = truncate (times t (of_int (pos sample_rate)))

  pub pkt_start : Attempt F → ℕ
  pkt_start a = elim a.start_sample [
    | some s ↦ s
    | none ↦ to_samples (elim a.time_s [ none ↦ frac 0 1 | some t ↦ t ])
  ]

  pub pkt_end : Attempt F → ℕ
  unfolding pkt_start
  pkt_end a = pkt_start a + to_samples (elim a.signal_duration_s [ none ↦ frac 5 100 | some d ↦ d ])

  pub drop_reason : Option String → String
  drop_reason none = "sample_drop"
  drop_reason (some r) =
      if str_eq r "" || str_eq r "ok" then "sample_drop" else text_append r "+sample_drop"

  -- A failed attempt with a drop inside its span is marked, once.
  pub annotate : List ℕ → Attempt F → Attempt F
  unfolding pkt_start pkt_end drop_reason
  annotate offsets a =
      if not a.decoded && any (λ o. leb (pkt_start a) o && leb o (pkt_end a)) offsets
      then record a { sample_drop = true; reason = some (drop_reason a.reason) }
      else a

  pub annotate_all : List ℕ → List (Attempt F) → List (Attempt F)
  unfolding annotate
  annotate_all offsets attempts = map (annotate offsets) attempts

wrapped_once :
    (buf_len x : ℕ)
    → x < buf_len + buf_len
    → ((x < buf_len) × (x % buf_len ≡ x)) ⊎ ((buf_len ≤ x) × (x % buf_len ≡ x - buf_len))
wrapped_once buf_len x h = elim (Bool-cases (ltb x buf_len)) [
  | inl low ↦ inl (ground arith, mod-eq_of_lt (ground arith))
  | inr high ↦ inr (
    ground arith,
    mod-eq-sub-mod {n = x} {m = buf_len} (ground arith) ∙ mod-eq_of_lt (ground arith),
  )
]

module _ (buf_len n widx dp o start : ℕ) (some_head : 0 < widx) (head : widx ≤ buf_len)
    (lost : dp ≤ buf_len) where
  offset_straight :
      n ≤ widx
      → start ≡ widx - n
      → 0 < n
      → (dp < buf_len) ⊎ (¬ (widx ≡ n))
      → (drop_offset buf_len start widx dp ≡ some o)
        ↔ ((o < n) × ((start + o) % buf_len ≡ dp % buf_len))
  unfolding drop_offset
  offset_straight le e some_n inner = (
    (λ h. ground (arith, wrapped_once buf_len (start + o), wrapped_once buf_len dp)),
    (λ h. ground (arith, wrapped_once buf_len (start + o), wrapped_once buf_len dp)),
  )

  offset_wrapped :
      widx < n
      → n < buf_len
      → start ≡ widx + buf_len - n
      → (drop_offset buf_len start widx dp ≡ some o)
        ↔ ((o < n) × ((start + o) % buf_len ≡ dp % buf_len))
  unfolding drop_offset
  offset_wrapped lt below e = (
    (λ h. ground (arith, wrapped_once buf_len (start + o), wrapped_once buf_len dp)),
    (λ h. ground (arith, wrapped_once buf_len (start + o), wrapped_once buf_len dp)),
  )

-- For a chunk of a sample or more that is shorter than the buffer, and a head that is in the buffer or
-- at its end but not at index 0, the offset of a position is
-- given exactly where it is inside the chunk and leads back to that position, the buffer's end being
-- its index 0. The position lies in the buffer or at its end, where the chunk must not start at
-- index 0.
pub drop_offset-eq-some_iff :
    (buf_len n widx dp o : ℕ)
    → 0 < n
    → n < buf_len
    → 0 < widx
    → widx ≤ buf_len
    → dp ≤ buf_len
    → (dp < buf_len) ⊎ (¬ (widx ≡ n))
    → let start = back buf_len widx n in
      (drop_offset buf_len start widx dp ≡ some o)
      ↔ ((o < n) × ((start + o) % buf_len ≡ dp % buf_len))
drop_offset-eq-some_iff buf_len n widx dp o some_n below some_head head lost inner =
    elim (back_cases buf_len widx n head (omega arith)) [
      | inl (le, _, e) ↦ offset_straight buf_len n widx dp o _ some_head head lost le e some_n inner
      | inr (inl (lt, e)) ↦ offset_wrapped buf_len n widx dp o _ some_head head lost lt below e
      | inr (inr (e, _)) ↦ absurd (omega arith)
    ]
