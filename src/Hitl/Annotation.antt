-- ===== src/Hitl/Annotation.antt =====
-- The annotation of a decode entry: `annotation_data`, `_hex32` and `_plain` of
-- src/stream_web/hitl.py. A dictionary is a list of keys and values; a computed text is a list of
-- code points. The UTC text of a time is Python's.
use Prim.Native.String.{String}
use text.Mathlib.Text.{◌==◌ as str_eq}
use text.Mathlib.TextEquality.{eq_iff}
use sdr_docker.Base.{
  ℕ, ◌*◌, ◌==◌, ◌≡◌, refl, subst, ◌∙◌, Bool, true, false, not, ◌&&◌, Option, none, some, List, [],
  ◌∷◌, any, if◌then◌else◌, arith, All, inl, inr, Bool-cases, Option-cases, some-injective,
}
use sdr_docker.Base.Int.{ℤ, pos}
use sdr_docker.Base.Floats.{FloatOps}
use sdr_docker.Base.Digits.{
  format_hex, format_hex_ℤ, read_hex, read_hex_ℤ, read_hex-format_hex, read_hex_ℤ-format_hex_ℤ,
}
use sdr_docker.Decoder.{or_zero}
use sdr_docker.Processor.Entries.{Entry}

module _ (F : FloatOps) (is_finite : F.Float → Bool) (utc : F.Float → List ℕ) where
  open F use {Float}

  pub data Value : Type 0 where
    word : String → Value
    digits : List ℕ → Value
    number : ℤ → Value
    real : Float → Value

  abbrev as_number : Option ℕ → Option Value
  as_number none = none
  as_number (some n) = some (number (pos n))

  abbrev as_real : Option Float → Option Value
  as_real none = none
  as_real (some x) = some (real x)

  abbrev as_time : Option Float → Option Value
  as_time none = none
  as_time (some x) = some (digits (utc x))

  abbrev as_text : Option String → Option Value
  as_text none = none
  as_text (some s) = some (word s)

  -- `_hex32`, of a value that is not `None`
  pub hex32 : ℤ → List ℕ
  hex32 value = format_hex_ℤ false 8 value

  abbrev payload_field : Option ℕ → ℕ → List (String × Option Value)
  payload_field none pb = []
  payload_field (some payload) pb =
      ("payload_hex", some (digits (format_hex false (2 * pb) payload))) ∷ []

  -- The dictionary before it is filtered.
  pub fields : Entry F → Option ℕ → Option String → List (String × Option Value)
  unfolding hex32
  fields e center_freq_hz sdr_type =
      ("evt", some (word "sat_rx"))
      ∷ ("seq", some (number (pos e.seq_num)))
      ∷ ("eid", some (digits (hex32 e.ntw_id)))
      ∷ ("tag", some (digits (hex32 (pos e.auth_tag))))
      ∷ ("phy_ver", some (number e.phy_ver))
      ∷ ("ch0", as_number e.channel_num)
      ∷ ("rx_start_utc", as_time e.rx_start_unix_ts)
      ∷ ("decoded_utc", some (digits (utc e.unix_ts)))
      ∷ ("energy_db", some (real e.energy_db))
      ∷ ("freq_delta_hz", as_real e.freq_delta_hz)
      ∷ ("chipset", if str_eq e.chipset "" then none else some (word e.chipset))
      ∷ ("rs_corr_header", as_number e.header_n_corr)
      ∷ ("rs_corr_pdu", as_number e.pdu_n_corr)
      ∷ ("num_pdu_symbols", as_number e.num_pdu_symbols)
      ∷ ("payload_bytes", as_number e.payload_bytes)
      ∷ ("sdr", as_text sdr_type)
      ∷ ("center_freq_hz", as_number center_freq_hz)
      ∷ payload_field e.payload_val (or_zero e.payload_bytes)

  -- `_plain`: NaN and the infinities become `None`.
  pub plain : Option Value → Option Value
  plain none = none
  plain (some (word s)) = some (word s)
  plain (some (digits cs)) = some (digits cs)
  plain (some (number n)) = some (number n)
  plain (some (real x)) = if is_finite x then some (real x) else none

  pub without_none : List (String × Option Value) → List (String × Value)
  unfolding plain
  without_none [] = []
  without_none ((k, v) ∷ fs) = elim (plain v) [
    | none ↦ without_none fs
    | some w ↦ (k, w) ∷ without_none fs
  ]

  pub annotation_data : Entry F → Option ℕ → Option String → List (String × Value)
  unfolding fields without_none
  annotation_data e center_freq_hz sdr_type = without_none (fields e center_freq_hz sdr_type)

  -- `post`: whether it returns. `deliver` is the exchange with the harvester over its socket: it
  -- raises, or gives the status and whether the reply is JSON.
  pub post : (List (String × Value) → Option (ℕ × Bool)) → Option ℕ → Option String → Entry F → Bool
  unfolding annotation_data
  post deliver center_freq_hz sdr_type e =
      elim (deliver (annotation_data e center_freq_hz sdr_type)) [
        | none ↦ false
        | some (status, is_json) ↦ status == 200 && is_json
      ]

  -- `data.get(k)`
  abbrev pub value_of : String → List (String × Value) → Option Value
  value_of k [] = none
  value_of k ((j, v) ∷ fs) = if str_eq j k then some v else value_of k fs

  abbrev field_of : String → List (String × Option Value) → Option Value
  field_of k [] = none
  field_of k ((j, v) ∷ fs) = if str_eq j k then v else field_of k fs

  abbrev has_key : String → List (String × Option Value) → Bool
  has_key k fs = any (λ f. str_eq f.0 k) fs

  abbrev distinct_keys : List (String × Option Value) → Bool
  distinct_keys [] = true
  distinct_keys ((k, v) ∷ fs) = not (has_key k fs) && distinct_keys fs

  -- A value that JSON has.
  abbrev pub IsPlain : String × Value → Type 0
  IsPlain (k, word s) = Unit
  IsPlain (k, digits cs) = Unit
  IsPlain (k, number n) = Unit
  IsPlain (k, real x) = is_finite x ≡ true

  plain-IsPlain : (k : String) (v : Option Value) {w : Value} → plain v ≡ some w → IsPlain (k, w)
  unfolding plain
  plain-IsPlain k none e = cc
  plain-IsPlain k (some (word s)) e = subst (λ w. IsPlain (k, w)) (some-injective e) tt
  plain-IsPlain k (some (digits cs)) e = subst (λ w. IsPlain (k, w)) (some-injective e) tt
  plain-IsPlain k (some (number n)) e = subst (λ w. IsPlain (k, w)) (some-injective e) tt
  plain-IsPlain k (some (real x)) e = elim (Bool-cases (is_finite x)) [
    | inl finite ↦ subst (λ w. IsPlain (k, w)) (some-injective (rw (finite) at e)) finite
    | inr other ↦ cc (rw (other) at e)
  ]

  without_none-IsPlain : (fs : List (String × Option Value)) → All IsPlain (without_none fs)
  unfolding without_none
  without_none-IsPlain [] = tt
  without_none-IsPlain ((k, v) ∷ fs) = elim (Option-cases (plain v)) [
    | inl e ↦ rw (e, All) (without_none-IsPlain fs)
    | inr (w, e) ↦ rw (e, All) (plain-IsPlain k v e, without_none-IsPlain fs)
  ]

  value_of_absent :
      (k : String) (fs : List (String × Option Value))
      → has_key k fs ≡ false
      → value_of k (without_none fs) ≡ none
  unfolding without_none
  value_of_absent k [] h = refl
  value_of_absent k ((j, v) ∷ fs) h =
      let later = value_of_absent k fs (ground arith) in
      let other : str_eq j k ≡ false = ground arith in
      elim (Option-cases (plain v)) [
        | inl e ↦ rw (e, value_of) later
        | inr (w, e) ↦ rw (e, value_of, other) later
      ]

  value_of-without_none :
      (k : String) (fs : List (String × Option Value))
      → distinct_keys fs ≡ true
      → value_of k (without_none fs) ≡ plain (field_of k fs)
  unfolding without_none
  value_of-without_none k [] h = refl
  value_of-without_none k ((j, v) ∷ fs) h = elim (Bool-cases (str_eq j k)) [
    | inl same ↦
        let it : j ≡ k = (eq_iff j k).0 same in
        let absent : has_key k fs ≡ false = subst (λ i. has_key i fs ≡ false) it (ground arith) in
        elim (Option-cases (plain v)) [
          | inl e ↦ rw (same, e, value_of) (value_of_absent k fs absent)
          | inr (w, e) ↦ rw (same, e, value_of, same) refl
        ]
    | inr other ↦
        let later = value_of-without_none k fs (ground arith) in
        elim (Option-cases (plain v)) [
          | inl e ↦ rw (other, e, value_of) later
          | inr (w, e) ↦ rw (other, e, value_of, other) later
        ]
  ]

  distinct_fields :
      (e : Entry F) (center_freq_hz : Option ℕ) (sdr_type : Option String)
      → distinct_keys (fields e center_freq_hz sdr_type) ≡ true
  unfolding fields
  distinct_fields e center_freq_hz sdr_type = elim (Option-cases e.payload_val) [
    | inl h ↦ rw (h) refl
    | inr (payload, h) ↦ rw (h) refl
  ]

  -- What the harvester's join reads of an annotation.
  pub record Joins (e : Entry F) (fs : List (String × Value)) : Type 0 where
    pub seq : value_of "seq" fs ≡ some (number (pos e.seq_num))
    pub eid : (cs : List ℕ) × (value_of "eid" fs ≡ some (digits cs)) × (read_hex_ℤ cs ≡ e.ntw_id)
    pub tag : (cs : List ℕ) × (value_of "tag" fs ≡ some (digits cs)) × (read_hex 0 cs ≡ e.auth_tag)
    pub payload :
        (v : ℕ)
        → e.payload_val ≡ some v
        → (cs : List ℕ) × (value_of "payload_hex" fs ≡ some (digits cs)) × (read_hex 0 cs ≡ v)

  -- An annotation has no value that JSON lacks, and a reader gets the sequence number, the id, the
  -- tag and the payload of the entry out of it.
  pub annotation_data-Joins :
      (e : Entry F) (center_freq_hz : Option ℕ) (sdr_type : Option String)
      → let out = annotation_data e center_freq_hz sdr_type in All IsPlain out × Joins e out
  unfolding annotation_data fields plain hex32 format_hex_ℤ
  annotation_data-Joins e center_freq_hz sdr_type =
      let fs = fields e center_freq_hz sdr_type in
      let distinct = distinct_fields e center_freq_hz sdr_type in
      (
        without_none-IsPlain fs,
        record {
          seq = value_of-without_none "seq" fs distinct;
          eid = (
            hex32 e.ntw_id,
            value_of-without_none "eid" fs distinct,
            read_hex_ℤ-format_hex_ℤ false 8 e.ntw_id,
          );
          tag = (
            format_hex false 8 e.auth_tag,
            value_of-without_none "tag" fs distinct ∙ refl,
            read_hex-format_hex false 8 e.auth_tag,
          );
          payload = λ v h. (
            format_hex false (2 * or_zero e.payload_bytes) v,
            value_of-without_none "payload_hex" fs distinct ∙ rw (h) refl,
            read_hex-format_hex false _ v,
          );
        },
      )
