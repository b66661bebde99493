-- ===== src/Api/Packets.antt =====
-- `/api/packets` of src/stream_web/app.py: the feed as lines. A line is the dictionary that
-- `json.dumps` gets; texts that are computed are code points.
use Prim.Native.String.{String}
use sdr_docker.Base.{
  ℕ, ◌^◌, ◌≤◌, ◌<◌, ◌≡◌, refl, sym, ap, subst, ◌∙◌, Option, none, some, List, [], ◌∷◌, ◌++◌, ltb,
  ltb→lt, lt→ltb, if◌then◌else◌, ◌>>=◌, >>=-eq-some, some-injective, IsThere, All, inl, inr,
  Bool-cases, Option-cases,
}
use sdr_docker.Base.Int.{ℤ}
use sdr_docker.Base.Floats.{FloatOps}
use sdr_docker.Base.Digits.{
  to_bytes, from_bytes, from_bytes-to_bytes, to_bytes-All, to_bytes_fits, to_bytes_overflows,
}
use sdr_docker.Base.Base64.{b64encode, b64decode, b64decode-b64encode}
use sdr_docker.Decoder.{Protocol, or_zero}
use sdr_docker.Timing.Stats.{Statistics, TimingStats}
use sdr_docker.Results.{State, take_feed}
use sdr_docker.Processor.Entries.{Entry}
use sdr_docker.Processor.Cycle.{Tools, cycle_carried}

-- `base64.b64encode(pv.to_bytes(pb, "big")).decode("ascii")`; `to_bytes` raises where the bytes do
-- not hold the value: `none`.
pub encode_payload : ℕ → ℕ → Option (List ℕ)
encode_payload pv pb = to_bytes pv pb >>= λ bs. some (b64encode bs)

-- What a client reads of a payload.
abbrev pub read_payload : List ℕ → ℕ
read_payload text = from_bytes 0 (b64decode text)

-- A payload that is encoded is read as its value.
pub read_payload-encode_payload :
    (pv pb : ℕ) {text : List ℕ} → encode_payload pv pb ≡ some text → read_payload text ≡ pv
unfolding encode_payload
read_payload-encode_payload pv pb h =
    let (bs, e, h') = >>=-eq-some (to_bytes pv pb) _ h in
    subst (λ text. read_payload text ≡ pv) (some-injective h')
      (ap (from_bytes 0) (b64decode-b64encode bs (to_bytes-All pv pb bs e))
        ∙ from_bytes-to_bytes pv pb bs e)

pub encode_payload-IsThere : (pv pb : ℕ) → pv < 256 ^ pb → IsThere (encode_payload pv pb)
unfolding encode_payload
encode_payload-IsThere pv pb h = rw (to_bytes_fits pv pb h) (_, refl)

encode_payload_overflows : (pv pb : ℕ) → 256 ^ pb ≤ pv → encode_payload pv pb ≡ none
unfolding encode_payload
encode_payload_overflows pv pb h = rw (to_bytes_overflows pv pb h) refl

pub payload_b64_of : Option ℕ → ℕ → Option (List ℕ)
unfolding encode_payload
payload_b64_of none pb = some []
payload_b64_of (some pv) pb = if ltb 0 pb then encode_payload pv pb else some []

-- The value fits the bytes that it is said to have, where it has any.
abbrev pub Fits : Option ℕ → ℕ → Type 0
Fits none pb = Unit
Fits (some pv) pb = 0 < pb → pv < 256 ^ pb

payload_b64_of-IsThere : (pv : Option ℕ) (pb : ℕ) → Fits pv pb → IsThere (payload_b64_of pv pb)
unfolding payload_b64_of
payload_b64_of-IsThere none pb h = ([], refl)
payload_b64_of-IsThere (some pv) pb h = elim (Bool-cases (ltb 0 pb)) [
  | inl bytes ↦ rw (bytes, payload_b64_of) (encode_payload-IsThere pv pb (h (ltb→lt 0 pb bytes)))
  | inr empty ↦ rw (empty, payload_b64_of) ([], refl)
]

-- What the text of a payload tells.
abbrev pub Carries : Option ℕ → ℕ → List ℕ → Type 0
Carries none pb text = text ≡ []
Carries (some pv) pb text = 0 < pb → read_payload text ≡ pv

payload_b64_of-Carries :
    (pv : Option ℕ) (pb : ℕ) {text : List ℕ} → payload_b64_of pv pb ≡ some text → Carries pv pb text
unfolding payload_b64_of
payload_b64_of-Carries none pb h = sym (some-injective h)
payload_b64_of-Carries (some pv) pb h =
    λ bytes. read_payload-encode_payload pv pb (rw (lt→ltb 0 pb bytes, payload_b64_of) at h)

module _ (F : FloatOps) where
  open F use {Float}

  pub record Line : Type 0 where
    pub device_id : List ℕ
    pub seq_num : ℕ
    pub auth_tag : ℕ
    pub phy_ver : ℤ
    pub device_type : String
    pub timestamp : Float
    pub rssi_db : Float
    pub channel_num : Option ℕ
    pub freq_offset_hz : Option Float
    pub payload_b64 : List ℕ
    pub pdu_n_corr : Option ℕ
    pub header_n_corr : Option ℕ
    pub timing : Option (TimingStats F)

  pub line_of : Entry F → Option Line
  unfolding payload_b64_of
  line_of e = do
    payload ← payload_b64_of e.payload_val (or_zero e.payload_bytes)
    some (record {
      device_id = e.ntw_id_hex;
      seq_num = e.seq_num;
      auth_tag = e.auth_tag;
      phy_ver = e.phy_ver;
      device_type = e.chipset;
      timestamp = e.unix_ts;
      rssi_db = e.energy_db;
      channel_num = e.channel_num;
      freq_offset_hz = e.freq_delta_hz;
      payload_b64 = payload;
      pdu_n_corr = e.pdu_n_corr;
      header_n_corr = e.header_n_corr;
      timing = e.timing;
    })

  pub lines_of : List (Entry F) → Option (List Line)
  lines_of [] = some []
  lines_of (e ∷ es) = do l ← line_of e; ls ← lines_of es; some (l ∷ ls)

  -- A line tells the client which packet it is and what its payload is.
  pub record Tells (e : Entry F) (l : Line) : Type 0 where
    pub device : l.device_id ≡ e.ntw_id_hex
    pub seq : l.seq_num ≡ e.seq_num
    pub tag : l.auth_tag ≡ e.auth_tag
    pub payload : Carries e.payload_val (or_zero e.payload_bytes) l.payload_b64

  abbrev pub TellAll : List (Entry F) → List Line → Type 0
  TellAll [] [] = Unit
  TellAll [] (l ∷ ls) = ⊥
  TellAll (e ∷ es) [] = ⊥
  TellAll (e ∷ es) (l ∷ ls) = Tells e l × TellAll es ls

  line_of-Tells : (e : Entry F) {l : Line} → line_of e ≡ some l → Tells e l
  unfolding line_of
  line_of-Tells e h =
      let (text, e1, h') =
        >>=-eq-some (payload_b64_of e.payload_val (or_zero e.payload_bytes)) _ h in
      subst (Tells e) (some-injective h') (record {
        device = refl;
        seq = refl;
        tag = refl;
        payload = payload_b64_of-Carries e.payload_val (or_zero e.payload_bytes) e1;
      })

  abbrev pub EntryFits : Entry F → Type 0
  EntryFits e = Fits e.payload_val (or_zero e.payload_bytes)

  line_of-IsThere : (e : Entry F) → EntryFits e → IsThere (line_of e)
  unfolding line_of
  line_of-IsThere e h =
      let (text, e1) = payload_b64_of-IsThere e.payload_val (or_zero e.payload_bytes) h in
      rw (e1) (_, refl)

  lines_of-TellAll :
      (es : List (Entry F))
      → All EntryFits es
      → (ls : List Line) × (lines_of es ≡ some ls) × TellAll es ls
  unfolding lines_of
  lines_of-TellAll [] h = ([], refl, tt)
  lines_of-TellAll (e ∷ es) (h, hs) =
      let (l, e1) = line_of-IsThere e h in
      let (ls, e2, told) = lines_of-TellAll es hs in
      rw (e1, e2, lines_of) (l ∷ ls, refl, (line_of-Tells e e1, told))

  lines_of_overflow :
      (before after : List (Entry F)) (e : Entry F) (pv : ℕ)
      → e.payload_val ≡ some pv
      → 0 < or_zero e.payload_bytes
      → 256 ^ or_zero e.payload_bytes ≤ pv
      → lines_of (before ++ (e ∷ after)) ≡ none
  unfolding lines_of line_of payload_b64_of
  lines_of_overflow [] after e pv h bytes past =
      rw
        (
          h,
          lt→ltb 0 (or_zero e.payload_bytes) bytes,
          encode_payload_overflows pv _ past,
          payload_b64_of,
          line_of,
        )
        refl
  lines_of_overflow (b ∷ before) after e pv h bytes past = elim (Option-cases (line_of b)) [
    | inl missing ↦ rw (missing, lines_of) refl
    | inr (l, e1) ↦ rw (e1, lines_of_overflow before after e pv h bytes past, lines_of) refl
  ]

  module _ (p : Protocol) (st : Statistics F) (t : Tools F p st) where
    -- The feed is copied and cleared under the lock, and made into lines after that.
    pub api_packets :
        State (cycle_carried F p st t) → Option (List Line) × State (cycle_carried F p st t)
    unfolding lines_of
    api_packets s =
        let (entries, s') = take_feed (cycle_carried F p st t) s in (lines_of entries, s')

    -- Where each payload fits its bytes, the answer tells of every entry of the feed, in order, and
    -- a client that decodes a payload gets its value; the feed is empty after it.
    pub api_packets-TellAll :
        (s : State (cycle_carried F p st t))
        → All EntryFits s.packet_feed
        → ((ls : List Line) × ((api_packets s).0 ≡ some ls) × TellAll s.packet_feed ls)
          × ((api_packets s).1.packet_feed ≡ [])
    unfolding api_packets take_feed
    api_packets-TellAll s h = (lines_of-TellAll s.packet_feed h, refl)

    -- One payload that does not fit its bytes makes the answer an error, and the feed is empty all
    -- the same: no later call returns the entries that were in it.
    pub api_packets_overflow :
        (s : State (cycle_carried F p st t)) (before after : List (Entry F)) (e : Entry F) (pv : ℕ)
        → s.packet_feed ≡ before ++ (e ∷ after)
        → e.payload_val ≡ some pv
        → 0 < or_zero e.payload_bytes
        → 256 ^ or_zero e.payload_bytes ≤ pv
        → api_packets s ≡ (none, record s { packet_feed = [] })
    unfolding api_packets take_feed
    api_packets_overflow s before after e pv feed h bytes past =
        ap (λ q. (q, record s { packet_feed = [] }))
          (ap lines_of feed ∙ lines_of_overflow before after e pv h bytes past)
