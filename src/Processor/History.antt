-- ===== src/Processor/History.antt =====
-- The boxes of the spectrogram: the detection history of `processor_main` in
-- src/stream_web/processor.py.
use Prim.Native.String.{String}
use sdr_docker.Base.{
  ◌≡◌, refl, Bool, true, ◌&&◌, Option, none, some, List, [], ◌∷◌, ◌++◌, any, arith, IsThere, inl,
  inr, Bool-cases, if◌then◌else◌, All, Option-cases,
}
use sdr_docker.Base.Int.{ℤ}
use sdr_docker.Base.Floats.{FloatOps}
use sdr_docker.Decoder.{Attempt, IsComplete}

module _ (F : FloatOps) where
  open F use {Float, frac, plus, minus, magnitude, lt, le}

  pub record Detection : Type 0 where
    pub offset_from_right : Float
    pub freq_hz : Float
    pub phy_ver : ℤ
    pub signal_duration_s : Float
    pub chipset : String

  -- One cycle later: SPEC_CHUNK_S is 0.5 and SPEC_DURATION_S is 10.
  pub age : List Detection → List Detection
  age [] = []
  age (d ∷ ds) =
      let d' = record d { offset_from_right = plus d.offset_from_right (frac 5 10) } in
      if le d'.offset_from_right (frac 10 1) then d' ∷ age ds else age ds

  pub f0_of : Attempt F → Float
  f0_of a = elim a.f0_hz [ none ↦ a.freq_hz | some f ↦ f ]

  -- Within 0.15 s and 5 kHz of it.
  pub is_same : Float → Float → Detection → Bool
  is_same new_offset freq d =
      lt (magnitude (minus d.offset_from_right new_offset)) (frac 15 100)
      && lt (magnitude (minus d.freq_hz freq)) (frac 5000 1)

  pub duration_of : Attempt F → Float
  duration_of a = elim a.signal_duration_s [
    | some t ↦ t
    | none ↦ elim a.preamble_duration_s [ none ↦ frac 5 100 | some t ↦ t ]
  ]

  -- `det["time_s"]` and `det["phy_ver"]` raise on a missing key: `none`.
  pub detection_of : Attempt F → Option Detection
  unfolding f0_of duration_of
  detection_of a = elim a.time_s [
    | none ↦ none
    | some t ↦ elim a.phy_ver [
      | none ↦ none
      | some v ↦ some (record {
        offset_from_right = minus (frac 15 10) t;
        freq_hz = f0_of a;
        phy_ver = v;
        signal_duration_s = duration_of a;
        chipset = elim a.chipset [ none ↦ "v-1" | some c ↦ c ];
      })
    ]
  ]

  -- Whether a box is there already.
  pub is_known : Detection → List Detection → Bool
  unfolding is_same
  is_known d ds = any (is_same d.offset_from_right d.freq_hz) ds

  pub add_detections : List Detection → List (Attempt F) → Option (List Detection)
  add_detections ds [] = some ds
  add_detections ds (a ∷ found) = elim (detection_of a) [
    | none ↦ none
    | some d ↦ add_detections (if is_known d ds then ds else ds ++ (d ∷ [])) found
  ]

  pub update_history : List Detection → List (Attempt F) → Option (List Detection)
  unfolding age add_detections
  update_history ds found = add_detections (age ds) found

  -- A detection is near itself, which is what the tolerances are positive for.
  pub record SelfNear : Type 0 where
    pub near : (x : Float) → lt (magnitude (minus x x)) (frac 15 100) ≡ true
    pub close : (x : Float) → lt (magnitude (minus x x)) (frac 5000 1) ≡ true

  is_known-snoc :
      (d e : Detection) (ds : List Detection)
      → is_known d ds ≡ true
      → is_known d (ds ++ (e ∷ [])) ≡ true
  unfolding is_known
  is_known-snoc d e [] h = cc
  is_known-snoc d e (x ∷ ds) h = ground (arith, is_known-snoc d e ds)

  is_known_self :
      SelfNear → (d : Detection) (ds : List Detection) → is_known d (ds ++ (d ∷ [])) ≡ true
  unfolding is_known
  is_known_self s d [] = rw (s.near d.offset_from_right, s.close d.freq_hz)
  is_known_self s d (x ∷ ds) = ground (arith, is_known_self s d ds)

  add_keeps :
      (d : Detection) (ds : List Detection) (found : List (Attempt F)) {ds' : List Detection}
      → is_known d ds ≡ true
      → add_detections ds found ≡ some ds'
      → is_known d ds' ≡ true
  unfolding add_detections
  add_keeps d ds [] h e = cc
  add_keeps d ds (a ∷ rest) h e = elim (Option-cases (detection_of a)) [
    | inl missing ↦ cc (rw (missing, add_detections) at e)
    | inr (x, here) ↦ elim (Bool-cases (is_known x ds)) [
      | inl old ↦ add_keeps d ds rest h (rw (here, old, add_detections) at e)
      | inr new ↦
          add_keeps d (ds ++ (x ∷ [])) rest (is_known-snoc d x ds h)
            (rw (here, new, add_detections) at e)
    ]
  ]

  -- What the boxes of a finished update say of one packet.
  abbrev pub HasBox : List Detection → Attempt F → Type 0
  HasBox ds a = (d : Detection) × (detection_of a ≡ some d) × (is_known d ds ≡ true)

  add_detections-HasBox :
      SelfNear
      → (ds : List Detection) (found : List (Attempt F)) (ds' : List Detection)
      → add_detections ds found ≡ some ds'
      → All (HasBox ds') found
  unfolding add_detections
  add_detections-HasBox s ds [] ds' e = tt
  add_detections-HasBox s ds (a ∷ rest) ds' e = elim (Option-cases (detection_of a)) [
    | inl missing ↦ cc (rw (missing, add_detections) at e)
    | inr (x, here) ↦ elim (Bool-cases (is_known x ds)) [
      | inl old ↦
          let e' = rw (here, old, add_detections) at e in
          ((x, here, add_keeps x ds rest old e'), add_detections-HasBox s ds rest ds' e')
      | inr new ↦
          let e' = rw (here, new, add_detections) at e in
          (
            (x, here, add_keeps x (ds ++ (x ∷ [])) rest (is_known_self s x ds) e'),
            add_detections-HasBox s (ds ++ (x ∷ [])) rest ds' e',
          )
    ]
  ]

  -- Every packet of the cycle has a box in the updated history: its own, or one near it.
  pub update_history-HasBox :
      SelfNear
      → (ds : List Detection) (found : List (Attempt F)) (ds' : List Detection)
      → update_history ds found ≡ some ds'
      → All (HasBox ds') found
  unfolding update_history
  update_history-HasBox s ds found ds' e = add_detections-HasBox s (age ds) found ds' e

  add_detections-IsThere :
      (found : List (Attempt F)) (ds : List Detection)
      → All (IsComplete F) found
      → IsThere (add_detections ds found)
  unfolding add_detections detection_of
  add_detections-IsThere [] ds h = (ds, refl)
  add_detections-IsThere (a ∷ found) ds (h, hs) =
      rw (h.time_s.1, h.phy_ver.1, add_detections, detection_of) (add_detections-IsThere found _ hs)

  pub update_history-IsThere :
      (ds : List Detection) (found : List (Attempt F))
      → All (IsComplete F) found
      → IsThere (update_history ds found)
  unfolding update_history
  update_history-IsThere ds found h = add_detections-IsThere found (age ds) h
