-- ===== src/Analysis/Order.antt =====
-- The order of what `decode_packets` of src/stream_web/analysis.py reports.
use sdr_docker.Base.{
  ℕ, ◌+◌, ◌≤◌, ◌≡◌, refl, Bool, List, [], ◌∷◌, length, ltb, Bool-cases, inl, inr, arith, All,
  All-imp, ltb→lt, ltb-false→le,
}
use sdr_docker.Base.Floats.{FloatOps}
use sdr_docker.Config.{decode_samples}
use sdr_docker.Analysis.{
  PacketKeys, Packet, Found, put, sort, decode_windows, window_offsets, decode_packets,
}

module _ (F : FloatOps) (keys : PacketKeys) (len samples_per_symbol : ℕ) (above : ℕ → ℕ → List Bool)
    (time_of : ℕ → FloatOps.Float F) (tol : FloatOps.Float F) where
  abbrev into : Packet F keys → List (Packet F keys) → List (Packet F keys)
  into = put F keys len samples_per_symbol above time_of tol

  abbrev sorted : List (Packet F keys) → List (Packet F keys)
  sorted = sort F keys len samples_per_symbol above time_of tol

  abbrev pub IsSorted : List (Packet F keys) → Type 0
  IsSorted [] = Unit
  IsSorted (p ∷ ps) = All (λ q. p.abs_start ≤ q.abs_start) ps × IsSorted ps

  put-All :
      (P : Packet F keys → Type 0) (p : Packet F keys) (qs : List (Packet F keys))
      → P p
      → All P qs
      → All P (into p qs)
  unfolding put
  put-All P p [] h hs = (h, tt)
  put-All P p (q ∷ qs) h hs = elim (Bool-cases (ltb q.abs_start p.abs_start)) [
    | inl before ↦ rw (before) (hs.0, put-All P p qs h hs.1)
    | inr after ↦ rw (after) (h, hs)
  ]

  put-IsSorted :
      (p : Packet F keys) (qs : List (Packet F keys)) → IsSorted qs → IsSorted (into p qs)
  unfolding put
  put-IsSorted p [] h = (tt, tt)
  put-IsSorted p (q ∷ qs) h = elim (Bool-cases (ltb q.abs_start p.abs_start)) [
    | inl before ↦
        let l = ltb→lt q.abs_start p.abs_start before in
        let le : q.abs_start ≤ p.abs_start = omega arith in
        rw (before) (put-All (λ k. q.abs_start ≤ k.abs_start) p qs le h.0, put-IsSorted p qs h.1)
    | inr after ↦
        let l = ltb-false→le q.abs_start p.abs_start after in
        rw (after) ((l, All-imp qs (λ k m. omega arith) h.0), h)
  ]

  length-put : (p : Packet F keys) (qs : List (Packet F keys)) → length (into p qs) ≡ length qs + 1
  unfolding put
  length-put p [] = refl
  length-put p (q ∷ qs) = elim (Bool-cases (ltb q.abs_start p.abs_start)) [
    | inl before ↦ let rest = length-put p qs in rw (before) (omega arith)
    | inr after ↦ rw (after) (omega arith)
  ]

  sort-IsSorted : (ps : List (Packet F keys)) → IsSorted (sorted ps)
  unfolding sort
  sort-IsSorted [] = tt
  sort-IsSorted (p ∷ ps) = put-IsSorted p (sorted ps) (sort-IsSorted ps)

  length-sort : (ps : List (Packet F keys)) → length (sorted ps) ≡ length ps
  unfolding sort
  length-sort [] = refl
  length-sort (p ∷ ps) = omega (arith, length-put p (sorted ps), length-sort ps)

  -- The packets are reported in the order of their starts, and as many as the windows gave.
  pub decode_packets-IsSorted :
      (decode : ℕ → Found F keys)
      → let found =
          (decode_windows F keys len samples_per_symbol above time_of tol decode
            (window_offsets len decode_samples)
            []).0 in
        IsSorted (decode_packets F keys len samples_per_symbol above time_of tol decode)
        × (length (decode_packets F keys len samples_per_symbol above time_of tol decode)
            ≡ length found)
  unfolding decode_packets
  decode_packets-IsSorted decode = (sort-IsSorted _, length-sort _)
