-- ===== src/Analysis/Once.antt =====
-- `decode_packets` of src/stream_web/analysis.py reports a packet once.
use sdr_docker.Base.{
  ℕ, ◌+◌, ◌≡◌, refl, sym, ap, subst, ◌∙◌, Bool, false, ◌&&◌, Option, none, some, List, [], ◌∷◌,
  ◌++◌, append-nil, append_assoc, map, any, arith, All, All-imp, All-append, inl, inr, ◌⊎◌,
  Option-cases, ltb, Bool-cases,
}
use sdr_docker.Base.Floats.{FloatOps}
use sdr_docker.Analysis.{
  PacketKeys, Seen, times_of, is_duplicate, Layout, Packet, Found, accept, decode_windows, put,
  sort, decode_packets,
}

module _ (F : FloatOps) (keys : PacketKeys) (len samples_per_symbol : ℕ) (above : ℕ → ℕ → List Bool)
    (time_of : ℕ → F.Float) (tol : F.Float) where
  open F use {Float, minus, magnitude, lt}
  open keys use {Key, same}

  -- Whether one of the recorded packets has the key and a start within the tolerance.
  abbrev is_near : Key → Float → Seen F keys → Bool
  is_near k t seen = any (λ e. same e.0 k && lt (magnitude (minus t e.1)) tol) seen

  -- A packet that is not taken for one of those recorded.
  abbrev pub IsNew : Seen F keys → Packet F keys → Type 0
  IsNew seen p = is_near p.key (time_of p.abs_start) seen ≡ false

  abbrev record_of : Packet F keys → Key × Float
  record_of p = (p.key, time_of p.abs_start)

  -- Two packets of different keys, or not within the tolerance of each other.
  abbrev pub Apart : Packet F keys → Packet F keys → Type 0
  Apart p q =
      (same p.key q.key && lt (magnitude (minus (time_of q.abs_start) (time_of p.abs_start))) tol)
      ≡ false

  -- Each packet is apart from all those after it.
  abbrev pub AllApart : List (Packet F keys) → Type 0
  AllApart [] = Unit
  AllApart (p ∷ ps) = All (Apart p) ps × AllApart ps

  is_near-times_of :
      (k : Key) (t : Float) (seen : Seen F keys)
      → any (λ u. lt (magnitude (minus t u)) tol) (times_of F keys k seen) ≡ is_near k t seen
  unfolding times_of
  is_near-times_of k t [] = refl
  is_near-times_of k t ((j, u) ∷ seen) =
      let rest = is_near-times_of k t seen in
      elim (Bool-cases (same j k)) [
        | inl here ↦ rw (here) (ground (arith, rest))
        | inr other ↦ rw (other) rest
      ]

  IsNew-append :
      (seen more : Seen F keys) (q : Packet F keys)
      → IsNew (seen ++ more) q
      → IsNew seen q × IsNew more q
  IsNew-append [] more q h = (refl, h)
  IsNew-append (e ∷ seen) more q h =
      let rest = IsNew-append seen more q (ground arith) in (ground (arith, rest), rest.1)

  Apart-of_new : (p q : Packet F keys) → IsNew (record_of p ∷ []) q → Apart p q
  Apart-of_new p q h = ground arith

  -- What a window adds to what was seen before it.
  record Added (seen : Seen F keys) (r : List (Packet F keys) × Seen F keys) : Type 0 where
    new : All (IsNew seen) r.0
    apart : AllApart r.0
    seen_after : r.1 ≡ seen ++ map record_of r.0

  -- The next packet, that is new, before what is added after it.
  cons-Added :
      (seen : Seen F keys) (p : Packet F keys) (out : List (Packet F keys)) (after : Seen F keys)
      → IsNew seen p
      → Added (seen ++ (record_of p ∷ [])) (out, after)
      → Added seen (p ∷ out, after)
  cons-Added seen p out after new h = record {
    new = (new, All-imp out (λ q k. (IsNew-append seen (record_of p ∷ []) q k).0) h.new);
    apart = (
      All-imp out (λ q k. Apart-of_new p q (IsNew-append seen (record_of p ∷ []) q k).1) h.new,
      h.apart,
    );
    seen_after = h.seen_after ∙ append_assoc seen (record_of p ∷ []) (map record_of out);
  }

  accept-Added :
      (offset : ℕ) (ps : List (Key × Option ℕ × Layout F keys)) (seen : Seen F keys)
      → Added seen (accept F keys len samples_per_symbol above time_of tol offset ps seen)
  unfolding accept is_duplicate
  accept-Added offset [] seen = record { new = tt; apart = tt; seen_after = sym (append-nil seen) }
  accept-Added offset ((k, none, g) ∷ ps) seen = accept-Added offset ps seen
  accept-Added offset ((k, some start, g) ∷ ps) seen =
      let t = time_of (offset + start) in
      let e = is_near-times_of k t seen in
      elim (Bool-cases (any (λ u. lt (magnitude (minus t u)) tol) (times_of F keys k seen))) [
        | inl again ↦ rw (again, accept, is_duplicate) (accept-Added offset ps seen)
        | inr fresh ↦
            rw (fresh, accept, is_duplicate)
              (cons-Added seen _ _ _ (sym e ∙ fresh)
                (accept-Added offset ps (seen ++ ((k, t) ∷ []))))
      ]

  cross-Apart :
      (out rest : List (Packet F keys))
      → All (IsNew (map record_of out)) rest
      → All (λ p. All (Apart p) rest) out
  cross-Apart [] rest h = tt
  cross-Apart (p ∷ out) rest h = (
    All-imp rest
        (λ q k. Apart-of_new p q (IsNew-append (record_of p ∷ []) (map record_of out) q k).0) h,
    cross-Apart out rest
        (All-imp rest (λ q k. (IsNew-append (record_of p ∷ []) (map record_of out) q k).1) h),
  )

  AllApart-append :
      (xs ys : List (Packet F keys))
      → AllApart xs
      → AllApart ys
      → All (λ p. All (Apart p) ys) xs
      → AllApart (xs ++ ys)
  AllApart-append [] ys h k c = k
  AllApart-append (x ∷ xs) ys (h, hs) k (c, cs) =
      (All-append (Apart x) xs ys h c, AllApart-append xs ys hs k cs)

  append-Added :
      (seen : Seen F keys) (here rest : List (Packet F keys)) (mid after : Seen F keys)
      → Added seen (here, mid)
      → Added mid (rest, after)
      → Added seen (here ++ rest, after)
  append-Added seen here rest mid after h k =
      let news : All (IsNew (seen ++ map record_of here)) rest =
        subst (λ s. All (IsNew s) rest) h.seen_after k.new in
      record {
        new =
            All-append (IsNew seen) here rest h.new
              (All-imp rest (λ q n. (IsNew-append seen (map record_of here) q n).0) news);
        apart = AllApart-append here rest h.apart k.apart (
            cross-Apart here rest
              (All-imp rest (λ q n. (IsNew-append seen (map record_of here) q n).1) news));
        seen_after =
            k.seen_after
            ∙ ap (λ s. s ++ map record_of rest) h.seen_after
            ∙ append_assoc seen (map record_of here) (map record_of rest)
            ∙ ap (λ s. seen ++ s) (sym (map-append here rest));
      }
    where
      map-append :
          (xs ys : List (Packet F keys))
          → map record_of (xs ++ ys) ≡ map record_of xs ++ map record_of ys
      map-append [] ys = refl
      map-append (x ∷ xs) ys = ap (λ s. record_of x ∷ s) (map-append xs ys)

  decode_windows-Added :
      (decode : ℕ → Found F keys) (offsets : List ℕ) (seen : Seen F keys)
      → Added seen
          (decode_windows F keys len samples_per_symbol above time_of tol decode offsets seen)
  unfolding decode_windows
  decode_windows-Added decode [] seen = record {
    new = tt;
    apart = tt;
    seen_after = sym (append-nil seen);
  }
  decode_windows-Added decode (offset ∷ offsets) seen = elim (Option-cases (decode offset)) [
    | inl failed ↦ rw (failed, decode_windows) (decode_windows-Added decode offsets seen)
    | inr (ps, found) ↦
        rw (found, decode_windows)
          (append-Added seen _ _ _ _ (accept-Added offset ps seen)
            (decode_windows-Added decode offsets _))
  ]

  -- In either order.
  abbrev pub Differ : Packet F keys → Packet F keys → Type 0
  Differ p q = Apart p q ⊎ Apart q p

  abbrev pub AllDiffer : List (Packet F keys) → Type 0
  AllDiffer [] = Unit
  AllDiffer (p ∷ ps) = All (Differ p) ps × AllDiffer ps

  apart-AllDiffer : (ps : List (Packet F keys)) → AllApart ps → AllDiffer ps
  apart-AllDiffer [] h = tt
  apart-AllDiffer (p ∷ ps) (h, hs) = (All-imp ps (λ q a. inl a) h, apart-AllDiffer ps hs)

  put-All :
      (P : Packet F keys → Type 0) (p : Packet F keys) (qs : List (Packet F keys))
      → P p
      → All P qs
      → All P (put F keys len samples_per_symbol above time_of tol p qs)
  unfolding put
  put-All P p [] h hs = (h, tt)
  put-All P p (q ∷ qs) h (k, ks) = elim (Bool-cases (ltb q.abs_start p.abs_start)) [
    | inl later ↦ rw (later, put) (k, put-All P p qs h ks)
    | inr first ↦ rw (first, put) (h, (k, ks))
  ]

  swap-Differ : (p q : Packet F keys) → Differ p q → Differ q p
  swap-Differ p q (inl h) = inr h
  swap-Differ p q (inr h) = inl h

  put-AllDiffer :
      (p : Packet F keys) (qs : List (Packet F keys))
      → All (Differ p) qs
      → AllDiffer qs
      → AllDiffer (put F keys len samples_per_symbol above time_of tol p qs)
  unfolding put
  put-AllDiffer p [] h hs = (tt, tt)
  put-AllDiffer p (q ∷ qs) (h, hs) (k, ks) = elim (Bool-cases (ltb q.abs_start p.abs_start)) [
    | inl later ↦
        rw (later, put) (put-All (Differ q) p qs (swap-Differ p q h) k, put-AllDiffer p qs hs ks)
    | inr first ↦ rw (first, put) ((h, hs), (k, ks))
  ]

  sort-All :
      (P : Packet F keys → Type 0) (ps : List (Packet F keys))
      → All P ps
      → All P (sort F keys len samples_per_symbol above time_of tol ps)
  unfolding sort
  sort-All P [] h = tt
  sort-All P (p ∷ ps) (h, hs) = put-All P p _ h (sort-All P ps hs)

  sort-AllDiffer :
      (ps : List (Packet F keys))
      → AllDiffer ps
      → AllDiffer (sort F keys len samples_per_symbol above time_of tol ps)
  unfolding sort
  sort-AllDiffer [] h = tt
  sort-AllDiffer (p ∷ ps) (h, hs) =
      put-AllDiffer p _ (sort-All (Differ p) ps h) (sort-AllDiffer ps hs)

  -- A recording's packets are reported once: of any two that are reported, either the keys differ
  -- or the starts are not within the tolerance, whatever the overlapping windows gave.
  pub decode_packets-AllDiffer :
      (decode : ℕ → Found F keys)
      → AllDiffer (decode_packets F keys len samples_per_symbol above time_of tol decode)
  unfolding decode_packets
  decode_packets-AllDiffer decode =
      sort-AllDiffer _ (apart-AllDiffer _ (decode_windows-Added decode _ []).apart)
