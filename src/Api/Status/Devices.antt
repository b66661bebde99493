-- ===== src/Api/Status/Devices.antt =====
-- What a device of `/api/status` in src/stream_web/app.py says of the decode history.
use sdr_docker.Base.{
  ℕ, ◌-◌, ◌==◌, ◌<◌, ◌≡◌, refl, sym, ap, subst, ◌∙◌, Bool, true, false, ◌||◌, Option, none, some,
  List, [], ◌∷◌, ◌++◌, length, map, keep, any, if◌then◌else◌, ◌>>=◌, IsThere, arith, All, All-imp,
  All-append, inl, inr, Bool-cases, append-nil, append_assoc, length-append, drop-append_right,
}
use sdr_docker.Base.Int.{ℤ, eq_of_parts}
use sdr_docker.Base.Floats.{FloatOps}
use sdr_docker.Decoder.{or_zero}
use sdr_docker.TdCapture.{int_eq}
use sdr_docker.Results.{last_of}
use sdr_docker.Processor.Entries.{Entry}
use sdr_docker.Api.Packets.{encode_payload, encode_payload-IsThere, EntryFits, Fits}
use sdr_docker.Api.Status.{Device, new_device, shown_payload, update_device, visit, visit_all}

int_eq-eq : (a b : ℤ) → int_eq a b ≡ true → a ≡ b
int_eq-eq a b h = eq_of_parts a b (ground arith)

int_eq_refl : (a : ℤ) → int_eq a a ≡ true
int_eq_refl a = ground arith

keep-snoc {ℓ} :
    {A : Type ℓ} (test : A → Bool) (xs : List A) (x : A)
    → keep test (xs ++ (x ∷ [])) ≡ keep test xs ++ (if test x then x ∷ [] else [])
keep-snoc test [] x = elim (Bool-cases (test x)) [ inl e ↦ rw e refl | inr e ↦ rw e refl ]
keep-snoc test (y ∷ ys) x = elim (Bool-cases (test y)) [
  | inl e ↦ rw e (ap (λ q. y ∷ q) (keep-snoc test ys x))
  | inr e ↦ rw e (keep-snoc test ys x)
]

map-snoc {ℓ κ} :
    {A : Type ℓ} {B : Type κ} (f : A → B) (xs : List A) (x : A)
    → map f (xs ++ (x ∷ [])) ≡ map f xs ++ (f x ∷ [])
map-snoc f [] x = refl
map-snoc f (y ∷ ys) x = ap (λ q. f y ∷ q) (map-snoc f ys x)

last_of-snoc {ℓ} : {A : Type ℓ} (xs : List A) (x : A) → last_of 1 (xs ++ (x ∷ [])) ≡ x ∷ []
unfolding last_of
last_of-snoc xs x =
    drop-append_right (length (xs ++ (x ∷ [])) - 1) 0 xs (x ∷ [])
      (omega (arith, length-append xs (x ∷ [])))

module _ (F : FloatOps) where
  -- The entries of a device, oldest first.
  abbrev pub entries_with : ℤ → List (Entry F) → List (Entry F)
  entries_with id es = keep (λ e. int_eq e.ntw_id id) es

  -- The sequence numbers of the device, and the energy and the time of its newest entry.
  pub record IsSummary (seen : List (Entry F)) (d : Device F) : Type 0 where
    pub seqs : d.seq_nums ≡ map (λ e. e.seq_num) (entries_with d.ntw_id seen)
    pub energy :
        last_of 1 (map (λ e. e.energy_db) (entries_with d.ntw_id seen)) ≡ d.max_energy_db ∷ []
    pub time : last_of 1 (map (λ e. e.timestamp) (entries_with d.ntw_id seen)) ≡ d.last_seen ∷ []

  abbrev pub is_listed : ℤ → List (Device F) → Bool
  is_listed id ds = any (λ d. int_eq d.ntw_id id) ds

  -- No device stands twice.
  abbrev pub Distinct : List (Device F) → Type 0
  Distinct [] = Unit
  Distinct (d ∷ ds) = (is_listed d.ntw_id ds ≡ false) × Distinct ds

  record Updated (r : Entry F) (d d' : Device F) : Type 0 where
    id : d'.ntw_id ≡ d.ntw_id
    seqs : d'.seq_nums ≡ d.seq_nums ++ (r.seq_num ∷ [])
    energy : d'.max_energy_db ≡ r.energy_db
    time : d'.last_seen ≡ r.timestamp

  encoded-IsThere :
      (pv : Option ℕ) (pb : ℕ) (old : Option (List ℕ))
      → 0 < pb
      → Fits pv pb
      → IsThere
          (elim pv [ none ↦ some old | some v ↦ encode_payload v pb >>= λ text. some (some text) ])
  encoded-IsThere none pb old h fits = (old, refl)
  encoded-IsThere (some v) pb old h fits =
      let (text, e) = encode_payload-IsThere v pb (fits h) in rw (e) (_, refl)

  shown_payload-IsThere :
      (pv : Option ℕ) (pb : ℕ) (old : Option (List ℕ))
      → Fits pv pb
      → IsThere (shown_payload F pv pb old)
  unfolding shown_payload
  shown_payload-IsThere pv pb old fits = elim (Bool-cases (pb == 0)) [
    | inl empty ↦ rw (empty) (_, refl)
    | inr bytes ↦ rw (bytes) (encoded-IsThere pv pb old (ground arith) fits)
  ]

  update_device-Updated :
      (r : Entry F) (d : Device F)
      → EntryFits F r
      → (d' : Device F) × (update_device F r d ≡ some d') × Updated r d d'
  unfolding update_device
  update_device-Updated r d h =
      let (payload, e) =
        shown_payload-IsThere r.payload_val (or_zero r.payload_bytes) d.payload_b64 h in
      rw (e) (_, refl, record { id = refl; seqs = refl; energy = refl; time = refl })

  -- The history with one more entry, for the device that it is of and for the others.
  changed-IsSummary :
      (seen : List (Entry F)) (r : Entry F) (d d' : Device F)
      → int_eq r.ntw_id d.ntw_id ≡ true
      → d.seq_nums ≡ map (λ e. e.seq_num) (entries_with d.ntw_id seen)
      → Updated r d d'
      → IsSummary (seen ++ (r ∷ [])) d'
  changed-IsSummary seen r d d' same before u =
      let grown : entries_with d'.ntw_id (seen ++ (r ∷ []))
          ≡ entries_with d.ntw_id seen ++ (r ∷ []) =
        rw (u.id) (keep-snoc (λ e. int_eq e.ntw_id d.ntw_id) seen r ∙ rw (same) refl) in
      record {
        seqs =
            rw (grown) (
              u.seqs
              ∙ ap (λ q. q ++ (r.seq_num ∷ [])) before
              ∙ sym (map-snoc (λ e. e.seq_num) _ r));
        energy = rw (grown) (
            ap (last_of 1) (map-snoc (λ e. e.energy_db) _ r)
            ∙ last_of-snoc _ _
            ∙ ap (λ q. q ∷ []) (sym u.energy));
        time = rw (grown) (
            ap (last_of 1) (map-snoc (λ e. e.timestamp) _ r)
            ∙ last_of-snoc _ _
            ∙ ap (λ q. q ∷ []) (sym u.time));
      }

  other-IsSummary :
      (seen : List (Entry F)) (r : Entry F) (d : Device F)
      → int_eq r.ntw_id d.ntw_id ≡ false
      → IsSummary seen d
      → IsSummary (seen ++ (r ∷ [])) d
  other-IsSummary seen r d other s =
      let same : entries_with d.ntw_id (seen ++ (r ∷ [])) ≡ entries_with d.ntw_id seen =
        keep-snoc (λ e. int_eq e.ntw_id d.ntw_id) seen r ∙ rw (other) (append-nil _) in
      record { seqs = rw (same) s.seqs; energy = rw (same) s.energy; time = rw (same) s.time }

  others-IsSummary :
      (seen : List (Entry F)) (r : Entry F) (ds : List (Device F))
      → is_listed r.ntw_id ds ≡ false
      → All (IsSummary seen) ds
      → All (IsSummary (seen ++ (r ∷ []))) ds
  others-IsSummary seen r [] h s = tt
  others-IsSummary seen r (d ∷ ds) h (s, ss) =
      (other-IsSummary seen r d (ground arith) s, others-IsSummary seen r ds (ground arith) ss)

  -- What an entry does to the devices.
  record Visited (seen : List (Entry F)) (r : Entry F) (ds ds' : List (Device F)) : Type 0 where
    summary : All (IsSummary (seen ++ (r ∷ []))) ds'
    listed : (id : ℤ) → is_listed id ds' ≡ (is_listed id ds || int_eq r.ntw_id id)
    distinct : Distinct ds'

  listed_same : (x y z : Bool) → x ≡ z → (if x then true else y) ≡ ((if x then true else y) || z)
  listed_same x y z h = ground arith

  listed_other :
      (x y z w : Bool) → y ≡ (z || w) → (if x then true else y) ≡ ((if x then true else z) || w)
  listed_other x y z w h = ground arith

  visit-Visited :
      (seen : List (Entry F)) (r : Entry F) (ds : List (Device F))
      → EntryFits F r
      → All (IsSummary seen) ds
      → Distinct ds
      → (is_listed r.ntw_id ds ≡ false → entries_with r.ntw_id seen ≡ [])
      → (ds' : List (Device F)) × (visit F r ds ≡ some ds') × Visited seen r ds ds'
  unfolding visit new_device
  visit-Visited seen r [] h s distinct fresh =
      let (d', e, u) = update_device-Updated r (new_device F r) h in
      let none_yet : [] ≡ map (λ e. e.seq_num) (entries_with r.ntw_id seen) =
        rw (fresh refl) refl in
      rw (e) (
        d' ∷ [],
        refl,
        record {
          summary =
              (changed-IsSummary seen r (new_device F r) d' (int_eq_refl r.ntw_id) none_yet u, tt);
          listed = λ id. rw (u.id) (ground arith);
          distinct = (refl, tt);
        },
      )
  visit-Visited seen r (d ∷ ds) h (s, ss) (new, distinct) fresh =
      elim (Bool-cases (int_eq r.ntw_id d.ntw_id)) [
        | inl same ↦
            let (d', e, u) = update_device-Updated r d h in
            let it : r.ntw_id ≡ d.ntw_id = int_eq-eq r.ntw_id d.ntw_id same in
            let others : is_listed r.ntw_id ds ≡ false = rw (it) new in
            rw (same, e, visit)
              (
                d' ∷ ds,
                refl,
                record {
                  summary = (
                    changed-IsSummary seen r d d' same s.seqs u,
                    others-IsSummary seen r ds others ss,
                  );
                  listed = λ id.
                      rw (u.id, it)
                        (listed_same (int_eq d.ntw_id id) (is_listed id ds) (int_eq d.ntw_id id)
                          refl);
                  distinct = (rw (u.id) new, distinct);
                },
              )
        | inr other ↦
            let (ds', e, v) =
              visit-Visited seen r ds h ss distinct (λ none_of. fresh (ground arith)) in
            rw (other, e, visit)
              (
                d ∷ ds',
                refl,
                record {
                  summary = (other-IsSummary seen r d other s, v.summary);
                  listed = λ id.
                      listed_other (int_eq d.ntw_id id) (is_listed id ds') (is_listed id ds)
                        (int_eq r.ntw_id id) (v.listed id);
                  distinct = (v.listed d.ntw_id ∙ rw (new, other) refl, v.distinct);
                },
              )
      ]

  -- The devices of a history: each sums up its entries, each entry has its device, once.
  pub record Grouped (seen : List (Entry F)) (ds : List (Device F)) : Type 0 where
    pub summary : All (IsSummary seen) ds
    pub listed : All (λ e. is_listed e.ntw_id ds ≡ true) seen
    pub distinct : Distinct ds

  unlisted :
      (id : ℤ) (seen : List (Entry F)) (ds : List (Device F))
      → All (λ e. is_listed e.ntw_id ds ≡ true) seen
      → is_listed id ds ≡ false
      → entries_with id seen ≡ []
  unlisted id [] ds h absent = refl
  unlisted id (e ∷ seen) ds (h, hs) absent = elim (Bool-cases (int_eq e.ntw_id id)) [
    | inl same ↦ cc (int_eq-eq e.ntw_id id same, h, absent)
    | inr other ↦ rw (other) (unlisted id seen ds hs absent)
  ]

  pub visit_all-Grouped :
      (rs seen : List (Entry F)) (ds : List (Device F))
      → All (EntryFits F) rs
      → Grouped seen ds
      → (ds' : List (Device F)) × (visit_all F rs ds ≡ some ds') × Grouped (seen ++ rs) ds'
  unfolding visit_all
  visit_all-Grouped [] seen ds h g = (ds, refl, subst (λ q. Grouped q ds) (sym (append-nil seen)) g)
  visit_all-Grouped (r ∷ rs) seen ds (h, hs) g =
      let (ds', e, v) =
        visit-Visited seen r ds h g.summary g.distinct (unlisted r.ntw_id seen ds g.listed) in
      let grown : Grouped (seen ++ (r ∷ [])) ds' = record {
        summary = v.summary;
        listed =
            All-append (λ e. is_listed e.ntw_id ds' ≡ true) seen (r ∷ [])
              (All-imp seen (λ e known. v.listed e.ntw_id ∙ rw (known) refl) g.listed)
              (v.listed r.ntw_id ∙ ground (arith, int_eq_refl r.ntw_id), tt);
        distinct = v.distinct;
      } in
      let (ds'', e', g') = visit_all-Grouped rs (seen ++ (r ∷ [])) ds' hs grown in
      rw (e) (ds'', e', subst (λ q. Grouped q ds'') (append_assoc seen (r ∷ []) rs) g')
