-- ===== src/Api/Status/Order.antt =====
-- The devices that `/api/status` of src/stream_web/app.py replies with.
use sdr_docker.Base.{
  ◌≡◌, refl, ap, ◌∙◌, Bool, true, false, some, List, [], ◌∷◌, map, if◌then◌else◌, arith, All,
  All-imp, inl, inr, Bool-cases,
}
use sdr_docker.Base.Int.{ℤ, ltb_ℤ, leb_ℤ}
use sdr_docker.Base.Floats.{FloatOps}
use sdr_docker.TdCapture.{int_eq}
use sdr_docker.Results.{last_of}
use sdr_docker.Processor.Entries.{Entry}
use sdr_docker.Api.Packets.{EntryFits}
use sdr_docker.Api.Status.{Device, finish, put_device, sort_devices, dev_list}
use sdr_docker.Api.Status.Devices.{entries_with, IsSummary, is_listed, Distinct, visit_all-Grouped}

module _ (F : FloatOps) where
  -- What the reply says of a device: the newest ten sequence numbers of its entries, in order, and
  -- the energy and the time of its newest entry.
  pub record IsReport (seen : List (Entry F)) (d : Device F) : Type 0 where
    pub seqs : d.seq_nums ≡ last_of 10 (map (λ e. e.seq_num) (entries_with F d.ntw_id seen))
    pub energy :
        last_of 1 (map (λ e. e.energy_db) (entries_with F d.ntw_id seen)) ≡ d.max_energy_db ∷ []
    pub time : last_of 1 (map (λ e. e.timestamp) (entries_with F d.ntw_id seen)) ≡ d.last_seen ∷ []

  -- Sorted by id, and none twice.
  abbrev pub IsAscending : List (Device F) → Type 0
  IsAscending [] = Unit
  IsAscending (d ∷ ds) = All (λ e. ltb_ℤ d.ntw_id e.ntw_id ≡ true) ds × IsAscending ds

  finish-IsReport :
      (seen : List (Entry F)) (ds : List (Device F))
      → All (IsSummary F seen) ds
      → All (IsReport seen) (map (finish F) ds)
  unfolding finish
  finish-IsReport seen [] h = tt
  finish-IsReport seen (d ∷ ds) (h, hs) = (
    record { seqs = ap (last_of 10) h.seqs; energy = h.energy; time = h.time },
    finish-IsReport seen ds hs,
  )

  is_listed-finish :
      (id : ℤ) (ds : List (Device F)) → is_listed F id (map (finish F) ds) ≡ is_listed F id ds
  unfolding finish
  is_listed-finish id [] = refl
  is_listed-finish id (d ∷ ds) =
      ap (λ q. if int_eq d.ntw_id id then true else q) (is_listed-finish id ds)

  finish-Distinct : (ds : List (Device F)) → Distinct F ds → Distinct F (map (finish F) ds)
  unfolding finish
  finish-Distinct [] h = tt
  finish-Distinct (d ∷ ds) (h, hs) = (is_listed-finish d.ntw_id ds ∙ h, finish-Distinct ds hs)

  put-All :
      (P : Device F → Type 0) (d : Device F) (ds : List (Device F))
      → P d
      → All P ds
      → All P (put_device F d ds)
  unfolding put_device
  put-All P d [] h hs = (h, tt)
  put-All P d (e ∷ es) h (k, ks) = elim (Bool-cases (leb_ℤ d.ntw_id e.ntw_id)) [
    | inl first ↦ rw (first, put_device) (h, (k, ks))
    | inr later ↦ rw (later, put_device) (k, put-All P d es h ks)
  ]

  sort-All : (P : Device F → Type 0) (ds : List (Device F)) → All P ds → All P (sort_devices F ds)
  unfolding sort_devices
  sort-All P [] h = tt
  sort-All P (d ∷ ds) (h, hs) = put-All P d (sort_devices F ds) h (sort-All P ds hs)

  is_listed-put :
      (id : ℤ) (d : Device F) (ds : List (Device F))
      → is_listed F id (put_device F d ds) ≡ is_listed F id (d ∷ ds)
  unfolding put_device
  is_listed-put id d [] = refl
  is_listed-put id d (e ∷ es) = elim (Bool-cases (leb_ℤ d.ntw_id e.ntw_id)) [
    | inl first ↦ rw (first, put_device) refl
    | inr later ↦
        rw (later, put_device, is_listed-put id d es)
          (swap (int_eq e.ntw_id id) (int_eq d.ntw_id id) (is_listed F id es))
  ]
    where
      swap :
          (x y z : Bool)
          → (if x then true else if y then true else z)
            ≡ (if y then true else if x then true else z)
      swap x y z = ground arith

  is_listed-sort :
      (id : ℤ) (ds : List (Device F)) → is_listed F id (sort_devices F ds) ≡ is_listed F id ds
  unfolding sort_devices
  is_listed-sort id [] = refl
  is_listed-sort id (d ∷ ds) =
      is_listed-put id d (sort_devices F ds)
      ∙ ap (λ q. if int_eq d.ntw_id id then true else q) (is_listed-sort id ds)

  put-IsAscending :
      (d : Device F) (ds : List (Device F))
      → is_listed F d.ntw_id ds ≡ false
      → IsAscending ds
      → IsAscending (put_device F d ds)
  unfolding put_device
  put-IsAscending d [] absent h = (tt, tt)
  put-IsAscending d (e ∷ es) absent (h, hs) = elim (Bool-cases (leb_ℤ d.ntw_id e.ntw_id)) [
    | inl first ↦
        let below : ltb_ℤ d.ntw_id e.ntw_id ≡ true = ground arith in
        rw (first, put_device) ((below, All-imp es (λ x more. ground arith) h), (h, hs))
    | inr later ↦
        rw (later, put_device)
          (put-All _ d es (ground arith) h, put-IsAscending d es (ground arith) hs)
  ]

  sort-IsAscending : (ds : List (Device F)) → Distinct F ds → IsAscending (sort_devices F ds)
  unfolding sort_devices
  sort-IsAscending [] h = tt
  sort-IsAscending (d ∷ ds) (h, hs) =
      put-IsAscending d (sort_devices F ds) (is_listed-sort d.ntw_id ds ∙ h)
        (sort-IsAscending ds hs)

  -- Where the payloads of the history fit their bytes, the reply lists every device of it once, in
  -- order of its id; a device's sequence numbers are the newest ten of its entries, in order, and
  -- what is called its greatest energy is that of its newest entry.
  pub dev_list-IsReport :
      (entries : List (Entry F))
      → All (EntryFits F) entries
      → (ds : List (Device F)) × (dev_list F entries ≡ some ds)
        × All (IsReport entries) ds
        × All (λ e. is_listed F e.ntw_id ds ≡ true) entries
        × IsAscending ds
  unfolding dev_list
  dev_list-IsReport entries h =
      let (ds, e, g) =
        visit_all-Grouped F entries [] [] h (record { summary = tt; listed = tt; distinct = tt }) in
      rw (e) (
        sort_devices F (map (finish F) ds),
        refl,
        sort-All (IsReport entries) (map (finish F) ds) (finish-IsReport entries ds g.summary),
        All-imp entries
            (λ x known.
              is_listed-sort x.ntw_id (map (finish F) ds) ∙ is_listed-finish x.ntw_id ds ∙ known)
            g.listed,
        sort-IsAscending (map (finish F) ds) (finish-Distinct ds g.distinct),
      )
