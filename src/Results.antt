-- ===== src/Results.antt =====
-- The results that come back from the worker processes and what the main process keeps of them:
-- `_drain_results`, `/api/packets`, `/api/reset` and the mock injector's entry in
-- src/stream_web/app.py, and the render loops of src/stream_web/td_renderer.py and
-- src/stream_web/spectrum_renderer.py. Images are byte lists; entries, statistics, decode information
-- and IQ segments are carried and never looked into.
mod Tests
pub mod Feed
pub mod Downloads
pub mod Render
use sdr_docker.Base.{
  ℕ, ◌-◌, Bool, true, false, Option, none, some, List, [], ◌∷◌, ◌++◌, length, drop, if◌then◌else◌,
  ◌&&◌,
}
use sdr_docker.Config.{max_decode_history, packet_feed_max}

-- `xs[-n:]`, for n > 0
unfoldable pub last_of {ℓ} : {A : Type ℓ} → ℕ → List A → List A
last_of n xs = drop (length xs - n) xs

-- The types of what is carried.
pub record Carried : Type 1 where
  pub Entry : Type 0
  pub Detection : Type 0
  pub Stats : Type 0
  pub ChipsetStats : Type 0
  pub Info : Type 0
  pub Segment : Type 0
  -- `if r.get("chipset_stats")` is false of an empty dictionary
  pub has_chipsets : ChipsetStats → Bool
  pub no_chipsets : ChipsetStats
  pub zero_stats : Stats → Stats
  -- whether `/api/packets` can make a line of the entry, or raises
  pub encodes : Entry → Bool

module _ (c : Carried) where
  open c use {
    Entry, Detection, Stats, ChipsetStats, Info, Segment, has_chipsets, no_chipsets, zero_stats,
    encodes,
  }

  -- A result dictionary; `none` is a missing key or `None`.
  pub record Result : Type 0 where
    pub img : Option (List ℕ)
    pub detections : Option (List Detection)
    pub decode_entries : Option (List Entry)
    pub stats : Option Stats
    pub chipset_stats : Option ChipsetStats
    pub td_img : Option (List ℕ)
    pub td_zoom_img : Option (List ℕ)
    pub td_status : Option (List ℕ)
    pub td_decode_info : Option Info
    pub td_iq_segment : Option Segment

  pub record State : Type 0 where
    pub latest_img : List ℕ
    pub latest_detections : List Detection
    pub decode_results : List Entry
    pub packet_feed : List Entry
    pub decode_stats : Stats
    pub chipset_stats : ChipsetStats
    pub td_latest_img : List ℕ
    pub td_zoom_latest_img : List ℕ
    pub td_status : List ℕ
    pub td_decode_info : Option Info
    pub td_iq_segment : Option Segment

  -- A value that is there, or the old one.
  abbrev pub or_old {ℓ} : {A : Type ℓ} → Option A → A → A
  or_old none old = old
  or_old (some a) old = a

  -- The same for values that count as missing when they are empty.
  abbrev pub or_old_bytes : Option (List ℕ) → List ℕ → List ℕ
  or_old_bytes none old = old
  or_old_bytes (some []) old = old
  or_old_bytes (some (b ∷ bs)) old = b ∷ bs

  abbrev pub or_old_info {ℓ} : {A : Type ℓ} → Option A → Option A → Option A
  or_old_info none old = old
  or_old_info (some a) old = some a

  abbrev pub entries_of : Option (List Entry) → List Entry
  entries_of none = []
  entries_of (some es) = es

  -- Entries go to the history and to the feed, each cut to its newest.
  pub add_entries : List Entry → State → State
  add_entries es s = record s {
    decode_results = last_of max_decode_history (s.decode_results ++ es);
    packet_feed = last_of packet_feed_max (s.packet_feed ++ es);
  }

  -- The entries of a result, if it has any, into the history and the feed.
  pub merge_entries : Option (List Entry) → State → State
  merge_entries none s = s
  merge_entries (some []) s = s
  merge_entries (some (e ∷ es)) s = add_entries (e ∷ es) s

  pub drain : Result → State → State
  drain r s =
      let s' : State = merge_entries r.decode_entries s in
      record {
        latest_img = or_old_bytes r.img s.latest_img;
        latest_detections = or_old r.detections s.latest_detections;
        decode_results = s'.decode_results;
        packet_feed = s'.packet_feed;
        decode_stats = or_old r.stats s.decode_stats;
        chipset_stats = elim r.chipset_stats [
          | none ↦ s.chipset_stats
          | some k ↦ if has_chipsets k then k else s.chipset_stats
        ];
        td_latest_img = or_old r.td_img s.td_latest_img;
        td_zoom_latest_img = or_old r.td_zoom_img s.td_zoom_latest_img;
        td_status = or_old r.td_status s.td_status;
        td_decode_info = or_old_info r.td_decode_info s.td_decode_info;
        td_iq_segment = or_old_info r.td_iq_segment s.td_iq_segment;
      }

  -- The critical section of `/api/packets`: the entries since the last call, and an empty feed.
  unfoldable pub take_feed : State → List Entry × State
  take_feed s = (s.packet_feed, record s { packet_feed = [] })

  pub all_encode : List Entry → Bool
  all_encode [] = true
  all_encode (e ∷ es) = encodes e && all_encode es

  -- `/api/packets`: the entries of its lines. It raises where an entry cannot be encoded, after the
  -- feed was cleared: `none`.
  pub poll_packets : State → Option (List Entry) × State
  unfolding take_feed all_encode
  poll_packets s =
      let (entries, s') = take_feed s in (if all_encode entries then some entries else none, s')

  pub reset : State → State
  reset s = record s {
    decode_results = [];
    decode_stats = zero_stats s.decode_stats;
    chipset_stats = no_chipsets;
  }
