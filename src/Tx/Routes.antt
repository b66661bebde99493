-- ===== src/Tx/Routes.antt =====
-- What the `/api/tx` routes of src/stream_web/app.py leave of the transmitter.
use Prim.Native.String.{String}
use sdr_docker.Base.{
  ℕ, ◌≡◌, refl, sym, arith, Bool, true, false, Option, none, some, ◌⊎◌, inl, inr, ◌≢◌,
  if◌then◌else◌,
}
use sdr_docker.Base.Floats.{FloatOps}
use sdr_docker.Tx.{
  Source, tone_source, file_source, TxFile, missing, refused, readable, TxMode, tone, packet,
  TxFlowgraph, start, stop, switch, tone_mode, packet_mode, StartRequest, wants_tone, wants_packet,
  wants_other, start_after, api_tx_start,
}

module _ (F : FloatOps) where
  -- The mode that a source belongs to.
  abbrev pub mode_of : Option Source → Option TxMode
  mode_of none = none
  mode_of (some tone_source) = some tone
  mode_of (some (file_source path repeat)) = some packet

  pub record IsSteady (fg : TxFlowgraph F) : Type 0 where
    pub fits : fg.mode ≡ mode_of fg.source_block
    pub sends : (fg.is_running ≡ false) ⊎ (fg.source_block ≢ none)

  abbrev pub wanted : StartRequest F → Option TxMode
  wanted wants_tone = some tone
  wanted (wants_packet path repeat) = some packet
  wanted wants_other = none

  -- The reply 200 means that the transmitter runs in the mode asked for.
  abbrev pub Started : StartRequest F → ℕ × TxFlowgraph F → Type 0
  Started r (status, fg) =
      IsSteady fg × ((status ≢ 200) ⊎ ((fg.is_running ≡ true) × (fg.mode ≡ wanted r)))

  switched-Started :
      (running starts : Bool) (src : Source) (m : TxMode) (r : StartRequest F) (fg : TxFlowgraph F)
      → mode_of (some src) ≡ some m
      → wanted r ≡ some m
      → Started r
          (start_after F starts (switch F starts src m (record fg { is_running = running })))
  unfolding start_after switch start stop
  switched-Started true true src m r fg fits asked =
      (record { fits = sym fits; sends = inr (λ e. cc) }, inr (refl, sym asked))
  switched-Started true false src m r fg fits asked =
      (record { fits = sym fits; sends = inl refl }, inl (λ h. absurd (omega arith)))
  switched-Started false true src m r fg fits asked =
      (record { fits = sym fits; sends = inr (λ e. cc) }, inr (refl, sym asked))
  switched-Started false false src m r fg fits asked =
      (record { fits = sym fits; sends = inl refl }, inl (λ h. absurd (omega arith)))

  stopped-IsSteady :
      (runs : Bool) (fg : TxFlowgraph F) → IsSteady fg → IsSteady (if runs then stop F fg else fg)
  unfolding stop
  stopped-IsSteady true fg h = record { fits = h.fits; sends = inl refl }
  stopped-IsSteady false fg h = h

  packet-Started :
      (file : TxFile) (starts : Bool) (path : String) (repeat : Bool) (fg : TxFlowgraph F)
      → IsSteady fg
      → Started
          (wants_packet (some path) repeat)
          (start_after F starts (packet_mode F file starts path repeat fg))
  unfolding packet_mode start_after
  packet-Started missing starts path repeat fg h = (h, inl (λ e. absurd (omega arith)))
  packet-Started refused starts path repeat fg h =
      (stopped-IsSteady fg.is_running fg h, inl (λ e. absurd (omega arith)))
  packet-Started readable starts path repeat fg h =
      switched-Started fg.is_running starts (file_source path repeat) packet
        (wants_packet (some path) repeat) fg refl refl

  -- From a transmitter whose mode is that of its source and that runs only with a source, each
  -- request to start leaves such a transmitter, and a reply of status 200 means that it runs in the
  -- mode asked for.
  pub api_tx_start-Started :
      (file_at : String → TxFile) (starts : Bool) (r : StartRequest F) (fg : TxFlowgraph F)
      → IsSteady fg
      → Started r (api_tx_start F file_at starts r fg)
  unfolding api_tx_start tone_mode packet_mode
  api_tx_start-Started file_at starts wants_tone fg h =
      switched-Started fg.is_running starts tone_source tone wants_tone fg refl refl
  api_tx_start-Started file_at starts (wants_packet none repeat) fg h =
      (h, inl (λ e. absurd (omega arith)))
  api_tx_start-Started file_at starts (wants_packet (some path) repeat) fg h =
      packet-Started (file_at path) starts path repeat fg h
  api_tx_start-Started file_at starts wants_other fg h = (h, inl (λ e. absurd (omega arith)))
