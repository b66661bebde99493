-- ===== src/IqRing.antt =====
-- The circular IQ buffer that the RX thread writes and the processor and the capture routes read:
-- `_BufferSink.work` in src/stream_web/gnuradio_rx.py, `_extract_last` in
-- src/stream_web/processor.py, `_samples_advanced` and the copy of `_capture_iq` in
-- src/stream_web/app.py. `size` is `config.IQ_BUFFER_SIZE`; a sample is any value, since the
-- code here only moves samples.
mod Tests
pub mod Window
pub mod Reads
use sdr_docker.Base.{
  ℕ, ◌+◌, ◌-◌, ◌%◌, Option, none, some, List, ◌++◌, length, take, drop, leb, ltb, if◌then◌else◌,
}

pub record Ring {ℓ} (A : Type ℓ) : Type ℓ where
  pub iq_buffer : List A
  pub buf_write_idx : ℕ

module _ (size : ℕ) where
  -- The copy of `work`. A chunk whose wrapped part is longer than the buffer does not fit the
  -- slice that it is assigned to, and numpy raises: `none`.
  pub write {ℓ} : {A : Type ℓ} → Ring A → List A → Option (Ring A)
  write r samples =
      let n = length samples in
      let space = size - wi in
      let remainder = n - space in
      if leb n space
      then some (record {
        iq_buffer = take wi buf ++ (samples ++ drop (wi + n) buf);
        buf_write_idx = wi + n;
      })
      else if leb remainder size
      then some (record {
        iq_buffer = drop space samples ++ drop remainder (take wi buf ++ take space samples);
        buf_write_idx = remainder;
      })
      else none
    where
      open r use {iq_buffer as buf, buf_write_idx as wi}

  -- `(a - b) % size` as Python computes it, for `b ≤ size`.
  unfoldable pub back : ℕ → ℕ → ℕ
  back a b = (a + size - b) % size

  -- `_extract_last(n)`, read at the write index `widx`.
  pub extract_last {ℓ} : {A : Type ℓ} → List A → ℕ → ℕ → List A
  extract_last buf widx n =
      let start = back widx n in
      if ltb start widx then drop start (take widx buf) else drop start buf ++ take widx buf

  pub samples_advanced : ℕ → ℕ → ℕ
  samples_advanced start end = if leb start end then end - start else size - start + end

  -- The copy of one chunk of `_capture_iq`: `this_n` samples from `chunk_start` on.
  pub copy_chunk {ℓ} : {A : Type ℓ} → List A → ℕ → ℕ → List A
  copy_chunk buf chunk_start this_n =
      let e = (chunk_start + this_n) % size in
      if ltb chunk_start e
      then drop chunk_start (take e buf)
      else drop chunk_start buf ++ take e buf
