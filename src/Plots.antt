-- ===== src/Plots.antt =====
-- What src/stream_web/spectrogram.py decides before it draws: the spectrogram and its boxes, the hops of
-- the decoder overlay, what the time-domain plot says and what the zoom shows.
-- Drawing is matplotlib's.
pub mod Overlay
pub mod Envelope
pub mod Zoom
pub mod SpecImage
pub mod Boxes
pub mod TdPlot
mod Tests
