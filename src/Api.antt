-- ===== src/Api.antt =====
-- The routes of src/stream_web/app.py that tell a client what was decoded.
pub mod Packets
pub mod Status
pub mod Tests
