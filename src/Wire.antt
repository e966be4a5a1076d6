-- ===== src/Wire.antt =====
-- python/visio_schema/wire and python/visio_schema/transport/framing.py: the header and the
-- in-memory message, the core frame codec, the split of a byte stream into frames, the pulls of
-- recordings and of diagnostic files, and the update.
pub mod Header
pub mod Frame
pub mod Message
pub mod Framing
pub mod Recordings
pub mod Ota
pub mod Diag
