-- ===== src/Transport.antt =====
-- python/visio_schema/transport: the endpoints that carry messages.
pub mod Queue
pub mod FramedFd
