-- ===== src/Mcap.antt =====
-- python/visio_schema/mcap: recordings at rest.
pub mod Crypto
pub mod Records
pub mod Writer
pub mod Endpoint
pub mod Replay
