-- ===== src/Routing.antt =====
-- python/visio_schema/routing: channels, and the registry that maps stream ids to them.
pub mod Channel
pub mod Registry
