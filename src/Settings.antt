-- ===== src/Settings.antt =====
-- python/visio_schema/settings_qr: the settings code.
pub mod SealedBody
