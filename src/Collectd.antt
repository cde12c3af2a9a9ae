-- ===== src/Collectd.antt =====
-- The plugin of collectd in collectd/write_oml/write_oml.c, by its parts.
pub mod Session
pub mod Write
pub mod Config
