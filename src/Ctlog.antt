-- ===== src/Ctlog.antt =====
-- tools/ctlog: the configuration of the certificate transparency log.
pub mod External
pub mod Config
pub mod Marshal
pub mod CreateConfig
