-- ===== src/Config.antt =====
-- The configuration of the voice program (internal/infra/config/config.go): its fields, the normalisation and the
-- validation that the loader and the command line share, the check for unknown keys, and the steps of the loader.
pub mod Schema
pub mod Normal
pub mod Settled
pub mod Url
pub mod Language
pub mod Validate
pub mod Valid
pub mod Accept
pub mod Keys
pub mod Load
pub mod Loaded
