-- ===== src/Factory.antt =====
-- The construction of backends and converters from the configuration (internal/infra/factory).
pub mod Build
pub mod Wiring
pub mod Cloud
pub mod Accepted
