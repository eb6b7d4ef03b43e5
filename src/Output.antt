-- ===== src/Output.antt =====
-- The delivery of a text (internal/adapters/output): the clipboard with its fallback, the keystroke that pastes it,
-- the clipboard's restoration, and the choice of an output from the configuration
-- (internal/infra/factory/output_builder.go).
pub mod World
pub mod Autopaste
pub mod Guard
pub mod Results
pub mod Emitted
pub mod Stale
pub mod Builder
pub mod Selection
