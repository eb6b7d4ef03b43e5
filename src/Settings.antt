-- ===== src/Settings.antt =====
-- The settings window saving the configuration (internal/adapters/settings/save.go).
pub mod Document
pub mod Save
pub mod Saved
pub mod Known
pub mod Tolerated
pub mod Shown
pub mod Touched
pub mod Shows
pub mod Kept
