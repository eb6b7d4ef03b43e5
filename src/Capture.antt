-- ===== src/Capture.antt =====
-- The recorder that runs a subprocess (pkg/capture/subprocess_linux.go).
pub mod Process
pub mod Record
pub mod Recorded
