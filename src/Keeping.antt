-- ===== src/Keeping.antt =====
-- The files that the daemon keeps and clears: its lock (internal/infra/sysd/lock_linux.go), session directories
-- (internal/infra/daemon/tempclean.go), archived recordings (pkg/audioarchive/archiver.go,
-- internal/infra/factory/kept_audio.go), and downloaded models (pkg/whispercpp/download.go).
pub mod Sessions
pub mod Orphans
pub mod Archive
pub mod Archived
pub mod Download
pub mod Downloaded
pub mod Lock
pub mod Locked
