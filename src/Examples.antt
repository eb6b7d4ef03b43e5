-- ===== src/Examples.antt =====
-- Runs of the development's functions and theorems on concrete inputs.
pub mod Voice
pub mod Daemon
pub mod Config
pub mod Cycle
pub mod Wav
pub mod Stt
pub mod Stream
pub mod Hotkey
pub mod Output
pub mod Factory
pub mod Files
pub mod Settings
