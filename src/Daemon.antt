-- ===== src/Daemon.antt =====
-- internal/infra/daemon: the cycle goroutine and its completion handlers, the shared state that the
-- daemon's threads work on, the toggle debounce and the hold gate.
pub mod Completion
pub mod Rest
pub mod System
pub mod Debounce
pub mod HoldGate
pub mod Turns
pub mod Keys
