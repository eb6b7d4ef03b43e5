-- ===== src/Daemon/System.antt =====
-- The daemon's threads over their shared state (internal/infra/daemon/daemon.go and cycle.go): the
-- machine, the two cancel functions, the cycle goroutines and their timers. Each step is one critical
-- section: a call on the machine, or a section under `cycleMu`. An action that a thread has got from
-- the machine and not yet dispatched waits in `pending`.
pub mod Steps
pub mod Sound
pub mod Invariant
pub mod Stuck
