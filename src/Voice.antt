-- ===== src/Voice.antt =====
-- internal/usecases/voice: the transition table, the machine around it, and the dictation cycle.
pub mod Transition
pub mod Table
pub mod Machine
pub mod Runs
