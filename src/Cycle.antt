-- ===== src/Cycle.antt =====
-- One dictation cycle: internal/usecases/voice/{voice,streaming,record_oneshot,transcribe_file}.go.
pub mod World
pub mod Pipeline
pub mod Holding
pub mod Clean
pub mod Delivery
pub mod Clients
pub mod Ends
