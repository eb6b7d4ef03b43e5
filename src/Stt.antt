-- ===== src/Stt.antt =====
-- The decorators of transcription backends: pkg/stt/retry.go, pkg/stt/fallback.go and
-- internal/infra/factory/silence_gate.go. What a backend answers is an argument.
pub mod Reply
pub mod Retry
pub mod Waits
pub mod Classifier
pub mod Attempts
pub mod Fallback
pub mod DeepgramStream
pub mod Heard
pub mod SkipHeader
pub mod Connect
pub mod SilenceGate
