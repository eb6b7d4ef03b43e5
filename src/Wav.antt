-- ===== src/Wav.antt =====
-- pkg/audio/wav/wav.go: the WAV decoder. The stream is a finite list of bytes, whose reads fail only by
-- running out.
pub mod Format
pub mod Parse
pub mod Rounds
pub mod Outcomes
pub mod Position
pub mod Total
pub mod Layout
pub mod Chunks
pub mod RoundTrip
pub mod Read
pub mod Samples
pub mod Cuts
