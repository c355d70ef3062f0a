-- ===== src/VoiceCore.antt =====
-- The crate voice-core: wire packets, the microphone gate, the encoder and the receiver.
pub mod Error
pub mod Float
pub mod Packet
pub mod Vad
pub mod Resample
pub mod Encoder
pub mod Decoder
pub mod Receiver
pub mod Harness
pub mod Fixtures
mod Tests
