-- ===== src/VoiceMeshBench.antt =====
-- The crate voice-mesh-bench: its command line, who talks to whom, and how it samples what it measures.
pub mod Arguments
pub mod Schedule
pub mod Samples
pub mod Relay
pub mod Impairment
pub mod Receive
mod Tests
