-- ===== src/Gdext.antt =====
-- The crate gdext: the analysis tap, the receive stream with its audio callback, the send pipeline
-- and the transport's routing.
pub mod PcmTap
pub mod Stream
pub mod Router
pub mod Sender
pub mod Node
mod Tests
