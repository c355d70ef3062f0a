-- ===== src/GdextIroh.antt =====
-- The crate gdext-iroh: the transport node that hands packets to a target object.
pub mod Transport
mod Tests
