-- ===== src/IrohSidecar.antt =====
-- The crate iroh-sidecar: peers' connections and the events and datagrams that they give rise to.
pub mod Service
pub mod Endpoint
pub mod Fixtures
mod Tests
