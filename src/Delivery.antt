-- ===== src/Delivery.antt =====
-- Package internal/delivery: snapshots, deltas between them, and the fan-out to the streams.
pub mod Snapshot
pub mod Delta
pub mod Hub
pub mod Listener
pub mod Sample
mod ListenerTests
mod Tests
mod HubTests
