-- ===== src/Fedroute.antt =====
-- Loop-safe federation (src/fedroute.rs).
pub mod Messages
pub mod Select
pub mod Table
pub mod Publish
pub mod Adverts
pub mod Clock
pub mod Handle
pub mod Dedup
mod Tests
