-- ===== src/Ha.antt =====
-- High availability (src/ha.rs): the election of the Active node, and the guard on heartbeats.
pub mod Election
pub mod Heartbeat
pub mod Replay
pub mod Wire
pub mod Pair
pub mod Safety
mod Tests
