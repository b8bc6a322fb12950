-- ===== src/Network.antt =====
-- backend/app/network_safety: which destinations and peers the platform connects to.
pub mod Address
pub mod Destination
pub mod Controller
pub mod Gateway
pub mod Tests
