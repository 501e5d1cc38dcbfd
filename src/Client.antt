-- ===== src/Client.antt =====
-- packages/vrf-client: addresses, verification and the instructions of a commit.
pub mod Platform
pub mod Addresses
pub mod Verify
pub mod Light
pub mod Operations
pub mod Events
