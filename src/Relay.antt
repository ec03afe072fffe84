-- ===== src/Relay.antt =====
-- The parts of relay/: the relay server, its client, the client of several relays and the link of two relays.
pub mod Redundancy
pub mod Link
pub mod Server
pub mod Client
pub mod Passing
