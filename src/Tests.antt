-- ===== src/Tests.antt =====
-- Runs on concrete inputs, and the theorems at inputs that meet their hypotheses.
mod Delivery
mod Dedup
mod Consensus
mod Coordinators
mod ElectionNode
mod Gate
mod Devices
mod Routing
mod Logs
mod Keys
mod Sessions
mod Relays
mod Transports
mod Network
mod Offline
