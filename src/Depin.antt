-- ===== src/Depin.antt =====
-- The device kit (depin/): the registry of devices and the comparison of two logs by Merkle trees.
pub mod Registry
pub mod Merkle
pub mod DeviceLog
pub mod Device
