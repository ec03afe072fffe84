-- ===== src/Phase0.antt =====
-- The core transport's own parts (phase0/): leader election, the buffer of system messages and the
-- gate for incoming messages.
pub mod RaftNode
pub mod SigGate
pub mod RingBuffer
pub mod Kademlia
pub mod Wal
pub mod Hex
pub mod Identity
pub mod Session
pub mod Handshake
pub mod Transport
pub mod Directory
