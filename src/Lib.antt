-- ===== src/Lib.antt =====
-- P2P agent mesh: consensus, ordered delivery, handshakes, relays, the distributed tables and devices.
--
-- The program is a mesh of agents that exchange signed messages. Its coordination layer
-- (coordination/) gives a topic a total order: a `Coordinator` (coordination/coordinator.py) numbers
-- the messages of a topic and proposes them to a `MicroRaft` log (coordination/raft.py). What the
-- log commits comes back through `_on_commit`, which asks the `DedupLog` (coordination/dedup.py)
-- whether the message was processed, hands it to the consumer group `cg:<topic>` of the
-- `GroupCoordinator`, and marks it. Each `ConsumerGroup` (coordination/consumer_group.py) delivers
-- the numbers of a topic in order and buffers what comes early. Below it, phase0/raft.py elects a
-- leader over one topic that all nodes read, phase0/sig_gate.py decides which incoming messages pass,
-- phase0/ring_buffer.py keeps the system's messages, phase0/wal.py logs the others, and
-- phase0/dht_kademlia.py keeps the nodes that are near, finds others and stores values on them. The device
-- kit keeps a registry of devices (depin/registry.py), logs a device's telemetry (depin/wal.py, depin/device.py) and compares the logs
-- of two sides by their Merkle roots (depin/merkle_sync.py).
--
-- Nodes reach each other over phase0/transport.py, whose connections begin with the handshake of
-- phase0/handshake.py: two signed nonces and an exchange of ephemeral keys give both ends one
-- `SecureSession`. The keys and the signatures of messages are those of phase0/identity.py. A node
-- without a public address uses a relay: relay/server.py passes on what its registered agents send each
-- other, relay/client.py encrypts it end to end, and relay/redundancy.py chooses among several relays
-- and links two of them. phase0/dht.py is a directory of agents that every node keeps of its own.
--
-- Files:
--   Prelude, Prelude/Tests, Prelude/Lists: shared names, tests and lists over native numbers.
--   Dict: Python's `dict` with string keys. Outcome: exceptions as values.
--   Coordination/ConsumerGroup: `ConsumerGroup`; its children prove the order (Ordering, on one
--     topic's Lane), completeness (Waiting, Complete), the stall (Stall) and the frame (Frame, World).
--   Coordination/Groups: `GroupCoordinator`; Members for join and leave, Broadcast for `broadcast`.
--   Coordination/Dedup: `DedupLog`; Expiry for the time to live, Unique for the primary key.
--   Coordination/Raft: state, life cycle and `_apply_committed` of `MicroRaft`; Raft/Rpc the RPC
--     handlers; Raft/Leader elections, replication, the commit index and `propose`. Votes, Logs,
--     Replication, Commit, Applying, Elections, Proposing, Following and Stale hold the proofs.
--   Coordination/Coordinator: `Coordinator`; Once and Sequence hold the proofs.
--   Phase0/RaftNode: `RaftNode` of phase0/raft.py; Careful has one reaction, Votes a run, and Majority
--     who leads.
--   Phase0/SigGate: `SigGate` of phase0/sig_gate.py; Verdict for one message, Rate for many.
--   Phase0/RingBuffer: phase0/ring_buffer.py; History for the buffer, Topics for the system topics.
--   Phase0/Kademlia: buckets and routing table of phase0/dht_kademlia.py; Bucket for one bucket, Table
--     for the table, Nearest for `find_nearest`, Node for `handle_message`, Expired for its store.
--   Phase0/Kademlia/Lookup: `iterative_lookup`; Nearer and Known for what it finds, Calls for how
--     long it takes.
--     Phase0/Kademlia/Network: `store`, `get` and `bootstrap`; Values for `store` and `get`.
--   Phase0/Hex: `bytes.hex` and `bytes.fromhex`. Phase0/Identity: phase0/identity.py, and the interface
--     to Ed25519; Signed has the proofs.
--   Phase0/Session: `SecureSession` of phase0/handshake.py, and the interface to the cipher; Envelope
--     for the envelopes, Nonces for the nonces.
--   Phase0/Handshake: both sides of the handshake, and the interface to X25519 and HKDF; Checks for its
--     guards, Honest for a run of both sides, Middle for a party between them, Proof for the checks.
--   Phase0/Transport: phase0/transport.py; Subscribers, Callbacks, Stopped, Connections and
--     Sessions hold the proofs.
--   Phase0/Directory: phase0/dht.py; Cache for the ordered dictionary, Entries and Buckets for the
--     buckets, Search for `find_agents`.
--   Relay/Server: relay/server.py; Limits for the connections of an address, Quiet and Delivery for the
--     messages, Names for the registered names. Relay/Client: relay/client.py; Exchange and Crossing for
--     the end-to-end keys, Backoff for the delays.
--   Relay/Passing: a message from one client through the server to another one.
--   Relay/Redundancy, Relay/Link: `MultiRelayClient` and `RelayLinkClient` of relay/redundancy.py.
--   Phase0/Wal: phase0/wal.py, its table and the ring buffer beside it; Replay holds the proofs.
--   Depin/Registry: `DeviceRegistry` of depin/registry.py; Live holds the proofs.
--   Depin/DeviceLog: depin/wal.py; Numbers and CatchUp hold the proofs. Depin/Device: depin/device.py;
--     Publishing and Offline hold the proofs.
--   Depin/Merkle: depin/merkle_sync.py; Hashes has the tree by its hashes, Diff the difference,
--     Proof the proofs.
--   Tests: runs on concrete inputs, and each theorem at a concrete input.
--
-- How the code corresponds to the model:
--   * An operation keeps the name of its method, without the leading underscore, and takes the
--     object's state last; it returns the new state. A method that raises returns an `Outcome` or a
--     `Done` beside the state, since what was changed before an exception stays changed.
--   * Callbacks are functions on a state `W` of their own. `_deliver` and `_apply_committed` catch
--     what a callback raises, so a callback is a total function here; what it did before it raised
--     is part of that function.
--   * Numbers are naturals. Times are naturals too, read from an argument where the code calls
--     `time.time()`; the comparisons are those of the code. Indices, terms and sequence numbers that
--     a message could carry as negative numbers are outside the model, and the index 0 of a log
--     entry, which Python reads as the last position, is written out (`entry_at`, `log_before`).
--   * A dict that stands for a message is a record or a data type whose missing fields have the
--     defaults of the code.
--   * A method between two `await`s is one step. Messages that a method sends are part of its
--     result; an election of `MicroRaft` has the peers' answers as a parameter.
--   * Ed25519, X25519 with HKDF, and ChaCha20-Poly1305 are records of operations, and what the library
--     documents of them is a second record, which a theorem takes where it needs it. Generated keys and
--     nonces are arguments. A handshake is cut where it waits for a line.
--   * What another node answers is a function of the number of the call, so that one node can answer
--     differently at different times.
--   * The tables of the exactly-once log, the message log and the device log are lists of rows, and each SQL
--     statement is a function on them.
--
-- Loops: the `while` loop of `_apply_committed` and the `for` loop of `_update_commit_index` run on a
-- number of rounds, the distance between the two indices when the loop starts, which is as often as
-- the code goes round: the first is left when its index reaches the commit index, and the second has
-- a fixed range. The digits of a number (`decimal`) run on the number and one as fuel, which is no less
-- than its number of digits. The levels of a Merkle tree and the rounds of a proof run on the number of
-- messages, which is proved to be enough. The lookup runs five rounds and the connection to a relay twice
-- as many attempts as there are relays, both as in the code, where these are `for` loops over ranges. All
-- other loops are structural.
--
-- Not modelled: sockets, HTTP and WebSocket relays, files and SQLite itself, logging,
-- timers and task scheduling, command lines, adapters for other frameworks, and tests; and, as parts
-- of their own, the reputation, the event store and the agent kit. Of the modelled files, what only
-- opens sockets or starts tasks: the start of the transport and of the relay, their loops that connect
-- and reconnect, and the refresh loop of the distributed hash table. The cryptographic operations and
-- the SHA-256 of a message are parameters, since they are other libraries' work.
pub mod Prelude
pub mod Dict
pub mod Outcome
pub mod Coordination
pub mod Phase0
pub mod Depin
pub mod Relay
mod Tests
