-- ===== src/Lib.antt =====
-- Chitchat: a gossip protocol by which the nodes of a cluster share key-values (crate `chitchat`).
--
-- Each node owns a node state, key-values under versions that only the owner writes, and keeps a
-- replica of the state of every other node. Two nodes reconcile by a handshake of messages: a
-- digest says how far each replica is, a delta carries what the peer lacks, as much as a datagram
-- holds.
--
-- The parts, with the files that model them:
--
-- * chitchat/src/types.rs is Ids (`ChitchatId` and its order), Types (versions, deletion statuses,
--   versioned values, mutations) and Wire/Values (their wire format).
-- * chitchat/src/state.rs is NodeState and Cluster. NodeState is the struct of that name as a
--   record, with one function for each method: it holds the writes, NodeState/Read the iterators,
--   NodeState/Gc the garbage collection and NodeState/Apply `prepare_apply_delta` and
--   `apply_delta`. Cluster is `ClusterState` with the digest, Cluster/Stale the order of the stale
--   nodes and Cluster/Partial `compute_partial_delta_respecting_mtu`. The proofs are in
--   NodeState/Valid (the invariant), Reads (what a reader sees), Collect (garbage collection),
--   Progress and Reset (deltas), and in Cluster/Boundary, Offered, Gossiped, Ordered, Distinct,
--   Within and Mtu. Replica is a specification above them: an owner that writes, collects and
--   answers digests with partial deltas, and a replica that takes what arrives, in any order and
--   any number of times (World). Fill, Full, Fronts and Partial are about what a partial delta
--   holds, Returns and Answer about its computation, Written, Carried and Arrives about its way to
--   the peer, and Phantom about a delta that is late.
-- * chitchat/src/serialize.rs is Wire (the traits `Serializable` and `Deserializable`), Wire/Ints,
--   Wire/Text, Wire/Address, and Stream (`CompressedStreamWriter`) with Stream/Read
--   (`deserialize_stream`). Stream/Bound, Done and Exceeded are about its length, ReadBlock,
--   RoundTrip and Items about reading it back.
-- * chitchat/src/delta.rs is NodeDelta, Delta (`Delta`, `DeltaOp`, `DeltaBuilder`), Delta/Ops (the
--   wire format of an operation), Delta/Codec (that of a delta) and Delta/Serializer
--   (`DeltaSerializer`). Delta/Rebuild and Delta/Serializer/Bound have the proofs.
-- * chitchat/src/failure_detector.rs is FailureDetector (which nodes are live, dead, or to be
--   forgotten) with FailureDetector/Window (`SamplingWindow` and `BoundedArrayStats`); Window/Ring,
--   Liveness and Garbage have the proofs.
-- * chitchat/src/lib.rs is Chitchat (the record `Chitchat` with the handling of messages),
--   Chitchat/Live (`with_chitchat_id_and_seeds` and `update_nodes_liveness`) and Chitchat/Reset
--   (`reset_node_state`). Chitchat/Advance, Kept, Kept/Steps, Watch and Resets have the proofs;
--   Kept/Messages and Kept/Rounds are about the single operations, and Kept/Steps has what a node
--   does as a system that steps. `ChitchatConfig` of chitchat/src/configuration.rs is in Chitchat
--   too.
-- * chitchat/src/listener.rs is Listener, with Listener/Reference (which listeners an event calls)
--   and Listener/Handle (what a dropped handle leaves).
-- * chitchat/src/server.rs is Server: the choice of the nodes to gossip with, a round of gossip,
--   the loop over the events, and in Server/Seeds the seeds with their refresh. Server/Select,
--   Round and Refresh have the proofs.
-- * chitchat/src/transport/udp.rs is Udp. chitchat/src/transport/channel.rs is Channel, with
--   Channel/Links and Channel/Delivery.
-- * Gossip is about any number of nodes of chitchat/src/lib.rs with the messages between them.
-- * chitchat/src/digest.rs is Digest, chitchat/src/message.rs is Message with Message/RoundTrip and
--   Message/Length.
--
-- Prelude has the helpers: tests and lists on native numbers, orders, and sorted association lists
-- with the operations of a `BTreeMap`. Examples applies the theorems at concrete values.
--
-- A method with `&mut self` is a function from the state to the state. A `u64` is a number, and so
-- is an instant, which the caller passes in place of `Instant::now()`. A string is the list of its
-- UTF-8 bytes, and a buffer the list of its bytes. A failed assertion, a panic and an error are
-- `none`; the text of errors and the logs are left out. The listeners of a node state are the list
-- of the events that they have been triggered with. A listener panics on an event whose key begins
-- with a character that is not ASCII, as Listener says. `set`, `set_with_version`, `set_with_ttl`,
-- `with_chitchat_id_and_seeds` and `process_message` are `none` there; `apply_delta` and
-- `reset_node_state` by themselves go on, with the event in the list, and their theorems are about
-- calls in which no listener panics. Versions, heartbeats and counters of 64 bits wrap, as in a
-- release build, and so does the subtraction that gives the mtu of a delta; lengths of buffers are
-- plain numbers.
--
-- That the format can carry a value means that its texts are UTF-8 of at most 65535 bytes, that its
-- numbers are in range, and that an IPv6 address has neither flow information nor a scope, which
-- are not sent.
--
-- Three loops run on fuel. The loop of `append` gets as much as bytes are waiting, since each round
-- takes a byte at least. The loops of `deserialize_stream` get the length of their input, since
-- each block and each item that is read takes a byte at least.
--
-- `zstd` is a parameter, the record `Compressor`, with what its users rely on: the output of a
-- compression fits the buffer, and is decompressed to the input. The shuffle of the nodes that are
-- equally stale is a parameter too, and so are the arithmetic of `f64`, the record `Floats`, and
-- half of the grace period, a field of the configuration. The random generator of the server is the
-- record `Rng`, with `IsRng` for what `rand` documents of `choose` and `choose_multiple`. The extra
-- liveness predicate is a field of the configuration. A callback is a value, and an event results
-- in its calls. The parser of socket addresses and the lookup of hosts are arguments of
-- Server/Seeds. The bounded channels of `tokio` are the record `Mpsc`, with `IsMpsc` for what is
-- documented of them; both ends of a channel are kept under the address of the socket, since they
-- are made and dropped together.
--
-- Not modelled: the start of the server's tasks and their handle, the wrappers of a transport that
-- drop or delay messages, the locks, the default configuration for tests, and the test program.
-- They are input and output or tests. Between the lock's release and its next acquisition in a
-- round of gossip no other task writes.
pub mod Prelude
pub mod Ids
pub mod Types
pub mod NodeDelta
pub mod NodeState
pub mod Wire
pub mod Digest
pub mod Stream
pub mod Delta
pub mod Cluster
pub mod Message
pub mod Channel
pub mod Chitchat
pub mod FailureDetector
pub mod Gossip
pub mod Listener
pub mod Replica
pub mod Server
pub mod Udp
pub mod Examples
