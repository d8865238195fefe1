-- ===== src/Cluster/Boundary.antt =====
-- The tests of the garbage collection version on both sides of a delta:
-- `compute_partial_delta_respecting_mtu` and `prepare_apply_delta` of chitchat/src/state.rs.
use scuttlebutt.Prelude.{ℕ, ◌<◌, ◌≡◌, ◌≢◌, sym, ◌∙◌, none, some, [], arith}
use scuttlebutt.Ids.{Str}
use scuttlebutt.NodeDelta.{NodeDelta}
use scuttlebutt.NodeState.{NodeState, get_versioned}
use scuttlebutt.NodeState.Apply.{apply_delta}
use scuttlebutt.NodeState.Reset.{Lacks, boundary_reset_forgets}
use scuttlebutt.Cluster.{node_digest}
use scuttlebutt.Cluster.Partial.{from_version}

-- At the boundary the sender does not ask for a reset.
boundary_from_version :
    (sender receiver : NodeState)
    → receiver.max_version ≡ sender.last_gc_version
    → receiver.max_version < sender.max_version
    → from_version (some (node_digest receiver)) sender ≡ some receiver.max_version
unfolding from_version node_digest
boundary_from_version sender receiver at newer = ground arith

-- Where the receiver's `max_version` is exactly the sender's `last_gc_version` and below the sender's
-- `max_version`, and its own `last_gc_version` is lower, a delta with some key-values from the version
-- that the sender computes for the receiver's digest, with the sender's `last_gc_version`, makes the
-- receiver drop every key that the delta does not carry.
pub boundary_delta_forgets :
    (now : ℕ) (sender receiver : NodeState) (d : NodeDelta) (key : Str)
    → receiver.max_version ≡ sender.last_gc_version
    → receiver.last_gc_version < sender.last_gc_version
    → receiver.max_version < sender.max_version
    → from_version (some (node_digest receiver)) sender ≡ some d.from_version_excluded
    → d.last_gc_version ≡ sender.last_gc_version
    → d.key_values ≢ []
    → Lacks key d.key_values
    → get_versioned key (apply_delta now d receiver) ≡ none
boundary_delta_forgets now sender receiver d key at behind newer from gc some_kvs lacks =
    let start : d.from_version_excluded ≡ receiver.max_version =
      ground (arith, boundary_from_version sender receiver at newer) in
    boundary_reset_forgets now d receiver key start (gc ∙ sym at) (omega arith) some_kvs lacks
