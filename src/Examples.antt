-- ===== src/Examples.antt =====
-- Concrete nodes, deltas and messages, and the theorems at them.
mod NodeTests
mod WireTests
mod ClusterTests
mod DetectorTests
mod HandlerTests
mod ChannelTests
mod GossipTests
mod ReplicaTests
mod SendTests
mod ListenerTests
mod ServerTests
use scuttlebutt.Prelude.{ℕ, ◌≡◌, ◌≤◌, Option, none, some, List, [], ◌∷◌, length}
use scuttlebutt.Ids.{Str, SocketAddr, ChitchatId}
use scuttlebutt.Types.{DeletionStatus, VersionedValue, DeletionStatusMutation, KeyValueMutation}
use scuttlebutt.NodeDelta.{NodeDelta}
use scuttlebutt.NodeState.{NodeState}
use scuttlebutt.Digest.{NodeDigest, Digest}
use scuttlebutt.Stream.{Compressor}
use scuttlebutt.Delta.{Delta}
use scuttlebutt.Cluster.{ClusterState}

pub no_zstd-fits : (block packed : List ℕ) → none ≡ some packed → length packed ≤ length block
no_zstd-fits block packed h = cc

pub no_zstd-back :
    (block packed : List ℕ) → length block ≤ 65535 → none ≡ some packed → none ≡ some block
no_zstd-back block packed len h = cc

-- A compressor for which no block gets smaller.
abbrev pub no_zstd : Compressor
no_zstd = record {
  compress = λ block. none;
  decompress = λ block. none;
  compress_fits = no_zstd-fits;
  decompress-compress = no_zstd-back;
}

abbrev pub node_a : ChitchatId
node_a = record {
  node_id = 97 ∷ [];
  generation_id = 3;
  gossip_advertise_addr = SocketAddr.v4 (127 ∷ 0 ∷ 0 ∷ 1 ∷ []) 10000;
}

abbrev pub key_k : Str
key_k = 107 ∷ []

abbrev pub key_l : Str
key_l = 108 ∷ []

abbrev pub value_v : Str
value_v = 118 ∷ 49 ∷ []

abbrev pub entry : ℕ → DeletionStatus → VersionedValue
entry version status = record { value = value_v; version = version; status = status }

-- A node with a value, and one with a tombstone besides.
abbrev pub state_k : NodeState
state_k = record {
  chitchat_id = node_a;
  heartbeat = 5;
  key_values = (key_k, entry 4 DeletionStatus.set) ∷ [];
  listeners = [];
  max_version = 4;
  last_gc_version = 0;
}

abbrev pub state_kl : NodeState
state_kl = record {
  chitchat_id = node_a;
  heartbeat = 5;
  key_values =
      (key_k, entry 4 DeletionStatus.set) ∷ (key_l, entry 6 (DeletionStatus.deleted 10)) ∷ [];
  listeners = [];
  max_version = 6;
  last_gc_version = 4;
}

abbrev pub write_l : KeyValueMutation
write_l = record { key = key_l; value = value_v; version = 6; status = DeletionStatusMutation.set }

-- An increment for a receiver at version 4.
abbrev pub increment : NodeDelta
increment = record {
  chitchat_id = node_a;
  from_version_excluded = 4;
  last_gc_version = 4;
  key_values = write_l ∷ [];
  max_version = none;
}

abbrev pub sample_delta : Delta
sample_delta = record { node_deltas = increment ∷ []; serialized_len = 56 }

abbrev pub sample_digest : Digest
sample_digest = record {
  node_digests = (node_a, record { heartbeat = 5; last_gc_version = 0; max_version = 4 }) ∷ [];
}

abbrev pub sample_cluster : ClusterState
sample_cluster = record { node_states = (node_a, state_kl) ∷ []; seed_addrs = [] }
