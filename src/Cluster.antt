-- ===== src/Cluster.antt =====
-- `struct ClusterState` of chitchat/src/state.rs. The seeds are the value that the watch channel
-- holds; the listeners of the cluster are those that a new node state starts with.
pub mod Stale
pub mod Partial
pub mod Boundary
pub mod Offered
pub mod Gossiped
pub mod Staleness
pub mod Ordered
pub mod Distinct
pub mod Within
pub mod Mtu
use scuttlebutt.Prelude.{ℕ, Bool, not, Option, none, some, List, [], ◌∷◌, if◌then◌else◌}
use scuttlebutt.Prelude.Maps
use scuttlebutt.Prelude.Maps.{Map}
use scuttlebutt.Ids.{ChitchatId, SocketAddr, id_ord}
use scuttlebutt.NodeDelta.{NodeDelta}
use scuttlebutt.NodeState.{NodeState, new}
use scuttlebutt.NodeState.Apply
use scuttlebutt.NodeState.Gc
use scuttlebutt.Digest.{Digest, NodeDigest}
use scuttlebutt.Delta.{Delta, contains}

pub record ClusterState : Type 0 where
  pub node_states : Map ChitchatId NodeState
  pub seed_addrs : List SocketAddr

unfoldable pub with_seed_addrs : List SocketAddr → ClusterState
with_seed_addrs seeds = record { node_states = []; seed_addrs = seeds }

abbrev or_new : ChitchatId → Option NodeState → NodeState
or_new id none = new id []
or_new id (some s) = s

-- `entry(..).or_insert_with(..)`, read
unfoldable pub node_state_or_new : ChitchatId → ClusterState → NodeState
node_state_or_new id c = or_new id (Maps.get id c.node_states)

-- A change through the `&mut` that `node_state_mut` returns.
unfoldable pub update_node_state :
    ChitchatId → (NodeState → NodeState) → ClusterState → ClusterState
unfolding node_state_or_new
update_node_state id f c = record c {
  node_states = Maps.insert id (f (node_state_or_new id c)) c.node_states;
}

unfoldable pub node_state : ChitchatId → ClusterState → Option NodeState
node_state id c = Maps.get id c.node_states

unfoldable pub nodes : ClusterState → List ChitchatId
nodes c = Maps.keys c.node_states

unfoldable pub remove_node : ChitchatId → ClusterState → ClusterState
remove_node id c = record c { node_states = Maps.remove id c.node_states }

unfoldable pub apply_node_deltas : ℕ → List NodeDelta → ClusterState → ClusterState
unfolding update_node_state
apply_node_deltas now [] c = c
apply_node_deltas now (d ∷ ds) c =
    apply_node_deltas now ds (update_node_state d.chitchat_id (Apply.apply_delta now d) c)

unfoldable pub apply_delta : ℕ → Delta → ClusterState → ClusterState
unfolding apply_node_deltas
apply_delta now d c = apply_node_deltas now d.node_deltas c

-- `NodeState::digest`
unfoldable pub node_digest : NodeState → NodeDigest
node_digest s = record {
  heartbeat = s.heartbeat;
  last_gc_version = s.last_gc_version;
  max_version = s.max_version;
}

unfoldable pub digests : List ChitchatId → Map ChitchatId NodeState → Map ChitchatId NodeDigest
unfolding node_digest
digests scheduled [] = []
digests scheduled ((id, s) ∷ m) =
    let rest = digests scheduled m in
    if not (contains id scheduled) then (id, node_digest s) ∷ rest else rest

unfoldable pub compute_digest : List ChitchatId → ClusterState → Digest
unfolding digests
compute_digest scheduled c = record { node_digests = digests scheduled c.node_states }

unfoldable pub gc_all : ℕ → ℕ → Map ChitchatId NodeState → Map ChitchatId NodeState
gc_all now grace [] = []
gc_all now grace ((id, s) ∷ m) =
    (id, Gc.gc_keys_marked_for_deletion now grace s) ∷ gc_all now grace m

unfoldable pub gc_keys_marked_for_deletion : ℕ → ℕ → ClusterState → ClusterState
unfolding gc_all
gc_keys_marked_for_deletion now grace c = record c { node_states = gc_all now grace c.node_states }
