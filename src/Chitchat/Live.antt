-- ===== src/Chitchat/Live.antt =====
-- `update_nodes_liveness` and the start of a node: chitchat/src/lib.rs. `!=` on two maps compares their
-- entries in order. The receiver that the node keeps makes sure that a send does not fail.
use scuttlebutt.Prelude.{
  ℕ, ◌+◌, Bool, true, Option, none, some, List, [], ◌∷◌, same, if◌then◌else◌, list_ord, pair_ord,
  nat_ord,
}
use scuttlebutt.Prelude.Maps
use scuttlebutt.Prelude.Maps.{Map, keys}
use scuttlebutt.Ids.{Str, ChitchatId, SocketAddr, id_ord}
use scuttlebutt.NodeState
use scuttlebutt.NodeState.{NodeState, inc_heartbeat}
use scuttlebutt.Cluster.{
  ClusterState, node_state_or_new, update_node_state, with_seed_addrs, nodes, node_state,
  remove_node,
}
use scuttlebutt.FailureDetector.{
  FailureDetector, update_node_liveness, garbage_collect, new_detector,
}
use scuttlebutt.FailureDetector.Window.{Floats}
use scuttlebutt.Chitchat.{Chitchat, ChitchatConfig}

module _ (f : Floats) where
  -- The initial key-values, in the order they are given.
  unfoldable pub set_all : List (Str × Str) → NodeState → Option NodeState
  set_all [] s = some s
  set_all ((key, value) ∷ kvs) s = elim (NodeState.set key value s) [
    | none ↦ none
    | some t ↦ set_all kvs t
  ]

  unfoldable pub started :
      ChitchatConfig f → List SocketAddr → Option NodeState → Option (Chitchat f)
  unfolding with_seed_addrs update_node_state new_detector
  started config seeds none = none
  started config seeds (some s) = some (record {
    config = config;
    catchups = 0;
    cluster_state = update_node_state config.chitchat_id (λ old. s) (with_seed_addrs seeds);
    failure_detector = new_detector f config.failure_detector_config;
    previous_live_nodes = [];
    live_nodes_watcher = [];
    sends = 0;
  })

  unfoldable pub with_chitchat_id_and_seeds :
      ChitchatConfig f → List SocketAddr → List (Str × Str) → Option (Chitchat f)
  unfolding started set_all
  with_chitchat_id_and_seeds config seeds initial_key_values = started config seeds (
      set_all initial_key_values
        (inc_heartbeat (node_state_or_new config.chitchat_id (with_seed_addrs seeds))))

  unfoldable pub live_nodes : Chitchat f → List ChitchatId
  live_nodes c = c.config.chitchat_id ∷ keys c.failure_detector.live_nodes

  -- The loop over the nodes but the node itself.
  unfoldable pub update_peers :
      ℕ → ChitchatId → List ChitchatId → FailureDetector f → FailureDetector f
  update_peers now self [] d = d
  update_peers now self (id ∷ ids) d =
      update_peers now self ids (if same id self then d else update_node_liveness f now id d)

  abbrev pub add_version : ChitchatId → Option NodeState → Map ChitchatId ℕ → Map ChitchatId ℕ
  add_version id none m = m
  add_version id (some s) m = Maps.insert id s.max_version m

  -- The nodes that have a state, with its `max_version`.
  unfoldable pub versions_of : ClusterState → List ChitchatId → Map ChitchatId ℕ → Map ChitchatId ℕ
  versions_of c [] m = m
  versions_of c (id ∷ ids) m = versions_of c ids (add_version id (node_state id c) m)

  abbrev pub passes : Option (NodeState → Bool) → NodeState → Bool
  passes none s = true
  passes (some p) s = p s

  abbrev pub add_state :
      Option (NodeState → Bool)
      → ChitchatId
      → Option NodeState
      → Map ChitchatId NodeState
      → Map ChitchatId NodeState
  add_state p id none m = m
  add_state p id (some s) m = if passes p s then Maps.insert id s m else m

  unfoldable pub states_of :
      Option (NodeState → Bool)
      → ClusterState
      → List ChitchatId
      → Map ChitchatId NodeState
      → Map ChitchatId NodeState
  states_of p c [] m = m
  states_of p c (id ∷ ids) m = states_of p c ids (add_state p id (node_state id c) m)

  -- The change is sent to those who watch.
  unfoldable pub watch : Map ChitchatId ℕ → Chitchat f → Chitchat f
  unfolding states_of
  watch current c = if same c.previous_live_nodes current then c else record c {
    previous_live_nodes = current;
    live_nodes_watcher =
        states_of c.config.extra_liveness_predicate c.cluster_state (keys current) [];
    sends = c.sends + 1;
  }

  unfoldable pub remove_nodes : List ChitchatId → ClusterState → ClusterState
  remove_nodes [] c = c
  remove_nodes (id ∷ ids) c = remove_nodes ids (remove_node id c)

  unfoldable pub collect_nodes : ℕ → Chitchat f → Chitchat f
  unfolding remove_nodes
  collect_nodes now c =
      let (d, garbage) = garbage_collect f now c.failure_detector in
      record c { failure_detector = d; cluster_state = remove_nodes garbage c.cluster_state }

  unfoldable pub update_nodes_liveness : ℕ → Chitchat f → Chitchat f
  unfolding update_peers live_nodes versions_of watch collect_nodes
  update_nodes_liveness now c =
      let updated = record c {
        failure_detector =
            update_peers now c.config.chitchat_id (nodes c.cluster_state) c.failure_detector;
      } in
      collect_nodes now (watch (versions_of c.cluster_state (live_nodes updated) []) updated)
