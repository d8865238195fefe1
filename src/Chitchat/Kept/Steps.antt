-- ===== src/Chitchat/Kept/Steps.antt =====
-- What a node does, as a system that steps: chitchat/src/lib.rs and the calls of
-- chitchat/src/server.rs.
use scuttlebutt.Prelude.{ℕ, ◌≡◌, refl, true, Option, some, List, list_ord, nat_ord, pair_ord}
use scuttlebutt.Prelude.Maps
use scuttlebutt.Prelude.Maps.{Map, IsSorted}
use scuttlebutt.Ids.{Str, ChitchatId, SocketAddr, id_ord}
use scuttlebutt.Types.{VersionedValue}
use scuttlebutt.NodeState.{NodeState, inc_heartbeat}
use scuttlebutt.Stream.{Compressor}
use scuttlebutt.Message.{ChitchatMessage}
use scuttlebutt.Cluster
use scuttlebutt.Cluster.{
  ClusterState, node_state_or_new, update_node_state, remove_node, nodes, digests,
  apply_node_deltas, gc_all, with_seed_addrs,
}
use scuttlebutt.Cluster.Stale.{StaleNode}
use scuttlebutt.FailureDetector
use scuttlebutt.FailureDetector.{
  FailureDetector, update_node_liveness, is_alive, reset_samples, dead_where, garbage_collect,
  forget_nodes, is_garbage, is_scheduled, put_window, window_or_new,
}
use scuttlebutt.FailureDetector.Window.{Floats}
use scuttlebutt.Chitchat.{
  Chitchat, ChitchatConfig, update_self_heartbeat, gc_keys_marked_for_deletion, process_message,
  scheduled_for_deletion_nodes,
}
use scuttlebutt.Chitchat.Live.{update_nodes_liveness, with_chitchat_id_and_seeds, set_all}
use scuttlebutt.Chitchat.Reset.{reset_node_state}
use scuttlebutt.Chitchat.Kept.{is_some, Has, update-Has, get-digests, uncollected, IsKept}
use scuttlebutt.Chitchat.Kept.Messages.{with_cluster, self-IsKept, collect-IsKept, message-IsKept}
use scuttlebutt.Chitchat.Kept.Rounds.{
  update_nodes_liveness-IsKept, reset_node_state-IsKept, started-IsKept,
}

-- What happens to a node: it starts a round of gossip, ends one, processes a message, has a state of
-- its cluster reset, or has its own state written by the user.
pub data Step (f : Floats) (z : Compressor) (shuffle : List StaleNode → List StaleNode)
    : Chitchat f → Chitchat f → Type 0 where
  round :
      (now : ℕ) (c : Chitchat f)
      → Step f z shuffle c (gc_keys_marked_for_deletion f now (update_self_heartbeat f c))
  liveness : (now : ℕ) (c : Chitchat f) → Step f z shuffle c (update_nodes_liveness f now c)
  receive :
      (now : ℕ) (message : ChitchatMessage) (reply : Option ChitchatMessage) (c c' : Chitchat f)
      → process_message f z shuffle now message c ≡ some (c', reply)
      → Step f z shuffle c c'
  reset :
      (id : ChitchatId) (kvs : List (Str × VersionedValue)) (max gc : ℕ) (c : Chitchat f)
      → Step f z shuffle c (reset_node_state f id kvs max gc c)
  write :
      (g : NodeState → NodeState) (c : Chitchat f)
      → Step f z shuffle c
          (record c { cluster_state = update_node_state c.config.chitchat_id g c.cluster_state })

pub data Reach (f : Floats) (z : Compressor) (shuffle : List StaleNode → List StaleNode)
    (c : Chitchat f) : Chitchat f → Type 0 where
  here : Reach f z shuffle c c
  next : {d e : Chitchat f} → Reach f z shuffle c d → Step f z shuffle d e → Reach f z shuffle c e

module _ (f : Floats) (z : Compressor) (shuffle : List StaleNode → List StaleNode) where
  Step-IsKept :
      (self : ChitchatId) {c d : Chitchat f}
      → Step f z shuffle c d
      → IsKept f self c
      → IsKept f self d
  Step-IsKept self (round now c) k = collect-IsKept f self now _ (self-IsKept f self c k)
  Step-IsKept self (liveness now c) k = update_nodes_liveness-IsKept f self now c k
  Step-IsKept self (receive now message reply c c' e) k =
      message-IsKept f self z shuffle now message c c' reply e k
  Step-IsKept self (reset id kvs max gc c) k = reset_node_state-IsKept f self id kvs max gc c k
  Step-IsKept self (write g c) k =
      with_cluster f self c _ k (update-Has self c.config.chitchat_id g c.cluster_state k.own)

  Reach-IsKept :
      (self : ChitchatId) {c d : Chitchat f}
      → IsKept f self c
      → Reach f z shuffle c d
      → IsKept f self d
  Reach-IsKept self k here = k
  Reach-IsKept self k (next r step) = Step-IsKept self step (Reach-IsKept self k r)

  -- From its start on, whatever rounds, messages, resets and writes there are and at whatever instants, a
  -- node advertises itself: its own state is there, and the digest that it sends has an entry for it,
  -- since the failure detector never takes the node itself for dead.
  pub Reach-advertised :
      (config : ChitchatConfig f) (seeds : List SocketAddr) (kvs : List (Str × Str))
      (c d : Chitchat f)
      → with_chitchat_id_and_seeds f config seeds kvs ≡ some c
      → Reach f z shuffle c d
      → (now : ℕ)
      → Has config.chitchat_id d.cluster_state
        × (is_some (
              Maps.get config.chitchat_id
                (Cluster.compute_digest
                  (scheduled_for_deletion_nodes f now d)
                  d.cluster_state).node_digests)
            ≡ true)
  unfolding with_chitchat_id_and_seeds Cluster.compute_digest scheduled_for_deletion_nodes
      FailureDetector.scheduled_for_deletion_nodes
  Reach-advertised config seeds kvs c d e r now =
      let self = config.chitchat_id in
      let k =
        Reach-IsKept self
          (rw e at (
            started-IsKept f self config seeds
              (set_all f kvs (inc_heartbeat (node_state_or_new self (with_seed_addrs seeds))))
              refl))
          r in
      (
        k.own,
        rw
            (
              get-digests self _ d.cluster_state.node_states,
              uncollected f (is_scheduled f now d.failure_detector.config) self d.failure_detector
                  k.detector,
            )
            k.own,
      )
