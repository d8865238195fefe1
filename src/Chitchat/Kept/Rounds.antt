-- ===== src/Chitchat/Kept/Rounds.antt =====
-- A node keeps its own state when it starts, in a round of gossip and in a reset:
-- chitchat/src/lib.rs.
use scuttlebutt.Prelude.{
  ℕ, ◌≡◌, refl, sym, Bool-cases, inl, inr, Option, none, some, List, same, leb, list_ord, nat_ord,
  pair_ord,
}
use mathlib.Core.Path.{subst}
use scuttlebutt.Prelude.Maps
use scuttlebutt.Prelude.Maps.{Map, IsSorted}
use scuttlebutt.Ids.{Str, ChitchatId, SocketAddr, id_ord}
use scuttlebutt.Types.{VersionedValue}
use scuttlebutt.NodeState.{NodeState}
use scuttlebutt.Cluster.{node_state_or_new, nodes, with_seed_addrs}
use scuttlebutt.FailureDetector
use scuttlebutt.FailureDetector.{
  FailureDetector, update_node_liveness, is_alive, reset_samples, dead_where, garbage_collect,
  forget_nodes, is_garbage, is_scheduled, put_window, window_or_new,
}
use scuttlebutt.FailureDetector.Window.{Floats}
use scuttlebutt.FailureDetector.Garbage.{get-forget_nodes}
use scuttlebutt.Chitchat.{Chitchat, ChitchatConfig}
use scuttlebutt.Chitchat.Live.{update_peers, collect_nodes, update_nodes_liveness, watch, started}
use scuttlebutt.Chitchat.Reset.{reset_node_state, get_or_create_sampling_window, reset_state}
use scuttlebutt.Chitchat.Kept.{
  update-Has, update-Has-self, get-remove_nodes, IsUndead, update_peers-IsUndead,
  forget_nodes-IsSorted, uncollected, IsKept, KeptResult,
}
use scuttlebutt.Chitchat.Kept.Messages.{with_cluster}

module _ (f : Floats) (self : ChitchatId) where
  watch-IsKept :
      (current : Map ChitchatId ℕ) (c : Chitchat f)
      → IsKept f self c
      → IsKept f self (watch f current c)
  unfolding watch
  watch-IsKept current c k = elim (Bool-cases (same c.previous_live_nodes current)) [
    | inl same ↦ rw same k
    | inr changed ↦ rw changed (record { is_self = k.is_self; own = k.own; detector = k.detector })
  ]

  collect_nodes-IsKept :
      (now : ℕ) (c : Chitchat f) → IsKept f self c → IsKept f self (collect_nodes f now c)
  unfolding collect_nodes garbage_collect
  collect_nodes-IsKept now c k =
      let d = c.failure_detector in
      let garbage = dead_where f (is_garbage f now d.config) d.dead_nodes in
      let spared = uncollected f (is_garbage f now d.config) self d k.detector in
      record {
        is_self = k.is_self;
        own = rw (get-remove_nodes f self garbage c.cluster_state, spared) k.own;
        detector = record {
          undead = rw (get-forget_nodes f self garbage d, spared) k.detector.undead;
          sorted = forget_nodes-IsSorted f garbage d k.detector.sorted;
        };
      }

  -- Peers are updated, the change is sent, and dead nodes are collected, but never the node itself.
  pub update_nodes_liveness-IsKept :
      (now : ℕ) (c : Chitchat f) → IsKept f self c → IsKept f self (update_nodes_liveness f now c)
  unfolding update_nodes_liveness
  update_nodes_liveness-IsKept now c k = collect_nodes-IsKept now _ (
      watch-IsKept _ _ (record {
        is_self = k.is_self;
        own = k.own;
        detector =
            subst
              (λ id.
                IsUndead f self (update_peers f now id (nodes c.cluster_state) c.failure_detector))
              (sym k.is_self)
              (update_peers-IsUndead f now self (nodes c.cluster_state) c.failure_detector
                k.detector);
      }))

  pub reset_node_state-IsKept :
      (id : ChitchatId) (kvs : List (Str × VersionedValue)) (max gc : ℕ) (c : Chitchat f)
      → IsKept f self c
      → IsKept f self (reset_node_state f id kvs max gc c)
  unfolding reset_node_state reset_state get_or_create_sampling_window
  reset_node_state-IsKept id kvs max gc c k =
      elim (Bool-cases (leb max (node_state_or_new id c.cluster_state).max_version)) [
        | inl behind ↦
            rw behind
              (with_cluster f self c _ k (update-Has self id (λ old. old) c.cluster_state k.own))
        | inr ahead ↦ rw ahead (record {
          is_self = k.is_self;
          own = update-Has self id (reset_state kvs gc) c.cluster_state k.own;
          detector = record { undead = k.detector.undead; sorted = k.detector.sorted };
        })
      ]

  pub started-IsKept :
      (config : ChitchatConfig f) (seeds : List SocketAddr) (o : Option NodeState)
      → config.chitchat_id ≡ self
      → KeptResult f self (started f config seeds o)
  unfolding started FailureDetector.new_detector
  started-IsKept config seeds none e = tt
  started-IsKept config seeds (some s) e = record {
    is_self = e;
    own = rw e (update-Has-self self (λ old. s) (with_seed_addrs seeds));
    detector = record { undead = unfold Maps.get in refl; sorted = tt };
  }
