-- ===== src/Chitchat/Kept/Messages.antt =====
-- A node keeps its own state through the messages that it processes: chitchat/src/lib.rs.
use scuttlebutt.Prelude.{
  ℕ, ◌≡◌, ◌∙◌, ◌&&◌, Bool-cases, inl, inr, Option, Option-cases, none, some, List, [], ◌∷◌, same,
  list_ord, nat_ord, pair_ord,
}
use scuttlebutt.Prelude.Maps
use scuttlebutt.Prelude.Maps.{Map, IsSorted}
use scuttlebutt.Ids.{ChitchatId, id_ord}
use scuttlebutt.NodeState.{inc_heartbeat, try_set_heartbeat}
use scuttlebutt.Digest.{Digest, NodeDigest}
use scuttlebutt.Delta.{Delta}
use scuttlebutt.Stream.{Compressor}
use scuttlebutt.Message.{ChitchatMessage}
use scuttlebutt.Cluster
use scuttlebutt.Cluster.{
  ClusterState, node_state_or_new, update_node_state, remove_node, nodes, digests,
  apply_node_deltas, gc_all, with_seed_addrs,
}
use scuttlebutt.Cluster.Stale.{StaleNode}
use scuttlebutt.FailureDetector
use scuttlebutt.FailureDetector.{
  FailureDetector, update_node_liveness, is_alive, reset_samples, dead_where, garbage_collect,
  forget_nodes, is_garbage, is_scheduled, put_window, window_or_new,
}
use scuttlebutt.FailureDetector.Window.{Floats, report_window}
use scuttlebutt.Chitchat.{
  Chitchat, update_self_heartbeat, gc_keys_marked_for_deletion, report_heartbeat,
  report_heartbeats_in_digest, process_delta, process_message, unless_panicked_lem, detected,
  answer_delta, answer_syn, answer_syn_ack, maybe_trigger_catchup_callback, handle, has_reset,
}
use scuttlebutt.Chitchat.Kept.{Has, update-Has, deltas-Has, gc-Has, IsKept, KeptResult, KeptReply}

module _ (f : Floats) (self : ChitchatId) where
  pub with_cluster :
      (c : Chitchat f) (s : ClusterState)
      → IsKept f self c
      → Has self s
      → IsKept f self (record c { cluster_state = s })
  with_cluster c s k h = record { is_self = k.is_self; own = h; detector = k.detector }

  pub self-IsKept : (c : Chitchat f) → IsKept f self c → IsKept f self (update_self_heartbeat f c)
  unfolding update_self_heartbeat
  self-IsKept c k =
      with_cluster c _ k (update-Has self c.config.chitchat_id inc_heartbeat c.cluster_state k.own)

  pub collect-IsKept :
      (now : ℕ) (c : Chitchat f)
      → IsKept f self c
      → IsKept f self (gc_keys_marked_for_deletion f now c)
  unfolding gc_keys_marked_for_deletion Cluster.gc_keys_marked_for_deletion
  collect-IsKept now c k = with_cluster c _ k (
      gc-Has self now c.config.marked_for_deletion_grace_period c.cluster_state.node_states ∙ k.own)

  put_window-KeptResult :
      (c : Chitchat f) (s : ClusterState) (id : ChitchatId) (w : Option _)
      → IsKept f self c
      → Has self s
      → KeptResult f self (detected f s c (put_window f id c.failure_detector w))
  put_window-KeptResult c s id none k h = tt
  put_window-KeptResult c s id (some w) k h = record {
    is_self = k.is_self;
    own = h;
    detector = record { undead = k.detector.undead; sorted = k.detector.sorted };
  }

  report_heartbeat-KeptResult :
      (now n : ℕ) (id : ChitchatId) (c : Chitchat f)
      → IsKept f self c
      → KeptResult f self (report_heartbeat f now id n c)
  unfolding report_heartbeat
  report_heartbeat-KeptResult now n id c k =
      let r = try_set_heartbeat n (node_state_or_new id c.cluster_state) in
      let t = update_node_state id (λ old. r.0) c.cluster_state in
      let own = update-Has self id (λ old. r.0) c.cluster_state k.own in
      elim (Bool-cases (same id c.config.chitchat_id)) [
        | inl mine ↦ rw (mine, report_heartbeat) k
        | inr other ↦ elim (Bool-cases r.1) [
          | inl fresh ↦
              rw (other, fresh)
                (unfold FailureDetector.report_heartbeat in
                  put_window-KeptResult c t id
                    (report_window f now (
                      window_or_new f c.failure_detector.config
                        (Maps.get id c.failure_detector.node_samples)))
                    k own)
          | inr stale ↦ rw (other, stale) (with_cluster c t k own)
        ]
      ]

  pub report_heartbeats-KeptResult :
      (now : ℕ) (m : Map ChitchatId NodeDigest) (c : Chitchat f)
      → IsKept f self c
      → KeptResult f self (report_heartbeats_in_digest f now m c)
  unfolding report_heartbeats_in_digest
  report_heartbeats-KeptResult now [] c k = k
  report_heartbeats-KeptResult now ((id, d) ∷ m) c k =
      elim (Option-cases (report_heartbeat f now id d.heartbeat c)) [
        | inl e ↦ rw (e, report_heartbeats_in_digest) tt
        | inr (c', e) ↦
            rw (e, report_heartbeats_in_digest)
              (report_heartbeats-KeptResult now m c'
                (rw e at (report_heartbeat-KeptResult now d.heartbeat id c k)))
      ]

  catchup-IsKept :
      (delta : Delta) (c : Chitchat f)
      → IsKept f self c
      → IsKept f self (maybe_trigger_catchup_callback f delta c)
  unfolding maybe_trigger_catchup_callback
  catchup-IsKept delta c k =
      elim (Bool-cases (has_reset f delta.node_deltas && c.config.has_catchup_callback)) [
        | inl reset ↦ rw reset (record { is_self = k.is_self; own = k.own; detector = k.detector })
        | inr stays ↦ rw stays k
      ]

  process_delta-IsKept :
      (now : ℕ) (delta : Delta) (c : Chitchat f)
      → IsKept f self c
      → IsKept f self (process_delta f now delta c)
  unfolding process_delta Cluster.apply_delta
  process_delta-IsKept now delta c k =
      let k' = catchup-IsKept delta c k in
      with_cluster (maybe_trigger_catchup_callback f delta c) _ k'
        (deltas-Has self now delta.node_deltas _ k'.own)

  module _ (z : Compressor) (shuffle : List StaleNode → List StaleNode) where
    answer_delta-KeptReply :
        (c : Chitchat f) (message : Delta → ChitchatMessage) (o : Option Delta)
        → IsKept f self c
        → KeptReply f self (answer_delta f z shuffle c message o)
    answer_delta-KeptReply c message none k = tt
    answer_delta-KeptReply c message (some d) k = k

    answer_syn-KeptReply :
        (now : ℕ) (digest : Digest) (o : Option (Chitchat f))
        → KeptResult f self o
        → KeptReply f self (answer_syn f z shuffle now digest o)
    answer_syn-KeptReply now digest none k = tt
    answer_syn-KeptReply now digest (some c) k = answer_delta-KeptReply c _ _ k

    answer_syn_ack-KeptReply :
        (now : ℕ) (digest : Digest) (delta : Delta) (o : Option (Chitchat f))
        → KeptResult f self o
        → KeptReply f self (answer_syn_ack f z shuffle now digest delta o)
    answer_syn_ack-KeptReply now digest delta none k = tt
    answer_syn_ack-KeptReply now digest delta (some c) k =
        unless_panicked_lem f (KeptReply f self) (process_delta f now delta c) _ tt (
          answer_delta-KeptReply (process_delta f now delta c) _ _
            (process_delta-IsKept now delta c k))

    handle-KeptReply :
        (now : ℕ) (message : ChitchatMessage) (c : Chitchat f)
        → IsKept f self c
        → KeptReply f self (handle f z shuffle now message c)
    handle-KeptReply now (ChitchatMessage.syn cluster_id digest) c k =
        elim (Bool-cases (same cluster_id c.config.cluster_id)) [
          | inl ours ↦ rw ours (
              answer_syn-KeptReply now digest _
                (report_heartbeats-KeptResult now digest.node_digests c k))
          | inr foreign ↦ rw foreign k
        ]
    handle-KeptReply now (ChitchatMessage.syn_ack digest delta) c k =
        answer_syn_ack-KeptReply now digest delta _
          (report_heartbeats-KeptResult now digest.node_digests c k)
    handle-KeptReply now (ChitchatMessage.ack delta) c k =
        unless_panicked_lem f (KeptReply f self) (process_delta f now delta c) _ tt
          (process_delta-IsKept now delta c k)
    handle-KeptReply now ChitchatMessage.bad_cluster c k = k

  pub message-IsKept :
      (z : Compressor) (shuffle : List StaleNode → List StaleNode) (now : ℕ)
      (message : ChitchatMessage) (c c' : Chitchat f) (reply : Option ChitchatMessage)
      → process_message f z shuffle now message c ≡ some (c', reply)
      → IsKept f self c
      → IsKept f self c'
  unfolding process_message
  message-IsKept z shuffle now message c c' reply e k =
      rw e at (handle-KeptReply z shuffle now message (update_self_heartbeat f c) (self-IsKept c k))
