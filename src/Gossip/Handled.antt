-- ===== src/Gossip/Handled.antt =====
-- What holds of each entry of a node and of a message holds of the node and its reply after the
-- message: chitchat/src/lib.rs.
use scuttlebutt.Prelude.{
  ℕ, ◌-◌, ◌≡◌, refl, ◌&&◌, Bool-cases, Option-cases, Option, none, some, inl, inr, List, [], ◌∷◌,
  All, All-keep, same, list_ord, nat_ord, pair_ord, arith,
}
use scuttlebutt.Prelude.Maps
use scuttlebutt.Prelude.Maps.{Map}
use scuttlebutt.Ids.{Str, ChitchatId, id_ord}
use scuttlebutt.Types.{VersionedValue}
use scuttlebutt.NodeState.{NodeState, inc_heartbeat, try_set_heartbeat}
use scuttlebutt.NodeState.Gc
use scuttlebutt.NodeState.Collect.{retain-keep, survives}
use scuttlebutt.Stream.{Compressor}
use scuttlebutt.Digest.{Digest, NodeDigest}
use scuttlebutt.Delta.{Delta}
use scuttlebutt.Message.{ChitchatMessage}
use scuttlebutt.Cluster.{
  ClusterState, node_state_or_new, update_node_state, gc_all, remove_node, nodes,
}
use scuttlebutt.Cluster
use scuttlebutt.Cluster.Stale.{StaleNode}
use scuttlebutt.Cluster.Offered.{AddsNone}
use scuttlebutt.FailureDetector
use scuttlebutt.FailureDetector.{FailureDetector, garbage_collect}
use scuttlebutt.FailureDetector.Window.{Floats}
use scuttlebutt.Chitchat.{
  Chitchat, update_self_heartbeat, gc_keys_marked_for_deletion, report_heartbeat,
  report_heartbeats_in_digest, process_delta, process_message, unless_panicked_lem,
  max_udp_datagram_payload_size, detected, partial_delta, answer_delta, answer_syn, answer_syn_ack,
  maybe_trigger_catchup_callback, handle, has_reset, Reply,
}
use scuttlebutt.Chitchat.Live.{
  watch, remove_nodes, collect_nodes, update_nodes_liveness, update_peers, versions_of, live_nodes,
}
use scuttlebutt.Gossip.Honest.{
  Claim, HonestState, HonestDelta, HonestCluster, or_new-Honest, update_node_state-Honest,
  cluster_apply_delta-Honest, partial_delta-Honest,
}

module _ (W : Claim) where
  -- The claim holds of each entry that the message carries.
  abbrev pub HonestMessage : ChitchatMessage → Type 0
  HonestMessage (ChitchatMessage.syn cluster_id digest) = Unit
  HonestMessage (ChitchatMessage.syn_ack digest delta) = HonestDelta W delta
  HonestMessage (ChitchatMessage.ack delta) = HonestDelta W delta
  HonestMessage ChitchatMessage.bad_cluster = Unit

  abbrev pub HonestReply : Option ChitchatMessage → Type 0
  HonestReply none = Unit
  HonestReply (some m) = HonestMessage m

  -- A change that leaves the entries as they are.
  same_entries-Honest :
      (id : ChitchatId) (g : NodeState → NodeState) (c : ClusterState)
      → (g (node_state_or_new id c)).key_values ≡ (node_state_or_new id c).key_values
      → HonestCluster W c
      → HonestCluster W (update_node_state id g c)
  same_entries-Honest id g c e h =
      update_node_state-Honest W id g c h (rw e (or_new-Honest W id c h))

  gc_all-Honest :
      (now grace : ℕ) (m : Map ChitchatId NodeState)
      → All (λ (e : ChitchatId × NodeState). HonestState W e.0 e.1) m
      → All (λ (e : ChitchatId × NodeState). HonestState W e.0 e.1) (gc_all now grace m)
  unfolding gc_all Gc.gc_keys_marked_for_deletion
  gc_all-Honest now grace [] h = tt
  gc_all-Honest now grace ((id, s) ∷ m) h = (
    rw retain-keep (
        All-keep (λ (e : Str × VersionedValue). W id e.0 e.1.value e.1.version) (survives now grace)
          s.key_values h.0),
    gc_all-Honest now grace m h.1,
  )

  module _ (f : Floats) where
    abbrev pub Honest : Chitchat f → Type 0
    Honest c = HonestCluster W c.cluster_state

    abbrev HonestResult : Option (Chitchat f) → Type 0
    HonestResult none = Unit
    HonestResult (some c) = Honest c

    pub self-Honest : (c : Chitchat f) → Honest c → Honest (update_self_heartbeat f c)
    unfolding update_self_heartbeat
    self-Honest c h =
        same_entries-Honest c.config.chitchat_id inc_heartbeat c.cluster_state
          (unfold inc_heartbeat in refl) h

    pub collect-Honest :
        (now : ℕ) (c : Chitchat f) → Honest c → Honest (gc_keys_marked_for_deletion f now c)
    unfolding gc_keys_marked_for_deletion Cluster.gc_keys_marked_for_deletion
    collect-Honest now c h =
        gc_all-Honest now c.config.marked_for_deletion_grace_period c.cluster_state.node_states h

    detected-Honest :
        (s : ClusterState) (c : Chitchat f) (o : Option (FailureDetector f))
        → HonestCluster W s
        → HonestResult (detected f s c o)
    detected-Honest s c none h = tt
    detected-Honest s c (some d) h = h

    report_heartbeat-Honest :
        (now n : ℕ) (id : ChitchatId) (c : Chitchat f)
        → Honest c
        → HonestResult (report_heartbeat f now id n c)
    unfolding report_heartbeat
    report_heartbeat-Honest now n id c h =
        let r = try_set_heartbeat n (node_state_or_new id c.cluster_state) in
        let t = update_node_state id (λ old. r.0) c.cluster_state in
        let kept =
          same_entries-Honest id (λ old. r.0) c.cluster_state
            (unfold try_set_heartbeat in ground arith) h in
        elim (Bool-cases (same id c.config.chitchat_id)) [
          | inl mine ↦ rw (mine, report_heartbeat) h
          | inr other ↦ elim (Bool-cases r.1) [
            | inl fresh ↦
                rw (other, fresh)
                  (detected-Honest t c
                    (FailureDetector.report_heartbeat f now id c.failure_detector) kept)
            | inr stale ↦ rw (other, stale) kept
          ]
        ]

    report_heartbeats-Honest :
        (now : ℕ) (m : Map ChitchatId NodeDigest) (c : Chitchat f)
        → Honest c
        → HonestResult (report_heartbeats_in_digest f now m c)
    unfolding report_heartbeats_in_digest
    report_heartbeats-Honest now [] c h = h
    report_heartbeats-Honest now ((id, d) ∷ m) c h =
        elim (Option-cases (report_heartbeat f now id d.heartbeat c)) [
          | inl e ↦ rw (e, report_heartbeats_in_digest) tt
          | inr (c', e) ↦
              rw (e, report_heartbeats_in_digest)
                (report_heartbeats-Honest now m c'
                  (rw e at (report_heartbeat-Honest now d.heartbeat id c h)))
        ]

    process_delta-Honest :
        (now : ℕ) (delta : Delta) (c : Chitchat f)
        → HonestDelta W delta
        → Honest c
        → Honest (process_delta f now delta c)
    unfolding process_delta maybe_trigger_catchup_callback
    process_delta-Honest now delta c told h =
        elim (Bool-cases (has_reset f delta.node_deltas && c.config.has_catchup_callback)) [
          | inl reset ↦ rw reset (cluster_apply_delta-Honest W now delta c.cluster_state told h)
          | inr stays ↦ rw stays (cluster_apply_delta-Honest W now delta c.cluster_state told h)
        ]

    remove_nodes-Honest :
        (ids : List ChitchatId) (c : ClusterState)
        → HonestCluster W c
        → HonestCluster W (remove_nodes f ids c)
    unfolding remove_nodes remove_node
    remove_nodes-Honest [] c h = h
    remove_nodes-Honest (id ∷ ids) c h =
        remove_nodes-Honest ids (remove_node id c) (
          Maps.All-remove (λ (e : ChitchatId × NodeState). HonestState W e.0 e.1) id c.node_states
            h)

    watch-Honest :
        (current : Map ChitchatId ℕ) (c : Chitchat f) → Honest c → Honest (watch f current c)
    unfolding watch
    watch-Honest current c h = elim (Bool-cases (same c.previous_live_nodes current)) [
      | inl same ↦ rw same h
      | inr changed ↦ rw changed h
    ]

    pub update_nodes_liveness-Honest :
        (now : ℕ) (c : Chitchat f) → Honest c → Honest (update_nodes_liveness f now c)
    unfolding update_nodes_liveness collect_nodes
    update_nodes_liveness-Honest now c h =
        let updated = record c {
          failure_detector =
              update_peers f now c.config.chitchat_id (nodes c.cluster_state) c.failure_detector;
        } in
        let watched = watch f (versions_of f c.cluster_state (live_nodes f updated) []) updated in
        remove_nodes-Honest (garbage_collect f now watched.failure_detector).1 watched.cluster_state
          (watch-Honest (versions_of f c.cluster_state (live_nodes f updated) []) updated h)

    module _ (z : Compressor) (shuffle : List StaleNode → List StaleNode)
        (s : AddsNone shuffle) where
      abbrev HonestBoth : Reply f → Type 0
      HonestBoth none = Unit
      HonestBoth (some (c, reply)) = Honest c × HonestReply reply

      answer_delta-Honest :
          (c : Chitchat f) (message : Delta → ChitchatMessage) (now : ℕ) (digest : Digest) (mtu : ℕ)
          → ((d : Delta) → HonestDelta W d → HonestMessage (message d))
          → Honest c
          → HonestBoth
              (answer_delta f z shuffle c message (partial_delta f z shuffle now digest mtu c))
      answer_delta-Honest c message now digest mtu tells h =
          elim (Option-cases (partial_delta f z shuffle now digest mtu c)) [
            | inl panic ↦ rw panic tt
            | inr (d, computed) ↦ rw computed (
              h,
              tells d
                  (partial_delta-Honest W z shuffle digest mtu _ c.cluster_state d s h computed),
            )
          ]

      answer_syn-Honest :
          (now : ℕ) (digest : Digest) (o : Option (Chitchat f))
          → HonestResult o
          → HonestBoth (answer_syn f z shuffle now digest o)
      answer_syn-Honest now digest none h = tt
      answer_syn-Honest now digest (some c) h =
          answer_delta-Honest c _ now digest _ (λ d told. told) h

      answer_syn_ack-Honest :
          (now : ℕ) (digest : Digest) (delta : Delta) (o : Option (Chitchat f))
          → HonestDelta W delta
          → HonestResult o
          → HonestBoth (answer_syn_ack f z shuffle now digest delta o)
      answer_syn_ack-Honest now digest delta none told h = tt
      answer_syn_ack-Honest now digest delta (some c) told h =
          unless_panicked_lem f HonestBoth (process_delta f now delta c) _ tt (
            answer_delta-Honest (process_delta f now delta c) ChitchatMessage.ack now digest
              (max_udp_datagram_payload_size - 1) (λ d t. t)
              (process_delta-Honest now delta c told h))

      handle-Honest :
          (now : ℕ) (message : ChitchatMessage) (c : Chitchat f)
          → HonestMessage message
          → Honest c
          → HonestBoth (handle f z shuffle now message c)
      handle-Honest now (ChitchatMessage.syn cluster_id digest) c told h =
          elim (Bool-cases (same cluster_id c.config.cluster_id)) [
            | inl ours ↦ rw ours (
                answer_syn-Honest now digest _
                  (report_heartbeats-Honest now digest.node_digests c h))
            | inr foreign ↦ rw foreign (h, tt)
          ]
      handle-Honest now (ChitchatMessage.syn_ack digest delta) c told h =
          answer_syn_ack-Honest now digest delta _ told
            (report_heartbeats-Honest now digest.node_digests c h)
      handle-Honest now (ChitchatMessage.ack delta) c told h =
          unless_panicked_lem f HonestBoth (process_delta f now delta c) _ tt
            (process_delta-Honest now delta c told h, tt)
      handle-Honest now ChitchatMessage.bad_cluster c told h = (h, tt)

      -- A node and its reply tell no more than the node and the message did.
      pub process_message-Honest :
          (now : ℕ) (message : ChitchatMessage) (c c' : Chitchat f) (reply : Option ChitchatMessage)
          → HonestMessage message
          → Honest c
          → process_message f z shuffle now message c ≡ some (c', reply)
          → Honest c' × HonestReply reply
      unfolding process_message
      process_message-Honest now message c c' reply told h e =
          rw e at (handle-Honest now message (update_self_heartbeat f c) told (self-Honest c h))
