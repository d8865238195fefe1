-- ===== src/Chitchat.antt =====
-- `struct Chitchat` of chitchat/src/lib.rs: a node's handling of the gossip messages. The instant of a
-- call is `now`. The catch-up callback, where there is one, is counted. An index out of bounds and a
-- failed assertion are `none`.
pub mod Advance
pub mod Live
pub mod Reset
pub mod Kept
pub mod Watch
pub mod Resets
use scuttlebutt.Prelude.{
  ℕ, ◌+◌, ◌%◌, ◌-◌, Bool, true, false, ◌&&◌, ◌||◌, Bool-cases, inl, inr, Option, none, some, List,
  [], ◌∷◌, same, if◌then◌else◌, ltb, ◌==◌, not, list_ord, nat_ord,
}
use scuttlebutt.Prelude.Maps.{Map}
use scuttlebutt.Ids.{Str, ChitchatId, SocketAddr, id_ord}
use scuttlebutt.Types.{u64_mod}
use scuttlebutt.NodeDelta.{NodeDelta}
use scuttlebutt.NodeState.{NodeState, has_panicked, inc_heartbeat, try_set_heartbeat}
use scuttlebutt.Digest.{Digest, NodeDigest, serialized_len_digest}
use scuttlebutt.Stream.{Compressor}
use scuttlebutt.Delta.{Delta}
use scuttlebutt.Cluster
use scuttlebutt.Cluster.{ClusterState, node_state_or_new, update_node_state}
use scuttlebutt.Cluster.Stale.{StaleNode}
use scuttlebutt.Cluster.Partial.{compute_partial_delta_respecting_mtu}
use scuttlebutt.Message.{ChitchatMessage}
use scuttlebutt.FailureDetector
use scuttlebutt.FailureDetector.{FailureDetector, FailureDetectorConfig}
use scuttlebutt.FailureDetector.Window.{Floats}

abbrev pub max_udp_datagram_payload_size : ℕ
max_udp_datagram_payload_size = 65507

unfoldable pub any_panicked : Map ChitchatId NodeState → Bool
unfolding has_panicked
any_panicked [] = false
any_panicked ((id, s) ∷ m) = has_panicked s.listeners || any_panicked m

-- What the digest leaves of a datagram, in 64 bits, where the subtraction wraps.
unfoldable pub delta_mtu : ℕ → ℕ
delta_mtu digest_len =
    (u64_mod + (max_udp_datagram_payload_size - 1) - digest_len % u64_mod) % u64_mod

module _ (f : Floats) where
  pub record ChitchatConfig : Type 0 where
    pub chitchat_id : ChitchatId
    pub cluster_id : Str
    pub gossip_interval : ℕ
    pub listen_addr : SocketAddr
    pub seed_nodes : List Str
    pub failure_detector_config : FailureDetectorConfig f
    pub marked_for_deletion_grace_period : ℕ
    pub has_catchup_callback : Bool
    pub extra_liveness_predicate : Option (NodeState → Bool)

  -- The watch channel is its value and the number of times that one was sent.
  pub record Chitchat : Type 0 where
    pub config : ChitchatConfig
    pub catchups : ℕ
    pub cluster_state : ClusterState
    pub failure_detector : FailureDetector f
    pub previous_live_nodes : Map ChitchatId ℕ
    pub live_nodes_watcher : Map ChitchatId NodeState
    pub sends : ℕ

  unfoldable pub update_self_heartbeat : Chitchat → Chitchat
  update_self_heartbeat c = record c {
    cluster_state = update_node_state c.config.chitchat_id inc_heartbeat c.cluster_state;
  }

  unfoldable pub scheduled_for_deletion_nodes : ℕ → Chitchat → List ChitchatId
  scheduled_for_deletion_nodes now c =
      FailureDetector.scheduled_for_deletion_nodes f now c.failure_detector

  unfoldable pub create_syn_message : ℕ → Chitchat → ChitchatMessage
  create_syn_message now c =
      ChitchatMessage.syn c.config.cluster_id
        (Cluster.compute_digest (scheduled_for_deletion_nodes now c) c.cluster_state)

  unfoldable pub gc_keys_marked_for_deletion : ℕ → Chitchat → Chitchat
  gc_keys_marked_for_deletion now c = record c {
    cluster_state =
        Cluster.gc_keys_marked_for_deletion now c.config.marked_for_deletion_grace_period
          c.cluster_state;
  }

  abbrev pub detected : ClusterState → Chitchat → Option (FailureDetector f) → Option Chitchat
  detected s c none = none
  detected s c (some d) = some (record c { cluster_state = s; failure_detector = d })

  -- The state of the node, after `try_set_heartbeat`, with what it returned.
  unfoldable pub report_heartbeat : ℕ → ChitchatId → ℕ → Chitchat → Option Chitchat
  report_heartbeat now id heartbeat c =
      if same id c.config.chitchat_id
      then some c
      else let (s, fresh) = try_set_heartbeat heartbeat (node_state_or_new id c.cluster_state) in
        let cluster = update_node_state id (λ old. s) c.cluster_state in
        if fresh
        then detected cluster c (FailureDetector.report_heartbeat f now id c.failure_detector)
        else some (record c { cluster_state = cluster })

  unfoldable pub report_heartbeats_in_digest :
      ℕ → Map ChitchatId NodeDigest → Chitchat → Option Chitchat
  unfolding report_heartbeat
  report_heartbeats_in_digest now [] c = some c
  report_heartbeats_in_digest now ((id, d) ∷ m) c = elim (report_heartbeat now id d.heartbeat c) [
    | none ↦ none
    | some c' ↦ report_heartbeats_in_digest now m c'
  ]

  -- A node delta that resets this node's replica.
  unfoldable pub has_reset : List NodeDelta → Bool
  has_reset [] = false
  has_reset (d ∷ ds) = (d.from_version_excluded == 0 && ltb 0 d.last_gc_version) || has_reset ds

  unfoldable pub maybe_trigger_catchup_callback : Delta → Chitchat → Chitchat
  unfolding has_reset
  maybe_trigger_catchup_callback delta c =
      if has_reset delta.node_deltas && c.config.has_catchup_callback
      then record c { catchups = c.catchups + 1 }
      else c

  unfoldable pub process_delta : ℕ → Delta → Chitchat → Chitchat
  unfolding maybe_trigger_catchup_callback
  process_delta now delta c =
      let c' = maybe_trigger_catchup_callback delta c in
      record c' { cluster_state = Cluster.apply_delta now delta c'.cluster_state }

  abbrev pub Reply : Type 0
  Reply = Option (Chitchat × Option ChitchatMessage)

  -- The reply, unless a listener has panicked on an event of a delta.
  unfoldable pub unless_panicked : Chitchat → Reply → Reply
  unfolding any_panicked
  unless_panicked c reply = if any_panicked c.cluster_state.node_states then none else reply

  -- What holds of a panic and of the reply.
  pub unless_panicked_lem {κ} :
      (P : Reply → Type κ) (c : Chitchat) (reply : Reply)
      → P none
      → P reply
      → P (unless_panicked c reply)
  unfolding unless_panicked
  unless_panicked_lem P c reply none_P reply_P =
      elim (Bool-cases (any_panicked c.cluster_state.node_states)) [
        | inl panic ↦ rw panic none_P
        | inr none_of_them ↦ rw none_of_them reply_P
      ]

  module _ (z : Compressor) (shuffle : List StaleNode → List StaleNode) where
    abbrev pub answer_delta : Chitchat → (Delta → ChitchatMessage) → Option Delta → Reply
    answer_delta c message none = none
    answer_delta c message (some delta) = some (c, some (message delta))

    -- What this node has for the digest, within the `mtu`.
    abbrev pub partial_delta : ℕ → Digest → ℕ → Chitchat → Option Delta
    partial_delta now digest mtu c =
        compute_partial_delta_respecting_mtu z shuffle digest mtu
          (scheduled_for_deletion_nodes now c) c.cluster_state

    abbrev pub answer_syn : ℕ → Digest → Option Chitchat → Reply
    answer_syn now digest none = none
    answer_syn now digest (some c) =
        let self_digest =
          Cluster.compute_digest (scheduled_for_deletion_nodes now c) c.cluster_state in
        answer_delta c (ChitchatMessage.syn_ack self_digest)
          (partial_delta now digest (delta_mtu (serialized_len_digest digest)) c)

    abbrev pub answer_syn_ack : ℕ → Digest → Delta → Option Chitchat → Reply
    answer_syn_ack now digest delta none = none
    answer_syn_ack now digest delta (some c) =
        let c' = process_delta now delta c in
        unless_panicked c' (
          answer_delta c' ChitchatMessage.ack
            (partial_delta now digest (max_udp_datagram_payload_size - 1) c'))

    abbrev pub handle : ℕ → ChitchatMessage → Chitchat → Reply
    handle now (ChitchatMessage.syn cluster_id digest) c =
        if not (same cluster_id c.config.cluster_id)
        then some (c, some ChitchatMessage.bad_cluster)
        else answer_syn now digest (report_heartbeats_in_digest now digest.node_digests c)
    handle now (ChitchatMessage.syn_ack digest delta) c =
        answer_syn_ack now digest delta (report_heartbeats_in_digest now digest.node_digests c)
    handle now (ChitchatMessage.ack delta) c =
        let c' = process_delta now delta c in unless_panicked c' (some (c', none))
    handle now ChitchatMessage.bad_cluster c = some (c, none)

    unfoldable pub process_message : ℕ → ChitchatMessage → Chitchat → Reply
    unfolding update_self_heartbeat report_heartbeats_in_digest process_delta delta_mtu
        unless_panicked
    process_message now message c = handle now message (update_self_heartbeat c)
