-- ===== src/Chitchat/Advance.antt =====
-- The versions of the replicas under the gossip messages: chitchat/src/lib.rs.
use scuttlebutt.Prelude.{
  ℕ, list_ord, nat_ord, ◌≡◌, refl, Bool-cases, Option, Option-cases, none, some, inl, inr, List, [],
  ◌∷◌, same, same→eq, if◌then◌else◌, arith,
}
use scuttlebutt.Prelude.Maps
use scuttlebutt.Ids.{ChitchatId, id_ord}
use scuttlebutt.NodeDelta.{NodeDelta}
use scuttlebutt.NodeState.{NodeState, inc_heartbeat, try_set_heartbeat}
use scuttlebutt.Digest.{Digest, NodeDigest}
use scuttlebutt.Prelude.Maps.{Map}
use scuttlebutt.Delta.{Delta}
use scuttlebutt.Stream.{Compressor}
use scuttlebutt.Cluster.Stale.{StaleNode}
use scuttlebutt.Message.{ChitchatMessage}
use scuttlebutt.FailureDetector
use scuttlebutt.FailureDetector.{FailureDetector}
use scuttlebutt.FailureDetector.Window.{Floats}
use scuttlebutt.Cluster
use scuttlebutt.Chitchat.{
  Chitchat, report_heartbeat, report_heartbeats_in_digest, process_delta, process_message,
  unless_panicked_lem, update_self_heartbeat, detected, Reply, answer_delta, answer_syn,
  answer_syn_ack, maybe_trigger_catchup_callback, handle,
}
use scuttlebutt.NodeState.Apply
use scuttlebutt.NodeState.Progress.{LexLe, apply_delta_progress}
use scuttlebutt.Cluster.{ClusterState, node_state_or_new, update_node_state, apply_node_deltas}

-- The versions of the second state are not behind those of the first.
abbrev pub NotBehind : NodeState → NodeState → Type 0
NotBehind s t = LexLe s.last_gc_version s.max_version t.last_gc_version t.max_version

NotBehind-trans : (s t u : NodeState) → NotBehind s t → NotBehind t u → NotBehind s u
NotBehind-trans s t u h k = ground arith

NotBehind-refl : (s : NodeState) → NotBehind s s
NotBehind-refl s = inr (refl, omega arith)

pub node_state_or_new-update_node_state :
    (id j : ChitchatId) (g : NodeState → NodeState) (c : ClusterState)
    → node_state_or_new j (update_node_state id g c)
      ≡ (if same j id then g (node_state_or_new id c) else node_state_or_new j c)
unfolding node_state_or_new update_node_state
node_state_or_new-update_node_state id j g c = rw Maps.get-insert (ground arith)

update-NotBehind :
    (id j : ChitchatId) (g : NodeState → NodeState) (c : ClusterState)
    → NotBehind (node_state_or_new id c) (g (node_state_or_new id c))
    → NotBehind (node_state_or_new j c) (node_state_or_new j (update_node_state id g c))
update-NotBehind id j g c h = elim (Bool-cases (same j id)) [
  | inl hit ↦ rw (node_state_or_new-update_node_state, hit) (rw (same→eq j id hit) h)
  | inr miss ↦
      rw (node_state_or_new-update_node_state, miss) (NotBehind-refl (node_state_or_new j c))
]

pub apply_node_deltas-NotBehind :
    (now : ℕ) (j : ChitchatId) (ds : List NodeDelta) (c : ClusterState)
    → NotBehind (node_state_or_new j c) (node_state_or_new j (apply_node_deltas now ds c))
unfolding apply_node_deltas
apply_node_deltas-NotBehind now j [] c = NotBehind-refl (node_state_or_new j c)
apply_node_deltas-NotBehind now j (d ∷ ds) c =
    let c' = update_node_state d.chitchat_id (Apply.apply_delta now d) c in
    NotBehind-trans (node_state_or_new j c) (node_state_or_new j c')
      (node_state_or_new j (apply_node_deltas now ds c'))
      (update-NotBehind d.chitchat_id j (Apply.apply_delta now d) c
        (apply_delta_progress now d (node_state_or_new d.chitchat_id c)))
      (apply_node_deltas-NotBehind now j ds c')

abbrev pub AllNotBehind : ClusterState → ClusterState → Type 0
AllNotBehind s t = (j : ChitchatId) → NotBehind (node_state_or_new j s) (node_state_or_new j t)

AllNotBehind-trans : (s t u : ClusterState) → AllNotBehind s t → AllNotBehind t u → AllNotBehind s u
AllNotBehind-trans s t u h k j =
    NotBehind-trans (node_state_or_new j s) (node_state_or_new j t) (node_state_or_new j u) (h j)
      (k j)

heartbeat-NotBehind : (n : ℕ) (s : NodeState) → NotBehind s (try_set_heartbeat n s).0
unfolding try_set_heartbeat
heartbeat-NotBehind n s = ground arith

module _ (f : Floats) where
  -- Where a step of the node returns, no replica has gone back.
  abbrev pub Keeps : ClusterState → Option (Chitchat f) → Type 0
  Keeps s none = Unit
  Keeps s (some c) = AllNotBehind s c.cluster_state

  self-AllNotBehind :
      (c : Chitchat f) → AllNotBehind c.cluster_state (update_self_heartbeat f c).cluster_state
  unfolding update_self_heartbeat
  self-AllNotBehind c j = update-NotBehind c.config.chitchat_id j inc_heartbeat c.cluster_state (
      unfold inc_heartbeat in
      NotBehind-refl (node_state_or_new c.config.chitchat_id c.cluster_state))

  detected-Keeps :
      (s t : ClusterState) (c : Chitchat f) (o : Option (FailureDetector f))
      → AllNotBehind s t
      → Keeps s (detected f t c o)
  detected-Keeps s t c none h = tt
  detected-Keeps s t c (some d) h = h

  report_heartbeat-Keeps :
      (now n : ℕ) (id : ChitchatId) (c : Chitchat f)
      → Keeps c.cluster_state (report_heartbeat f now id n c)
  unfolding report_heartbeat
  report_heartbeat-Keeps now n id c =
      let r = try_set_heartbeat n (node_state_or_new id c.cluster_state) in
      let t = update_node_state id (λ old. r.0) c.cluster_state in
      let ahead : AllNotBehind c.cluster_state t = λ j.
        update-NotBehind id j (λ old. r.0) c.cluster_state
          (heartbeat-NotBehind n (node_state_or_new id c.cluster_state)) in
      elim (Bool-cases (same id c.config.chitchat_id)) [
        | inl own ↦
            rw (own, report_heartbeat) (λ j. NotBehind-refl (node_state_or_new j c.cluster_state))
        | inr other ↦ elim (Bool-cases r.1) [
          | inl fresh ↦
              rw (other, fresh)
                (detected-Keeps c.cluster_state t c
                  (FailureDetector.report_heartbeat f now id c.failure_detector) ahead)
          | inr stale ↦ rw (other, stale) ahead
        ]
      ]

  Keeps-trans :
      (s t : ClusterState) (o : Option (Chitchat f)) → AllNotBehind s t → Keeps t o → Keeps s o
  Keeps-trans s t none h k = tt
  Keeps-trans s t (some c) h k = AllNotBehind-trans s t c.cluster_state h k

  report_heartbeats-Keeps :
      (now : ℕ) (m : Map ChitchatId NodeDigest) (c : Chitchat f)
      → Keeps c.cluster_state (report_heartbeats_in_digest f now m c)
  unfolding report_heartbeats_in_digest
  report_heartbeats-Keeps now [] c = λ j. NotBehind-refl (node_state_or_new j c.cluster_state)
  report_heartbeats-Keeps now ((id, d) ∷ m) c =
      elim (Option-cases (report_heartbeat f now id d.heartbeat c)) [
        | inl e ↦ rw (e, report_heartbeats_in_digest) tt
        | inr (c', e) ↦
            rw (e, report_heartbeats_in_digest)
              (Keeps-trans c.cluster_state c'.cluster_state (report_heartbeats_in_digest f now m c')
                (rw e at (report_heartbeat-Keeps now d.heartbeat id c))
                (report_heartbeats-Keeps now m c'))
      ]

  process_delta-AllNotBehind :
      (now : ℕ) (delta : Delta) (c : Chitchat f)
      → AllNotBehind c.cluster_state (process_delta f now delta c).cluster_state
  unfolding process_delta Cluster.apply_delta maybe_trigger_catchup_callback
  process_delta-AllNotBehind now delta c j =
      ground (arith, apply_node_deltas-NotBehind now j delta.node_deltas c.cluster_state)

  -- The same of a step with its reply.
  abbrev pub KeepsReply : ClusterState → Reply f → Type 0
  KeepsReply s none = Unit
  KeepsReply s (some (c, reply)) = AllNotBehind s c.cluster_state

  module _ (z : Compressor) (shuffle : List StaleNode → List StaleNode) where
    answer_delta-KeepsReply :
        (s : ClusterState) (c : Chitchat f) (message : Delta → ChitchatMessage) (o : Option Delta)
        → AllNotBehind s c.cluster_state
        → KeepsReply s (answer_delta f z shuffle c message o)
    answer_delta-KeepsReply s c message none h = tt
    answer_delta-KeepsReply s c message (some d) h = h

    answer_syn-KeepsReply :
        (s : ClusterState) (now : ℕ) (digest : Digest) (o : Option (Chitchat f))
        → Keeps s o
        → KeepsReply s (answer_syn f z shuffle now digest o)
    answer_syn-KeepsReply s now digest none h = tt
    answer_syn-KeepsReply s now digest (some c) h = answer_delta-KeepsReply s c _ _ h

    answer_syn_ack-KeepsReply :
        (s : ClusterState) (now : ℕ) (digest : Digest) (delta : Delta) (o : Option (Chitchat f))
        → Keeps s o
        → KeepsReply s (answer_syn_ack f z shuffle now digest delta o)
    answer_syn_ack-KeepsReply s now digest delta none h = tt
    answer_syn_ack-KeepsReply s now digest delta (some c) h =
        unless_panicked_lem f (KeepsReply s) (process_delta f now delta c) _ tt (
          answer_delta-KeepsReply s (process_delta f now delta c) _ _ (
            AllNotBehind-trans s c.cluster_state (process_delta f now delta c).cluster_state h
              (process_delta-AllNotBehind now delta c)))

    handle-KeepsReply :
        (now : ℕ) (message : ChitchatMessage) (c : Chitchat f)
        → KeepsReply c.cluster_state (handle f z shuffle now message c)
    handle-KeepsReply now (ChitchatMessage.syn cluster_id digest) c =
        elim (Bool-cases (same cluster_id c.config.cluster_id)) [
          | inl ours ↦ rw ours (
              answer_syn-KeepsReply c.cluster_state now digest _
                (report_heartbeats-Keeps now digest.node_digests c))
          | inr foreign ↦ rw foreign (λ j. NotBehind-refl (node_state_or_new j c.cluster_state))
        ]
    handle-KeepsReply now (ChitchatMessage.syn_ack digest delta) c =
        answer_syn_ack-KeepsReply c.cluster_state now digest delta _
          (report_heartbeats-Keeps now digest.node_digests c)
    handle-KeepsReply now (ChitchatMessage.ack delta) c =
        unless_panicked_lem f (KeepsReply c.cluster_state) (process_delta f now delta c) _ tt
          (process_delta-AllNotBehind now delta c)
    handle-KeepsReply now ChitchatMessage.bad_cluster c =
        λ j. NotBehind-refl (node_state_or_new j c.cluster_state)

    -- Whatever message a node processes at whatever instant, where it does not panic, no replica's
    -- (`last_gc_version`, `max_version`) goes back, and neither do its own.
    pub process_message-NotBehind :
        (now : ℕ) (message : ChitchatMessage) (c c' : Chitchat f) (reply : Option ChitchatMessage)
        → process_message f z shuffle now message c ≡ some (c', reply)
        → (j : ChitchatId)
        → NotBehind (node_state_or_new j c.cluster_state) (node_state_or_new j c'.cluster_state)
    unfolding process_message
    process_message-NotBehind now message c c' reply e j =
        let beaten = update_self_heartbeat f c in
        AllNotBehind-trans c.cluster_state beaten.cluster_state c'.cluster_state
          (self-AllNotBehind c) (rw e at (handle-KeepsReply now message beaten)) j
