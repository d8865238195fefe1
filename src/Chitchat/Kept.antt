-- ===== src/Chitchat/Kept.antt =====
-- A node keeps its own state through the operations of chitchat/src/lib.rs.
pub mod Messages
pub mod Rounds
pub mod Steps
use scuttlebutt.Prelude.{
  ℕ, ◌≡◌, refl, sym, ap, ◌∙◌, ◌⊎◌, Bool, true, false, not, ◌&&◌, ◌||◌, Bool-cases, inl, inr, Option,
  Option-cases, none, some, List, [], ◌∷◌, same, same→eq, same_refl, if◌then◌else◌, ltb, leb,
  list_ord, nat_ord, arith,
}
use mathlib.Core.Path.{subst}
use scuttlebutt.Prelude.Maps
use scuttlebutt.Prelude.Maps.{Map, IsSorted}
use scuttlebutt.Ids.{Str, ChitchatId, SocketAddr, id_ord}
use scuttlebutt.Types.{VersionedValue}
use scuttlebutt.NodeDelta.{NodeDelta}
use scuttlebutt.NodeState.{NodeState, inc_heartbeat, try_set_heartbeat}
use scuttlebutt.NodeState.Apply
use scuttlebutt.Digest.{Digest, NodeDigest, serialized_len_digest}
use scuttlebutt.Delta.{Delta, contains}
use scuttlebutt.Stream.{Compressor}
use scuttlebutt.Message.{ChitchatMessage}
use scuttlebutt.Cluster
use scuttlebutt.Cluster.{
  ClusterState, node_state_or_new, update_node_state, remove_node, nodes, digests,
  apply_node_deltas, gc_all, with_seed_addrs,
}
use scuttlebutt.Cluster.Stale.{StaleNode}
use scuttlebutt.FailureDetector
use scuttlebutt.FailureDetector.{
  FailureDetector, update_node_liveness, is_alive, reset_samples, dead_where, garbage_collect,
  forget_nodes, is_garbage, is_scheduled, put_window, window_or_new,
}
use scuttlebutt.FailureDetector.Window.{Floats, report_window}
use scuttlebutt.FailureDetector.Liveness.{update_node_liveness_lem}
use scuttlebutt.FailureDetector.Garbage.{contains-dead_where, get-forget_nodes}
use scuttlebutt.Chitchat.{
  Chitchat, ChitchatConfig, update_self_heartbeat, gc_keys_marked_for_deletion, report_heartbeat,
  report_heartbeats_in_digest, process_delta, process_message, create_syn_message,
  scheduled_for_deletion_nodes, max_udp_datagram_payload_size, detected, Reply, answer_delta,
  answer_syn, answer_syn_ack, maybe_trigger_catchup_callback, handle,
}
use scuttlebutt.Chitchat.Live.{
  update_peers, remove_nodes, collect_nodes, update_nodes_liveness, watch,
  with_chitchat_id_and_seeds, set_all, started,
}
use scuttlebutt.Chitchat.Reset.{reset_node_state, get_or_create_sampling_window}

abbrev pub is_some {ℓ} : {A : Type ℓ} → Option A → Bool
is_some none = false
is_some (some a) = true

abbrev pub Has : ChitchatId → ClusterState → Type 0
Has id c = is_some (Maps.get id c.node_states) ≡ true

pub update-Has :
    (j id : ChitchatId) (g : NodeState → NodeState) (c : ClusterState)
    → Has j c
    → Has j (update_node_state id g c)
unfolding update_node_state
update-Has j id g c h =
    ground (arith, Maps.get-insert id j (g (node_state_or_new id c)) c.node_states)

pub update-Has-self :
    (id : ChitchatId) (g : NodeState → NodeState) (c : ClusterState)
    → Has id (update_node_state id g c)
unfolding update_node_state
update-Has-self id g c =
    ground (arith, Maps.get-insert id id (g (node_state_or_new id c)) c.node_states, same_refl id)

pub deltas-Has :
    (j : ChitchatId) (now : ℕ) (ds : List NodeDelta) (c : ClusterState)
    → Has j c
    → Has j (apply_node_deltas now ds c)
unfolding apply_node_deltas
deltas-Has j now [] c h = h
deltas-Has j now (d ∷ ds) c h =
    deltas-Has j now ds _ (update-Has j d.chitchat_id (Apply.apply_delta now d) c h)

pub gc-Has :
    (j : ChitchatId) (now grace : ℕ) (m : Map ChitchatId NodeState)
    → is_some (Maps.get j (gc_all now grace m)) ≡ is_some (Maps.get j m)
unfolding gc_all Maps.get
gc-Has j now grace [] = refl
gc-Has j now grace ((id, s) ∷ m) = ground (arith, gc-Has j now grace m)

-- A node is removed when it is in the list.
pub get-remove_nodes :
    (f : Floats) (j : ChitchatId) (ids : List ChitchatId) (c : ClusterState)
    → Maps.get j (remove_nodes f ids c).node_states
      ≡ (if contains j ids then none else Maps.get j c.node_states)
unfolding remove_nodes contains remove_node
get-remove_nodes f j [] c = refl
get-remove_nodes f j (id ∷ ids) c =
    ground (arith, get-remove_nodes f j ids (remove_node id c), Maps.get-remove id j c.node_states)

-- A digest leaves out the nodes that are scheduled for deletion.
pub get-digests :
    (j : ChitchatId) (scheduled : List ChitchatId) (m : Map ChitchatId NodeState)
    → is_some (Maps.get j (digests scheduled m))
      ≡ (if contains j scheduled then false else is_some (Maps.get j m))
unfolding digests Maps.get
get-digests j scheduled [] = ground arith
get-digests j scheduled ((id, s) ∷ m) = elim (Bool-cases (same j id)) [
  | inl hit ↦ rw (same→eq j id hit) (ground (arith, same_refl id, get-digests id scheduled m))
  | inr miss ↦ ground (arith, get-digests j scheduled m)
]

module _ (f : Floats) where
  -- The failure detector does not take the node for dead.
  pub record IsUndead (self : ChitchatId) (d : FailureDetector f) : Type 0 where
    pub undead : Maps.get self d.dead_nodes ≡ none
    pub sorted : IsSorted d.dead_nodes

  liveness-IsSorted :
      (now : ℕ) (id : ChitchatId) (d : FailureDetector f)
      → IsSorted d.dead_nodes
      → IsSorted (update_node_liveness f now id d).dead_nodes
  unfolding update_node_liveness
  liveness-IsSorted now id d s = elim (Bool-cases (is_alive f now id d)) [
    | inl alive ↦ rw alive (Maps.remove-IsSorted id d.dead_nodes s)
    | inr dead ↦ rw dead (Maps.insert-IsSorted id _ d.dead_nodes s)
  ]

  liveness-IsUndead :
      (now : ℕ) (self id : ChitchatId) (d : FailureDetector f)
      → same id self ≡ false
      → IsUndead self d
      → IsUndead self (update_node_liveness f now id d)
  liveness-IsUndead now self id d other h = record {
    undead = ground (
      arith,
      (update_node_liveness_lem f now id self d).1,
      same→eq self id,
      same_refl id,
      h.undead,
    );
    sorted = liveness-IsSorted now id d h.sorted;
  }

  pub update_peers-IsUndead :
      (now : ℕ) (self : ChitchatId) (ids : List ChitchatId) (d : FailureDetector f)
      → IsUndead self d
      → IsUndead self (update_peers f now self ids d)
  unfolding update_peers
  update_peers-IsUndead now self [] d h = h
  update_peers-IsUndead now self (id ∷ ids) d h = elim (Bool-cases (same id self)) [
    | inl own ↦ rw own (update_peers-IsUndead now self ids d h)
    | inr other ↦
        rw other (update_peers-IsUndead now self ids _ (liveness-IsUndead now self id d other h))
  ]

  pub forget_nodes-IsSorted :
      (ids : List ChitchatId) (d : FailureDetector f)
      → IsSorted d.dead_nodes
      → IsSorted (forget_nodes f ids d).dead_nodes
  unfolding forget_nodes
  forget_nodes-IsSorted [] d s = s
  forget_nodes-IsSorted (id ∷ ids) d s =
      forget_nodes-IsSorted ids _ (Maps.remove-IsSorted id d.dead_nodes s)

  pub uncollected :
      (p : ℕ → Bool) (self : ChitchatId) (d : FailureDetector f)
      → IsUndead self d
      → contains self (dead_where f p d.dead_nodes) ≡ false
  uncollected p self d h = rw (contains-dead_where f p self d.dead_nodes h.sorted, h.undead) refl

  -- The node has its own state, and the failure detector does not take it for dead.
  pub record IsKept (self : ChitchatId) (c : Chitchat f) : Type 0 where
    pub is_self : c.config.chitchat_id ≡ self
    pub own : Has self c.cluster_state
    pub detector : IsUndead self c.failure_detector

  abbrev pub KeptResult : ChitchatId → Option (Chitchat f) → Type 0
  KeptResult self none = Unit
  KeptResult self (some c) = IsKept self c

  abbrev pub KeptReply : ChitchatId → Reply f → Type 0
  KeptReply self none = Unit
  KeptReply self (some (c, reply)) = IsKept self c
