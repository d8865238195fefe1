-- ===== src/Gossip/Honest.antt =====
-- What holds of each entry that a node stores holds of what it sends, and the other way round:
-- chitchat/src/state.rs.
use scuttlebutt.Prelude.{
  ℕ, ◌≡◌, sym, Bool, some, Option-cases, inl, inr, List, [], ◌∷◌, All, All-imp, list_ord, nat_ord,
  arith,
}
use mathlib.Core.Path.{subst}
use scuttlebutt.Prelude.Maps
use scuttlebutt.Prelude.Maps.{Map}
use scuttlebutt.Ids.{Str, ChitchatId, id_ord}
use scuttlebutt.Types.{VersionedValue, KeyValueMutation}
use scuttlebutt.NodeDelta.{NodeDelta}
use scuttlebutt.NodeState.{NodeState, new, set_versioned_value, store, trigger_event}
use scuttlebutt.NodeState.Apply.{
  reset, prepare_apply_delta, apply_mutation, apply_mutations, versioned,
}
use scuttlebutt.NodeState.Apply
use scuttlebutt.Stream.{Compressor}
use scuttlebutt.Digest.{Digest}
use scuttlebutt.Delta.{Delta}
use scuttlebutt.Cluster.{
  ClusterState, node_state_or_new, update_node_state, apply_node_deltas, gc_all,
}
use scuttlebutt.Cluster
use scuttlebutt.Cluster.Stale.{StaleNode}
use scuttlebutt.Cluster.Partial.{compute_partial_delta_respecting_mtu}
use scuttlebutt.Cluster.Offered.{AddsNone, OfOffered, All-into_iter}
use scuttlebutt.Replica.Send.{mutations, stale, sent, All-stale, All-mutations, All-take}
use scuttlebutt.Replica.Fronts.{front, Fills, partial_delta-Fills}

-- A claim about a node's entries: the key, the value and the version.
abbrev pub Claim : Type 1
Claim = ChitchatId → Str → Str → ℕ → Type 0

module _ (W : Claim) where
  abbrev Entry : ChitchatId → Str × VersionedValue → Type 0
  Entry id e = W id e.0 e.1.value e.1.version

  -- The claim holds of each entry that is stored for the node.
  abbrev pub HonestState : ChitchatId → NodeState → Type 0
  HonestState id s = All (Entry id) s.key_values

  abbrev Told : ChitchatId → KeyValueMutation → Type 0
  Told id kv = W id kv.key kv.value kv.version

  abbrev pub HonestNodeDelta : NodeDelta → Type 0
  HonestNodeDelta d = All (Told d.chitchat_id) d.key_values

  abbrev pub HonestDelta : Delta → Type 0
  HonestDelta d = All HonestNodeDelta d.node_deltas

  abbrev pub HonestCluster : ClusterState → Type 0
  HonestCluster c = All (λ (e : ChitchatId × NodeState). HonestState e.0 e.1) c.node_states

  apply_mutation-Honest :
      (id : ChitchatId) (now floor : ℕ) (kv : KeyValueMutation) (s : NodeState)
      → Told id kv
      → HonestState id s
      → HonestState id (apply_mutation now floor kv s)
  unfolding apply_mutation set_versioned_value store trigger_event
  apply_mutation-Honest id now floor kv s told h =
      ground (arith, h, Maps.All-insert (Entry id) kv.key (versioned now kv) s.key_values told h)

  apply_mutations-Honest :
      (id : ChitchatId) (now floor : ℕ) (kvs : List KeyValueMutation) (s : NodeState)
      → All (Told id) kvs
      → HonestState id s
      → HonestState id (apply_mutations now floor kvs s)
  unfolding apply_mutations
  apply_mutations-Honest id now floor [] s told h = h
  apply_mutations-Honest id now floor (kv ∷ kvs) s told h =
      apply_mutations-Honest id now floor kvs (apply_mutation now floor kv s) told.1
        (apply_mutation-Honest id now floor kv s told.0 h)

  apply_delta-Honest :
      (now : ℕ) (d : NodeDelta) (s : NodeState)
      → HonestNodeDelta d
      → HonestState d.chitchat_id s
      → HonestState d.chitchat_id (Apply.apply_delta now d s)
  unfolding Apply.apply_delta prepare_apply_delta reset new
  apply_delta-Honest now d s told h = ground (
    arith,
    apply_mutations-Honest d.chitchat_id now s.max_version d.key_values s told h,
    apply_mutations-Honest d.chitchat_id now (reset d s).max_version d.key_values (reset d s) told
        tt,
  )

  pub or_new-Honest :
      (id : ChitchatId) (c : ClusterState)
      → HonestCluster c
      → HonestState id (node_state_or_new id c)
  unfolding node_state_or_new new
  or_new-Honest id c h = elim (Option-cases (Maps.get id c.node_states)) [
    | inl unknown ↦ rw unknown tt
    | inr (s, known) ↦ rw known (
        Maps.All-get (λ (e : ChitchatId × NodeState). HonestState e.0 e.1) id c.node_states h known)
  ]

  pub update_node_state-Honest :
      (id : ChitchatId) (g : NodeState → NodeState) (c : ClusterState)
      → HonestCluster c
      → HonestState id (g (node_state_or_new id c))
      → HonestCluster (update_node_state id g c)
  unfolding update_node_state
  update_node_state-Honest id g c h changed =
      Maps.All-insert (λ (e : ChitchatId × NodeState). HonestState e.0 e.1) id
        (g (node_state_or_new id c)) c.node_states changed h

  apply_node_deltas-Honest :
      (now : ℕ) (ds : List NodeDelta) (c : ClusterState)
      → All HonestNodeDelta ds
      → HonestCluster c
      → HonestCluster (apply_node_deltas now ds c)
  unfolding apply_node_deltas
  apply_node_deltas-Honest now [] c told h = h
  apply_node_deltas-Honest now (d ∷ ds) c told h =
      apply_node_deltas-Honest now ds (update_node_state d.chitchat_id (Apply.apply_delta now d) c)
        told.1
        (update_node_state-Honest d.chitchat_id (Apply.apply_delta now d) c h (
          apply_delta-Honest now d (node_state_or_new d.chitchat_id c) told.0
            (or_new-Honest d.chitchat_id c h)))

  pub cluster_apply_delta-Honest :
      (now : ℕ) (d : Delta) (c : ClusterState)
      → HonestDelta d
      → HonestCluster c
      → HonestCluster (Cluster.apply_delta now d c)
  unfolding Cluster.apply_delta
  cluster_apply_delta-Honest now d c told h = apply_node_deltas-Honest now d.node_deltas c told h

  abbrev HonestStale : StaleNode → Type 0
  HonestStale n = HonestState n.chitchat_id n.node

  front-Honest :
      (n : StaleNode) (count : ℕ) (room : Bool)
      → HonestStale n
      → HonestNodeDelta (front count room n)
  unfolding sent
  front-Honest n count room h =
      All-take (Told n.chitchat_id) count (mutations (stale n.from_version_excluded n.node)) (
        All-mutations (Told n.chitchat_id) (stale n.from_version_excluded n.node)
          (All-stale (Entry n.chitchat_id) n.from_version_excluded n.node h))

  Fills-Honest :
      (ns : List StaleNode) (ds : List NodeDelta)
      → All HonestStale ns
      → Fills ns ds
      → All HonestNodeDelta ds
  Fills-Honest ns [] h f = tt
  Fills-Honest [] (d ∷ ds) h f = absurd f
  Fills-Honest (n ∷ ns) (d ∷ ds) h f = (
    subst HonestNodeDelta (sym f.0.same) (front-Honest n f.0.count f.0.room h.0),
    Fills-Honest ns ds h.1 f.2,
  )

  -- A partial delta tells only what the cluster state has.
  pub partial_delta-Honest :
      (z : Compressor) (shuffle : List StaleNode → List StaleNode) (digest : Digest) (mtu : ℕ)
      (scheduled : List ChitchatId) (c : ClusterState) (d : Delta)
      → AddsNone shuffle
      → HonestCluster c
      → compute_partial_delta_respecting_mtu z shuffle digest mtu scheduled c ≡ some d
      → HonestDelta d
  partial_delta-Honest z shuffle digest mtu scheduled c d f h e =
      Fills-Honest _ d.node_deltas
        (All-into_iter HonestStale shuffle digest scheduled c.node_states f (
          All-imp (λ (e : ChitchatId × NodeState). HonestState e.0 e.1)
            (OfOffered HonestStale digest scheduled) (λ e h from shared offered. h) c.node_states
            h))
        (partial_delta-Fills z shuffle digest mtu scheduled c d e)
