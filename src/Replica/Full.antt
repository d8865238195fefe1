-- ===== src/Replica/Full.antt =====
-- A delta that has no room for a `max_version` takes no node either:
-- `compute_partial_delta_respecting_mtu` of chitchat/src/state.rs and `try_add_op` of
-- chitchat/src/delta.rs.
use scuttlebutt.Prelude.{ℕ, ◌≡◌, ◌≢◌, true, false, some, inl, inr, List, [], ◌∷◌, arith}
use scuttlebutt.Stream.{Compressor}
use scuttlebutt.Delta.{DeltaOp}
use scuttlebutt.Delta.Ops.{serialized_len_op}
use scuttlebutt.Stream.{upperbound_after}
use scuttlebutt.Delta.Serializer.{DeltaSerializer, try_add_node, try_set_max_version, try_add_op}
use scuttlebutt.Delta.Serializer.Taken.{try_add_op-refused, outcomes}
use scuttlebutt.Cluster.Stale.{StaleNode}
use scuttlebutt.Cluster.Partial.{add_nodes}

module _ (z : Compressor) where
  -- No node is taken any more.
  abbrev pub IsFull : DeltaSerializer → Type 0
  IsFull s =
      (n : StaleNode) (u : DeltaSerializer)
      → try_add_node z n.chitchat_id n.node.last_gc_version n.from_version_excluded s
        ≢ some (u, true)

  -- A node takes more room than a `max_version`.
  pub refused-IsFull :
      (v : ℕ) (s u : DeltaSerializer) → try_set_max_version z v s ≡ some (u, false) → IsFull s
  unfolding try_set_max_version try_add_node try_add_op serialized_len_op upperbound_after
  refused-IsFull v s u refused n w taken = ground arith

  pub full-stops :
      (ns : List StaleNode) (s t : DeltaSerializer) → IsFull s → add_nodes z ns s ≡ some t → s ≡ t
  unfolding add_nodes
  full-stops [] s t full e = ground arith
  full-stops (n ∷ ns) s t full e =
      let op = DeltaOp.node n.chitchat_id n.node.last_gc_version n.from_version_excluded in
      let attempt = try_add_node z n.chitchat_id n.node.last_gc_version n.from_version_excluded s in
      elim (outcomes attempt) [
        | inl panic ↦ cc (panic, e)
        | inr (inl (u, taken)) ↦ absurd (full n u taken)
        | inr (inr (u, refused)) ↦
            let same : u ≡ s = try_add_op-refused z op s u (unfold try_add_node in refused) in
            ground (arith, refused, same)
      ]
