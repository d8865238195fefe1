-- ===== src/Replica/Written/Loops.antt =====
-- The loops of `compute_partial_delta_respecting_mtu` in chitchat/src/state.rs keep the stream and the
-- builder of the serializer in step.
use scuttlebutt.Prelude.{
  ℕ, ◌≡◌, refl, sym, ap, ◌∙◌, Bool, true, false, Bool-cases, none, some, inl, inr, List, [], ◌∷◌,
  ◌++◌, arith,
}
use mathlib.Core.List.{append_assoc}
use mathlib.Core.Path.{subst}
use scuttlebutt.Prelude.Maps.{Map}
use scuttlebutt.Ids.{Str}
use scuttlebutt.Types.{VersionedValue, KeyValueMutation}
use scuttlebutt.NodeDelta.{NodeDelta}
use scuttlebutt.Stream.{Compressor}
use scuttlebutt.Delta.{DeltaOp, node_ops, operations}
use scuttlebutt.Delta.Serializer.{
  DeltaSerializer, mutation_of, try_add_op, try_add_kv, try_add_node, try_set_max_version,
}
use scuttlebutt.Delta.Serializer.Taken.{try_add_op-taken, try_add_op-refused, outcomes}
use scuttlebutt.Cluster.Stale.{StaleNode, stale_key_values}
use scuttlebutt.Cluster.Partial.{add_key_values, add_contents, add_nodes, is_empty}
use scuttlebutt.Replica.Fill.{
  IsAt, opened, complete, with_key_values, with_max_version, apply_key_value-IsAt,
  apply_max_version-IsAt, apply_node-IsAt,
}
use scuttlebutt.Replica.Written.{
  IsWritten, taken-IsWritten, operations-IsAt, node_ops-key_value, node_ops-max_version,
}

module _ (z : Compressor) where
  -- The builder is at a node delta that has no `max_version` yet, and the stream agrees with it.
  abbrev Ready : List NodeDelta → NodeDelta → DeltaSerializer → Type 0
  Ready ds d s = IsAt ds d s.delta_builder × (d.max_version ≡ none) × IsWritten z s

  module _ (ds : List NodeDelta) (d : NodeDelta) (s t : DeltaSerializer) (h : Ready ds d s) where
    -- An operation that adds to the node delta at work.
    more-IsWritten :
        (op : DeltaOp) (d' : NodeDelta)
        → try_add_op z op s ≡ some (t, true)
        → IsAt ds d' t.delta_builder
        → node_ops d' ≡ node_ops d ++ (op ∷ [])
        → IsWritten z t
    more-IsWritten op d' e at more =
        taken-IsWritten z op s t e
          (operations-IsAt ds d' t.delta_builder at
            ∙ ap (λ ops. operations ds ++ ops) more
            ∙ sym (append_assoc (operations ds) (node_ops d) (op ∷ []))
            ∙ ap (λ ops. ops ++ (op ∷ [])) (sym (operations-IsAt ds d s.delta_builder h.0)))
          h.2

    key_value-Ready :
        (kv : KeyValueMutation)
        → try_add_op z (DeltaOp.key_value kv) s ≡ some (t, true)
        → Ready ds (with_key_values (kv ∷ []) d) t
    key_value-Ready kv e =
        let at =
          apply_key_value-IsAt ds d s.delta_builder t.delta_builder h.0 kv
            (try_add_op-taken z (DeltaOp.key_value kv) s t e) in
        (
          at,
          h.1,
          more-IsWritten (DeltaOp.key_value kv) (with_key_values (kv ∷ []) d) e at
              (node_ops-key_value d h.1 kv),
        )

    max_version-IsWritten :
        (v : ℕ) → try_add_op z (DeltaOp.set_max_version v) s ≡ some (t, true) → IsWritten z t
    max_version-IsWritten v e =
        more-IsWritten (DeltaOp.set_max_version v) (with_max_version (some v) d) e
          (apply_max_version-IsAt ds d s.delta_builder t.delta_builder h.0 v
            (try_add_op-taken z (DeltaOp.set_max_version v) s t e))
          (node_ops-max_version d h.1 v)

  add_key_values-IsWritten :
      (ds : List NodeDelta) (d : NodeDelta) (m : Map Str VersionedValue) (s t : DeltaSerializer)
      (all : Bool)
      → Ready ds d s
      → add_key_values z m s ≡ some (t, all)
      → IsWritten z t
  unfolding add_key_values
  add_key_values-IsWritten ds d [] s t all h e = ground (arith, h.2)
  add_key_values-IsWritten ds d ((k, v) ∷ m) s t all h e =
      let kv = mutation_of k v in
      let op = DeltaOp.key_value kv in
      elim (outcomes (try_add_kv z k v s)) [
        | inl panic ↦ cc (panic, e)
        | inr (inr (u, refused)) ↦
            let same : u ≡ s = try_add_op-refused z op s u (unfold try_add_kv in refused) in
            let result : s ≡ t = ground (arith, refused, same) in subst (IsWritten z) result h.2
        | inr (inl (u, taken)) ↦
            add_key_values-IsWritten ds (with_key_values (kv ∷ []) d) m u t all
              (key_value-Ready ds d s u h kv (unfold try_add_kv in taken))
              (rw (taken, add_key_values) at e)
      ]

  add_contents-IsWritten :
      (ds : List NodeDelta) (n : StaleNode) (s t : DeltaSerializer) (all : Bool)
      → Ready ds (opened n) s
      → add_contents z n s ≡ some (t, all)
      → IsWritten z t
  unfolding add_contents
  add_contents-IsWritten ds n s t all h e = elim (Bool-cases (is_empty (stale_key_values n))) [
    | inr some_kvs ↦
        add_key_values-IsWritten ds (opened n) (stale_key_values n) s t all h
          (rw (some_kvs, add_contents) at e)
    | inl bare ↦
        let op = DeltaOp.set_max_version n.node.max_version in
        elim (outcomes (try_set_max_version z n.node.max_version s)) [
          | inl panic ↦ cc (bare, panic, e)
          | inr (inr (u, refused)) ↦
              let same : u ≡ s =
                try_add_op-refused z op s u (unfold try_set_max_version in refused) in
              let result : s ≡ t = ground (arith, bare, refused, same) in
              subst (IsWritten z) result h.2
          | inr (inl (u, taken)) ↦
              let result : u ≡ t = ground (arith, bare, taken) in
              subst (IsWritten z) result (
                max_version-IsWritten ds (opened n) s u h n.node.max_version
                  (unfold try_set_max_version in taken))
        ]
  ]

  opened-Ready :
      (n : StaleNode) (s t : DeltaSerializer)
      → try_add_node z n.chitchat_id n.node.last_gc_version n.from_version_excluded s
        ≡ some (t, true)
      → IsWritten z s
      → Ready (complete s.delta_builder) (opened n) t
  unfolding node_ops
  opened-Ready n s t e h =
      let op = DeltaOp.node n.chitchat_id n.node.last_gc_version n.from_version_excluded in
      let ds = complete s.delta_builder in
      let taken : try_add_op z op s ≡ some (t, true) = unfold try_add_node in e in
      let at =
        apply_node-IsAt n s.delta_builder t.delta_builder (try_add_op-taken z op s t taken) in
      (
        at,
        refl,
        taken-IsWritten z op s t taken (operations-IsAt ds (opened n) t.delta_builder at) h,
      )

  pub add_nodes-IsWritten :
      (ns : List StaleNode) (s t : DeltaSerializer)
      → IsWritten z s
      → add_nodes z ns s ≡ some t
      → IsWritten z t
  unfolding add_nodes
  add_nodes-IsWritten [] s t h e = ground (arith, h)
  add_nodes-IsWritten (n ∷ ns) s t h e =
      let op = DeltaOp.node n.chitchat_id n.node.last_gc_version n.from_version_excluded in
      elim (outcomes
        (try_add_node z n.chitchat_id n.node.last_gc_version n.from_version_excluded s)) [
          | inl panic ↦ cc (panic, e)
          | inr (inr (u, refused)) ↦
              let same : u ≡ s = try_add_op-refused z op s u (unfold try_add_node in refused) in
              let result : s ≡ t = ground (arith, refused, same) in subst (IsWritten z) result h
          | inr (inl (u, taken)) ↦
              let ready = opened-Ready n s u taken h in
              let filled = λ (v : DeltaSerializer) (all : Bool).
                add_contents-IsWritten (complete s.delta_builder) n u v all ready in
              elim (outcomes (add_contents z n u)) [
                | inl panic ↦ cc (taken, panic, e)
                | inr (inr (v, part)) ↦
                    let result : v ≡ t = ground (arith, taken, part) in
                    subst (IsWritten z) result (filled v false part)
                | inr (inl (v, all)) ↦
                    add_nodes-IsWritten ns v t (filled v true all) (rw (taken, all, add_nodes) at e)
              ]
        ]
