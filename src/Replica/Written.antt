-- ===== src/Replica/Written.antt =====
-- What a `DeltaSerializer` of chitchat/src/delta.rs has written, while
-- `compute_partial_delta_respecting_mtu` of chitchat/src/state.rs fills it.
pub mod Loops
use scuttlebutt.Prelude.{
  ℕ, ◌≡◌, refl, sym, ap, ◌∙◌, Bool, true, false, Bool-cases, Option, none, some, Option-cases, inl,
  inr, List, [], ◌∷◌, ◌++◌, min, arith,
}
use mathlib.Core.List.{append_assoc, append-nil}
use mathlib.Core.Path.{subst}
use scuttlebutt.Prelude.Maps.{Map}
use scuttlebutt.Ids.{Str}
use scuttlebutt.Types.{VersionedValue, KeyValueMutation}
use scuttlebutt.NodeDelta.{NodeDelta}
use scuttlebutt.Stream.{Compressor, CompressedStreamWriter, with_block_threshold, append}
use scuttlebutt.Stream.Items.{append_all}
use scuttlebutt.Delta.{
  Delta, DeltaOp, DeltaBuilder, apply_op, key_value_ops, max_version_ops, node_ops, operations,
  flush,
}
use scuttlebutt.Delta.Ops.{op_serde}
use scuttlebutt.Delta.Serializer.{
  DeltaSerializer, mutation_of, block_threshold, try_add_op, try_add_kv, try_add_node,
  try_set_max_version,
}
use scuttlebutt.Delta.Serializer.Taken.{
  try_add_op-taken, try_add_op-written, try_add_op-refused, outcomes,
}
use scuttlebutt.Cluster.Stale.{StaleNode, stale_key_values}
use scuttlebutt.Cluster.Partial.{add_key_values, add_contents, add_nodes, is_empty, forget}
use scuttlebutt.Replica.Fill.{
  IsAt, opened, complete, complete-IsAt, with_key_values, with_max_version, apply_key_value-IsAt,
  apply_max_version-IsAt, apply_node-IsAt,
}

operations-append :
    (xs ys : List NodeDelta) → operations (xs ++ ys) ≡ operations xs ++ operations ys
unfolding operations
operations-append [] ys = refl
operations-append (d ∷ xs) ys =
    rw (operations-append xs ys) (sym (append_assoc (node_ops d) (operations xs) (operations ys)))

-- The operations of a builder at work, with one more.
operations-IsAt :
    (ds : List NodeDelta) (d : NodeDelta) (b : DeltaBuilder)
    → IsAt ds d b
    → operations (complete b) ≡ operations ds ++ node_ops d
unfolding operations
operations-IsAt ds d b h =
    ap operations (complete-IsAt ds d b h) ∙ operations-append ds (d ∷ []) ∙ rw append-nil refl

key_value_ops-snoc :
    (kvs : List KeyValueMutation) (kv : KeyValueMutation)
    → key_value_ops (kvs ++ (kv ∷ [])) ≡ key_value_ops kvs ++ (DeltaOp.key_value kv ∷ [])
key_value_ops-snoc [] kv = refl
key_value_ops-snoc (x ∷ kvs) kv = ap (λ ops. DeltaOp.key_value x ∷ ops) (key_value_ops-snoc kvs kv)

module _ (d : NodeDelta) (bare : d.max_version ≡ none) where
  node_ops-key_value :
      (kv : KeyValueMutation)
      → node_ops (with_key_values (kv ∷ []) d) ≡ node_ops d ++ (DeltaOp.key_value kv ∷ [])
  unfolding node_ops
  node_ops-key_value kv = rw (bare, append-nil, append-nil, key_value_ops-snoc) refl

  node_ops-max_version :
      (v : ℕ)
      → node_ops (with_max_version (some v) d) ≡ node_ops d ++ (DeltaOp.set_max_version v ∷ [])
  unfolding node_ops
  node_ops-max_version v = rw (bare, append-nil) refl

module _ (z : Compressor) where
  append_all-snoc :
      (ops : List DeltaOp) (op : DeltaOp) (w u v : CompressedStreamWriter)
      → append_all z op_serde ops w ≡ some u
      → append z op_serde op u ≡ some v
      → append_all z op_serde (ops ++ (op ∷ [])) w ≡ some v
  unfolding append_all
  append_all-snoc [] op w u v e f = ground (arith, e, f)
  append_all-snoc (x ∷ ops) op w u v e f = elim (Option-cases (append z op_serde x w)) [
    | inl panic ↦ cc (panic, e)
    | inr (w', next) ↦
        rw (next, append_all) (append_all-snoc ops op w' u v (rw (next, append_all) at e) f)
  ]

  -- The stream is what the operations of the builder are written to, one after the other.
  pub record IsWritten (s : DeltaSerializer) : Type 0 where
    pub written :
        append_all z op_serde
          (operations (complete s.delta_builder))
          (with_block_threshold (min block_threshold s.mtu))
        ≡ some s.compressed_stream_writer

  taken-IsWritten :
      (op : DeltaOp) (s t : DeltaSerializer)
      → try_add_op z op s ≡ some (t, true)
      → operations (complete t.delta_builder) ≡ operations (complete s.delta_builder) ++ (op ∷ [])
      → IsWritten s
      → IsWritten t
  taken-IsWritten op s t e more h =
      let w = try_add_op-written z op s t e in
      record {
        written =
            rw (more, w.0)
              (append_all-snoc (operations (complete s.delta_builder)) op
                (with_block_threshold (min block_threshold s.mtu)) s.compressed_stream_writer
                t.compressed_stream_writer h.written w.1);
      }
