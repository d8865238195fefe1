-- ===== src/Replica/Fill.antt =====
-- What the loops of `compute_partial_delta_respecting_mtu` in chitchat/src/state.rs put into the delta.
use scuttlebutt.Prelude.{
  ℕ, suc, ◌≡◌, ◌⊎◌, refl, Bool, false, Option, none, some, inl, inr, List, [], ◌∷◌, ◌++◌, take,
  arith,
}
use mathlib.Core.List.{append_assoc, append-nil}
use mathlib.Core.Path.{subst}
use scuttlebutt.Prelude.Maps.{Map}
use scuttlebutt.Ids.{Str}
use scuttlebutt.Types.{VersionedValue, KeyValueMutation}
use scuttlebutt.NodeDelta.{NodeDelta}
use scuttlebutt.Stream.{Compressor}
use scuttlebutt.Delta.{DeltaOp, DeltaBuilder, apply_op, flush}
use scuttlebutt.Delta.Serializer.{DeltaSerializer, mutation_of, try_add_kv}
use scuttlebutt.Delta.Serializer.Taken.{try_add_op-taken, try_add_op-refused, outcomes}
use scuttlebutt.Cluster.Stale.{StaleNode}
use scuttlebutt.Cluster.Partial.{add_key_values}
use scuttlebutt.Replica.Send.{mutations}

-- The builder works on the node delta `d`, after the node deltas `ds`.
pub record IsAt (ds : List NodeDelta) (d : NodeDelta) (b : DeltaBuilder) : Type 0 where
  pub before : b.delta.node_deltas ≡ ds
  pub current : b.current_node_delta ≡ some d

abbrev pub with_key_values : List KeyValueMutation → NodeDelta → NodeDelta
with_key_values kvs d = record d { key_values = d.key_values ++ kvs }

abbrev pub with_max_version : Option ℕ → NodeDelta → NodeDelta
with_max_version v d = record d { max_version = v }

-- The node delta before its contents.
abbrev pub opened : StaleNode → NodeDelta
opened n = record {
  chitchat_id = n.chitchat_id;
  from_version_excluded = n.from_version_excluded;
  last_gc_version = n.node.last_gc_version;
  key_values = [];
  max_version = none;
}

module _ (ds : List NodeDelta) (d : NodeDelta) (b c : DeltaBuilder) (h : IsAt ds d b) where
  pub apply_key_value-IsAt :
      (kv : KeyValueMutation)
      → apply_op (DeltaOp.key_value kv) b ≡ some c
      → IsAt ds (with_key_values (kv ∷ []) d) c
  unfolding apply_op
  apply_key_value-IsAt kv e = record {
    before = ground (arith, h.before, h.current);
    current = ground (arith, h.current);
  }

  pub apply_max_version-IsAt :
      (v : ℕ)
      → apply_op (DeltaOp.set_max_version v) b ≡ some c
      → IsAt ds (with_max_version (some v) d) c
  unfolding apply_op
  apply_max_version-IsAt v e = record {
    before = ground (arith, h.before, h.current);
    current = ground (arith, h.current);
  }

-- The node deltas of a builder, with the one it works on.
abbrev pub complete : DeltaBuilder → List NodeDelta
complete b = (flush b).delta.node_deltas

pub complete-IsAt :
    (ds : List NodeDelta) (d : NodeDelta) (b : DeltaBuilder)
    → IsAt ds d b
    → complete b ≡ ds ++ (d ∷ [])
unfolding flush
complete-IsAt ds d b h = ground (arith, h.before, h.current)

pub apply_node-IsAt :
    (n : StaleNode) (b c : DeltaBuilder)
    → apply_op (DeltaOp.node n.chitchat_id n.node.last_gc_version n.from_version_excluded) b
      ≡ some c
    → IsAt (complete b) (opened n) c
unfolding apply_op
apply_node-IsAt n b c e = record { before = ground arith; current = ground arith }

-- A front of the mutations has been added to the node delta `d`, all of them if the flag says so.
pub record IsFilled (kvs : List KeyValueMutation) (ds : List NodeDelta) (d : NodeDelta) (all : Bool)
    (b : DeltaBuilder) : Type 0 where
  pub count : ℕ
  pub at : IsAt ds (with_key_values (take count kvs) d) b
  pub whole : (all ≡ false) ⊎ (take count kvs ≡ kvs)

none-IsFilled :
    (kvs : List KeyValueMutation) (ds : List NodeDelta) (d : NodeDelta) (all : Bool)
    (b : DeltaBuilder)
    → IsAt ds d b
    → (all ≡ false) ⊎ (kvs ≡ [])
    → IsFilled kvs ds d all b
none-IsFilled kvs ds d all b h w = record {
  count = 0;
  at = rw append-nil h;
  whole = ground (arith, w);
}

more-IsFilled :
    (kv : KeyValueMutation) (kvs : List KeyValueMutation) (ds : List NodeDelta) (d : NodeDelta)
    (all : Bool) (b : DeltaBuilder)
    → IsFilled kvs ds (with_key_values (kv ∷ []) d) all b
    → IsFilled (kv ∷ kvs) ds d all b
more-IsFilled kv kvs ds d all b f = record {
  count = suc f.count;
  at =
      subst (λ l. IsAt ds (record d { key_values = l }) b)
        (append_assoc d.key_values (kv ∷ []) (take f.count kvs)) f.at;
  whole = ground (arith, f.whole);
}

module _ (z : Compressor) (ds : List NodeDelta) where
  pub add_key_values-IsFilled :
      (m : Map Str VersionedValue) (s t : DeltaSerializer) (all : Bool) (d : NodeDelta)
      → IsAt ds d s.delta_builder
      → add_key_values z m s ≡ some (t, all)
      → IsFilled (mutations m) ds d all t.delta_builder
  unfolding add_key_values
  add_key_values-IsFilled [] s t all d h e =
      none-IsFilled [] ds d all t.delta_builder (ground (arith, h)) (inr refl)
  add_key_values-IsFilled ((k, v) ∷ m) s t all d h e =
      let op = DeltaOp.key_value (mutation_of k v) in
      elim (outcomes (try_add_kv z k v s)) [
        | inl panic ↦ cc (panic, e)
        | inr (inr (u, refused)) ↦
            let same : u ≡ s = try_add_op-refused z op s u (unfold try_add_kv in refused) in
            none-IsFilled (mutations ((k, v) ∷ m)) ds d all t.delta_builder
              (ground (arith, h, refused, same)) (inl (ground (arith, refused)))
        | inr (inl (u, taken)) ↦
            let step = try_add_op-taken z op s u (unfold try_add_kv in taken) in
            more-IsFilled (mutation_of k v) (mutations m) ds d all t.delta_builder (
              add_key_values-IsFilled m u t all (with_key_values (mutation_of k v ∷ []) d)
                (apply_key_value-IsAt ds d s.delta_builder u.delta_builder h (mutation_of k v) step)
                (rw (taken, add_key_values) at e))
      ]
