-- ===== src/Replica/Returns.antt =====
-- `compute_partial_delta_respecting_mtu` of chitchat/src/state.rs returns: no assertion of the
-- serializer fails.
use scuttlebutt.Prelude.{
  ℕ, ◌≤◌, ◌<◌, ◌≡◌, refl, sym, ◌∙◌, Bool, true, false, Bool-cases, Option, none, some, inl, inr,
  List, [], ◌∷◌, ◌++◌, All, arith,
}
use mathlib.Core.Path.{subst}
use scuttlebutt.Prelude.Maps.{Map}
use scuttlebutt.Ids.{Str, ChitchatId, id_ord}
use scuttlebutt.Types.{VersionedValue, KeyValueMutation}
use scuttlebutt.NodeDelta.{NodeDelta}
use scuttlebutt.Stream.{Compressor}
use scuttlebutt.Delta.{DeltaOp, DeltaBuilder, apply_op, contains, flush, last}
use scuttlebutt.Delta.Rebuild.{last-snoc}
use scuttlebutt.Delta.Ops.{serialized_len_op}
use scuttlebutt.Delta.Serializer.{
  DeltaSerializer, mutation_of, try_add_op, try_add_kv, try_add_node, try_set_max_version,
}
use scuttlebutt.Delta.Serializer.Taken.{
  try_add_op-taken, try_add_op-refused, outcomes, try_add_op-returns,
}
use scuttlebutt.Cluster.Stale.{StaleNode, stale_key_values}
use scuttlebutt.Cluster.Distinct.{IsOther, NoTwice}
use scuttlebutt.Cluster.Partial.{add_key_values, add_contents, add_nodes, is_empty}
use scuttlebutt.Replica.Send.{Rising}
use scuttlebutt.Replica.Fill.{
  IsAt, complete, opened, apply_node-IsAt, apply_key_value-IsAt, with_key_values,
}

-- An operation that an item of the stream can be.
abbrev pub IsItem : DeltaOp → Type 0
IsItem op = serialized_len_op op ≤ 65535

abbrev pub ItemEntries : Map Str VersionedValue → Type 0
ItemEntries m = All (λ e. IsItem (DeltaOp.key_value (mutation_of e.0 e.1))) m

-- The contents of a stale node can be sent as items, in the order of their versions.
abbrev pub IsSendable : StaleNode → Type 0
IsSendable n =
    Rising n.from_version_excluded (stale_key_values n)
    × ItemEntries (stale_key_values n)
    × IsItem (DeltaOp.node n.chitchat_id n.node.last_gc_version n.from_version_excluded)

-- The last key-value of the builder, if there is one, has at most this version.
abbrev UpTo : ℕ → List KeyValueMutation → Type 0
UpTo b kvs = elim (last kvs) [ none ↦ Unit | some kv ↦ kv.version ≤ b ]

UpTo-snoc :
    (kvs : List KeyValueMutation) (kv : KeyValueMutation) → UpTo kv.version (kvs ++ (kv ∷ []))
UpTo-snoc kvs kv = ground (arith, last-snoc kvs kv)

-- The nodes that the builder has not seen.
abbrev pub AllNew : List ChitchatId → List StaleNode → Type 0
AllNew seen ns = All (λ (n : StaleNode). contains n.chitchat_id seen ≡ false) ns

pub still-AllNew :
    (n : StaleNode) (ns : List StaleNode) (seen : List ChitchatId)
    → All (IsOther n) ns
    → AllNew seen ns
    → AllNew (n.chitchat_id ∷ seen) ns
unfolding contains
still-AllNew n [] seen o a = tt
still-AllNew n (m ∷ ns) seen o a = (ground (arith, o.0, a.0), still-AllNew n ns seen o.1 a.1)

pub all-AllNew : (ns : List StaleNode) → AllNew [] ns
unfolding contains
all-AllNew [] = tt
all-AllNew (n ∷ ns) = (refl, all-AllNew ns)

module _ (z : Compressor) where
  -- A loop has returned, and the builder has seen no other node.
  record Returns (s : DeltaSerializer) (o : Option (DeltaSerializer × Bool)) : Type 0 where
    t : DeltaSerializer
    all : Bool
    computes : o ≡ some (t, all)
    seen : t.delta_builder.existing_nodes ≡ s.delta_builder.existing_nodes

  module _ (ds : List NodeDelta) (d : NodeDelta) (b : DeltaBuilder) (h : IsAt ds d b) where
    apply_key_value-returns :
        (kv : KeyValueMutation) (low : ℕ)
        → UpTo low d.key_values
        → low < kv.version
        → (c : DeltaBuilder) × (apply_op (DeltaOp.key_value kv) b ≡ some c)
          × (c.existing_nodes ≡ b.existing_nodes)
    unfolding apply_op
    apply_key_value-returns kv low up ahead = (
      record b { current_node_delta = some (with_key_values (kv ∷ []) d) },
      ground (arith, h.current, up),
      refl,
    )

  try_add_op-Returns :
      (op : DeltaOp) (s : DeltaSerializer) (c : DeltaBuilder)
      → IsItem op
      → apply_op op s.delta_builder ≡ some c
      → c.existing_nodes ≡ s.delta_builder.existing_nodes
      → Returns s (try_add_op z op s)
  try_add_op-Returns op s c small e seen =
      let r = try_add_op-returns z op s c small e in
      record {
        t = r.0;
        all = r.1;
        computes = r.2;
        seen = elim (outcomes (try_add_op z op s)) [
          | inl panic ↦ cc (panic, r.2)
          | inr (inl (u, taken)) ↦
              ground (arith, try_add_op-taken z op s u taken, taken, r.2, e, seen)
          | inr (inr (u, refused)) ↦
              ground (arith, try_add_op-refused z op s u refused, refused, r.2)
        ];
      }

  add_key_values-Returns :
      (ds : List NodeDelta) (m : Map Str VersionedValue) (low : ℕ) (d : NodeDelta)
      (s : DeltaSerializer)
      → IsAt ds d s.delta_builder
      → UpTo low d.key_values
      → Rising low m
      → ItemEntries m
      → Returns s (add_key_values z m s)
  unfolding add_key_values
  add_key_values-Returns ds [] low d s h up rising small = record {
    t = s;
    all = true;
    computes = refl;
    seen = refl;
  }
  add_key_values-Returns ds ((k, v) ∷ m) low d s h up rising small =
      let kv = mutation_of k v in
      let op = DeltaOp.key_value kv in
      let next = apply_key_value-returns ds d s.delta_builder h kv low up rising.0 in
      let first : Returns s (try_add_kv z k v s) =
        unfold try_add_kv in try_add_op-Returns op s next.0 small.0 next.1 next.2 in
      elim (outcomes (try_add_kv z k v s)) [
        | inl panic ↦ cc (panic, first.computes)
        | inr (inr (u, refused)) ↦ record {
          t = u;
          all = false;
          computes = rw (refused, add_key_values) refl;
          seen = ground (arith, first.computes, first.seen, refused);
        }
        | inr (inl (u, taken)) ↦
            let step = try_add_op-taken z op s u (unfold try_add_kv in taken) in
            let d' = with_key_values (kv ∷ []) d in
            let rest =
              add_key_values-Returns ds m v.version d' u
                (apply_key_value-IsAt ds d s.delta_builder u.delta_builder h kv step)
                (UpTo-snoc d.key_values kv) rising.1 small.1 in
            record {
              t = rest.t;
              all = rest.all;
              computes = rw (taken, add_key_values) rest.computes;
              seen = rest.seen ∙ ground (arith, first.computes, first.seen, taken);
            }
      ]

  add_contents-Returns :
      (ds : List NodeDelta) (n : StaleNode) (s : DeltaSerializer)
      → IsAt ds (opened n) s.delta_builder
      → IsSendable n
      → Returns s (add_contents z n s)
  unfolding add_contents
  add_contents-Returns ds n s h ok = elim (Bool-cases (is_empty (stale_key_values n))) [
    | inr some_kvs ↦
        rw (some_kvs, add_contents)
          (add_key_values-Returns ds (stale_key_values n) n.from_version_excluded (opened n) s h
            (unfold last in tt) ok.0 ok.1)
    | inl bare ↦
        let op = DeltaOp.set_max_version n.node.max_version in
        let b = record s.delta_builder {
          current_node_delta = some (record (opened n) { max_version = some n.node.max_version });
        } in
        let set : Returns s (try_set_max_version z n.node.max_version s) =
          unfold try_set_max_version in
          try_add_op-Returns op s b (unfold serialized_len_op in omega arith)
            (unfold apply_op in ground (arith, h.current)) refl in
        record {
          t = set.t;
          all = true;
          computes = rw (bare, add_contents) (ground (arith, set.computes));
          seen = set.seen;
        }
  ]

  opens :
      (n : StaleNode) (b : DeltaBuilder)
      → contains n.chitchat_id b.existing_nodes ≡ false
      → (c : DeltaBuilder) × (apply_op
            (DeltaOp.node n.chitchat_id n.node.last_gc_version n.from_version_excluded)
            b
          ≡ some c)
        × (c.existing_nodes ≡ n.chitchat_id ∷ b.existing_nodes)
  unfolding apply_op flush
  opens n b new = (
    record (flush b) {
      existing_nodes = n.chitchat_id ∷ b.existing_nodes;
      current_node_delta = some (opened n);
    },
    ground (arith, new),
    refl,
  )

  pub add_nodes-returns :
      (ns : List StaleNode) (s : DeltaSerializer)
      → AllNew s.delta_builder.existing_nodes ns
      → NoTwice ns
      → All IsSendable ns
      → (t : DeltaSerializer) × (add_nodes z ns s ≡ some t)
  unfolding add_nodes
  add_nodes-returns [] s new apart ok = (s, refl)
  add_nodes-returns (n ∷ ns) s new apart ok =
      let op = DeltaOp.node n.chitchat_id n.node.last_gc_version n.from_version_excluded in
      let attempt = try_add_node z n.chitchat_id n.node.last_gc_version n.from_version_excluded s in
      let open_op = opens n s.delta_builder new.0 in
      let first : (t : DeltaSerializer) × (taken : Bool) × (attempt ≡ some (t, taken)) =
        unfold try_add_node in try_add_op-returns z op s open_op.0 ok.0.2 open_op.1 in
      elim (outcomes attempt) [
        | inl panic ↦ cc (panic, first.2)
        | inr (inr (u, refused)) ↦ (u, rw (refused, add_nodes) refl)
        | inr (inl (u, taken)) ↦
            let step = try_add_op-taken z op s u (unfold try_add_node in taken) in
            let begun = apply_node-IsAt n s.delta_builder u.delta_builder step in
            let filled = add_contents-Returns (complete s.delta_builder) n u begun ok.0 in
            let seen : u.delta_builder.existing_nodes
                ≡ n.chitchat_id ∷ s.delta_builder.existing_nodes =
              ground (arith, step, open_op.1, open_op.2) in
            elim (outcomes (add_contents z n u)) [
              | inl panic ↦ cc (panic, filled.computes)
              | inr (inr (v, part)) ↦ (v, rw (taken, part, add_nodes) refl)
              | inr (inl (v, all)) ↦
                  let seen' : v.delta_builder.existing_nodes
                      ≡ n.chitchat_id ∷ s.delta_builder.existing_nodes =
                    ground (arith, all, filled.computes, filled.seen, seen) in
                  let rest =
                    add_nodes-returns ns v
                      (subst (λ ids. AllNew ids ns) (sym seen')
                        (still-AllNew n ns s.delta_builder.existing_nodes apart.0 new.1))
                      apart.1 ok.1 in
                  (rest.0, rw (taken, all, add_nodes) rest.1)
            ]
      ]
