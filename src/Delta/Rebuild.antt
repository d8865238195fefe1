-- ===== src/Delta/Rebuild.antt =====
-- `DeltaBuilder` of chitchat/src/delta.rs rebuilds a delta from its operations.
use scuttlebutt.Prelude.{
  ℕ, ◌≡◌, refl, ap, ◌∙◌, true, false, Option, none, some, Option-cases, inl, inr, List, [], ◌∷◌,
  ◌++◌, arith,
}
use mathlib.Core.List.{append_assoc, append-nil}
use mathlib.Core.Path.{subst}
use scuttlebutt.Ids.{ChitchatId}
use scuttlebutt.Types.{KeyValueMutation}
use scuttlebutt.NodeDelta.{NodeDelta}
use scuttlebutt.Delta.{
  Delta, DeltaOp, DeltaBuilder, key_value_ops, max_version_ops, node_ops, operations, new_builder,
  contains, flush, last, follows, apply_op, apply_ops, finish,
}

-- Each version is above the one before it.
abbrev pub Ascending : Option KeyValueMutation → List KeyValueMutation → Type 0
Ascending previous [] = Unit
Ascending previous (kv ∷ kvs) = (follows previous kv ≡ true) × Ascending (some kv) kvs

-- No two nodes are the same and none of them is in the list.
abbrev pub Distinct : List ChitchatId → List NodeDelta → Type 0
Distinct seen [] = Unit
Distinct seen (d ∷ ds) = (contains d.chitchat_id seen ≡ false) × Distinct (d.chitchat_id ∷ seen) ds

abbrev pub AllAscending : List NodeDelta → Type 0
AllAscending [] = Unit
AllAscending (d ∷ ds) = Ascending none d.key_values × AllAscending ds

apply_ops-append :
    (ops more : List DeltaOp) (b c : DeltaBuilder)
    → apply_ops ops b ≡ some c
    → apply_ops (ops ++ more) b ≡ apply_ops more c
unfolding apply_ops
apply_ops-append [] more b c h = ap (apply_ops more) (ground arith)
apply_ops-append (op ∷ ops) more b c h = elim (Option-cases (apply_op op b)) [
  | inl e ↦ cc (e, h)
  | inr (b', e) ↦ rw (e, apply_ops) (apply_ops-append ops more b' c (rw (e, apply_ops) at h))
]

pub last-snoc :
    (kvs : List KeyValueMutation) (kv : KeyValueMutation) → last (kvs ++ (kv ∷ [])) ≡ some kv
unfolding last
last-snoc [] kv = refl
last-snoc (x ∷ []) kv = refl
last-snoc (x ∷ y ∷ kvs) kv = last-snoc (y ∷ kvs) kv

-- The builder while it works on a node.
abbrev at_node : List ChitchatId → Delta → NodeDelta → DeltaBuilder
at_node ids delta d = record { existing_nodes = ids; delta = delta; current_node_delta = some d }

apply_key_values :
    (ids : List ChitchatId) (delta : Delta) (d : NodeDelta) (kvs : List KeyValueMutation)
    → Ascending (last d.key_values) kvs
    → apply_ops (key_value_ops kvs) (at_node ids delta d)
      ≡ some (at_node ids delta (record d { key_values = d.key_values ++ kvs }))
unfolding apply_ops
apply_key_values ids delta d [] h = rw append-nil
apply_key_values ids delta d (kv ∷ kvs) h =
    let d' = record d { key_values = d.key_values ++ (kv ∷ []) } in
    let step : apply_op (DeltaOp.key_value kv) (at_node ids delta d) ≡ some (at_node ids delta d') =
      unfold apply_op in rw h.0 in
    rw (step, apply_ops) (apply_key_values ids delta d' kvs (rw last-snoc h.1) ∙ rw append_assoc)

apply_max_version :
    (ids : List ChitchatId) (delta : Delta) (d : NodeDelta) (v : Option ℕ)
    → d.max_version ≡ none
    → apply_ops (max_version_ops v) (at_node ids delta d)
      ≡ some (at_node ids delta (record d { max_version = v }))
unfolding apply_ops apply_op
apply_max_version ids delta d none h = ground arith
apply_max_version ids delta d (some v) h = refl

-- What `apply_op` makes of a node before its key-values come.
abbrev started : NodeDelta → NodeDelta
started d = record d { key_values = []; max_version = none }

start_node :
    (d : NodeDelta) (b : DeltaBuilder)
    → contains d.chitchat_id b.existing_nodes ≡ false
    → apply_op (DeltaOp.node d.chitchat_id d.last_gc_version d.from_version_excluded) b
      ≡ some (at_node (d.chitchat_id ∷ b.existing_nodes) (flush b).delta (started d))
unfolding apply_op
start_node d b new = ground arith

-- The operations of one node start it, after what was there has been flushed, and complete it.
apply_node_ops :
    (d : NodeDelta) (b : DeltaBuilder)
    → contains d.chitchat_id b.existing_nodes ≡ false
    → Ascending none d.key_values
    → apply_ops (node_ops d) b ≡ some (at_node (d.chitchat_id ∷ b.existing_nodes) (flush b).delta d)
unfolding node_ops apply_ops flush
apply_node_ops d b new h =
    let ids = d.chitchat_id ∷ b.existing_nodes in
    let delta = (flush b).delta in
    let filled = record (started d) { key_values = d.key_values } in
    rw (start_node d b new, apply_ops)
      (apply_ops-append (key_value_ops d.key_values) (max_version_ops d.max_version)
          (at_node ids delta (started d)) (at_node ids delta filled)
          (apply_key_values ids delta (started d) d.key_values (unfold last in h))
        ∙ apply_max_version ids delta filled d.max_version refl)

flush-at_node :
    (ids : List ChitchatId) (delta : Delta) (d : NodeDelta)
    → (flush (at_node ids delta d)).delta
      ≡ record delta { node_deltas = delta.node_deltas ++ (d ∷ []) }
unfolding flush
flush-at_node ids delta d = refl

-- What the builder returns: these node deltas, under this length.
abbrev pub Rebuilt : List NodeDelta → ℕ → Option DeltaBuilder → Type 0
Rebuilt ds len none = ⊥
Rebuilt ds len (some b) = finish len b ≡ record { node_deltas = ds; serialized_len = len }

new_builder_nodes : (flush new_builder).delta.node_deltas ≡ []
unfolding flush new_builder
new_builder_nodes = refl

rebuild_from :
    (ds : List NodeDelta) (len : ℕ) (b : DeltaBuilder)
    → Distinct b.existing_nodes ds
    → AllAscending ds
    → Rebuilt ((flush b).delta.node_deltas ++ ds) len (apply_ops (operations ds) b)
unfolding operations
rebuild_from [] len b distinct h = unfold apply_ops finish in rw append-nil
rebuild_from (d ∷ ds) len b distinct h =
    let b' = at_node (d.chitchat_id ∷ b.existing_nodes) (flush b).delta d in
    rw (apply_ops-append (node_ops d) (operations ds) b b' (apply_node_ops d b distinct.0 h.0)) (
      subst (λ nodes. Rebuilt nodes len (apply_ops (operations ds) b'))
        (append_assoc (flush b).delta.node_deltas (d ∷ []) ds)
        (rw flush-at_node at (rebuild_from ds len b' distinct.1 h.1)))

-- The operations of distinct nodes whose versions grow rebuild the same node deltas in the same
-- order, and no check of the builder fails.
pub rebuild :
    (ds : List NodeDelta) (len : ℕ)
    → Distinct [] ds
    → AllAscending ds
    → Rebuilt ds len (apply_ops (operations ds) new_builder)
rebuild ds len distinct h =
    rw new_builder_nodes at (rebuild_from ds len new_builder (unfold new_builder in distinct) h)
