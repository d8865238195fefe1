-- ===== src/Delta.antt =====
-- chitchat/src/delta.rs: deltas, the operations that they are sent as, and `DeltaBuilder`.
-- A failed `ensure!`, `bail!` or `assert!` is `none`.
pub mod Ops
pub mod Rebuild
pub mod Codec
pub mod Serializer
use scuttlebutt.Prelude.{
  ℕ, Bool, true, false, ◌||◌, Option, none, some, List, [], ◌∷◌, ◌++◌, same, if◌then◌else◌, ltb,
}
use scuttlebutt.Ids.{ChitchatId, id_ord}
use scuttlebutt.Types.{KeyValueMutation}
use scuttlebutt.NodeDelta.{NodeDelta}

pub record Delta : Type 0 where
  pub node_deltas : List NodeDelta
  pub serialized_len : ℕ

-- `Delta::default`
unfoldable pub empty : Delta
empty = record { node_deltas = []; serialized_len = 1 }

pub data DeltaOp : Type 0 where
  node : ChitchatId → ℕ → ℕ → DeltaOp
  key_value : KeyValueMutation → DeltaOp
  set_max_version : ℕ → DeltaOp

abbrev pub key_value_ops : List KeyValueMutation → List DeltaOp
key_value_ops [] = []
key_value_ops (kv ∷ kvs) = DeltaOp.key_value kv ∷ key_value_ops kvs

abbrev pub max_version_ops : Option ℕ → List DeltaOp
max_version_ops none = []
max_version_ops (some v) = DeltaOp.set_max_version v ∷ []

unfoldable pub node_ops : NodeDelta → List DeltaOp
node_ops d =
    DeltaOp.node d.chitchat_id d.last_gc_version d.from_version_excluded
    ∷ (key_value_ops d.key_values ++ max_version_ops d.max_version)

-- `get_operations`
unfoldable pub operations : List NodeDelta → List DeltaOp
operations [] = []
operations (d ∷ ds) = node_ops d ++ operations ds

pub record DeltaBuilder : Type 0 where
  pub existing_nodes : List ChitchatId
  pub delta : Delta
  pub current_node_delta : Option NodeDelta

unfoldable pub new_builder : DeltaBuilder
unfolding empty
new_builder = record { existing_nodes = []; delta = empty; current_node_delta = none }

-- `HashSet::contains`
unfoldable pub contains : ChitchatId → List ChitchatId → Bool
contains id [] = false
contains id (x ∷ xs) = same id x || contains id xs

abbrev flush_node : Option NodeDelta → DeltaBuilder → DeltaBuilder
flush_node none b = b
flush_node (some d) b = record b {
  delta = record b.delta { node_deltas = b.delta.node_deltas ++ (d ∷ []) };
  current_node_delta = none;
}

unfoldable pub flush : DeltaBuilder → DeltaBuilder
flush b = flush_node b.current_node_delta b

unfoldable pub last : List KeyValueMutation → Option KeyValueMutation
last [] = none
last (kv ∷ []) = some kv
last (kv ∷ kv' ∷ kvs) = last (kv' ∷ kvs)

-- The versions of the key-values of a node must grow.
abbrev pub follows : Option KeyValueMutation → KeyValueMutation → Bool
follows none kv = true
follows (some previous) kv = ltb previous.version kv.version

abbrev add_key_value : KeyValueMutation → Option NodeDelta → DeltaBuilder → Option DeltaBuilder
add_key_value kv none b = none
add_key_value kv (some d) b =
    if follows (last d.key_values) kv
    then some (record b {
      current_node_delta = some (record d { key_values = d.key_values ++ (kv ∷ []) });
    })
    else none

abbrev add_max_version : ℕ → Option NodeDelta → DeltaBuilder → Option DeltaBuilder
add_max_version v none b = none
add_max_version v (some d) b =
    some (record b { current_node_delta = some (record d { max_version = some v }) })

unfoldable pub apply_op : DeltaOp → DeltaBuilder → Option DeltaBuilder
unfolding flush contains
apply_op (DeltaOp.node id gc from) b =
    let b' = flush b in
    if contains id b'.existing_nodes
    then none
    else some (record b' {
      existing_nodes = id ∷ b'.existing_nodes;
      current_node_delta = some (record {
        chitchat_id = id;
        from_version_excluded = from;
        last_gc_version = gc;
        key_values = [];
        max_version = none;
      });
    })
apply_op (DeltaOp.key_value kv) b = add_key_value kv b.current_node_delta b
apply_op (DeltaOp.set_max_version v) b = add_max_version v b.current_node_delta b

unfoldable pub apply_ops : List DeltaOp → DeltaBuilder → Option DeltaBuilder
apply_ops [] b = some b
apply_ops (op ∷ ops) b = elim (apply_op op b) [ none ↦ none | some b' ↦ apply_ops ops b' ]

unfoldable pub finish : ℕ → DeltaBuilder → Delta
unfolding flush
finish len b = record (flush b).delta { serialized_len = len }
