-- ===== src/Replica/Carried.antt =====
-- The format can carry a partial delta: chitchat/src/state.rs and chitchat/src/delta.rs.
use scuttlebutt.Prelude.{
  ℕ, ◌≡◌, refl, sym, ap, Bool, true, false, none, some, List, [], ◌∷◌, take, All, All-append,
  All-imp, if◌then◌else◌, arith,
}
use mathlib.Core.Path.{subst}
use scuttlebutt.Ids.{ChitchatId}
use scuttlebutt.Types.{KeyValueMutation}
use scuttlebutt.NodeDelta.{NodeDelta}
use scuttlebutt.Stream.{Compressor}
use scuttlebutt.Stream.Items.{IsItem}
use scuttlebutt.Delta.Codec.{IsDelta}
use scuttlebutt.Delta.{
  Delta, DeltaOp, key_value_ops, max_version_ops, node_ops, operations, contains,
}
use scuttlebutt.Delta.Ops.{op_serde}
use scuttlebutt.Delta.Rebuild.{Ascending, AllAscending, Distinct}
use scuttlebutt.Delta.Serializer.Taken.{op-positive}
use scuttlebutt.Cluster.Stale.{StaleNode, stale_key_values}
use scuttlebutt.Cluster.Partial.{is_empty}
use scuttlebutt.Cluster.Distinct.{NoTwice}
use scuttlebutt.Cluster.Within.{IsSmall, IsSmallStale, node_op-IsSmall, stale-SmallEntries}
use scuttlebutt.Replica.Merge.{Climbing}
use scuttlebutt.Replica.Owner.{NoRepeat}
use scuttlebutt.Replica.Send.{
  mutations, stale, sent, stale-Rising, mutations-Climbing, take-Climbing, All-take, All-mutations,
}
use scuttlebutt.Replica.Fronts.{front, Fills}
use scuttlebutt.Replica.Returns.{AllNew, still-AllNew, all-AllNew}

-- What is sent of the node is small, and no two entries have the same version.
abbrev pub IsCarried : StaleNode → Type 0
IsCarried n = NoRepeat n.node.key_values × IsSmallStale n

Climbing-Ascending :
    (previous : KeyValueMutation) (kvs : List KeyValueMutation)
    → Climbing previous.version kvs
    → Ascending (some previous) kvs
Climbing-Ascending previous [] c = tt
Climbing-Ascending previous (kv ∷ kvs) c = (ground arith, Climbing-Ascending kv kvs c.1)

Climbing-first : (b : ℕ) (kvs : List KeyValueMutation) → Climbing b kvs → Ascending none kvs
Climbing-first b [] c = tt
Climbing-first b (kv ∷ kvs) c = (refl, Climbing-Ascending kv kvs c.1)

front-Ascending :
    (n : StaleNode) (count : ℕ) (room : Bool)
    → IsCarried n
    → Ascending none (front count room n).key_values
unfolding sent
front-Ascending n count room h =
    let from = n.from_version_excluded in
    let kvs = mutations (stale from n.node) in
    Climbing-first from (take count kvs) (
      take-Climbing count from kvs
        (mutations-Climbing from (stale from n.node) (stale-Rising from n.node h.0)))

Fills-Ascending :
    (ns : List StaleNode) (ds : List NodeDelta) → All IsCarried ns → Fills ns ds → AllAscending ds
Fills-Ascending ns [] h f = tt
Fills-Ascending [] (d ∷ ds) h f = absurd f
Fills-Ascending (n ∷ ns) (d ∷ ds) h f = (
  subst (λ (e : NodeDelta). Ascending none e.key_values) (sym f.0.same)
      (front-Ascending n f.0.count f.0.room h.0),
  Fills-Ascending ns ds h.1 f.2,
)

Fills-Distinct :
    (seen : List ChitchatId) (ns : List StaleNode) (ds : List NodeDelta)
    → AllNew seen ns
    → NoTwice ns
    → Fills ns ds
    → Distinct seen ds
Fills-Distinct seen ns [] new apart f = tt
Fills-Distinct seen [] (d ∷ ds) new apart f = absurd f
Fills-Distinct seen (n ∷ ns) (d ∷ ds) new apart f =
    subst (λ (id : ChitchatId). (contains id seen ≡ false) × Distinct (id ∷ seen) ds)
      (sym (ap (λ (e : NodeDelta). e.chitchat_id) f.0.same))
      (
        new.0,
        Fills-Distinct (n.chitchat_id ∷ seen) ns ds (still-AllNew n ns seen apart.0 new.1) apart.1
            f.2,
      )

All-key_value_ops :
    (P : DeltaOp → Type 0) (kvs : List KeyValueMutation)
    → All (λ kv. P (DeltaOp.key_value kv)) kvs
    → All P (key_value_ops kvs)
All-key_value_ops P [] a = tt
All-key_value_ops P (kv ∷ kvs) a = (a.0, All-key_value_ops P kvs a.1)

announced-IsSmall :
    (v : ℕ) (bare room : Bool)
    → IsSmall (DeltaOp.set_max_version v)
    → All IsSmall (max_version_ops (if bare then (if room then some v else none) else none))
announced-IsSmall v false room h = tt
announced-IsSmall v true false h = tt
announced-IsSmall v true true h = (h, tt)

front-IsSmall :
    (n : StaleNode) (count : ℕ) (room : Bool)
    → IsCarried n
    → All IsSmall (node_ops (front count room n))
unfolding node_ops sent
front-IsSmall n count room h =
    let from = n.from_version_excluded in
    let kvs = mutations (stale from n.node) in
    let small : All (λ kv. IsSmall (DeltaOp.key_value kv)) (take count kvs) =
      All-take (λ kv. IsSmall (DeltaOp.key_value kv)) count kvs
        (All-mutations (λ kv. IsSmall (DeltaOp.key_value kv)) (stale from n.node)
          (unfold stale_key_values in stale-SmallEntries n h.1)) in
    (
      node_op-IsSmall n.chitchat_id n.node.last_gc_version n.node.max_version from h.1.0.1 h.1.1,
      All-append IsSmall (key_value_ops (take count kvs)) _
          (All-key_value_ops IsSmall (take count kvs) small)
          (announced-IsSmall n.node.max_version (is_empty (stale from n.node)) room h.1.0.2),
    )

small-IsItem : (z : Compressor) (op : DeltaOp) → IsSmall op → IsItem z op_serde op
unfolding op_serde
small-IsItem z op h = (h.0, op-positive op, omega (arith, h.1))

Fills-IsSmall :
    (ns : List StaleNode) (ds : List NodeDelta)
    → All IsCarried ns
    → Fills ns ds
    → All IsSmall (operations ds)
unfolding operations
Fills-IsSmall ns [] h f = tt
Fills-IsSmall [] (d ∷ ds) h f = absurd f
Fills-IsSmall (n ∷ ns) (d ∷ ds) h f =
    All-append IsSmall (node_ops d) (operations ds)
      (subst (λ (e : NodeDelta). All IsSmall (node_ops e)) (sym f.0.same)
        (front-IsSmall n f.0.count f.0.room h.0))
      (Fills-IsSmall ns ds h.1 f.2)

-- Fronts of small stale nodes, none of them twice, can be carried.
pub Fills-IsDelta :
    (z : Compressor) (ns : List StaleNode) (d : Delta)
    → All IsCarried ns
    → NoTwice ns
    → Fills ns d.node_deltas
    → IsDelta z d
Fills-IsDelta z ns d h apart f = record {
  distinct = Fills-Distinct [] ns d.node_deltas (all-AllNew ns) apart f;
  ascending = Fills-Ascending ns d.node_deltas h f;
  items =
      All-imp IsSmall (IsItem z op_serde) (small-IsItem z) (operations d.node_deltas)
        (Fills-IsSmall ns d.node_deltas h f);
}
