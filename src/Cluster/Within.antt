-- ===== src/Cluster/Within.antt =====
-- The loops that fill a partial delta and the length of its payload: chitchat/src/state.rs.
use scuttlebutt.Prelude.{
  ℕ, ◌≤◌, ◌≡◌, Bool, Bool-cases, refl, Option, none, some, inl, inr, List, [], ◌∷◌, All, All-keep,
  keep, ◌∙◌, ltb, leb, arith,
}
use scuttlebutt.Prelude.Maps.{Map}
use scuttlebutt.Ids.{Str, ChitchatId}
use scuttlebutt.Types.{VersionedValue}
use scuttlebutt.NodeState.{NodeState}
use scuttlebutt.NodeState.Read
use scuttlebutt.Stream.{Compressor}
use scuttlebutt.Delta.{Delta, DeltaOp}
use scuttlebutt.Delta.Ops.{IsOp, serialized_len_op}
use scuttlebutt.Delta.Serializer.{
  DeltaSerializer, mutation_of, block_threshold, try_add_op, try_add_kv, try_add_node,
  try_set_max_version,
}
use scuttlebutt.Delta.Serializer.Taken.{outcomes}
use scuttlebutt.Delta.Serializer.Bound.{Fits, try_add_op-Fits, finish-le-mtu}
use scuttlebutt.Cluster.Stale.{StaleNode, insert_by_version, sort_by_version, stale_key_values}
use scuttlebutt.Cluster.Partial.{
  add_key_values, add_contents, add_nodes, is_empty, forget, finished,
}

-- An operation that the format carries, of at most one block.
abbrev pub IsSmall : DeltaOp → Type 0
IsSmall op = IsOp op × (serialized_len_op op ≤ block_threshold)

-- The entries of a node, its identifier and its versions are small.
abbrev pub SmallEntries : Map Str VersionedValue → Type 0
SmallEntries m = All (λ e. IsSmall (DeltaOp.key_value (mutation_of e.0 e.1))) m

abbrev pub IsSmallNode : ChitchatId → NodeState → Type 0
IsSmallNode id s =
    SmallEntries s.key_values
    × IsSmall (DeltaOp.node id s.last_gc_version s.max_version)
    × IsSmall (DeltaOp.set_max_version s.max_version)

abbrev pub IsSmallStale : StaleNode → Type 0
IsSmallStale n = IsSmallNode n.chitchat_id n.node × (n.from_version_excluded ≤ n.node.max_version)

pub node_op-IsSmall :
    (id : ChitchatId) (gc max from : ℕ)
    → IsSmall (DeltaOp.node id gc max)
    → from ≤ max
    → IsSmall (DeltaOp.node id gc from)
unfolding serialized_len_op
node_op-IsSmall id gc max from h le = ((h.0.0, h.0.1, omega arith), h.1)

insert-SmallEntries :
    (e : Str × VersionedValue) (m : Map Str VersionedValue)
    → IsSmall (DeltaOp.key_value (mutation_of e.0 e.1))
    → SmallEntries m
    → SmallEntries (insert_by_version e m)
unfolding insert_by_version
insert-SmallEntries e [] h a = (h, tt)
insert-SmallEntries e (f ∷ m) h a = elim (Bool-cases (leb e.1.version f.1.version)) [
  | inl before ↦ rw (before, insert_by_version) (h, a)
  | inr after ↦ rw (after, insert_by_version) (a.0, insert-SmallEntries e m h a.1)
]

sort-SmallEntries : (m : Map Str VersionedValue) → SmallEntries m → SmallEntries (sort_by_version m)
unfolding sort_by_version
sort-SmallEntries [] a = tt
sort-SmallEntries (e ∷ m) a =
    insert-SmallEntries e (sort_by_version m) a.0 (sort-SmallEntries m a.1)

pub stale-SmallEntries : (n : StaleNode) → IsSmallStale n → SmallEntries (stale_key_values n)
unfolding stale_key_values Read.stale_key_values
stale-SmallEntries n h =
    sort-SmallEntries (keep (λ e. ltb n.from_version_excluded e.1.version) n.node.key_values) (
      All-keep (λ (e : Str × VersionedValue). IsSmall (DeltaOp.key_value (mutation_of e.0 e.1)))
        (λ e. ltb n.from_version_excluded e.1.version) n.node.key_values h.0.0)

module _ (z : Compressor) where
  -- The serializer fits and has kept its `mtu`.
  abbrev Keeps : ℕ → Option (DeltaSerializer × Bool) → Type 0
  Keeps mtu none = Unit
  Keeps mtu (some (s, taken)) = Fits z s × (s.mtu ≡ mtu)

  try_add_op-Keeps :
      (op : DeltaOp) (s : DeltaSerializer) → IsSmall op → Fits z s → Keeps s.mtu (try_add_op z op s)
  try_add_op-Keeps op s small h =
      go (try_add_op z op s) (λ t taken. try_add_op-Fits z op s t taken small.0 small.1 h)
    where
      go :
          (o : Option (DeltaSerializer × Bool))
          → ((t : DeltaSerializer) (taken : Bool)
              → o ≡ some (t, taken)
              → Fits z t × (t.mtu ≡ s.mtu))
          → Keeps s.mtu o
      go none f = tt
      go (some (t, taken)) f = f t taken refl

  add_key_values-Keeps :
      (m : Map Str VersionedValue) (s : DeltaSerializer) (mtu : ℕ)
      → SmallEntries m
      → Fits z s
      → s.mtu ≡ mtu
      → Keeps mtu (add_key_values z m s)
  unfolding add_key_values
  add_key_values-Keeps [] s mtu small h e = (h, e)
  add_key_values-Keeps ((k, v) ∷ m) s mtu small h e =
      let kept : Keeps s.mtu (try_add_kv z k v s) =
        unfold try_add_kv in try_add_op-Keeps (DeltaOp.key_value (mutation_of k v)) s small.0 h in
      elim (outcomes (try_add_kv z k v s)) [
        | inl panic ↦ rw (panic, add_key_values) tt
        | inr (inl (t, taken)) ↦
            let kept' = rw taken at kept in
            rw (taken, add_key_values) (add_key_values-Keeps m t mtu small.1 kept'.0 (kept'.1 ∙ e))
        | inr (inr (t, refused)) ↦
            let kept' = rw refused at kept in rw (refused, add_key_values) (kept'.0, kept'.1 ∙ e)
      ]

  add_contents-Keeps :
      (n : StaleNode) (s : DeltaSerializer) (mtu : ℕ)
      → IsSmallStale n
      → Fits z s
      → s.mtu ≡ mtu
      → Keeps mtu (add_contents z n s)
  unfolding add_contents
  add_contents-Keeps n s mtu small h e = elim (Bool-cases (is_empty (stale_key_values n))) [
    | inl bare ↦
        let kept : Keeps s.mtu (try_set_max_version z n.node.max_version s) =
          unfold try_set_max_version in
          try_add_op-Keeps (DeltaOp.set_max_version n.node.max_version) s small.0.2 h in
        rw (bare, add_contents) (forgotten (try_set_max_version z n.node.max_version s) kept e)
    | inr some_kvs ↦
        rw (some_kvs, add_contents)
          (add_key_values-Keeps (stale_key_values n) s mtu (stale-SmallEntries n small) h e)
  ]
    where
      forgotten :
          (o : Option (DeltaSerializer × Bool)) → Keeps s.mtu o → s.mtu ≡ mtu → Keeps mtu (forget o)
      forgotten none k e = tt
      forgotten (some (t, taken)) k e = (k.0, k.1 ∙ e)

  abbrev pub KeepsLast : ℕ → Option DeltaSerializer → Type 0
  KeepsLast mtu none = Unit
  KeepsLast mtu (some s) = Fits z s × (s.mtu ≡ mtu)

  pub add_nodes-KeepsLast :
      (ns : List StaleNode) (s : DeltaSerializer) (mtu : ℕ)
      → All IsSmallStale ns
      → Fits z s
      → s.mtu ≡ mtu
      → KeepsLast mtu (add_nodes z ns s)
  unfolding add_nodes
  add_nodes-KeepsLast [] s mtu small h e = (h, e)
  add_nodes-KeepsLast (n ∷ ns) s mtu small h e =
      let node = DeltaOp.node n.chitchat_id n.node.last_gc_version n.from_version_excluded in
      let small_op =
        node_op-IsSmall n.chitchat_id n.node.last_gc_version n.node.max_version
          n.from_version_excluded small.0.0.1 small.0.1 in
      let attempt = try_add_node z n.chitchat_id n.node.last_gc_version n.from_version_excluded s in
      let kept : Keeps s.mtu attempt = unfold try_add_node in try_add_op-Keeps node s small_op h in
      elim (outcomes attempt) [
        | inl panic ↦ rw (panic, add_nodes) tt
        | inr (inr (t, refused)) ↦
            let kept' = rw refused at kept in rw (refused, add_nodes) (kept'.0, kept'.1 ∙ e)
        | inr (inl (t, taken)) ↦
            let kept' = rw taken at kept in
            let filled = add_contents-Keeps n t mtu small.0 kept'.0 (kept'.1 ∙ e) in
            elim (outcomes (add_contents z n t)) [
              | inl panic ↦ rw (taken, panic, add_nodes) tt
              | inr (inr (u, part)) ↦ rw (taken, part, add_nodes) (rw part at filled)
              | inr (inl (u, whole)) ↦
                  let filled' = rw whole at filled in
                  rw (taken, whole, add_nodes)
                    (add_nodes-KeepsLast ns u mtu small.1 filled'.0 filled'.1)
            ]
      ]

  pub finish-KeepsLast :
      (o : Option DeltaSerializer) (mtu : ℕ) (d : Delta)
      → KeepsLast mtu o
      → finished z o ≡ some d
      → d.serialized_len ≤ mtu
  finish-KeepsLast none mtu d k e = cc
  finish-KeepsLast (some s) mtu d k e = ground (arith, finish-le-mtu z s k.0, k.1)
