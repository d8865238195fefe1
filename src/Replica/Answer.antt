-- ===== src/Replica/Answer.antt =====
-- `compute_partial_delta_respecting_mtu` of chitchat/src/state.rs returns a delta.
use scuttlebutt.Prelude.{
  ℕ, ◌≤◌, ◌≡◌, refl, sym, some, Option-cases, inl, inr, List, [], All, All-imp, All-Perm, All-In,
  In, In-All, arith,
}
use mathlib.Core.Path.{subst}
use mathlib.Core.List.Permᴰ
use scuttlebutt.Prelude.Maps
use scuttlebutt.Prelude.Maps.{Map}
use scuttlebutt.Ids.{Str, ChitchatId, id_ord}
use scuttlebutt.Types.{VersionedValue}
use scuttlebutt.NodeState.{NodeState}
use scuttlebutt.Stream.{Compressor}
use scuttlebutt.Digest.{Digest}
use scuttlebutt.Delta.{Delta, DeltaOp, new_builder}
use scuttlebutt.Delta.Ops.{serialized_len_op}
use scuttlebutt.Delta.Serializer
use scuttlebutt.Delta.Serializer.{DeltaSerializer, mutation_of, with_mtu}
use scuttlebutt.Cluster.{ClusterState}
use scuttlebutt.Cluster.Stale.{StaleNode, stale_key_values, into_iter}
use scuttlebutt.Cluster.Partial.{offer_all, compute_partial_delta_respecting_mtu}
use scuttlebutt.Cluster.Offered.{AddsNone, OfOffered, All-into_iter, stale_node}
use scuttlebutt.Cluster.Gossiped.{Reorders}
use scuttlebutt.Cluster.Distinct.{into_iter-NoTwice}
use scuttlebutt.Replica.Owner.{NoRepeat}
use scuttlebutt.Replica.Send.{stale-Rising, All-stale}
use scuttlebutt.Replica.Returns.{
  IsItem, ItemEntries, IsSendable, AllNew, all-AllNew, add_nodes-returns,
}

-- The versions of the node's entries differ, and its entries and its identifier are items that the
-- stream takes.
abbrev pub IsShareable : ChitchatId × NodeState → Type 0
IsShareable (id, s) =
    NoRepeat s.key_values × ItemEntries s.key_values × IsItem (DeltaOp.node id 0 0)

pub Reorders-AddsNone :
    (shuffle : List StaleNode → List StaleNode) → Reorders shuffle → AddsNone shuffle
Reorders-AddsNone shuffle f n ns i =
    In-All (λ m. In m ns) n (shuffle ns) i
      (All-Perm (λ m. In m ns) (Permᴰ.symm (f ns)) (All-In (λ m. In m ns) ns (λ m j. j)))

shareable-IsSendable :
    (id : ChitchatId) (s : NodeState) (from : ℕ)
    → IsShareable (id, s)
    → IsSendable (stale_node id s from)
unfolding stale_key_values
shareable-IsSendable id s from h = (
  stale-Rising from s h.0,
  All-stale (λ (e : Str × VersionedValue). IsItem (DeltaOp.key_value (mutation_of e.0 e.1))) from s
      h.1,
  unfold serialized_len_op in h.2,
)

-- With an `mtu` of at least 100, a shuffle that only reorders a group, and nodes in order of which each
-- has entries of different versions that an item of at most 65535 bytes can carry, a partial delta is
-- returned: no assertion of the serializer or the builder fails.
pub partial_delta-returns :
    (z : Compressor) (shuffle : List StaleNode → List StaleNode) (digest : Digest) (mtu : ℕ)
    (scheduled : List ChitchatId) (c : ClusterState)
    → 100 ≤ mtu
    → Reorders shuffle
    → Maps.IsSorted c.node_states
    → All IsShareable c.node_states
    → (d : Delta) × (compute_partial_delta_respecting_mtu z shuffle digest mtu scheduled c ≡ some d)
unfolding compute_partial_delta_respecting_mtu
partial_delta-returns z shuffle digest mtu scheduled c large f sorted ok =
    let ns = into_iter shuffle (offer_all digest scheduled c.node_states []) in
    elim (Option-cases (with_mtu mtu)) [
      | inl tiny ↦ absurd (unfold with_mtu in ground (arith, tiny))
      | inr (s, ready) ↦
          let fresh : s.delta_builder.existing_nodes ≡ [] =
            unfold with_mtu new_builder in ground (arith, ready) in
          let filled =
            add_nodes-returns z ns s (subst (λ seen. AllNew seen ns) (sym fresh) (all-AllNew ns))
              (into_iter-NoTwice digest scheduled shuffle c.node_states f sorted)
              (All-into_iter IsSendable shuffle digest scheduled c.node_states
                (Reorders-AddsNone shuffle f)
                (All-imp IsShareable (OfOffered IsSendable digest scheduled)
                  (λ e h from shared offered. shareable-IsSendable e.0 e.1 from h) c.node_states
                  ok)) in
          (
            Serializer.finish z filled.0,
            rw (ready, filled.1, compute_partial_delta_respecting_mtu) refl,
          )
    ]
