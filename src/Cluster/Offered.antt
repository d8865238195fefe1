-- ===== src/Cluster/Offered.antt =====
-- What holds of every node that is offered holds of every stale node that is gossiped:
-- `SortedStaleNodes` and `compute_partial_delta_respecting_mtu` of chitchat/src/state.rs.
use Prim.Native.Nat.{Ordering}
use scuttlebutt.Prelude.{
  In, In-All, All-In, ℕ, ◌≤◌, ◌≡◌, false, arith, Bool-cases, Option-cases, Option, some, inl, inr,
  List, [], ◌∷◌, ◌++◌, All, All-append,
}
use scuttlebutt.Prelude.Maps
use scuttlebutt.Prelude.Maps.{Map}
use scuttlebutt.Ids.{ChitchatId, id_ord}
use scuttlebutt.NodeState.{NodeState}
use scuttlebutt.Digest.{Digest, NodeDigest}
use scuttlebutt.Delta.{contains}
use scuttlebutt.Cluster.Stale.{
  StaleNode, SortedStaleNodes, Staleness, staleness_cmp, push, pushed, offer, into_iter,
  staleness_score,
}
use scuttlebutt.Cluster.Partial.{offer_all, from_version}

abbrev pub stale_node : ChitchatId → NodeState → ℕ → StaleNode
stale_node id s from = record { chitchat_id = id; node = s; from_version_excluded = from }

-- The shuffle adds no node to a group.
abbrev pub AddsNone : (List StaleNode → List StaleNode) → Type 0
AddsNone shuffle = (n : StaleNode) (ns : List StaleNode) → In n (shuffle ns) → In n ns

pub from_version-le :
    (d : Option NodeDigest) (s : NodeState) (from : ℕ)
    → from_version d s ≡ some from
    → from ≤ s.max_version
unfolding from_version
from_version-le d s from e = ground arith

module _ (P : StaleNode → Type 0) where
  abbrev AllGroups : SortedStaleNodes → Type 0
  AllGroups m = All (λ (g : Staleness × List StaleNode). All P g.1) m

  push-AllGroups :
      (k : Staleness) (n : StaleNode) (m : SortedStaleNodes)
      → P n
      → AllGroups m
      → AllGroups (push k n m)
  unfolding push
  push-AllGroups k n [] h a = ((h, tt), tt)
  push-AllGroups k n ((j, ns) ∷ m) h a =
      let later = push-AllGroups k n m h a.1 in
      elim (staleness_cmp k j)
        as (λ o. AllGroups (elim o [
          | Ordering.lt ↦ (k, n ∷ []) ∷ (j, ns) ∷ m
          | Ordering.eq ↦ (j, ns ++ (n ∷ [])) ∷ m
          | Ordering.gt ↦ (j, ns) ∷ push k n m
        ])) [
          | Ordering.lt ↦ ((h, tt), a)
          | Ordering.eq ↦ (All-append P ns (n ∷ []) a.0 (h, tt), a.1)
          | Ordering.gt ↦ (a.0, later)
        ]

  offer-AllGroups :
      (id : ChitchatId) (s : NodeState) (from : ℕ) (m : SortedStaleNodes)
      → P (stale_node id s from)
      → AllGroups m
      → AllGroups (offer id s from m)
  unfolding offer
  offer-AllGroups id s from m h a = elim (Option-cases (staleness_score s from)) [
    | inl fresh ↦ rw (fresh, pushed) a
    | inr (k, stale) ↦ rw (stale, pushed) (push-AllGroups k _ m h a)
  ]

  -- It holds of the node where the node is offered.
  abbrev pub OfOffered : Digest → List ChitchatId → ChitchatId × NodeState → Type 0
  OfOffered digest scheduled e =
      (from : ℕ)
      → contains e.0 scheduled ≡ false
      → from_version (Maps.get e.0 digest.node_digests) e.1 ≡ some from
      → P (stale_node e.0 e.1 from)

  offer_all-AllGroups :
      (digest : Digest) (scheduled : List ChitchatId) (nodes : Map ChitchatId NodeState)
      (m : SortedStaleNodes)
      → All (OfOffered digest scheduled) nodes
      → AllGroups m
      → AllGroups (offer_all digest scheduled nodes m)
  unfolding offer_all
  offer_all-AllGroups digest scheduled [] m h a = a
  offer_all-AllGroups digest scheduled ((id, s) ∷ nodes) m h a =
      let entry = Maps.get id digest.node_digests in
      elim (Bool-cases (contains id scheduled)) [
        | inl skipped ↦ rw (skipped, offer_all) (offer_all-AllGroups digest scheduled nodes m h.1 a)
        | inr shared ↦ elim (Option-cases (from_version entry s)) [
          | inl nothing ↦
              rw (shared, nothing, offer_all) (offer_all-AllGroups digest scheduled nodes m h.1 a)
          | inr (from, stale) ↦
              rw (shared, stale, offer_all)
                (offer_all-AllGroups digest scheduled nodes (offer id s from m) h.1
                  (offer-AllGroups id s from m (h.0 from shared stale) a))
        ]
      ]

  All-groups :
      (shuffle : List StaleNode → List StaleNode) (m : SortedStaleNodes)
      → AddsNone shuffle
      → AllGroups m
      → All P (into_iter shuffle m)
  unfolding into_iter
  All-groups shuffle [] f a = tt
  All-groups shuffle ((k, ns) ∷ m) f a =
      All-append P (into_iter shuffle m) (shuffle ns) (All-groups shuffle m f a.1)
        (All-In P (shuffle ns) (λ n i. In-All P n ns (f n ns i) a.0))

  pub All-into_iter :
      (shuffle : List StaleNode → List StaleNode) (digest : Digest) (scheduled : List ChitchatId)
      (nodes : Map ChitchatId NodeState)
      → AddsNone shuffle
      → All (OfOffered digest scheduled) nodes
      → All P (into_iter shuffle (offer_all digest scheduled nodes []))
  All-into_iter shuffle digest scheduled nodes f h =
      All-groups shuffle _ f (offer_all-AllGroups digest scheduled nodes [] h tt)
