-- ===== src/Cluster/Gossiped.antt =====
-- Which stale nodes are gossiped: `SortedStaleNodes` of chitchat/src/state.rs.
use Prim.Native.Nat.{Ordering}
use scuttlebutt.Prelude.{
  ℕ, ◌≡◌, Bool-cases, Option-cases, Option, none, some, inl, inr, List, [], ◌∷◌, ◌++◌,
  if◌then◌else◌, arith,
}
use mathlib.Core.List.{Permᴰ, append_assoc, append-nil}
use mathlib.Core.List.Permᴰ
use scuttlebutt.Prelude.Maps
use scuttlebutt.Prelude.Maps.{Map}
use scuttlebutt.Ids.{ChitchatId, id_ord}
use scuttlebutt.NodeState.{NodeState}
use scuttlebutt.Digest.{Digest, NodeDigest}
use scuttlebutt.Delta.{contains}
use scuttlebutt.Cluster.Stale.{
  StaleNode, SortedStaleNodes, Staleness, staleness_cmp, push, pushed, offer, into_iter,
  staleness_score,
}
use scuttlebutt.Cluster.Partial.{offer_all, from_version}
use scuttlebutt.Cluster.Offered.{stale_node}

-- The nodes to gossip, in the order of their identifiers: those that are not scheduled for deletion and
-- have something that the digest lacks.
abbrev pub offered_from : ChitchatId → NodeState → Option ℕ → List StaleNode
offered_from id s none = []
offered_from id s (some from) = stale_node id s from ∷ []

abbrev pub offered_of : Digest → List ChitchatId → ChitchatId → NodeState → List StaleNode
offered_of digest scheduled id s =
    if contains id scheduled
    then []
    else offered_from id s (from_version (Maps.get id digest.node_digests) s)

abbrev pub offered : Digest → List ChitchatId → Map ChitchatId NodeState → List StaleNode
offered digest scheduled [] = []
offered digest scheduled ((id, s) ∷ m) =
    offered_of digest scheduled id s ++ offered digest scheduled m

-- The stale nodes of all groups.
abbrev all_groups : SortedStaleNodes → List StaleNode
all_groups [] = []
all_groups ((k, ns) ∷ m) = ns ++ all_groups m

push-Perm :
    (k : Staleness) (n : StaleNode) (m : SortedStaleNodes)
    → Permᴰ (all_groups (push k n m)) (n ∷ all_groups m)
unfolding push
push-Perm k n [] = Permᴰ.refl (n ∷ [])
push-Perm k n ((j, ns) ∷ m) =
    let later = push-Perm k n m in
    elim (staleness_cmp k j)
      as (λ o.
        Permᴰ
          (all_groups (elim o [
            | Ordering.lt ↦ (k, n ∷ []) ∷ (j, ns) ∷ m
            | Ordering.eq ↦ (j, ns ++ (n ∷ [])) ∷ m
            | Ordering.gt ↦ (j, ns) ∷ push k n m
          ]))
          (n ∷ (ns ++ all_groups m))) [
            | Ordering.lt ↦ Permᴰ.refl _
            | Ordering.eq ↦ rw append_assoc (Permᴰ.middle n ns (all_groups m))
            | Ordering.gt ↦
                Permᴰ.trans (Permᴰ.append_left ns later) (Permᴰ.middle n ns (all_groups m))
          ]

offer-Perm :
    (d : Option NodeDigest) (id : ChitchatId) (s : NodeState) (from : ℕ) (m : SortedStaleNodes)
    → from_version d s ≡ some from
    → Permᴰ (all_groups (offer id s from m)) (stale_node id s from ∷ all_groups m)
unfolding offer
offer-Perm d id s from m e = elim (Option-cases (staleness_score s from)) [
  | inl fresh ↦ absurd (unfold from_version staleness_score in ground (arith, fresh, e))
  | inr (k, stale) ↦ rw (stale, pushed) (push-Perm k (stale_node id s from) m)
]

offer_all-Perm :
    (digest : Digest) (scheduled : List ChitchatId) (nodes : Map ChitchatId NodeState)
    (m : SortedStaleNodes)
    → Permᴰ
        (all_groups (offer_all digest scheduled nodes m))
        (offered digest scheduled nodes ++ all_groups m)
unfolding offer_all
offer_all-Perm digest scheduled [] m = Permᴰ.refl (all_groups m)
offer_all-Perm digest scheduled ((id, s) ∷ nodes) m =
    let entry = Maps.get id digest.node_digests in
    elim (Bool-cases (contains id scheduled)) [
      | inl skipped ↦ rw (skipped, offer_all) (offer_all-Perm digest scheduled nodes m)
      | inr shared ↦ elim (Option-cases (from_version entry s)) [
        | inl nothing ↦ rw (shared, nothing, offer_all) (offer_all-Perm digest scheduled nodes m)
        | inr (from, stale) ↦
            let rest = offered digest scheduled nodes in
            rw (shared, stale, offer_all)
              (Permᴰ.trans (offer_all-Perm digest scheduled nodes (offer id s from m)) (
                Permᴰ.trans (Permᴰ.append_left rest (offer-Perm entry id s from m stale))
                  (Permᴰ.middle (stale_node id s from) rest (all_groups m))))
      ]
    ]

-- The shuffle only reorders a group.
abbrev pub Reorders : (List StaleNode → List StaleNode) → Type 0
Reorders shuffle = (ns : List StaleNode) → Permᴰ (shuffle ns) ns

into_iter-groups :
    (shuffle : List StaleNode → List StaleNode) (m : SortedStaleNodes)
    → Reorders shuffle
    → Permᴰ (into_iter shuffle m) (all_groups m)
unfolding into_iter
into_iter-groups shuffle [] f = Permᴰ.nil
into_iter-groups shuffle ((k, ns) ∷ m) f =
    Permᴰ.trans (Permᴰ.append_right (shuffle ns) (into_iter-groups shuffle m f))
      (Permᴰ.trans (Permᴰ.append_left (all_groups m) (f ns)) (Permᴰ.append_comm (all_groups m) ns))

-- Where the shuffle only reorders a group, exactly the nodes that are not scheduled for deletion and have
-- something that the digest lacks are gossiped, each of them once.
pub into_iter-Perm :
    (shuffle : List StaleNode → List StaleNode) (digest : Digest) (scheduled : List ChitchatId)
    (nodes : Map ChitchatId NodeState)
    → Reorders shuffle
    → Permᴰ
        (into_iter shuffle (offer_all digest scheduled nodes []))
        (offered digest scheduled nodes)
into_iter-Perm shuffle digest scheduled nodes f =
    Permᴰ.trans (into_iter-groups shuffle (offer_all digest scheduled nodes []) f)
      (rw append-nil at (offer_all-Perm digest scheduled nodes []))
