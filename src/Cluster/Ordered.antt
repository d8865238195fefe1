-- ===== src/Cluster/Ordered.antt =====
-- The order in which the stale nodes are gossiped: `SortedStaleNodes` of
-- chitchat/src/state.rs.
use Prim.Native.Nat.Ordering.{lt, eq}
use scuttlebutt.Prelude.{
  ℕ, ◌≡◌, ◌≢◌, sym, ap, ◌∙◌, Bool-cases, Option-cases, some, inl, inr, List, [], ◌∷◌, ◌++◌, All,
  All-append, All-imp, All-Perm, arith,
}
use mathlib.Core.List.Permᴰ
use scuttlebutt.Prelude.Order.{reverse}
use scuttlebutt.Prelude.Maps
use scuttlebutt.Prelude.Maps.{Map}
use scuttlebutt.Ids.{ChitchatId, id_ord}
use scuttlebutt.NodeState.{NodeState}
use scuttlebutt.Digest.{Digest}
use scuttlebutt.Delta.{contains}
use scuttlebutt.Cluster.Stale.{
  StaleNode, SortedStaleNodes, Staleness, staleness_cmp, push, pushed, offer, into_iter,
  staleness_score,
}
use scuttlebutt.Cluster.Staleness.{
  staleness_swap, staleness_refl, staleness_trans, staleness_same, cmp_cases, lt_not_gt, lt_not_eq,
}
use scuttlebutt.Cluster.Partial.{offer_all, from_version}
use scuttlebutt.Cluster.Offered.{stale_node}
use scuttlebutt.Cluster.Gossiped.{Reorders}

-- The staleness of the node is that of the group.
record IsRanked (k : Staleness) (n : StaleNode) : Type 0 where
  score : Staleness
  scored : staleness_score n.node n.from_version_excluded ≡ some score
  equal : staleness_cmp score k ≡ eq

IsRanked-equal :
    (k j : Staleness) (n : StaleNode) → IsRanked k n → staleness_cmp k j ≡ eq → IsRanked j n
IsRanked-equal k j n r e = record {
  score = r.score;
  scored = r.scored;
  equal = staleness_same r.score k j r.equal ∙ e;
}

-- Both have a staleness, and that of the first is not below that of the second.
pub record IsNotBelow (n m : StaleNode) : Type 0 where
  pub first : Staleness
  pub second : Staleness
  pub scored_first : staleness_score n.node n.from_version_excluded ≡ some first
  pub scored_second : staleness_score m.node m.from_version_excluded ≡ some second
  pub descends : staleness_cmp first second ≢ lt

abbrev pub Descending : List StaleNode → Type 0
Descending [] = Unit
Descending (n ∷ ns) = All (IsNotBelow n) ns × Descending ns

-- The groups ascend, each of nodes of its staleness.
abbrev Above : Staleness → SortedStaleNodes → Type 0
Above k m = All (λ (g : Staleness × List StaleNode). staleness_cmp k g.0 ≡ lt) m

abbrev Grouped : SortedStaleNodes → Type 0
Grouped [] = Unit
Grouped ((k, ns) ∷ m) = All (IsRanked k) ns × (Above k m × Grouped m)

Above-trans :
    (k j : Staleness) (m : SortedStaleNodes) → staleness_cmp k j ≡ lt → Above j m → Above k m
Above-trans k j m h =
    All-imp (λ (g : Staleness × List StaleNode). staleness_cmp j g.0 ≡ lt)
      (λ (g : Staleness × List StaleNode). staleness_cmp k g.0 ≡ lt)
      (λ g later. staleness_trans k j g.0 h later) m

push-Above :
    (j k : Staleness) (n : StaleNode) (m : SortedStaleNodes)
    → staleness_cmp j k ≡ lt
    → Above j m
    → Above j (push k n m)
unfolding push
push-Above j k n [] h a = (h, tt)
push-Above j k n ((i, ns) ∷ m) h a = ground (arith, push-Above j k n m h a.1)

push-Grouped :
    (k : Staleness) (n : StaleNode) (m : SortedStaleNodes)
    → IsRanked k n
    → Grouped m
    → Grouped (push k n m)
unfolding push
push-Grouped k n [] r g = ((r, tt), (tt, tt))
push-Grouped k n ((j, ns) ∷ m) r g = elim (cmp_cases (staleness_cmp k j)) [
  | inl (inl before) ↦ rw (before, push) ((r, tt), ((before, Above-trans k j m before g.1.0), g))
  | inl (inr equal) ↦
      rw (equal, push)
        (All-append (IsRanked j) ns (n ∷ []) g.0 (IsRanked-equal k j n r equal, tt), g.1)
  | inr after ↦
      rw (after, push)
        (
          g.0,
          (
            push-Above j k n m (staleness_swap k j ∙ ap reverse after) g.1.0,
            push-Grouped k n m r g.1.1,
          ),
        )
]

offer-Grouped :
    (id : ChitchatId) (s : NodeState) (from : ℕ) (m : SortedStaleNodes)
    → Grouped m
    → Grouped (offer id s from m)
unfolding offer
offer-Grouped id s from m g = elim (Option-cases (staleness_score s from)) [
  | inl fresh ↦ rw (fresh, pushed) g
  | inr (k, stale) ↦
      rw (stale, pushed)
        (push-Grouped k (stale_node id s from) m
          (record { score = k; scored = stale; equal = staleness_refl k }) g)
]

offer_all-Grouped :
    (digest : Digest) (scheduled : List ChitchatId) (nodes : Map ChitchatId NodeState)
    (m : SortedStaleNodes)
    → Grouped m
    → Grouped (offer_all digest scheduled nodes m)
unfolding offer_all
offer_all-Grouped digest scheduled [] m g = g
offer_all-Grouped digest scheduled ((id, s) ∷ nodes) m g =
    let entry = Maps.get id digest.node_digests in
    elim (Bool-cases (contains id scheduled)) [
      | inl skipped ↦ rw (skipped, offer_all) (offer_all-Grouped digest scheduled nodes m g)
      | inr shared ↦ elim (Option-cases (from_version entry s)) [
        | inl nothing ↦
            rw (shared, nothing, offer_all) (offer_all-Grouped digest scheduled nodes m g)
        | inr (from, stale) ↦
            rw (shared, stale, offer_all)
              (offer_all-Grouped digest scheduled nodes (offer id s from m)
                (offer-Grouped id s from m g))
      ]
    ]

-- The staleness of the node is above that of the group.
record IsOver (k : Staleness) (n : StaleNode) : Type 0 where
  score : Staleness
  scored : staleness_score n.node n.from_version_excluded ≡ some score
  over : staleness_cmp k score ≡ lt

IsRanked-IsOver :
    (k j : Staleness) (n : StaleNode) → staleness_cmp k j ≡ lt → IsRanked j n → IsOver k n
IsRanked-IsOver k j n h r = record {
  score = r.score;
  scored = r.scored;
  over =
      staleness_swap r.score k
      ∙ ap reverse (staleness_same r.score j k r.equal ∙ staleness_swap k j ∙ ap reverse h);
}

over-IsNotBelow : (k : Staleness) (n m : StaleNode) → IsOver k n → IsRanked k m → IsNotBelow n m
over-IsNotBelow k n m o r = record {
  first = o.score;
  second = r.score;
  scored_first = o.scored;
  scored_second = r.scored;
  descends = λ low. lt_not_gt (
      sym low
      ∙ staleness_swap r.score o.score
      ∙ ap reverse (staleness_same r.score k o.score r.equal ∙ o.over));
}

ranked-IsNotBelow : (k : Staleness) (n m : StaleNode) → IsRanked k n → IsRanked k m → IsNotBelow n m
ranked-IsNotBelow k n m q r = record {
  first = q.score;
  second = r.score;
  scored_first = q.scored;
  scored_second = r.scored;
  descends = λ low. lt_not_eq (
      sym low
      ∙ staleness_same q.score k r.score q.equal
      ∙ staleness_swap r.score k
      ∙ ap reverse r.equal);
}

ranked-Descending : (k : Staleness) (ns : List StaleNode) → All (IsRanked k) ns → Descending ns
ranked-Descending k [] r = tt
ranked-Descending k (n ∷ ns) r = (
  All-imp (IsRanked k) (IsNotBelow n) (λ m. ranked-IsNotBelow k n m r.0) ns r.1,
  ranked-Descending k ns r.1,
)

Descending-append :
    (k : Staleness) (ns ms : List StaleNode)
    → Descending ns
    → All (IsOver k) ns
    → Descending ms
    → All (IsRanked k) ms
    → Descending (ns ++ ms)
Descending-append k [] ms d o e r = e
Descending-append k (n ∷ ns) ms d o e r = (
  All-append (IsNotBelow n) ns ms d.0
      (All-imp (IsRanked k) (IsNotBelow n) (λ m. over-IsNotBelow k n m o.0) ms r),
  Descending-append k ns ms d.1 o.1 e r,
)

module _ (shuffle : List StaleNode → List StaleNode) (f : Reorders shuffle) where
  shuffled-IsRanked :
      (k : Staleness) (ns : List StaleNode) → All (IsRanked k) ns → All (IsRanked k) (shuffle ns)
  shuffled-IsRanked k ns r = All-Perm (IsRanked k) (Permᴰ.symm (f ns)) r

  into_iter-IsOver :
      (k : Staleness) (m : SortedStaleNodes)
      → Above k m
      → Grouped m
      → All (IsOver k) (into_iter shuffle m)
  unfolding into_iter
  into_iter-IsOver k [] a g = tt
  into_iter-IsOver k ((j, ns) ∷ m) a g =
      All-append (IsOver k) (into_iter shuffle m) (shuffle ns) (into_iter-IsOver k m a.1 g.1.1) (
        All-imp (IsRanked j) (IsOver k) (λ n. IsRanked-IsOver k j n a.0) (shuffle ns)
          (shuffled-IsRanked j ns g.0))

  into_iter-Grouped : (m : SortedStaleNodes) → Grouped m → Descending (into_iter shuffle m)
  unfolding into_iter
  into_iter-Grouped [] g = tt
  into_iter-Grouped ((k, ns) ∷ m) g =
      let ranked = shuffled-IsRanked k ns g.0 in
      Descending-append k (into_iter shuffle m) (shuffle ns) (into_iter-Grouped m g.1.1)
        (into_iter-IsOver k m g.1.0 g.1.1) (ranked-Descending k (shuffle ns) ranked) ranked

-- Where the shuffle only reorders a group, the stale nodes are gossiped in an order in which none stands
-- before one of a higher staleness.
pub into_iter-Descending :
    (shuffle : List StaleNode → List StaleNode) (digest : Digest) (scheduled : List ChitchatId)
    (nodes : Map ChitchatId NodeState)
    → Reorders shuffle
    → Descending (into_iter shuffle (offer_all digest scheduled nodes []))
into_iter-Descending shuffle digest scheduled nodes f =
    into_iter-Grouped shuffle f (offer_all digest scheduled nodes [])
      (offer_all-Grouped digest scheduled nodes [] tt)
