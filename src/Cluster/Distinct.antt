-- ===== src/Cluster/Distinct.antt =====
-- No node is gossiped twice in a partial delta: `SortedStaleNodes` of chitchat/src/state.rs.
use Prim.Native.Nat.{Ordering}
use scuttlebutt.Prelude.{
  ℕ, Bool-cases, inl, inr, All-imp, ◌≡◌, false, List, [], ◌∷◌, ◌++◌, All, All-append, All-Perm,
  same, Option, some, none, arith,
}
use mathlib.Core.Path.{subst}
use mathlib.Core.List.{Permᴰ}
use mathlib.Core.List.Permᴰ
use scuttlebutt.Prelude.Maps
use scuttlebutt.Prelude.Maps.{Map}
use scuttlebutt.Ids.{ChitchatId, id_ord}
use scuttlebutt.NodeState.{NodeState}
use scuttlebutt.Digest.{Digest}
use scuttlebutt.Cluster.Stale.{StaleNode, into_iter}
use scuttlebutt.Cluster.Partial.{offer_all, from_version}
use scuttlebutt.Delta.{contains}
use scuttlebutt.Cluster.Offered.{stale_node}
use scuttlebutt.Cluster.Gossiped.{offered_from, offered_of, offered, Reorders, into_iter-Perm}

-- The other node has another identifier.
abbrev pub IsOther : StaleNode → StaleNode → Type 0
IsOther n m = same m.chitchat_id n.chitchat_id ≡ false

abbrev pub NoTwice : List StaleNode → Type 0
NoTwice [] = Unit
NoTwice (n ∷ ns) = All (IsOther n) ns × NoTwice ns

IsOther-sym : (n m : StaleNode) → IsOther n m → IsOther m n
IsOther-sym n m h = ground (arith, id_ord.cmp_swap m.chitchat_id n.chitchat_id)

NoTwice-Perm : {ms ns : List StaleNode} → Permᴰ ms ns → NoTwice ms → NoTwice ns
NoTwice-Perm Permᴰ.nil u = tt
NoTwice-Perm (Permᴰ.cons {a = a} {l₂ = l₂} e p) u =
    (subst (λ n. All (IsOther n) l₂) e (All-Perm (IsOther a) p u.0), NoTwice-Perm p u.1)
NoTwice-Perm (Permᴰ.swap {a = a} {b = b} {b' = b'} {l = l} e f) u =
    subst (λ n. NoTwice (n ∷ b' ∷ l)) f
      (subst (λ n. NoTwice (b ∷ n ∷ l)) e ((IsOther-sym a b u.0.0, u.1.0), (u.0.1, u.1.1)))
NoTwice-Perm (Permᴰ.trans p q) u = NoTwice-Perm q (NoTwice-Perm p u)

module _ (digest : Digest) (scheduled : List ChitchatId) where
  -- What comes after an identifier in the cluster comes after it among the offered nodes.
  abbrev Later : ChitchatId → StaleNode → Type 0
  Later id n = id_ord.cmp id n.chitchat_id ≡ Ordering.lt

  offered-Later :
      (id : ChitchatId) (nodes : Map ChitchatId NodeState)
      → Maps.After id nodes
      → All (Later id) (offered digest scheduled nodes)
  offered-Later id [] a = tt
  offered-Later id ((j, s) ∷ nodes) a =
      All-append (Later id) (offered_of digest scheduled j s) (offered digest scheduled nodes)
        (ground arith) (offered-Later id nodes a.1)

  Later-IsOther :
      (id : ChitchatId) (s : NodeState) (ns : List StaleNode) (from : Option ℕ)
      → All (Later id) ns
      → NoTwice ns
      → NoTwice (offered_from id s from ++ ns)
  Later-IsOther id s ns none a u = u
  Later-IsOther id s ns (some from) a u = (
    All-imp (Later id) (IsOther (stale_node id s from))
        (λ n later. ground (arith, later, id_ord.cmp_swap id n.chitchat_id)) ns a,
    u,
  )

  offered-NoTwice :
      (nodes : Map ChitchatId NodeState)
      → Maps.IsSorted nodes
      → NoTwice (offered digest scheduled nodes)
  offered-NoTwice [] h = tt
  offered-NoTwice ((id, s) ∷ nodes) h =
      let rest = offered digest scheduled nodes in
      elim (Bool-cases (contains id scheduled)) [
        | inl skipped ↦ rw skipped (offered-NoTwice nodes h.1)
        | inr shared ↦ rw shared (
            Later-IsOther id s rest (from_version (Maps.get id digest.node_digests) s)
              (offered-Later id nodes h.0) (offered-NoTwice nodes h.1))
      ]

  -- Where the cluster's nodes are in order, no node is gossiped twice.
  pub into_iter-NoTwice :
      (shuffle : List StaleNode → List StaleNode) (nodes : Map ChitchatId NodeState)
      → Reorders shuffle
      → Maps.IsSorted nodes
      → NoTwice (into_iter shuffle (offer_all digest scheduled nodes []))
  into_iter-NoTwice shuffle nodes f sorted =
      NoTwice-Perm (Permᴰ.symm (into_iter-Perm shuffle digest scheduled nodes f))
        (offered-NoTwice nodes sorted)
