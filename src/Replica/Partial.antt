-- ===== src/Replica/Partial.antt =====
-- The node deltas of a partial delta are sent by the nodes of the cluster:
-- `compute_partial_delta_respecting_mtu` of chitchat/src/state.rs.
use scuttlebutt.Prelude.{ℕ, ◌≡◌, refl, sym, Bool, false, some, List, [], ◌∷◌, All, All-imp}
use mathlib.Core.Path.{subst}
use scuttlebutt.Prelude.Maps
use scuttlebutt.Ids.{ChitchatId, id_ord}
use scuttlebutt.NodeDelta.{NodeDelta}
use scuttlebutt.NodeState.{NodeState}
use scuttlebutt.Stream.{Compressor}
use scuttlebutt.Digest.{Digest}
use scuttlebutt.Delta.{Delta, contains}
use scuttlebutt.Cluster.{ClusterState}
use scuttlebutt.Cluster.Stale.{StaleNode}
use scuttlebutt.Cluster.Partial.{from_version, compute_partial_delta_respecting_mtu}
use scuttlebutt.Cluster.Offered.{AddsNone, OfOffered, All-into_iter}
use scuttlebutt.Replica.Send.{sent}
use scuttlebutt.Replica.Fronts.{front, Fills, partial_delta-Fills}

-- The node delta is sent by a node of the cluster that is shared, from the version that the digest
-- gives.
pub record IsSentBy (c : ClusterState) (digest : Digest) (scheduled : List ChitchatId)
    (d : NodeDelta) : Type 0 where
  pub node : NodeState
  pub stored : Maps.get d.chitchat_id c.node_states ≡ some node
  pub shared : contains d.chitchat_id scheduled ≡ false
  pub from :
      from_version (Maps.get d.chitchat_id digest.node_digests) node ≡ some d.from_version_excluded
  pub count : ℕ
  pub room : Bool
  pub same :
      d ≡ record (sent d.from_version_excluded count room node) { chitchat_id = d.chitchat_id }

abbrev OfStale : ClusterState → Digest → List ChitchatId → StaleNode → Type 0
OfStale c digest scheduled n =
    (Maps.get n.chitchat_id c.node_states ≡ some n.node)
    × (contains n.chitchat_id scheduled ≡ false)
    × (from_version (Maps.get n.chitchat_id digest.node_digests) n.node
        ≡ some n.from_version_excluded)

module _ (c : ClusterState) (digest : Digest) (scheduled : List ChitchatId) where
  front-IsSentBy :
      (n : StaleNode) (count : ℕ) (room : Bool)
      → OfStale c digest scheduled n
      → IsSentBy c digest scheduled (front count room n)
  unfolding sent
  front-IsSentBy n count room h = record {
    node = n.node;
    stored = h.0;
    shared = h.1;
    from = h.2;
    count = count;
    room = room;
    same = refl;
  }

  Fills-IsSentBy :
      (ns : List StaleNode) (ds : List NodeDelta)
      → All (OfStale c digest scheduled) ns
      → Fills ns ds
      → All (IsSentBy c digest scheduled) ds
  Fills-IsSentBy ns [] h f = tt
  Fills-IsSentBy [] (d ∷ ds) h f = absurd f
  Fills-IsSentBy (n ∷ ns) (d ∷ ds) h f = (
    subst (IsSentBy c digest scheduled) (sym f.0.same) (front-IsSentBy n f.0.count f.0.room h.0),
    Fills-IsSentBy ns ds h.1 f.2,
  )

  -- Where the shuffle adds no node to a group and the nodes of the cluster are in order, each node delta
  -- of a partial delta that is returned is about a node of the cluster that is not scheduled for
  -- deletion: it starts where `from_version` says for the digest, and has the first of the node's stale
  -- key-values, in the order of their versions, and a `max_version` only where there is none, which is
  -- the node's.
  pub partial_delta-IsSentBy :
      (z : Compressor) (shuffle : List StaleNode → List StaleNode) (mtu : ℕ) (d : Delta)
      → AddsNone shuffle
      → Maps.IsSorted c.node_states
      → compute_partial_delta_respecting_mtu z shuffle digest mtu scheduled c ≡ some d
      → All (IsSentBy c digest scheduled) d.node_deltas
  partial_delta-IsSentBy z shuffle mtu d f sorted e =
      Fills-IsSentBy _ d.node_deltas
        (All-into_iter (OfStale c digest scheduled) shuffle digest scheduled c.node_states f (
          All-imp (λ (e : ChitchatId × NodeState). Maps.get e.0 c.node_states ≡ some e.1)
            (OfOffered (OfStale c digest scheduled) digest scheduled)
            (λ e stored from shared offered. (stored, shared, offered)) c.node_states
            (Maps.get-All c.node_states sorted)))
        (partial_delta-Fills z shuffle digest mtu scheduled c d e)
