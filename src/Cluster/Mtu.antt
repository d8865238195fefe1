-- ===== src/Cluster/Mtu.antt =====
-- The length of a partial delta: chitchat/src/state.rs.
use scuttlebutt.Prelude.{ℕ, ◌≤◌, ◌≡◌, Option-cases, some, inl, inr, List, [], All, All-imp}
use scuttlebutt.Prelude.Maps
use scuttlebutt.Prelude.Maps.{Map}
use scuttlebutt.Ids.{ChitchatId, id_ord}
use scuttlebutt.NodeState.{NodeState}
use scuttlebutt.Digest.{Digest}
use scuttlebutt.Stream.{Compressor}
use scuttlebutt.Delta.{Delta}
use scuttlebutt.Delta.Serializer.{with_mtu}
use scuttlebutt.Delta.Serializer.Bound.{with_mtu-Fits}
use scuttlebutt.Cluster.{ClusterState}
use scuttlebutt.Cluster.Stale.{StaleNode, into_iter}
use scuttlebutt.Cluster.Partial.{offer_all, add_nodes, compute_partial_delta_respecting_mtu}
use scuttlebutt.Cluster.Offered.{AddsNone, OfOffered, All-into_iter, from_version-le}
use scuttlebutt.Cluster.Within.{IsSmallNode, IsSmallStale, add_nodes-KeepsLast, finish-KeepsLast}

-- Where the shuffle adds no node to a group and every operation of the cluster's nodes can be sent in
-- at most 16384 bytes, a partial delta that is returned announces a length within the `mtu`.
pub partial_delta-le-mtu :
    (z : Compressor) (shuffle : List StaleNode → List StaleNode) (digest : Digest) (mtu : ℕ)
    (scheduled : List ChitchatId) (c : ClusterState) (d : Delta)
    → AddsNone shuffle
    → All (λ (e : ChitchatId × NodeState). IsSmallNode e.0 e.1) c.node_states
    → compute_partial_delta_respecting_mtu z shuffle digest mtu scheduled c ≡ some d
    → d.serialized_len ≤ mtu
unfolding compute_partial_delta_respecting_mtu
partial_delta-le-mtu z shuffle digest mtu scheduled c d f small e =
    let stale = offer_all digest scheduled c.node_states [] in
    elim (Option-cases (with_mtu mtu)) [
      | inl tiny ↦ cc (tiny, e)
      | inr (s, ready) ↦
          let fits = with_mtu-Fits z mtu s ready in
          finish-KeepsLast z (add_nodes z (into_iter shuffle stale) s) mtu d
            (add_nodes-KeepsLast z (into_iter shuffle stale) s mtu
              (All-into_iter IsSmallStale shuffle digest scheduled c.node_states f (
                All-imp (λ (e : ChitchatId × NodeState). IsSmallNode e.0 e.1)
                  (OfOffered IsSmallStale digest scheduled)
                  (λ e h from shared offered.
                    (h, from_version-le (Maps.get e.0 digest.node_digests) e.1 from offered))
                  c.node_states small))
              fits.0 fits.1)
            (rw (ready, compute_partial_delta_respecting_mtu) at e)
    ]
