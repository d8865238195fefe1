-- ===== src/Examples/SendTests.antt =====
-- The theorems on partial deltas and what they do to a replica at concrete states:
-- chitchat/src/state.rs.
use scuttlebutt.Prelude.{
  ℕ, ◌≡◌, ◌<◌, ◌≤◌, refl, Bool, none, some, [], ◌∷◌, All, list_ord, nat_ord, pair_ord, arith,
}
use mathlib.Core.List.{Permᴰ}
use mathlib.Core.List.Permᴰ
use scuttlebutt.Prelude.Maps
use scuttlebutt.Prelude.Maps.{Map}
use scuttlebutt.Ids.{Str, ChitchatId, id_ord}
use scuttlebutt.Types.{VersionedValue, DeletionStatus}
use scuttlebutt.NodeDelta.{NodeDelta}
use scuttlebutt.NodeState.{NodeState, get, get_versioned}
use scuttlebutt.NodeState.Apply.{apply_delta}
use scuttlebutt.Delta.{Delta, contains}
use scuttlebutt.Delta.Serializer.{mutation_of}
use scuttlebutt.Cluster.{node_digest}
use scuttlebutt.Cluster.Stale.{
  StaleNode, offer, push, staleness_score, staleness_cmp, into_iter, stale_key_values,
  sort_by_version,
}
use scuttlebutt.NodeState.Read
use scuttlebutt.Cluster.Partial.{offer_all, from_version, compute_partial_delta_respecting_mtu}
use scuttlebutt.Cluster.Gossiped.{offered, Reorders, into_iter-Perm}
use scuttlebutt.Cluster.Ordered.{Descending, into_iter-Descending}
use scuttlebutt.Replica.Send.{sent}
use scuttlebutt.Replica.Arrives.{IsGossipable, Arrives, partial_delta-Arrives, partial_delta-within}
use scuttlebutt.Replica.Phantom.{late_delta_resurrects, announced_ignored}
use scuttlebutt.Examples.{
  no_zstd, node_a, key_k, key_l, value_v, entry, sample_cluster, sample_digest, state_k, state_kl,
}
use scuttlebutt.Examples.ClusterTests.{sample_cluster-small}

same_order : Reorders (λ ns. ns)
same_order ns = Permᴰ.refl ns

into_iter-Perm_example :
    Permᴰ
      (into_iter (λ ns. ns) (offer_all sample_digest [] sample_cluster.node_states []))
      (offered sample_digest [] sample_cluster.node_states)
into_iter-Perm_example =
    into_iter-Perm (λ ns. ns) sample_digest [] sample_cluster.node_states same_order

abbrev node_b : ChitchatId
node_b = record node_a { node_id = 98 ∷ [] }

-- The digest knows the first node in part, and the second not at all.
abbrev two_nodes : Map ChitchatId NodeState
two_nodes = (node_a, state_kl) ∷ (node_b, record state_k { chitchat_id = node_b }) ∷ []

-- The unknown node is the first to be gossiped.
two_nodes_order :
    (n : StaleNode) × (m : StaleNode) × (into_iter
        (λ ns. ns)
        (offer_all sample_digest [] two_nodes [])
      ≡ n ∷ m ∷ [])
    × (n.chitchat_id ≡ node_b)
unfolding from_version offer_all offer push staleness_score staleness_cmp into_iter list_ord nat_ord
    contains Maps.get id_ord
two_nodes_order = (_, _, refl, refl)

into_iter-Descending_example :
    Descending (into_iter (λ ns. ns) (offer_all sample_digest [] two_nodes []))
into_iter-Descending_example = into_iter-Descending (λ ns. ns) sample_digest [] two_nodes same_order

sample_cluster-IsGossipable : All IsGossipable sample_cluster.node_states
sample_cluster-IsGossipable = (((((λ e. omega arith), tt), (tt, tt)), sample_cluster-small.0), tt)

partial_delta-Arrives_example :
    (d : Delta) × Arrives no_zstd (λ ns. ns) sample_digest 65506 [] sample_cluster (9 ∷ []) d
partial_delta-Arrives_example =
    partial_delta-Arrives no_zstd (λ ns. ns) sample_digest 65506 [] sample_cluster same_order
      (tt, tt) sample_cluster-IsGossipable (9 ∷ []) (omega arith)

abbrev key_j : Str
key_j = 106 ∷ []

abbrev state : Map Str VersionedValue → ℕ → NodeState
state key_values max_version = record {
  chitchat_id = node_a;
  heartbeat = 5;
  key_values = key_values;
  listeners = [];
  max_version = max_version;
  last_gc_version = 3;
}

-- The owner had `key_k` at 2, has deleted it at 3 and collected it, and has written `key_l` at 4.
abbrev collected : NodeState
collected = state ((key_j, entry 1 DeletionStatus.set) ∷ (key_l, entry 4 DeletionStatus.set) ∷ []) 4

-- The replica has been reset, and taken the first entry only.
abbrev restarted : NodeState
restarted = state ((key_j, entry 1 DeletionStatus.set) ∷ []) 1

abbrev late : NodeDelta
late = record {
  chitchat_id = node_a;
  from_version_excluded = 1;
  last_gc_version = 0;
  key_values = mutation_of key_k (entry 2 DeletionStatus.set) ∷ [];
  max_version = none;
}

late_delta_resurrects_example :
    (get key_k (apply_delta 20 late restarted) ≡ some value_v)
    × (from_version (some (node_digest (apply_delta 20 late restarted))) collected ≡ some 2)
    × (get key_k (apply_delta 21 (sent 2 5 Bool.true collected) (apply_delta 20 late restarted))
        ≡ some value_v)
unfolding get_versioned Maps.get list_ord nat_ord
late_delta_resurrects_example =
    late_delta_resurrects 20 21 5 Bool.true (mutation_of key_k (entry 2 DeletionStatus.set)) late
      restarted collected (record { sorted = (tt, tt); bounded = (omega arith, tt) }) refl refl
      (omega arith) (omega arith) (omega arith) (omega arith) refl (omega arith) refl

-- The owner whose last versions are all collected, so that nothing is stale for the replica.
announced_ignored_example :
    (apply_delta 20 (sent 1 5 Bool.true (state restarted.key_values 3)) restarted ≡ restarted)
    × (1 < 3)
unfolding stale_key_values Read.stale_key_values sort_by_version from_version node_digest
announced_ignored_example =
    announced_ignored 20 5 Bool.true restarted (state restarted.key_values 3) 1 refl (omega arith)
      refl

partial_delta-within_example :
    (d : Delta) × (compute_partial_delta_respecting_mtu no_zstd
        (λ ns. ns)
        sample_digest
        200
        []
        sample_cluster
      ≡ some d)
    × (d.serialized_len ≤ 200)
partial_delta-within_example =
    partial_delta-within no_zstd (λ ns. ns) sample_digest 200 [] sample_cluster same_order (tt, tt)
      sample_cluster-IsGossipable (omega arith)
