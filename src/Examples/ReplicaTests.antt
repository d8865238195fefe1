-- ===== src/Examples/ReplicaTests.antt =====
-- The theorems on the owner of a state and a replica at a concrete exchange: chitchat/src/state.rs.
use scuttlebutt.Prelude.{
  some, pair_ord, ◌≡◌, All, inl, refl, none, [], ◌∷◌, list_ord, nat_ord, arith,
}
use scuttlebutt.Prelude.Maps
use scuttlebutt.Types.{DeletionStatus}
use scuttlebutt.NodeDelta.{NodeDelta}
use scuttlebutt.NodeState
use scuttlebutt.NodeState.Read
use scuttlebutt.Cluster.Stale
use scuttlebutt.NodeState.{NodeState, new, get_versioned}
use scuttlebutt.NodeState.Apply.{apply_delta}
use scuttlebutt.Delta.Serializer.{mutation_of}
use scuttlebutt.Cluster.{ClusterState}
use scuttlebutt.Ids.{addr_key, id_key, id_ord}
use scuttlebutt.NodeState.Read.{num_key_values}
use scuttlebutt.Wire.Ints.{serialize_u8, serialize_u16, serialize_u64, to_le_bytes}
use scuttlebutt.Wire.Values.{serialize_mutation, serialize_status}
use scuttlebutt.Stream.{
  serialize_block_type, with_block_threshold, upperbound_after, append, append_bytes, flush_while,
  flush_block,
}
use scuttlebutt.Delta.Serializer.{DeltaSerializer, with_mtu, try_add_op, try_add_kv, try_add_node}
use scuttlebutt.Cluster.Stale.{
  offer, staleness_score, push, into_iter, stale_key_values, sort_by_version, insert_by_version,
}
use scuttlebutt.Wire.Text.{serialize_str}
use scuttlebutt.Wire.Address.{serialize_id, serialize_addr, serialize_ip}
use scuttlebutt.Delta.{Delta, DeltaOp, empty, new_builder, apply_op, flush, last, contains}
use scuttlebutt.Delta.Ops.{serialized_len_op, serialize_op, op_serde}
use scuttlebutt.Cluster.Partial.{
  from_version, offer_all, add_nodes, add_contents, add_key_values,
  compute_partial_delta_respecting_mtu,
}
use scuttlebutt.Delta
use scuttlebutt.Stream
use scuttlebutt.Delta.Serializer
use scuttlebutt.Digest.{Digest}
use scuttlebutt.Replica.Merge.{Has}
use scuttlebutt.Replica.Fronts.{Fills, partial_delta-Fills}
use scuttlebutt.Replica.Partial.{IsSentBy, partial_delta-IsSentBy}
use scuttlebutt.Replica.Deliver.{IsApplicable}
use scuttlebutt.Replica.World.{World, Step, Reach, start, Reach-Has}
use scuttlebutt.Examples.{no_zstd, node_a, key_k, value_v, entry}

-- The owner after its first write.
abbrev owner : NodeState
owner = record {
  chitchat_id = node_a;
  heartbeat = 0;
  key_values = (key_k, entry 1 DeletionStatus.set) ∷ [];
  listeners = record { key = key_k; value = value_v; node = node_a } ∷ [];
  max_version = 1;
  last_gc_version = 0;
}

abbrev written : World
written = record { owner = owner; replica = new node_a []; in_flight = [] }

abbrev flying : NodeDelta
flying = record {
  chitchat_id = node_a;
  from_version_excluded = 0;
  last_gc_version = 0;
  key_values = mutation_of key_k (entry 1 DeletionStatus.set) ∷ [];
  max_version = none;
}

-- The owner's cluster answers a node that knows nothing.
abbrev cluster : ClusterState
cluster = record { node_states = (node_a, owner) ∷ []; seed_addrs = [] }

abbrev nothing_known : Digest
nothing_known = record { node_digests = [] }

abbrev answered : Delta
answered = record { node_deltas = flying ∷ []; serialized_len = 56 }

answers :
    compute_partial_delta_respecting_mtu no_zstd (λ ns. ns) nothing_known 200 [] cluster
    ≡ some answered
unfolding compute_partial_delta_respecting_mtu offer_all offer from_version staleness_score push
    into_iter add_nodes add_contents add_key_values Stale.stale_key_values Read.stale_key_values
    sort_by_version insert_by_version try_add_node try_add_kv try_add_op with_mtu
    with_block_threshold new_builder empty apply_op flush last contains upperbound_after
    serialized_len_op op_serde append append_bytes flush_while flush_block Maps.get list_ord nat_ord
    pair_ord id_ord addr_key id_key serialize_op serialize_id serialize_addr serialize_ip
    serialize_str serialize_u8 serialize_u16 serialize_u64 to_le_bytes serialize_mutation
    serialize_status num_key_values Serializer.finish Delta.finish Stream.finish
    serialize_block_type
answers = refl

abbrev delivered : World
delivered = record {
  owner = owner;
  replica = apply_delta 9 flying (new node_a []);
  in_flight = flying ∷ [];
}

applicable : IsApplicable flying (new node_a [])
unfolding new
applicable = inl refl

stored : Maps.get node_a cluster.node_states ≡ some owner
unfolding Maps.get list_ord nat_ord pair_ord id_ord addr_key id_key
stored = refl

reached : Reach (start node_a [] []) delivered
unfolding start new NodeState.set get_versioned Maps.get Maps.insert list_ord nat_ord
reached =
    Reach.next
      (Reach.next
        (Reach.next Reach.here
          (Step.set (start node_a [] []) key_k value_v owner (omega arith) refl))
        (Step.send written no_zstd (λ ns. ns) nothing_known 200 [] cluster answered flying
          (λ n ns i. i) (tt, tt) stored answers (inl refl)))
      (Step.deliver (record written { in_flight = flying ∷ [] }) 9 flying (inl refl) applicable)

Reach-Has_example : Has (mutation_of key_k (entry 1 DeletionStatus.set)) delivered.replica
Reach-Has_example =
    Reach-Has node_a [] [] delivered key_k (entry 1 DeletionStatus.set) reached
      (unfold get_versioned Maps.get list_ord nat_ord in refl)
      (unfold apply_delta new Maps.get in omega arith)

partial_delta-Fills_example :
    Fills
      (into_iter (λ ns. ns) (offer_all nothing_known [] cluster.node_states []))
      answered.node_deltas
partial_delta-Fills_example =
    partial_delta-Fills no_zstd (λ ns. ns) nothing_known 200 [] cluster answered answers

partial_delta-IsSentBy_example : All (IsSentBy cluster nothing_known []) answered.node_deltas
partial_delta-IsSentBy_example =
    partial_delta-IsSentBy cluster nothing_known [] no_zstd (λ ns. ns) 200 answered (λ n ns i. i)
      (tt, tt) answers
