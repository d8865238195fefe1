-- ===== src/Examples/GossipTests.antt =====
-- The theorem on what nodes tell each other at a concrete network: chitchat/src/lib.rs.
use scuttlebutt.Prelude.{
  ◌≤◌, ◌≡◌, refl, inl, Option, none, some, [], ◌∷◌, list_ord, nat_ord, pair_ord, arith,
}
use scuttlebutt.Prelude.Maps
use scuttlebutt.Ids.{id_ord, addr_key, id_key}
use scuttlebutt.Message.{ChitchatMessage}
use scuttlebutt.Chitchat.{
  Chitchat, create_syn_message, process_message, scheduled_for_deletion_nodes,
}
use scuttlebutt.Cluster
use scuttlebutt.Cluster.Partial.{
  compute_partial_delta_respecting_mtu, offer_all, from_version, add_nodes,
}
use scuttlebutt.Cluster.Stale.{offer, into_iter}
use scuttlebutt.Delta.{contains}
use scuttlebutt.Delta.Serializer
use scuttlebutt.Delta.Serializer.{with_mtu}
use scuttlebutt.Digest.{serialized_len_digest, serialized_len_entries}
use scuttlebutt.FailureDetector
use scuttlebutt.NodeState.{new, inc_heartbeat, try_set_heartbeat}
use scuttlebutt.Gossip.Honest.{Claim}
use scuttlebutt.Gossip.Network.{Network, replied, Act, Step, Reach, HonestNetwork, Reach-Honest}
use scuttlebutt.Examples.{no_zstd}
use scuttlebutt.Examples.DetectorTests.{numbers}
use scuttlebutt.Examples.HandlerTests.{receiver}

-- No version is above 6.
abbrev small_versions : Claim
small_versions id key value version = version ≤ 6

abbrev syn_message : ChitchatMessage
syn_message = create_syn_message numbers 20 receiver

abbrev answered :
    Option (Chitchat numbers × Option ChitchatMessage) → Chitchat numbers × Option ChitchatMessage
answered none = (receiver, none)
answered (some r) = r

-- The node answers its own message.
abbrev answer : Chitchat numbers × Option ChitchatMessage
answer = answered (process_message numbers no_zstd (λ ns. ns) 21 syn_message receiver)

answers : process_message numbers no_zstd (λ ns. ns) 21 syn_message receiver ≡ some answer
unfolding process_message create_syn_message list_ord nat_ord pair_ord id_ord addr_key id_key
    Cluster.compute_digest contains scheduled_for_deletion_nodes
    FailureDetector.scheduled_for_deletion_nodes try_set_heartbeat Cluster.node_state_or_new
    Maps.get Cluster.update_node_state Maps.insert serialized_len_digest serialized_len_entries
    compute_partial_delta_respecting_mtu with_mtu offer_all offer from_version into_iter add_nodes
    Serializer.finish inc_heartbeat new
answers = refl

abbrev answered_network : Network numbers
answered_network = record { nodes = answer.0 ∷ []; in_flight = replied answer.1 (syn_message ∷ []) }

reached : Reach small_versions numbers no_zstd (λ ns. ns) answered_network
reached =
    Reach.next
      (Reach.next
        (Reach.next Reach.here (
          Step.join receiver (record { nodes = []; in_flight = [] })
            ((omega arith, (omega arith, tt)), tt)))
        (Step.act [] [] receiver receiver (some syn_message) [] (Act.syn 20 receiver)))
      (Step.act [] [] receiver answer.0 answer.1 (syn_message ∷ [])
        (Act.receive 21 syn_message answer.1 receiver answer.0 (inl refl) answers))

Reach-Honest_example : HonestNetwork small_versions numbers answered_network
Reach-Honest_example =
    Reach-Honest small_versions numbers no_zstd (λ ns. ns) (λ n ns i. i) answered_network reached
