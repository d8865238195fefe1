-- ===== src/Examples/HandlerTests.antt =====
-- The theorem on the handling of messages at a concrete node: chitchat/src/lib.rs.
use scuttlebutt.Prelude.{Bool, [], none, refl}
use scuttlebutt.Message.{ChitchatMessage}
use scuttlebutt.Prelude.Maps
use scuttlebutt.Ids.{id_ord}
use scuttlebutt.NodeState
use scuttlebutt.NodeState.{inc_heartbeat, new}
use scuttlebutt.Cluster
use scuttlebutt.Cluster.{node_state_or_new}
use scuttlebutt.Chitchat.{Chitchat, update_self_heartbeat, process_delta, process_message}
use scuttlebutt.Chitchat.Advance.{NotBehind, process_message-NotBehind}
use scuttlebutt.Examples.{node_a, no_zstd, key_k, sample_delta, sample_cluster}
use scuttlebutt.Examples.DetectorTests.{numbers, detector}

abbrev pub receiver : Chitchat numbers
receiver = record {
  config = record {
    chitchat_id = record node_a { generation_id = 9 };
    cluster_id = key_k;
    gossip_interval = 1;
    listen_addr = node_a.gossip_advertise_addr;
    seed_nodes = [];
    failure_detector_config = detector.config;
    marked_for_deletion_grace_period = 50;
    has_catchup_callback = Bool.true;
    extra_liveness_predicate = none;
  };
  catchups = 0;
  cluster_state = sample_cluster;
  failure_detector = detector;
  previous_live_nodes = [];
  live_nodes_watcher = [];
  sends = 0;
}

abbrev received : Chitchat numbers
received = process_delta numbers 20 sample_delta (update_self_heartbeat numbers receiver)

process_message-NotBehind_example :
    NotBehind
      (node_state_or_new node_a receiver.cluster_state)
      (node_state_or_new node_a received.cluster_state)
unfolding process_message Cluster.apply_delta Maps.insert id_ord NodeState.Apply.apply_delta
    Maps.get inc_heartbeat new
process_message-NotBehind_example =
    process_message-NotBehind numbers no_zstd (λ ns. ns) 20 (ChitchatMessage.ack sample_delta)
      receiver received none refl node_a
