-- ===== src/Examples/ServerTests.antt =====
-- The theorems on a node, its server and its socket at concrete ones: chitchat/src/lib.rs,
-- chitchat/src/server.rs and chitchat/src/transport/udp.rs.
use scuttlebutt.Prelude.{
  In, ℕ, ◌≡◌, refl, true, false, Option, none, some, List, [], ◌∷◌, ◌++◌, length, take, list_ord,
  nat_ord, pair_ord, arith, if◌then◌else◌, same,
}
use scuttlebutt.Prelude.Maps
use scuttlebutt.Ids.{Str, SocketAddr, id_ord, addr_ord, addr_key, id_key}
use scuttlebutt.Message.{ChitchatMessage, serialize_message, deserialize_message, serialize_header}
use scuttlebutt.Wire.Ints.{serialize_u8, serialize_u16, to_le_bytes}
use scuttlebutt.Cluster
use scuttlebutt.Cluster.{ClusterState, node_state_or_new}
use scuttlebutt.Types.{DeletionStatus}
use scuttlebutt.Chitchat.Reset.{reset_node_state}
use scuttlebutt.Chitchat.Resets.{reset_node_state_lem}
use scuttlebutt.Chitchat.{
  Chitchat, ChitchatConfig, create_syn_message, update_self_heartbeat, scheduled_for_deletion_nodes,
}
use scuttlebutt.Chitchat.Live.{live_nodes, with_chitchat_id_and_seeds, update_nodes_liveness}
use scuttlebutt.Chitchat.Kept.{Has, is_some}
use scuttlebutt.Chitchat.Kept.Steps.{Step, Reach, Reach-advertised}
use scuttlebutt.Chitchat.Watch.{updated, is_live, update_nodes_liveness_lem}
use scuttlebutt.Server.{
  address_set, Rng, Server, Event, gossip_multiple, seed_addrs, select_nodes_for_gossip,
}
use scuttlebutt.Server.Select.{
  IsRng, IsSelection, Picked, is_picked, is_empty, select_nodes_for_gossip_lem,
}
use scuttlebutt.Server.Round.{prepared, gossip_multiple-seed}
use scuttlebutt.Server.Seeds.{dns_refresh, spawn_dns_refresh_loop}
use scuttlebutt.Server.Refresh.{Known, dns_refresh-Known}
use scuttlebutt.Udp.{Datagram, Received, recv, send, receive_one, recv-send}
use scuttlebutt.Examples.{node_a, key_k, value_v, entry, no_zstd, state_kl, key_l}
use scuttlebutt.Examples.DetectorTests.{numbers}
use scuttlebutt.Examples.HandlerTests.{receiver}
use scuttlebutt.Prelude.{◌≤◌, All, inl, inr}
use scuttlebutt.NodeState
use scuttlebutt.NodeState.{NodeState, get_versioned}
use Prim.Native.Nat.{zero, suc}

abbrev first : List SocketAddr → Option SocketAddr
first [] = none
first (x ∷ xs) = some x

-- A generator that draws 0 and takes what comes first.
abbrev firsts : Rng numbers
firsts = record {
  State = Unit {0};
  gen = λ s. (0, s);
  choose = λ xs s. (first xs, s);
  choose_multiple = λ xs n s. (take n xs, s);
}

first-Picked : (xs : List SocketAddr) → Picked xs (first xs)
first-Picked [] = tt
first-Picked (x ∷ xs) = inl refl

first-some : (xs : List SocketAddr) → is_empty xs ≡ false → is_picked (first xs) ≡ true
first-some [] h = ground arith
first-some (x ∷ xs) h = refl

take-All-In :
    (ys xs : List SocketAddr) (n : ℕ)
    → ((a : SocketAddr) → In a xs → In a ys)
    → All (λ (a : SocketAddr). In a ys) (take n xs)
take-All-In ys [] zero h = tt
take-All-In ys [] (suc n) h = tt
take-All-In ys (x ∷ xs) zero h = tt
take-All-In ys (x ∷ xs) (suc n) h = (h x (inl refl), take-All-In ys xs n (λ a i. h a (inr i)))

length-take_le : (xs : List SocketAddr) (n : ℕ) → length (take n xs) ≤ n
length-take_le [] zero = omega arith
length-take_le [] (suc n) = omega arith
length-take_le (x ∷ xs) zero = omega arith
length-take_le (x ∷ xs) (suc n) = omega (arith, length-take_le xs n)

firsts-IsRng : IsRng firsts
firsts-IsRng = record {
  choose_in = λ xs s. first-Picked xs;
  choose_some = λ xs s h. first-some xs h;
  multiple_in = λ xs n s. take-All-In xs xs n (λ a i. i);
  multiple_bound = λ xs n s. length-take_le xs n;
}

abbrev seed : SocketAddr
seed = SocketAddr.v4 (10 ∷ 0 ∷ 0 ∷ 1 ∷ []) 7

select_nodes_for_gossip_lem_example :
    IsSelection numbers firsts [] [] []
      (seed ∷ [])
      (select_nodes_for_gossip numbers firsts [] [] [] (seed ∷ []) tt).0
select_nodes_for_gossip_lem_example =
    select_nodes_for_gossip_lem numbers firsts firsts-IsRng [] [] [] (seed ∷ []) tt

abbrev lonely : Chitchat numbers
lonely = record receiver {
  cluster_state = record receiver.cluster_state { seed_addrs = seed ∷ [] };
}

abbrev server : Server numbers firsts
server = record { chitchat = lonely; rng = tt; sent = [] }

update_nodes_liveness_lem_example :
    (let u = updated numbers 20 lonely in
      let r = update_nodes_liveness numbers 20 lonely in
      let quiet = same [] r.previous_live_nodes in
      (Maps.get node_a r.previous_live_nodes ≡ (if is_live numbers node_a u then some 6 else none))
      × (r.sends ≡ (if quiet then 0 else 1))
      × (Maps.get node_a r.live_nodes_watcher
          ≡ (if quiet then none else if is_live numbers node_a u then some state_kl else none)))
unfolding Maps.get list_ord nat_ord pair_ord id_ord addr_key id_key
update_nodes_liveness_lem_example = update_nodes_liveness_lem numbers 20 node_a lonely

gossip_multiple-seed_example :
    (a : SocketAddr) × (In a (seed_addrs numbers firsts lonely)
      × In
          (a, create_syn_message numbers 20 (prepared numbers firsts 20 lonely))
          (gossip_multiple numbers firsts 20 server).sent)
gossip_multiple-seed_example =
    gossip_multiple-seed numbers firsts firsts-IsRng 20 server
      (unfold live_nodes address_set list_ord nat_ord pair_ord id_ord addr_key id_key in refl)
      (unfold addr_ord addr_key list_ord nat_ord pair_ord in (λ e. cc))

-- A message, then the end.
abbrev events : List (ℕ × Event)
events = (20, Event.received seed ChitchatMessage.bad_cluster) ∷ (30, Event.commanded none) ∷ []

abbrev heard : Server numbers firsts
heard = record server { chitchat = update_self_heartbeat numbers lonely }

abbrev config : ChitchatConfig numbers
config = record receiver.config { marked_for_deletion_grace_period = 60 }

abbrev started_node : Option (Chitchat numbers) → Chitchat numbers
started_node none = receiver
started_node (some c) = c

abbrev fresh : Chitchat numbers
fresh = started_node (with_chitchat_id_and_seeds numbers config [] ((key_k, value_v) ∷ []))

abbrev later : Chitchat numbers
later = update_nodes_liveness numbers 30 fresh

fresh_started : with_chitchat_id_and_seeds numbers config [] ((key_k, value_v) ∷ []) ≡ some fresh
unfolding with_chitchat_id_and_seeds NodeState.set NodeState.get_versioned NodeState.inc_heartbeat
    NodeState.new Maps.get
fresh_started = refl

Reach-advertised_example :
    Has config.chitchat_id later.cluster_state
    × (is_some (
          Maps.get config.chitchat_id
            (Cluster.compute_digest
              (scheduled_for_deletion_nodes numbers 40 later)
              later.cluster_state).node_digests)
        ≡ true)
Reach-advertised_example =
    Reach-advertised numbers no_zstd (λ ns. ns) config [] ((key_k, value_v) ∷ []) fresh later
      fresh_started (Reach.next Reach.here (Step.liveness 30 fresh)) 40

-- The payload of `BadCluster`.
abbrev bad_cluster_bytes : List ℕ
bad_cluster_bytes = 83 ∷ 176 ∷ 0 ∷ 3 ∷ []

recv-send_example :
    recv no_zstd
      ((Datagram.arrived seed (1 ∷ 2 ∷ []) ∷ []) ++ (Datagram.arrived seed bad_cluster_bytes ∷ []))
    ≡ Received.received seed ChitchatMessage.bad_cluster []
recv-send_example =
    recv-send no_zstd (Datagram.arrived seed (1 ∷ 2 ∷ []) ∷ []) [] seed seed
      ChitchatMessage.bad_cluster bad_cluster_bytes
      (unfold receive_one deserialize_message in refl, tt) tt
      (unfold send serialize_message serialize_header serialize_u16 serialize_u8 to_le_bytes in
        refl)
      (omega arith)

-- The version that the reset asks for, 9, is above all that the state has after it.
reset_node_state_lem_example :
    (let t =
        node_state_or_new node_a
          (reset_node_state numbers node_a
            ((key_k, entry 7 DeletionStatus.set) ∷ [])
            9
            5
            lonely).cluster_state in
      (get_versioned key_l t ≡ none) × (t.last_gc_version ≡ 5) × (t.max_version ≡ 7))
unfolding node_state_or_new Maps.get list_ord nat_ord pair_ord id_ord addr_key id_key
reset_node_state_lem_example =
    reset_node_state_lem numbers node_a ((key_k, entry 7 DeletionStatus.set) ∷ []) 9 5 lonely key_l
      refl refl

-- What is longer than a byte is an address.
abbrev parse_seed : Str → Option SocketAddr
parse_seed (c ∷ d ∷ s) = some seed
parse_seed s = none

-- The host is not found at first.
abbrev lookup_seed : ℕ → Str → Option (List SocketAddr)
lookup_seed zero s = none
lookup_seed (suc n) s = some (node_a.gossip_advertise_addr ∷ [])

dns_refresh-Known_example : Known parse_seed lookup_seed node_a.gossip_advertise_addr (
    dns_refresh parse_seed lookup_seed 60
      (spawn_dns_refresh_loop parse_seed lookup_seed 0 ((58 ∷ 58 ∷ []) ∷ key_k ∷ [])).0)
dns_refresh-Known_example =
    dns_refresh-Known parse_seed lookup_seed 0 60 ((58 ∷ 58 ∷ []) ∷ key_k ∷ []) key_k
      node_a.gossip_advertise_addr (inr (inl refl))
      (inr (refl, (node_a.gossip_advertise_addr ∷ [], (refl, inl refl))))
