-- ===== src/Server.antt =====
-- chitchat/src/server.rs: the choice of the nodes to gossip with, a round of gossip, and what the task
-- does on an event. `rand` is a parameter. A `HashSet` of addresses is a list of different addresses.
-- A server's `sent` is what it has handed to the socket, the oldest first; whether the socket took it
-- is only logged by the code. `none` is a panic. The instants of one event are one instant.
pub mod Select
pub mod Seeds
pub mod Refresh
pub mod Round
use scuttlebutt.Prelude.{
  ℕ, ◌+◌, Bool, true, false, not, ◌&&◌, ◌||◌, Option, none, some, List, [], ◌∷◌, ◌++◌, keep, map,
  length, same, if◌then◌else◌, ltb, ◌==◌, list_ord, nat_ord,
}
use scuttlebutt.Prelude.Maps
use scuttlebutt.Prelude.Maps.{Map, keys}
use scuttlebutt.Ids.{ChitchatId, SocketAddr, id_ord, addr_ord}
use scuttlebutt.Stream.{Compressor}
use scuttlebutt.Message.{ChitchatMessage}
use scuttlebutt.Cluster.{nodes}
use scuttlebutt.Cluster.Stale.{StaleNode}
use scuttlebutt.FailureDetector.Window.{Floats}
use scuttlebutt.Chitchat.{
  Chitchat, update_self_heartbeat, gc_keys_marked_for_deletion, create_syn_message, process_message,
}
use scuttlebutt.Chitchat.Live.{live_nodes, update_nodes_liveness}

abbrev pub gossip_count : ℕ
gossip_count = 3

-- A random generator with the calls of `rand` that the server makes.
pub record Rng (f : Floats) : Type 1 where
  pub State : Type 0
  pub gen : State → f.F64 × State
  pub choose : List SocketAddr → State → Option SocketAddr × State
  pub choose_multiple : List SocketAddr → ℕ → State → List SocketAddr × State

unfoldable pub has_addr : SocketAddr → List SocketAddr → Bool
has_addr a [] = false
has_addr a (x ∷ xs) = same a x || has_addr a xs

-- `collect` into a `HashSet`
unfoldable pub address_set : List ChitchatId → Map SocketAddr (Unit {0})
address_set [] = []
address_set (id ∷ ids) = Maps.insert id.gossip_advertise_addr tt (address_set ids)

-- Whether one of the nodes is a seed.
unfoldable pub has_seed : List SocketAddr → List SocketAddr → Bool
unfolding has_addr
has_seed seeds [] = false
has_seed seeds (node ∷ ns) = has_addr node seeds || has_seed seeds ns

pub data Command : Type 0 where
  gossip_to : SocketAddr → Command
  shutdown : Command

-- What `select!` may take next: a closed command channel is `commanded none`.
pub data Event : Type 0 where
  received : SocketAddr → ChitchatMessage → Event
  receive_failed : Event
  ticked : Event
  commanded : Option Command → Event

module _ (f : Floats) (r : Rng f) where
  unfoldable pub select_dead_node_to_gossip_with :
      List SocketAddr → ℕ → ℕ → r.State → Option SocketAddr × r.State
  select_dead_node_to_gossip_with dead live_count dead_count s =
      let (drawn, t) = r.gen s in
      if f.lt drawn (f.div (f.of_len dead_count) (f.of_len (live_count + 1)))
      then r.choose dead t
      else (none, t)

  abbrev pub seed_drawn : List SocketAddr → ℕ → ℕ → f.F64 × r.State → Option SocketAddr × r.State
  seed_drawn seeds live_count dead_count (drawn, t) =
      if f.le drawn (f.div (f.of_len (length seeds)) (f.of_len (live_count + dead_count)))
      then r.choose seeds t
      else (none, t)

  -- Without live nodes nothing is drawn.
  unfoldable pub select_seed_node_to_gossip_with :
      List SocketAddr → ℕ → ℕ → r.State → Option SocketAddr × r.State
  select_seed_node_to_gossip_with seeds live_count dead_count s =
      if live_count == 0 then r.choose seeds s else seed_drawn seeds live_count dead_count (r.gen s)

  pub record Selection : Type 0 where
    pub nodes : List SocketAddr
    pub random_dead_node : Option SocketAddr
    pub random_seed_node : Option SocketAddr

  unfoldable pub select_nodes_for_gossip :
      List SocketAddr
      → List SocketAddr
      → List SocketAddr
      → List SocketAddr
      → r.State
      → Selection × r.State
  unfolding has_seed select_dead_node_to_gossip_with select_seed_node_to_gossip_with
  select_nodes_for_gossip peers live dead seeds s =
      let live_count = length live in
      let dead_count = length dead in
      let (chosen, t) =
        r.choose_multiple (if live_count == 0 then peers else live) gossip_count s in
      let (dead_node, u) = select_dead_node_to_gossip_with dead live_count dead_count t in
      let (seed_node, v) =
        if not (has_seed seeds chosen) || ltb live_count (length seeds)
        then select_seed_node_to_gossip_with seeds live_count dead_count u
        else (none, u) in
      (record { nodes = chosen; random_dead_node = dead_node; random_seed_node = seed_node }, v)

  abbrev pub others : ChitchatId → List ChitchatId → List ChitchatId
  others self ids = keep (λ id. not (same id self)) ids

  abbrev pub peer_addrs : Chitchat f → List SocketAddr
  peer_addrs c = keys (address_set (others c.config.chitchat_id (nodes c.cluster_state)))

  abbrev pub live_addrs : Chitchat f → List SocketAddr
  live_addrs c = keys (address_set (others c.config.chitchat_id (live_nodes f c)))

  abbrev pub dead_addrs : Chitchat f → List SocketAddr
  dead_addrs c = keys (address_set (keys c.failure_detector.dead_nodes))

  abbrev pub seed_addrs : Chitchat f → List SocketAddr
  seed_addrs c =
      keep (λ a. not (same a c.config.chitchat_id.gossip_advertise_addr)) c.cluster_state.seed_addrs

  -- The choice that a node's state gives.
  unfoldable pub select_for : Chitchat f → r.State → Selection × r.State
  unfolding select_nodes_for_gossip
  select_for c s =
      select_nodes_for_gossip (peer_addrs c) (live_addrs c) (dead_addrs c) (seed_addrs c) s

  abbrev pub optional : Option SocketAddr → List SocketAddr
  optional none = []
  optional (some a) = a ∷ []

  -- Whom a round gossips with, in order.
  abbrev pub targets : Selection → List SocketAddr
  targets x = x.nodes ++ (optional x.random_dead_node ++ optional x.random_seed_node)

  pub record Server : Type 0 where
    pub chitchat : Chitchat f
    pub rng : r.State
    pub sent : List (SocketAddr × ChitchatMessage)

  unfoldable pub gossip : ℕ → SocketAddr → Server → Server
  gossip now addr s = record s {
    sent = s.sent ++ ((addr, create_syn_message f now s.chitchat) ∷ []);
  }

  unfoldable pub gossip_all : ℕ → List SocketAddr → Server → Server
  unfolding gossip
  gossip_all now [] s = s
  gossip_all now (addr ∷ addrs) s = gossip_all now addrs (gossip now addr s)

  unfoldable pub gossip_multiple : ℕ → Server → Server
  unfolding select_for gossip_all
  gossip_multiple now s =
      let (selection, rng) = select_for s.chitchat s.rng in
      let prepared = record s {
        rng = rng;
        chitchat = gc_keys_marked_for_deletion f now (update_self_heartbeat f s.chitchat);
      } in
      let done = gossip_all now (targets selection) prepared in
      record done { chitchat = update_nodes_liveness f now done.chitchat }

  pub data Outcome : Type 0 where
    goes_on stopped failed : Server → Outcome

  module _ (z : Compressor) (shuffle : List StaleNode → List StaleNode) where
    abbrev pub reply_to :
        SocketAddr → Server → Option (Chitchat f × Option ChitchatMessage) → Option Server
    reply_to from s none = none
    reply_to from s (some (c, none)) = some (record s { chitchat = c })
    reply_to from s (some (c, some reply)) =
        some (record s { chitchat = c; sent = s.sent ++ ((from, reply) ∷ []) })

    unfoldable pub handle_message : ℕ → SocketAddr → ChitchatMessage → Server → Option Server
    handle_message now from message s =
        reply_to from s (process_message f z shuffle now message s.chitchat)

    abbrev pub then_on : Option Server → Option Outcome
    then_on none = none
    then_on (some s) = some (Outcome.goes_on s)

    -- One turn of the loop.
    unfoldable pub serve : ℕ → Event → Server → Option Outcome
    unfolding handle_message gossip_multiple gossip
    serve now (Event.received from message) s = then_on (handle_message now from message s)
    serve now Event.receive_failed s = some (Outcome.failed s)
    serve now Event.ticked s = some (Outcome.goes_on (gossip_multiple now s))
    serve now (Event.commanded (some (Command.gossip_to addr))) s =
        some (Outcome.goes_on (gossip now addr s))
    serve now (Event.commanded (some Command.shutdown)) s = some (Outcome.stopped s)
    serve now (Event.commanded none) s = some (Outcome.stopped s)

    -- The events in the order in which `select!` takes them, until the loop ends.
    unfoldable pub run : List (ℕ × Event) → Server → Option Outcome
    unfolding serve
    run [] s = some (Outcome.goes_on s)
    run ((now, e) ∷ es) s = elim (serve now e s) [
      | none ↦ none
      | some (Outcome.goes_on t) ↦ run es t
      | some (Outcome.stopped t) ↦ some (Outcome.stopped t)
      | some (Outcome.failed t) ↦ some (Outcome.failed t)
    ]
