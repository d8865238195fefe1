-- ===== src/Gossip/Network.antt =====
-- Any number of nodes with the messages between them, as a system that steps: chitchat/src/lib.rs and
-- the calls of chitchat/src/server.rs. Messages stay in flight for ever, so that one may arrive late,
-- more than once, at any node, or never.
use scuttlebutt.Prelude.{
  ℕ, ◌≡◌, Option, none, some, List, [], ◌∷◌, ◌++◌, All, All-append, In, In-All,
}
use scuttlebutt.Ids.{id_ord}
use scuttlebutt.NodeState.{NodeState}
use scuttlebutt.Stream.{Compressor}
use scuttlebutt.Message.{ChitchatMessage}
use scuttlebutt.Cluster.{update_node_state}
use scuttlebutt.Cluster.Stale.{StaleNode}
use scuttlebutt.Cluster.Offered.{AddsNone}
use scuttlebutt.FailureDetector.Window.{Floats}
use scuttlebutt.Chitchat.{
  Chitchat, update_self_heartbeat, gc_keys_marked_for_deletion, create_syn_message, process_message,
}
use scuttlebutt.Chitchat.Live.{update_nodes_liveness}
use scuttlebutt.Gossip.Honest.{Claim, HonestState, update_node_state-Honest}
use scuttlebutt.Gossip.Handled.{
  HonestMessage, HonestReply, Honest, self-Honest, collect-Honest, update_nodes_liveness-Honest,
  process_message-Honest,
}

pub record Network (f : Floats) : Type 0 where
  pub nodes : List (Chitchat f)
  pub in_flight : List ChitchatMessage

abbrev pub replied : Option ChitchatMessage → List ChitchatMessage → List ChitchatMessage
replied none ms = ms
replied (some m) ms = m ∷ ms

-- The claim holds of each entry of each node and of each message.
abbrev pub HonestNetwork : Claim → (f : Floats) → Network f → Type 0
HonestNetwork W f w = All (Honest W f) w.nodes × All (HonestMessage W) w.in_flight

module _ (W : Claim) (f : Floats) (z : Compressor) (shuffle : List StaleNode → List StaleNode) where
  -- What a node does on its own or with a message, and what it sends.
  pub data Act (in_flight : List ChitchatMessage)
      : Chitchat f → Chitchat f → Option ChitchatMessage → Type 0 where
    -- The user writes the node's own state, to entries of which the claim holds.
    write :
        (s : NodeState) (c : Chitchat f)
        → HonestState W c.config.chitchat_id s
        → Act in_flight c
            (record c {
              cluster_state = update_node_state c.config.chitchat_id (λ old. s) c.cluster_state;
            })
            none
    round :
        (now : ℕ) (c : Chitchat f)
        → Act in_flight c (gc_keys_marked_for_deletion f now (update_self_heartbeat f c)) none
    liveness : (now : ℕ) (c : Chitchat f) → Act in_flight c (update_nodes_liveness f now c) none
    syn : (now : ℕ) (c : Chitchat f) → Act in_flight c c (some (create_syn_message f now c))
    receive :
        (now : ℕ) (message : ChitchatMessage) (reply : Option ChitchatMessage) (c c' : Chitchat f)
        → In message in_flight
        → process_message f z shuffle now message c ≡ some (c', reply)
        → Act in_flight c c' reply

  pub data Step : Network f → Network f → Type 0 where
    -- A node starts, with entries of which the claim holds.
    join :
        (c : Chitchat f) (w : Network f) → Honest W f c → Step w (record w { nodes = c ∷ w.nodes })
    crash :
        (before after : List (Chitchat f)) (c : Chitchat f) (ms : List ChitchatMessage)
        → Step
            (record { nodes = before ++ (c ∷ after); in_flight = ms })
            (record { nodes = before ++ after; in_flight = ms })
    act :
        (before after : List (Chitchat f)) (c c' : Chitchat f) (reply : Option ChitchatMessage)
        (ms : List ChitchatMessage)
        → Act ms c c' reply
        → Step
            (record { nodes = before ++ (c ∷ after); in_flight = ms })
            (record { nodes = before ++ (c' ∷ after); in_flight = replied reply ms })

  pub data Reach : Network f → Type 0 where
    here : Reach (record { nodes = []; in_flight = [] })
    next : {w u : Network f} → Reach w → Step w u → Reach u

  module _ (s : AddsNone shuffle) where
    Act-Honest :
        {ms : List ChitchatMessage} {c c' : Chitchat f} {reply : Option ChitchatMessage}
        → Act ms c c' reply
        → All (HonestMessage W) ms
        → Honest W f c
        → Honest W f c' × HonestReply W reply
    Act-Honest (write t c ok) told h =
        (update_node_state-Honest W c.config.chitchat_id (λ old. t) c.cluster_state h ok, tt)
    Act-Honest (round now c) told h =
        (collect-Honest W f now (update_self_heartbeat f c) (self-Honest W f c h), tt)
    Act-Honest (liveness now c) told h = (update_nodes_liveness-Honest W f now c h, tt)
    Act-Honest (syn now c) told h = (h, unfold create_syn_message in tt)
    Act-Honest {ms} (receive now message reply c c' member e) told h =
        process_message-Honest W f z shuffle s now message c c' reply
          (In-All (HonestMessage W) message ms member told) h e

    -- The front and the end of a list of which something holds.
    All-parts :
        (before after : List (Chitchat f))
        → All (Honest W f) (before ++ after)
        → All (Honest W f) before × All (Honest W f) after
    All-parts [] after h = (tt, h)
    All-parts (c ∷ before) after h =
        let rest = All-parts before after h.1 in ((h.0, rest.0), rest.1)

    All-replied :
        (reply : Option ChitchatMessage) (ms : List ChitchatMessage)
        → HonestReply W reply
        → All (HonestMessage W) ms
        → All (HonestMessage W) (replied reply ms)
    All-replied none ms r told = told
    All-replied (some m) ms r told = (r, told)

    Step-Honest : {w u : Network f} → Step w u → HonestNetwork W f w → HonestNetwork W f u
    Step-Honest (join c w ok) h = ((ok, h.0), h.1)
    Step-Honest (crash before after c ms) h =
        let parts = All-parts before (c ∷ after) h.0 in
        (All-append (Honest W f) before after parts.0 parts.1.1, h.1)
    Step-Honest (act before after c c' reply ms a) h =
        let parts = All-parts before (c ∷ after) h.0 in
        let r = Act-Honest a h.1 parts.1.0 in
        (
          All-append (Honest W f) before (c' ∷ after) parts.0 (r.0, parts.1.1),
          All-replied reply ms r.1 h.1,
        )

    -- Where the owners write only entries of which a claim holds, and the shuffle adds no node to a
    -- group, the claim holds of every entry that any node stores of any other, and of every entry that
    -- a message carries, whichever messages are lost, repeated or reordered and whichever nodes start
    -- and stop.
    pub Reach-Honest : (w : Network f) → Reach w → HonestNetwork W f w
    Reach-Honest w here = (tt, tt)
    Reach-Honest w (next r step) = Step-Honest step (Reach-Honest _ r)
