-- ===== src/Server/Round.antt =====
-- A round of gossip: chitchat/src/server.rs.
use scuttlebutt.Prelude.{
  In, ℕ, ◌≡◌, ◌≢◌, refl, sym, ap, ◌∙◌, true, inl, inr, Option, none, some, List, [], ◌∷◌, ◌++◌,
  length, arith,
}
use mathlib.Core.Bool.{false≢true}
use mathlib.Core.List.{append_assoc, append-nil}
use scuttlebutt.Ids.{SocketAddr}
use scuttlebutt.Message.{ChitchatMessage}
use scuttlebutt.FailureDetector.Window.{Floats}
use scuttlebutt.Chitchat.{
  Chitchat, update_self_heartbeat, gc_keys_marked_for_deletion, create_syn_message,
}
use scuttlebutt.Chitchat.Live.{update_nodes_liveness}
use scuttlebutt.Server.{
  Rng, Selection, Server, live_addrs, seed_addrs, peer_addrs, dead_addrs, select_for, optional,
  targets, gossip, gossip_all, gossip_multiple,
}
use scuttlebutt.Server.Select.{IsRng, Picked, is_picked, select_nodes_for_gossip_lem}

module _ (f : Floats) (r : Rng f) where
  -- Each address with the message.
  unfoldable pub addressed : ChitchatMessage → List SocketAddr → List (SocketAddr × ChitchatMessage)
  addressed m [] = []
  addressed m (a ∷ rest) = (a, m) ∷ addressed m rest

  gossip_all_lem :
      (now : ℕ) (addrs : List SocketAddr) (s : Server f r)
      → gossip_all f r now addrs s
        ≡ (record s { sent = s.sent ++ addressed (create_syn_message f now s.chitchat) addrs })
  unfolding gossip_all gossip addressed
  gossip_all_lem now [] s = ap (λ l. record s { sent = l }) (sym (append-nil s.sent))
  gossip_all_lem now (addr ∷ addrs) s =
      gossip_all_lem now addrs (gossip f r now addr s)
      ∙ ap (λ l. record s { sent = l })
          (append_assoc s.sent ((addr, create_syn_message f now s.chitchat) ∷ []) _)

  -- The node that a round builds its message from.
  abbrev pub prepared : ℕ → Chitchat f → Chitchat f
  prepared now c = gc_keys_marked_for_deletion f now (update_self_heartbeat f c)

  -- A round sends one and the same message, of the node after its heartbeat and the collection of its
  -- keys, to each node that was selected before that, in the order of the selection; then it updates
  -- which nodes are live.
  pub gossip_multiple_lem :
      (now : ℕ) (s : Server f r)
      → (let (selection, rng) = select_for f r s.chitchat s.rng in
          let c = prepared now s.chitchat in
          gossip_multiple f r now s ≡ (record {
            chitchat = update_nodes_liveness f now c;
            rng = rng;
            sent = s.sent ++ addressed (create_syn_message f now c) (targets f r selection);
          }))
  unfolding gossip_multiple
  gossip_multiple_lem now s =
      let selection = select_for f r s.chitchat s.rng in
      ap {A = Server f r} (λ t. record t { chitchat = update_nodes_liveness f now t.chitchat })
        (gossip_all_lem now (targets f r selection.0)
          (record s { rng = selection.1; chitchat = prepared now s.chitchat }))

  In-append : {A : Type 0} (x : A) (xs ys : List A) → In x ys → In x (xs ++ ys)
  In-append x [] ys h = h
  In-append x (z ∷ xs) ys h = inr (In-append x xs ys h)

  In-addressed :
      (m : ChitchatMessage) (a : SocketAddr) (xs : List SocketAddr)
      → In a xs
      → In (a, m) (addressed m xs)
  unfolding addressed
  In-addressed m a [] h = h
  In-addressed m a (x ∷ xs) (inl first) = inl (ap (λ b. (b, m)) first)
  In-addressed m a (x ∷ xs) (inr later) = inr (In-addressed m a xs later)

  -- The seed of a selection is the last of its targets.
  seed-targets :
      (seeds : List SocketAddr) (x : Selection f r)
      → Picked seeds x.random_seed_node
      → is_picked x.random_seed_node ≡ true
      → (a : SocketAddr) × (In a seeds × In a (targets f r x))
  seed-targets seeds x p h = last x.random_seed_node refl p h
    where
      last :
          (o : Option SocketAddr)
          → x.random_seed_node ≡ o
          → Picked seeds o
          → is_picked o ≡ true
          → (a : SocketAddr) × (In a seeds × In a (targets f r x))
      last none e p h = absurd (false≢true h)
      last (some a) e p h = (
        a,
        (
          p,
          In-append a x.nodes _ (In-append a (optional f r x.random_dead_node) _ (rw e (inl refl))),
        ),
      )

  -- With a generator that does what `rand` documents, a node that knows no live node and has a seed
  -- other than itself sends its message to a seed in each round.
  pub gossip_multiple-seed :
      IsRng r
      → (now : ℕ) (s : Server f r) → length (live_addrs f r s.chitchat) ≡ 0
      → seed_addrs f r s.chitchat ≢ []
      → (a : SocketAddr) × (In a (seed_addrs f r s.chitchat)
          × In
              (a, create_syn_message f now (prepared now s.chitchat))
              (gossip_multiple f r now s).sent)
  unfolding select_for
  gossip_multiple-seed h now s alone seeded =
      let x = (select_for f r s.chitchat s.rng).0 in
      let is =
        select_nodes_for_gossip_lem f r h (peer_addrs f r s.chitchat) (live_addrs f r s.chitchat)
          (dead_addrs f r s.chitchat) (seed_addrs f r s.chitchat) s.rng in
      let (a, (known, targeted)) =
        seed-targets (seed_addrs f r s.chitchat) x is.a_seed (elim is.isolated [
          | inl live ↦ absurd (omega arith)
          | inr (inl unseeded) ↦ absurd (seeded unseeded)
          | inr (inr picked) ↦ picked
        ]) in
      (
        a,
        (
          known,
          rw (gossip_multiple_lem now s) (In-append _ s.sent _ (In-addressed _ a _ targeted)),
        ),
      )
