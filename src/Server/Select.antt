-- ===== src/Server/Select.antt =====
-- Whom a node gossips with: chitchat/src/server.rs.
use scuttlebutt.Prelude.{
  In, ℕ, ◌+◌, ◌≤◌, ◌<◌, ◌≡◌, ◌⊎◌, refl, Bool, true, false, not, ◌||◌, Bool-cases, inl, inr, Option,
  none, some, List, [], ◌∷◌, All, length, if◌then◌else◌, ltb, ◌==◌, arith,
}
use scuttlebutt.Ids.{SocketAddr}
use scuttlebutt.FailureDetector.Window.{Floats}
use scuttlebutt.Server.{
  Rng, Selection, gossip_count, has_seed, select_dead_node_to_gossip_with,
  select_seed_node_to_gossip_with, select_nodes_for_gossip,
}

abbrev pub Picked : List SocketAddr → Option SocketAddr → Type 0
Picked xs none = Unit
Picked xs (some a) = In a xs

abbrev pub is_picked : Option SocketAddr → Bool
is_picked none = false
is_picked (some a) = true

abbrev pub is_empty : List SocketAddr → Bool
is_empty [] = true
is_empty (x ∷ xs) = false

-- What `rand` documents: `choose` takes an element, if there is one, and `choose_multiple` takes as
-- many elements as asked for, or all.
pub record IsRng {f : Floats} (r : Rng f) : Type 0 where
  pub choose_in : (xs : List SocketAddr) (s : r.State) → Picked xs (r.choose xs s).0
  pub choose_some :
      (xs : List SocketAddr) (s : r.State)
      → is_empty xs ≡ false
      → is_picked (r.choose xs s).0 ≡ true
  pub multiple_in :
      (xs : List SocketAddr) (n : ℕ) (s : r.State)
      → All (λ (a : SocketAddr). In a xs) (r.choose_multiple xs n s).0
  pub multiple_bound :
      (xs : List SocketAddr) (n : ℕ) (s : r.State) → length (r.choose_multiple xs n s).0 ≤ n

module _ (f : Floats) (r : Rng f) where
  -- What a selection is, for the sets that it was made from.
  pub record IsSelection (peers live dead seeds : List SocketAddr) (x : Selection f r)
      : Type 0 where
    pub few : length x.nodes ≤ gossip_count
    pub among : All (λ (a : SocketAddr). In a (if length live == 0 then peers else live)) x.nodes
    pub a_dead : Picked dead x.random_dead_node
    pub a_seed : Picked seeds x.random_seed_node
    pub isolated : (0 < length live) ⊎ ((seeds ≡ []) ⊎ (is_picked x.random_seed_node ≡ true))

module _ (f : Floats) (r : Rng f) (h : IsRng r) where
  dead-Picked :
      (dead : List SocketAddr) (n m : ℕ) (s : r.State)
      → Picked dead (select_dead_node_to_gossip_with f r dead n m s).0
  unfolding select_dead_node_to_gossip_with
  dead-Picked dead n m s =
      elim (Bool-cases (f.lt (r.gen s).0 (f.div (f.of_len m) (f.of_len (n + 1))))) [
        | inl drawn ↦ rw drawn (h.choose_in dead (r.gen s).1)
        | inr spared ↦ rw spared tt
      ]

  seed-Picked :
      (seeds : List SocketAddr) (n m : ℕ) (s : r.State)
      → Picked seeds (select_seed_node_to_gossip_with f r seeds n m s).0
  unfolding select_seed_node_to_gossip_with
  seed-Picked seeds n m s = elim (Bool-cases (n == 0)) [
    | inl alone ↦ rw alone (h.choose_in seeds s)
    | inr live ↦
        elim (Bool-cases (f.le (r.gen s).0 (f.div (f.of_len (length seeds)) (f.of_len (n + m))))) [
          | inl drawn ↦ rw (live, drawn) (h.choose_in seeds (r.gen s).1)
          | inr spared ↦ rw (live, spared) tt
        ]
  ]

  -- Where no node is live and there is a seed, there is a seed in the selection.
  seed-isolated :
      (peers live dead seeds : List SocketAddr) (s : r.State)
      → (0 < length live)
        ⊎ ((seeds ≡ [])
            ⊎ (is_picked (select_nodes_for_gossip f r peers live dead seeds s).0.random_seed_node
                ≡ true))
  unfolding select_nodes_for_gossip select_seed_node_to_gossip_with
  seed-isolated peers (l ∷ live) dead seeds s = inl (omega arith)
  seed-isolated peers [] dead [] s = inr (inl refl)
  seed-isolated peers [] dead (x ∷ seeds) s =
      let c = r.choose_multiple peers gossip_count s in
      let d = select_dead_node_to_gossip_with f r dead 0 (length dead) c.1 in
      elim (Bool-cases (has_seed (x ∷ seeds) c.0)) [
        | inl met ↦ rw met (inr (inr (ground (arith, h.choose_some (x ∷ seeds) d.1 refl))))
        | inr missed ↦ rw missed (inr (inr (h.choose_some (x ∷ seeds) d.1 refl)))
      ]

  -- With a generator that does what `rand` documents, a selection has at most three live nodes, or peers
  -- where no node is live, at most one dead node and at most one seed, each out of its set; and where no
  -- node is live and there is a seed, it has a seed, whatever is drawn.
  pub select_nodes_for_gossip_lem :
      (peers live dead seeds : List SocketAddr) (s : r.State)
      → IsSelection f r peers live dead seeds
          (select_nodes_for_gossip f r peers live dead seeds s).0
  unfolding select_nodes_for_gossip
  select_nodes_for_gossip_lem peers live dead seeds s =
      let pool = if length live == 0 then peers else live in
      let c = r.choose_multiple pool gossip_count s in
      let d = select_dead_node_to_gossip_with f r dead (length live) (length dead) c.1 in
      record {
        few = h.multiple_bound pool gossip_count s;
        among = h.multiple_in pool gossip_count s;
        a_dead = dead-Picked dead (length live) (length dead) c.1;
        a_seed = elim (Bool-cases (not (has_seed seeds c.0) || ltb (length live) (length seeds))) [
          | inl asked ↦ rw asked (seed-Picked seeds (length live) (length dead) d.1)
          | inr enough ↦ rw enough tt
        ];
        isolated = seed-isolated peers live dead seeds s;
      }
