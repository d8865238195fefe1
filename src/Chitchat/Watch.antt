-- ===== src/Chitchat/Watch.antt =====
-- What is sent to those who watch the live nodes: `update_nodes_liveness` of chitchat/src/lib.rs.
use scuttlebutt.Prelude.{
  ℕ, ◌+◌, ◌≡◌, refl, ap, ◌∙◌, Bool, ◌||◌, Bool-cases, inl, inr, Option, none, some, List, [], ◌∷◌,
  same, same→eq, same_refl, if◌then◌else◌, list_ord, pair_ord, nat_ord, arith,
}
use scuttlebutt.Prelude.Maps
use scuttlebutt.Prelude.Maps.{Map, keys}
use scuttlebutt.Ids.{ChitchatId, id_ord}
use scuttlebutt.NodeState.{NodeState}
use scuttlebutt.Delta.{contains}
use scuttlebutt.Cluster.{ClusterState, nodes, node_state}
use scuttlebutt.FailureDetector.Window.{Floats}
use scuttlebutt.Chitchat.{Chitchat}
use scuttlebutt.Chitchat.Kept.{is_some}
use scuttlebutt.Chitchat.Live.{
  live_nodes, update_peers, add_version, versions_of, passes, add_state, states_of, watch,
  collect_nodes, update_nodes_liveness,
}

contains-keys :
    {V : Type 0} (j : ChitchatId) (m : Map ChitchatId V)
    → contains j (keys m) ≡ is_some (Maps.get j m)
unfolding contains Maps.get
contains-keys j [] = refl
contains-keys j ((id, v) ∷ m) = ground (arith, contains-keys j m)

module _ (f : Floats) where
  abbrev pub version_of : Option NodeState → Option ℕ
  version_of none = none
  version_of (some s) = some s.max_version

  abbrev pub shown : Option (NodeState → Bool) → Option NodeState → Option NodeState
  shown p none = none
  shown p (some s) = if passes f p s then some s else none

  abbrev or_else {ℓ} : {A : Type ℓ} → Option A → Option A → Option A
  or_else none b = b
  or_else (some a) b = some a

  get-add_version :
      (j id : ChitchatId) (o : Option NodeState) (m : Map ChitchatId ℕ)
      → Maps.get j (add_version f id o m)
        ≡ (if same j id then or_else (version_of o) (Maps.get j m) else Maps.get j m)
  get-add_version j id none m = ground arith
  get-add_version j id (some s) m = Maps.get-insert id j s.max_version m

  get-versions_of :
      (c : ClusterState) (j : ChitchatId) (ids : List ChitchatId) (m : Map ChitchatId ℕ)
      → Maps.get j (versions_of f c ids m) ≡ (
          if contains j ids
          then or_else (version_of (Maps.get j c.node_states)) (Maps.get j m)
          else Maps.get j m)
  unfolding versions_of contains node_state
  get-versions_of c j [] m = refl
  get-versions_of c j (id ∷ ids) m = elim (Bool-cases (same j id)) [
    | inl hit ↦ rw (same→eq j id hit) (
        ground (
          arith,
          same_refl id,
          get-versions_of c id ids (add_version f id (Maps.get id c.node_states) m),
          get-add_version id id (Maps.get id c.node_states) m,
        ))
    | inr miss ↦ ground (
      arith,
      get-versions_of c j ids (add_version f id (Maps.get id c.node_states) m),
      get-add_version j id (Maps.get id c.node_states) m,
    )
  ]

  get-add_state :
      (p : Option (NodeState → Bool)) (j id : ChitchatId) (o : Option NodeState)
      (m : Map ChitchatId NodeState)
      → Maps.get j (add_state f p id o m)
        ≡ (if same j id then or_else (shown p o) (Maps.get j m) else Maps.get j m)
  get-add_state p j id none m = ground arith
  get-add_state p j id (some s) m = elim (Bool-cases (passes f p s)) [
    | inl listed ↦ rw listed (Maps.get-insert id j s m)
    | inr none_shown ↦ rw none_shown (ground arith)
  ]

  get-states_of :
      (p : Option (NodeState → Bool)) (c : ClusterState) (j : ChitchatId) (ids : List ChitchatId)
      (m : Map ChitchatId NodeState)
      → Maps.get j (states_of f p c ids m) ≡ (
          if contains j ids
          then or_else (shown p (Maps.get j c.node_states)) (Maps.get j m)
          else Maps.get j m)
  unfolding states_of contains node_state
  get-states_of p c j [] m = refl
  get-states_of p c j (id ∷ ids) m = elim (Bool-cases (same j id)) [
    | inl hit ↦ rw (same→eq j id hit) (
        ground (
          arith,
          same_refl id,
          get-states_of p c id ids (add_state f p id (Maps.get id c.node_states) m),
          get-add_state p id id (Maps.get id c.node_states) m,
        ))
    | inr miss ↦ ground (
      arith,
      get-states_of p c j ids (add_state f p id (Maps.get id c.node_states) m),
      get-add_state p j id (Maps.get id c.node_states) m,
    )
  ]

  -- The node after its detector has looked at every peer.
  abbrev pub updated : ℕ → Chitchat f → Chitchat f
  updated now c = record c {
    failure_detector =
        update_peers f now c.config.chitchat_id (nodes c.cluster_state) c.failure_detector;
  }

  abbrev pub is_live : ChitchatId → Chitchat f → Bool
  is_live j c = same j c.config.chitchat_id || is_some (Maps.get j c.failure_detector.live_nodes)

  watch-versions :
      (current : Map ChitchatId ℕ) (c : Chitchat f)
      → (watch f current c).previous_live_nodes ≡ current
  unfolding watch
  watch-versions current c = elim (Bool-cases (same c.previous_live_nodes current)) [
    | inl quiet ↦ rw quiet (same→eq c.previous_live_nodes current quiet)
    | inr changed ↦ rw changed refl
  ]

  watch-sends :
      (current : Map ChitchatId ℕ) (c : Chitchat f)
      → (watch f current c).sends
        ≡ (if same c.previous_live_nodes current then c.sends else c.sends + 1)
  unfolding watch
  watch-sends current c = elim (Bool-cases (same c.previous_live_nodes current)) [
    | inl quiet ↦ rw quiet refl
    | inr changed ↦ rw changed refl
  ]

  watch-states :
      (j : ChitchatId) (current : Map ChitchatId ℕ) (c : Chitchat f)
      → Maps.get j (watch f current c).live_nodes_watcher ≡ (
          if same c.previous_live_nodes current
          then Maps.get j c.live_nodes_watcher
          else if is_some (Maps.get j current)
          then shown c.config.extra_liveness_predicate (Maps.get j c.cluster_state.node_states)
          else none)
  unfolding watch Maps.get
  watch-states j current c = elim (Bool-cases (same c.previous_live_nodes current)) [
    | inl quiet ↦ rw quiet refl
    | inr changed ↦ rw changed (
        ground (
          arith,
          get-states_of c.config.extra_liveness_predicate c.cluster_state j (keys current) [],
          contains-keys j current,
        ))
  ]

  -- The nodes that are live and have a state, with its `max_version`.
  abbrev current : Chitchat f → Map ChitchatId ℕ
  current c = versions_of f c.cluster_state (live_nodes f c) []

  get-current :
      (j : ChitchatId) (c : Chitchat f)
      → Maps.get j (current c)
        ≡ (if is_live j c then version_of (Maps.get j c.cluster_state.node_states) else none)
  unfolding live_nodes contains Maps.get
  get-current j c = ground (
    arith,
    get-versions_of c.cluster_state j (live_nodes f c) [],
    contains-keys j c.failure_detector.live_nodes,
  )

  -- Garbage collection leaves what is watched.
  watch-collect_nodes :
      (now : ℕ) (c : Chitchat f)
      → (let w = watch f (current (updated now c)) (updated now c) in
          let r = update_nodes_liveness f now c in
          (r.previous_live_nodes ≡ w.previous_live_nodes)
          × (r.sends ≡ w.sends)
          × (r.live_nodes_watcher ≡ w.live_nodes_watcher))
  unfolding update_nodes_liveness collect_nodes
  watch-collect_nodes now c = (refl, refl, refl)

  -- A round remembers the version of exactly the nodes that are live, the node itself among them, and
  -- have a state. Where that is what the round before remembered, nothing is sent. Otherwise one map is
  -- sent: it has the state of each of these nodes, less those that the extra predicate turns down.
  pub update_nodes_liveness_lem :
      (now : ℕ) (j : ChitchatId) (c : Chitchat f)
      → (let u = updated now c in
          let r = update_nodes_liveness f now c in
          let state = Maps.get j c.cluster_state.node_states in
          let quiet = same c.previous_live_nodes r.previous_live_nodes in
          (Maps.get j r.previous_live_nodes ≡ (if is_live j u then version_of state else none))
          × (r.sends ≡ (if quiet then c.sends else c.sends + 1))
          × (Maps.get j r.live_nodes_watcher ≡ (
              if quiet
              then Maps.get j c.live_nodes_watcher
              else if is_live j u
              then shown c.config.extra_liveness_predicate state
              else none)))
  update_nodes_liveness_lem now j c =
      let u = updated now c in
      let (versions, sends, states) = watch-collect_nodes now c in
      let remembered = versions ∙ watch-versions (current u) u in
      (
        ap (Maps.get j) remembered ∙ get-current j u,
        rw remembered (sends ∙ watch-sends (current u) u),
        rw (remembered, states, watch-states j (current u) u, get-current j u) (ground arith),
      )
