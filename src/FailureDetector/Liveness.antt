-- ===== src/FailureDetector/Liveness.antt =====
-- Live and dead nodes: chitchat/src/failure_detector.rs.
use scuttlebutt.Prelude.{
  ℕ, ◌≡◌, Bool, Bool-cases, inl, inr, Option, none, some, if◌then◌else◌, same, arith,
}
use scuttlebutt.Prelude.Maps
use scuttlebutt.Ids.{ChitchatId, id_ord}
use scuttlebutt.FailureDetector.Window.{Floats}
use scuttlebutt.FailureDetector.{FailureDetector, is_alive, time_of_death, update_node_liveness}

module _ (f : Floats) where
  -- What a node is after its update.
  abbrev pub live_entry : Bool → Option (Unit {0})
  live_entry b = if b then some tt else none

  abbrev pub dead_entry : ℕ → Bool → Option ℕ → Option ℕ
  dead_entry now b old = if b then none else some (time_of_death f now old)

  -- After its update a node is either live and not dead or dead and not live, as its phi value says;
  -- a node that was dead keeps its time of death; and no other node changes.
  pub update_node_liveness_lem :
      (now : ℕ) (id j : ChitchatId) (d : FailureDetector f)
      → (Maps.get j (update_node_liveness f now id d).live_nodes
          ≡ (if same j id then live_entry (is_alive f now id d) else Maps.get j d.live_nodes))
        × (Maps.get j (update_node_liveness f now id d).dead_nodes ≡ (
            if same j id
            then dead_entry now (is_alive f now id d) (Maps.get id d.dead_nodes)
            else Maps.get j d.dead_nodes))
  unfolding update_node_liveness
  update_node_liveness_lem now id j d = elim (Bool-cases (is_alive f now id d)) [
    | inl alive ↦ rw alive (rw (Maps.get-insert, Maps.get-remove) (ground arith))
    | inr dead ↦ rw dead (rw (Maps.get-insert, Maps.get-remove) (ground arith))
  ]
