-- ===== src/FailureDetector/Garbage.antt =====
-- The removal of dead nodes, in its two phases: chitchat/src/failure_detector.rs.
use scuttlebutt.Prelude.{
  ℕ, ◌<◌, ◌≡◌, refl, Bool, true, false, Option, none, some, List, [], ◌∷◌, if◌then◌else◌, same→eq,
  arith,
}
use scuttlebutt.Prelude.Maps
use scuttlebutt.Prelude.Maps.{Map}
use scuttlebutt.Ids.{ChitchatId, id_ord}
use scuttlebutt.Delta.{contains}
use scuttlebutt.FailureDetector.Window.{Floats}
use scuttlebutt.FailureDetector.{
  FailureDetector, dead_where, forget_nodes, is_garbage, is_scheduled, garbage_collect,
  scheduled_for_deletion_nodes,
}

module _ (f : Floats) where
  -- A dead node passes the test.
  abbrev pub passes : (ℕ → Bool) → Option ℕ → Bool
  passes p none = false
  passes p (some t) = p t

  pub contains-dead_where :
      (p : ℕ → Bool) (j : ChitchatId) (m : Map ChitchatId ℕ)
      → Maps.IsSorted m
      → contains j (dead_where f p m) ≡ passes p (Maps.get j m)
  unfolding contains dead_where Maps.get
  contains-dead_where p j [] s = refl
  contains-dead_where p j ((i, t) ∷ m) s =
      ground (arith, contains-dead_where p j m s.1, Maps.get-After i m s.0, same→eq j i)

  pub get-forget_nodes :
      (j : ChitchatId) (ids : List ChitchatId) (d : FailureDetector f)
      → Maps.get j (forget_nodes f ids d).dead_nodes
        ≡ (if contains j ids then none else Maps.get j d.dead_nodes)
  unfolding forget_nodes contains
  get-forget_nodes j [] d = refl
  get-forget_nodes j (id ∷ ids) d =
      let d' = record d {
        dead_nodes = Maps.remove id d.dead_nodes;
        node_samples = Maps.remove id d.node_samples;
      } in
      ground (arith, get-forget_nodes j ids d', Maps.get-remove id j d.dead_nodes)

  -- In a detector whose dead nodes are in order, garbage collection returns exactly the dead nodes whose
  -- grace period has passed, takes them off the dead nodes, and leaves every other dead node with its
  -- time of death.
  pub garbage_collect_lem :
      (now : ℕ) (j : ChitchatId) (d : FailureDetector f)
      → Maps.IsSorted d.dead_nodes
      → (contains j (garbage_collect f now d).1
          ≡ passes (is_garbage f now d.config) (Maps.get j d.dead_nodes))
        × (Maps.get j (garbage_collect f now d).0.dead_nodes
            ≡ (if contains j (garbage_collect f now d).1 then none else Maps.get j d.dead_nodes))
  unfolding garbage_collect
  garbage_collect_lem now j d s = (
    contains-dead_where (is_garbage f now d.config) j d.dead_nodes s,
    get-forget_nodes j (dead_where f (is_garbage f now d.config) d.dead_nodes) d,
  )

  -- In a detector whose dead nodes are in order, where half of the grace period is shorter than all of
  -- it, each node that is garbage collected is scheduled for deletion at that instant.
  pub scheduled-garbage_collect :
      (now : ℕ) (j : ChitchatId) (d : FailureDetector f)
      → Maps.IsSorted d.dead_nodes
      → d.config.half_dead_node_grace_period < d.config.dead_node_grace_period
      → contains j (garbage_collect f now d).1 ≡ true
      → contains j (scheduled_for_deletion_nodes f now d) ≡ true
  unfolding garbage_collect scheduled_for_deletion_nodes
  scheduled-garbage_collect now j d s half h = ground (
    arith,
    contains-dead_where (is_garbage f now d.config) j d.dead_nodes s,
    contains-dead_where (is_scheduled f now d.config) j d.dead_nodes s,
  )
