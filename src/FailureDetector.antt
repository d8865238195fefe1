-- ===== src/FailureDetector.antt =====
-- `FailureDetector` of chitchat/src/failure_detector.rs: which nodes are live and which are dead. A
-- `HashSet` is a map to `Unit`; the order of its elements is nowhere relied on. The instant of a call
-- is its argument `now`, and half of the grace period (`div_f32`) is a field of the configuration.
pub mod Window
pub mod Liveness
pub mod Garbage
use scuttlebutt.Prelude.{
  ℕ, ◌+◌, Bool, true, false, Option, none, some, List, [], ◌∷◌, if◌then◌else◌, ltb, leb,
}
use scuttlebutt.Prelude.Maps
use scuttlebutt.Prelude.Maps.{Map}
use scuttlebutt.Ids.{ChitchatId, id_ord}
use scuttlebutt.FailureDetector.Window.{
  Floats, SamplingWindow, new_window, report_window, reset_window, window_phi,
}

module _ (f : Floats) where
  pub record FailureDetectorConfig : Type 0 where
    pub phi_threshold : f.F64
    pub sampling_window_size : ℕ
    pub max_interval : ℕ
    pub initial_interval : ℕ
    pub dead_node_grace_period : ℕ
    pub half_dead_node_grace_period : ℕ

  pub record FailureDetector : Type 0 where
    pub node_samples : Map ChitchatId (SamplingWindow f)
    pub config : FailureDetectorConfig
    pub live_nodes : Map ChitchatId (Unit {0})
    pub dead_nodes : Map ChitchatId ℕ

  unfoldable pub new_detector : FailureDetectorConfig → FailureDetector
  new_detector config = record {
    node_samples = [];
    config = config;
    live_nodes = [];
    dead_nodes = [];
  }

  abbrev pub window_or_new : FailureDetectorConfig → Option (SamplingWindow f) → SamplingWindow f
  window_or_new c none = new_window f c.sampling_window_size c.max_interval c.initial_interval
  window_or_new c (some w) = w

  abbrev pub put_window :
      ChitchatId → FailureDetector → Option (SamplingWindow f) → Option FailureDetector
  put_window id d none = none
  put_window id d (some w) = some (record d { node_samples = Maps.insert id w d.node_samples })

  unfoldable pub report_heartbeat : ℕ → ChitchatId → FailureDetector → Option FailureDetector
  report_heartbeat now id d =
      put_window id d (report_window f now (window_or_new d.config (Maps.get id d.node_samples)))

  abbrev pub phi_of : ℕ → Option (SamplingWindow f) → Option f.F64
  phi_of now none = none
  phi_of now (some w) = window_phi f now w

  unfoldable pub phi : ℕ → ChitchatId → FailureDetector → Option f.F64
  phi now id d = phi_of now (Maps.get id d.node_samples)

  abbrev pub within_threshold : FailureDetectorConfig → Option f.F64 → Bool
  within_threshold c none = false
  within_threshold c (some p) = f.le p c.phi_threshold

  unfoldable pub is_alive : ℕ → ChitchatId → FailureDetector → Bool
  unfolding phi
  is_alive now id d = within_threshold d.config (phi now id d)

  abbrev pub reset_samples :
      ChitchatId
      → Map ChitchatId (SamplingWindow f)
      → Option (SamplingWindow f)
      → Map ChitchatId (SamplingWindow f)
  reset_samples id m none = m
  reset_samples id m (some w) = Maps.insert id (reset_window f w) m

  abbrev pub time_of_death : ℕ → Option ℕ → ℕ
  time_of_death now none = now
  time_of_death now (some t) = t

  unfoldable pub update_node_liveness : ℕ → ChitchatId → FailureDetector → FailureDetector
  unfolding is_alive
  update_node_liveness now id d =
      if is_alive now id d
      then record d {
        live_nodes = Maps.insert id tt d.live_nodes;
        dead_nodes = Maps.remove id d.dead_nodes;
      }
      else record d {
        live_nodes = Maps.remove id d.live_nodes;
        dead_nodes = Maps.insert id (time_of_death now (Maps.get id d.dead_nodes)) d.dead_nodes;
        node_samples = reset_samples id d.node_samples (Maps.get id d.node_samples);
      }

  -- The nodes whose time of death passes the test, in the order of the map.
  unfoldable pub dead_where : (ℕ → Bool) → Map ChitchatId ℕ → List ChitchatId
  dead_where p [] = []
  dead_where p ((id, t) ∷ m) = let rest = dead_where p m in if p t then id ∷ rest else rest

  unfoldable pub forget_nodes : List ChitchatId → FailureDetector → FailureDetector
  forget_nodes [] d = d
  forget_nodes (id ∷ ids) d = forget_nodes ids (record d {
    dead_nodes = Maps.remove id d.dead_nodes;
    node_samples = Maps.remove id d.node_samples;
  })

  abbrev pub is_garbage : ℕ → FailureDetectorConfig → ℕ → Bool
  is_garbage now c t = leb (t + c.dead_node_grace_period) now

  abbrev pub is_scheduled : ℕ → FailureDetectorConfig → ℕ → Bool
  is_scheduled now c t = ltb (t + c.half_dead_node_grace_period) now

  unfoldable pub garbage_collect : ℕ → FailureDetector → FailureDetector × List ChitchatId
  unfolding dead_where forget_nodes
  garbage_collect now d =
      let garbage = dead_where (is_garbage now d.config) d.dead_nodes in
      (forget_nodes garbage d, garbage)

  unfoldable pub scheduled_for_deletion_nodes : ℕ → FailureDetector → List ChitchatId
  unfolding dead_where
  scheduled_for_deletion_nodes now d = dead_where (is_scheduled now d.config) d.dead_nodes
