-- ===== src/Examples/DetectorTests.antt =====
-- The theorems on the failure detector at concrete states: chitchat/src/failure_detector.rs.
use scuttlebutt.Prelude.{
  ℕ, ◌+◌, ◌-◌, ◌*◌, ◌/◌, ◌≡◌, refl, true, none, some, [], ◌∷◌, leb, ltb, list_ord, nat_ord,
  pair_ord, arith,
}
use scuttlebutt.Prelude.Maps
use scuttlebutt.Ids.{id_ord, addr_key, id_key}
use scuttlebutt.Delta.{contains}
use scuttlebutt.FailureDetector.Window.{Floats, BoundedArrayStats, append}
use scuttlebutt.FailureDetector.Window.Ring.{Appended, append_lem}
use scuttlebutt.FailureDetector.{
  FailureDetector, is_alive, phi, update_node_liveness, garbage_collect,
  scheduled_for_deletion_nodes, dead_where,
}
use scuttlebutt.FailureDetector.Liveness.{update_node_liveness_lem}
use scuttlebutt.FailureDetector.Garbage.{garbage_collect_lem, scheduled-garbage_collect}
use scuttlebutt.Examples.{node_a}

-- Whole numbers in place of floating point ones.
abbrev pub numbers : Floats
numbers = record {
  F64 = ℕ;
  of_secs = λ n. n;
  of_len = λ n. n;
  add = λ a b. a + b;
  sub = λ a b. a - b;
  mul = λ a b. a * b;
  div = λ a b. a / b;
  le = leb;
  lt = ltb;
  zero = 0;
  five = 5;
}

-- A window of two intervals that is full.
abbrev window : BoundedArrayStats numbers
window = record { values = 3 ∷ 4 ∷ []; is_filled = true; index = 1; sum = 7 }

append_lem_example : Appended numbers 9 window (append numbers 9 window)
append_lem_example = append_lem numbers 9 window (omega arith)

abbrev pub detector : FailureDetector numbers
detector = record {
  node_samples = [];
  config = record {
    phi_threshold = 8;
    sampling_window_size = 2;
    max_interval = 10;
    initial_interval = 5;
    dead_node_grace_period = 60;
    half_dead_node_grace_period = 30;
  };
  live_nodes = [];
  dead_nodes = (node_a, 10) ∷ [];
}

-- A node without samples is dead, and its time of death stays.
update_node_liveness_lem_example :
    (Maps.get node_a (update_node_liveness numbers 50 node_a detector).live_nodes ≡ none)
    × (Maps.get node_a (update_node_liveness numbers 50 node_a detector).dead_nodes ≡ some 10)
unfolding is_alive phi Maps.get list_ord nat_ord pair_ord id_ord addr_key id_key
update_node_liveness_lem_example = update_node_liveness_lem numbers 50 node_a node_a detector

garbage_collect_lem_example :
    (contains node_a (garbage_collect numbers 80 detector).1 ≡ true)
    × (Maps.get node_a (garbage_collect numbers 80 detector).0.dead_nodes ≡ none)
unfolding garbage_collect dead_where contains Maps.get list_ord nat_ord pair_ord id_ord addr_key
    id_key
garbage_collect_lem_example = garbage_collect_lem numbers 80 node_a detector (tt, tt)

scheduled-garbage_collect_example :
    contains node_a (scheduled_for_deletion_nodes numbers 80 detector) ≡ true
unfolding garbage_collect dead_where contains list_ord nat_ord pair_ord id_ord addr_key id_key
scheduled-garbage_collect_example =
    scheduled-garbage_collect numbers 80 node_a detector (tt, tt) (omega arith) refl
