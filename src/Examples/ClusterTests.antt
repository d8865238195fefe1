-- ===== src/Examples/ClusterTests.antt =====
-- The theorems on two peers and on partial deltas at concrete clusters: chitchat/src/state.rs.
use scuttlebutt.Prelude.{◌≡◌, refl, none, All, list_ord, nat_ord, pair_ord, arith}
use scuttlebutt.NodeState.{get_versioned}
use scuttlebutt.NodeState.Apply.{apply_delta}
use scuttlebutt.Cluster.{node_digest}
use scuttlebutt.Cluster.Partial.{from_version}
use scuttlebutt.Cluster.Boundary.{boundary_delta_forgets}
use scuttlebutt.Ids.{ChitchatId, id_ord}
use scuttlebutt.NodeState.{NodeState}
use scuttlebutt.Wire.Text.{is_utf8, utf8_run, continuation}
use scuttlebutt.Wire.Address.{IsId}
use scuttlebutt.Delta.Ops.{serialized_len_op}
use scuttlebutt.Cluster.Within.{IsSmallNode}
use scuttlebutt.Examples.{node_a, key_k, state_k, state_kl, increment, sample_cluster}

-- The receiver loses `key_k`, which the sender has.
boundary_delta_forgets_example : get_versioned key_k (apply_delta 20 increment state_k) ≡ none
unfolding from_version node_digest list_ord nat_ord
boundary_delta_forgets_example =
    boundary_delta_forgets 20 state_kl state_k increment key_k refl (omega arith) (omega arith) refl
      refl (λ h. cc) (refl, tt)

node_a-IsId : IsId node_a
unfolding is_utf8 utf8_run continuation
node_a-IsId = ((refl, omega arith), omega arith, (refl, omega arith))

-- The cluster's operations are small.
pub sample_cluster-small :
    All (λ (e : ChitchatId × NodeState). IsSmallNode e.0 e.1) sample_cluster.node_states
unfolding is_utf8 utf8_run continuation serialized_len_op
sample_cluster-small = (
  (
    (
      (((refl, omega arith), (refl, omega arith), omega arith), omega arith),
      ((((refl, omega arith), (refl, omega arith), omega arith), omega arith), tt),
    ),
    ((node_a-IsId, omega arith, omega arith), omega arith),
    (omega arith, omega arith),
  ),
  tt,
)
