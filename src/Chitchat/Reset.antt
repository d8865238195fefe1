-- ===== src/Chitchat/Reset.antt =====
-- `reset_node_state`: chitchat/src/lib.rs.
use scuttlebutt.Prelude.{ℕ, List, [], ◌∷◌, if◌then◌else◌, leb, list_ord, nat_ord}
use scuttlebutt.Prelude.Maps
use scuttlebutt.Prelude.Maps.{Map, keys}
use scuttlebutt.Ids.{Str, ChitchatId, id_ord}
use scuttlebutt.Types.{VersionedValue}
use scuttlebutt.NodeState.{
  NodeState, set_versioned_value, set_last_gc_version, remove_key_value_internal,
}
use scuttlebutt.Cluster.{node_state_or_new, update_node_state}
use scuttlebutt.FailureDetector.{FailureDetector, window_or_new}
use scuttlebutt.FailureDetector.Window.{Floats}
use scuttlebutt.Chitchat.{Chitchat}

-- The loop over the given key-values: each is no longer one of the previous keys.
unfoldable pub set_given :
    List (Str × VersionedValue) → Map Str (Unit {0}) → NodeState → Map Str (Unit {0}) × NodeState
set_given [] previous s = (previous, s)
set_given ((key, v) ∷ kvs) previous s =
    set_given kvs (Maps.remove key previous) (set_versioned_value key v s)

unfoldable pub remove_keys : List Str → NodeState → NodeState
remove_keys [] s = s
remove_keys (key ∷ ks) s = remove_keys ks (remove_key_value_internal key s)

unfoldable pub key_set : Map Str VersionedValue → Map Str (Unit {0})
key_set [] = []
key_set ((key, v) ∷ m) = (key, tt) ∷ key_set m

unfoldable pub reset_state : List (Str × VersionedValue) → ℕ → NodeState → NodeState
unfolding set_given remove_keys key_set
reset_state kvs last_gc_version s =
    let (previous, t) = set_given kvs (key_set s.key_values) s in
    set_last_gc_version last_gc_version (remove_keys (keys previous) t)

module _ (f : Floats) where
  unfoldable pub get_or_create_sampling_window : ChitchatId → FailureDetector f → FailureDetector f
  get_or_create_sampling_window id d = record d {
    node_samples =
        Maps.insert id (window_or_new f d.config (Maps.get id d.node_samples)) d.node_samples;
  }

  unfoldable pub reset_node_state :
      ChitchatId → List (Str × VersionedValue) → ℕ → ℕ → Chitchat f → Chitchat f
  unfolding reset_state get_or_create_sampling_window
  reset_node_state id kvs max_version last_gc_version c =
      let s = node_state_or_new id c.cluster_state in
      if leb max_version s.max_version
      then record c { cluster_state = update_node_state id (λ old. old) c.cluster_state }
      else record c {
        failure_detector = get_or_create_sampling_window id c.failure_detector;
        cluster_state = update_node_state id (reset_state kvs last_gc_version) c.cluster_state;
      }
