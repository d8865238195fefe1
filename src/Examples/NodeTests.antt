-- ===== src/Examples/NodeTests.antt =====
-- The theorems on one node at concrete states: chitchat/src/state.rs.
use scuttlebutt.Prelude.{◌≡◌, ◌≤◌, refl, none, some, arith, list_ord, nat_ord}
use scuttlebutt.Prelude.Maps
use scuttlebutt.Types.{DeletionStatus}
use scuttlebutt.NodeState.{set, set_with_ttl, delete, delete_after_ttl, get, get_versioned}
use scuttlebutt.NodeState.Gc.{retain, gc_keys_marked_for_deletion}
use scuttlebutt.NodeState.Apply.{apply_delta}
use scuttlebutt.NodeState.Valid.{IsValid}
use scuttlebutt.NodeState.Collect.{get_versioned-gc, gc_covers}
use scuttlebutt.NodeState.Reads.{Reads, get-set, get-set_with_ttl, get-delete, get-delete_after_ttl}
use scuttlebutt.NodeState.Progress.{LexLe, apply_delta_progress, apply_delta_idempotent}
use scuttlebutt.Examples.{key_k, key_l, value_v, entry, state_k, state_kl, increment}

state_k-IsValid : IsValid state_k
state_k-IsValid = record { sorted = (tt, tt); bounded = (omega arith, tt) }

state_kl-IsValid : IsValid state_kl
unfolding list_ord nat_ord
state_kl-IsValid = record {
  sorted = ((refl, tt), (tt, tt));
  bounded = (omega arith, (omega arith, tt));
}

apply_delta_progress_example :
    LexLe 0 4
      (apply_delta 20 increment state_k).last_gc_version
      (apply_delta 20 increment state_k).max_version
apply_delta_progress_example = apply_delta_progress 20 increment state_k

apply_delta_idempotent_example :
    apply_delta 30 increment (apply_delta 20 increment state_k) ≡ apply_delta 20 increment state_k
apply_delta_idempotent_example = apply_delta_idempotent 20 30 increment state_k

get-set_example : Reads key_l value_v state_k (set key_l value_v state_k)
get-set_example = get-set key_l value_v state_k state_k-IsValid (omega arith) refl

get-set_with_ttl_example : Reads key_l value_v state_k (set_with_ttl 20 key_l value_v state_k)
get-set_with_ttl_example =
    get-set_with_ttl 20 key_l value_v state_k state_k-IsValid (omega arith) refl

get-delete_example : get key_k (delete 20 key_k state_k) ≡ none
unfolding list_ord nat_ord
get-delete_example = get-delete 20 key_k key_k state_k

-- The tombstone of `key_l` reads as its value again.
get-delete_after_ttl_example : get key_l (delete_after_ttl 20 key_l state_kl) ≡ some value_v
unfolding get_versioned Maps.get list_ord nat_ord
get-delete_after_ttl_example = get-delete_after_ttl 20 key_l key_l state_kl

get_versioned-gc_example : get_versioned key_l (gc_keys_marked_for_deletion 100 50 state_kl) ≡ none
unfolding get_versioned Maps.get list_ord nat_ord
get_versioned-gc_example = get_versioned-gc 100 50 state_kl state_kl-IsValid.sorted key_l

gc_covers_example :
    (6 ≤ (gc_keys_marked_for_deletion 100 50 state_kl).last_gc_version)
    × (4 ≤ (gc_keys_marked_for_deletion 100 50 state_kl).last_gc_version)
unfolding get_versioned gc_keys_marked_for_deletion retain Maps.get list_ord nat_ord
gc_covers_example =
    gc_covers 100 50 state_kl state_kl-IsValid.sorted key_l (entry 6 (DeletionStatus.deleted 10))
      refl refl
