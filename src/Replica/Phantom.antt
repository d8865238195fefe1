-- ===== src/Replica/Phantom.antt =====
-- What a delta that is late does to a replica that has been reset: `prepare_apply_delta` and
-- `apply_delta` of chitchat/src/state.rs.
use scuttlebutt.Prelude.{
  ℕ, zero, suc, ◌≤◌, ◌<◌, ◌≡◌, refl, ◌∙◌, Bool, true, false, Bool-cases, none, some, inl, inr, [],
  ◌∷◌, All, same, same_refl, take, list_ord, nat_ord, arith,
}
use scuttlebutt.Prelude.Maps
use scuttlebutt.Prelude.Maps.{Map}
use scuttlebutt.Ids.{Str}
use scuttlebutt.Types.{
  VersionedValue, KeyValueMutation, DeletionStatusMutation, into_status, scheduled_for_deletion,
}
use scuttlebutt.NodeDelta.{NodeDelta}
use scuttlebutt.NodeState.{NodeState, live_value, get, get_versioned, set_versioned_value, store}
use scuttlebutt.NodeState.Apply.{
  prepare_apply_delta, apply_mutation, apply_mutations, apply_delta, versioned,
}
use scuttlebutt.NodeState.Valid.{IsValid}
use scuttlebutt.NodeState.Reads.{get-set_versioned_value}
use scuttlebutt.NodeState.Reset.{Lacks, get_versioned-apply_mutations}
use scuttlebutt.Cluster.{node_digest}
use scuttlebutt.Cluster.Partial.{from_version, is_empty}
use scuttlebutt.Replica.Send.{stale, sent, mutations, All-stale, All-mutations, All-take}

absent-Lacks :
    (key : Str) (m : Map Str VersionedValue)
    → Maps.get key m ≡ none
    → All (λ (e : Str × VersionedValue). same key e.0 ≡ false) m
unfolding Maps.get
absent-Lacks key [] h = tt
absent-Lacks key ((k, v) ∷ m) h = elim (Bool-cases (same key k)) [
  | inl hit ↦ cc (hit, h)
  | inr miss ↦ (miss, absent-Lacks key m (rw (miss, Maps.get) at h))
]

-- A key that the owner lacks is in no delta that it sends.
sent-Lacks :
    (key : Str) (from n : ℕ) (room : Bool) (o : NodeState)
    → get_versioned key o ≡ none
    → Lacks key (sent from n room o).key_values
unfolding sent get_versioned
sent-Lacks key from n room o h =
    All-take (λ (kv : KeyValueMutation). same key kv.key ≡ false) n (mutations (stale from o))
      (All-mutations (λ (kv : KeyValueMutation). same key kv.key ≡ false) (stale from o)
        (All-stale (λ (e : Str × VersionedValue). same key e.0 ≡ false) from o
          (absent-Lacks key o.key_values h)))

-- A late delta with one mutation that its sender has deleted and collected since.
module _ (now : ℕ) (kv : KeyValueMutation) (d : NodeDelta) (r : NodeState)
    (single : d.key_values ≡ kv ∷ []) (alive : scheduled_for_deletion kv.status ≡ false)
    (low : d.from_version_excluded ≤ r.max_version) (ahead : r.max_version < kv.version)
    (old : d.last_gc_version < r.max_version) where
  late_lem : apply_delta now d r ≡ set_versioned_value kv.key (versioned now kv) r
  unfolding apply_delta prepare_apply_delta apply_mutations apply_mutation
  late_lem = ground (arith, single, alive)

  late-get : IsValid r → get kv.key (apply_delta now d r) ≡ some kv.value
  late-get valid =
      rw
        (
          late_lem,
          get-set_versioned_value kv.key kv.key (versioned now kv) r valid ahead,
          same_refl,
        )
        (alive_value kv.status alive)
    where
      alive_value :
          (m : DeletionStatusMutation)
          → scheduled_for_deletion m ≡ false
          → live_value
              (some (record { value = kv.value; version = kv.version; status = into_status m now }))
            ≡ some kv.value
      alive_value DeletionStatusMutation.set h = refl
      alive_value DeletionStatusMutation.delete h = cc
      alive_value DeletionStatusMutation.delete_after_ttl h = cc

  late_versions :
      ((apply_delta now d r).max_version ≡ kv.version)
      × ((apply_delta now d r).last_gc_version ≡ r.last_gc_version)
  late_versions = rw late_lem (unfold set_versioned_value store in ground arith)

-- A delta that names the key nowhere, and whose garbage collection the state has seen, keeps it.
kept_by :
    (now : ℕ) (key : Str) (d : NodeDelta) (s : NodeState)
    → Lacks key d.key_values
    → d.last_gc_version ≤ s.last_gc_version
    → get key (apply_delta now d s) ≡ get key s
unfolding apply_delta prepare_apply_delta get
kept_by now key d s lacks seen =
    ground (arith, get_versioned-apply_mutations now s.max_version key d.key_values s lacks)

-- Where a reset has left a valid replica below its `last_gc_version`, which is the owner's, a late
-- increment from before that garbage collection brings back a key that the owner has deleted and
-- collected; the replica's next digest asks the owner to go on from there, and whatever front of its
-- stale key-values the owner then sends leaves the key as it is.
pub late_delta_resurrects :
    (now now' n : ℕ) (room : Bool) (kv : KeyValueMutation) (d : NodeDelta) (r o : NodeState)
    → IsValid r
    → d.key_values ≡ kv ∷ []
    → scheduled_for_deletion kv.status ≡ false
    → d.from_version_excluded ≤ r.max_version
    → r.max_version < kv.version
    → kv.version ≤ r.last_gc_version
    → d.last_gc_version < r.max_version
    → o.last_gc_version ≡ r.last_gc_version
    → kv.version < o.max_version
    → get_versioned kv.key o ≡ none
    → (get kv.key (apply_delta now d r) ≡ some kv.value)
      × (from_version (some (node_digest (apply_delta now d r))) o ≡ some kv.version)
      × (get kv.key (apply_delta now' (sent kv.version n room o) (apply_delta now d r))
          ≡ some kv.value)
late_delta_resurrects now now' n room kv d r o valid single alive low ahead covered old gc behind
      gone =
    let t = apply_delta now d r in
    let back = late-get now kv d r single alive low ahead old valid in
    let versions = late_versions now kv d r single alive low ahead old in
    (
      back,
      unfold from_version node_digest in ground (arith, versions.0, versions.1),
      kept_by now' kv.key (sent kv.version n room o) t (sent-Lacks kv.key kv.version n room o gone)
            (unfold sent in omega (arith, versions.1, gc))
          ∙ back,
    )

-- Where nothing that the owner holds is stale for a replica that is behind it and has seen its garbage
-- collection, the delta that the owner sends, which announces its `max_version` where there is room,
-- changes nothing, and the replica stays behind.
pub announced_ignored :
    (now n : ℕ) (room : Bool) (r o : NodeState) (from : ℕ)
    → is_empty (stale from o) ≡ true
    → o.last_gc_version ≤ r.last_gc_version
    → from_version (some (node_digest r)) o ≡ some from
    → (apply_delta now (sent from n room o) r ≡ r) × (r.max_version < o.max_version)
unfolding apply_delta prepare_apply_delta apply_mutations sent from_version node_digest
announced_ignored now n room r o from bare seen e =
    (ground (arith, none_sent n (stale from o) bare), ground arith)
  where
    none_sent : (n : ℕ) (m : Map Str VersionedValue) → is_empty m ≡ true → take n (mutations m) ≡ []
    none_sent zero m h = refl
    none_sent (suc n) [] h = refl
    none_sent (suc n) (e ∷ m) h = cc
