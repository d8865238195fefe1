-- ===== src/Replica/Send.antt =====
-- The deltas that the owner of a state sends: the stale key-values of
-- `compute_partial_delta_respecting_mtu` in chitchat/src/state.rs, as many as there is room for.
use scuttlebutt.Prelude.{
  ℕ, zero, suc, ◌<◌, ◌≢◌, Bool, none, some, List, [], ◌∷◌, All, All-keep, keep, take, ltb,
  if◌then◌else◌, list_ord, nat_ord, arith,
}
use scuttlebutt.Prelude.Maps.{Map}
use scuttlebutt.Ids.{Str}
use scuttlebutt.Types.{VersionedValue, KeyValueMutation}
use scuttlebutt.NodeDelta.{NodeDelta}
use scuttlebutt.NodeState.{NodeState}
use scuttlebutt.NodeState.Read
use scuttlebutt.Delta.Serializer.{mutation_of}
use scuttlebutt.Cluster.Stale.{insert_by_version, sort_by_version, stale_key_values}
use scuttlebutt.Cluster.Partial.{is_empty}
use scuttlebutt.Replica.Merge.{Climbing}
use scuttlebutt.Replica.Owner.{NoRepeat, keep-NoRepeat}

abbrev pub mutations : Map Str VersionedValue → List KeyValueMutation
mutations [] = []
mutations ((k, v) ∷ m) = mutation_of k v ∷ mutations m

abbrev pub stale : ℕ → NodeState → Map Str VersionedValue
stale from o =
    stale_key_values
      (record { chitchat_id = o.chitchat_id; node = o; from_version_excluded = from })

-- The first `n` stale key-values, in the order of their versions. Where there is none, the
-- `max_version` is announced if there is room for it.
unfoldable pub sent : ℕ → ℕ → Bool → NodeState → NodeDelta
sent from n room o = record {
  chitchat_id = o.chitchat_id;
  from_version_excluded = from;
  last_gc_version = o.last_gc_version;
  key_values = take n (mutations (stale from o));
  max_version =
      if is_empty (stale from o) then (if room then some o.max_version else none) else none;
}

-- Versions grow, from above `b`.
abbrev pub Rising : ℕ → Map Str VersionedValue → Type 0
Rising b [] = Unit
Rising b (e ∷ m) = (b < e.1.version) × Rising e.1.version m

module _ {κ} (P : Str × VersionedValue → Type κ) where
  All-insert_by_version :
      (e : Str × VersionedValue) (m : Map Str VersionedValue)
      → P e
      → All P m
      → All P (insert_by_version e m)
  unfolding insert_by_version
  All-insert_by_version e [] p a = (p, tt)
  All-insert_by_version e (f ∷ m) p a = ground (arith, All-insert_by_version e m p a.1)

  All-sort_by_version : (m : Map Str VersionedValue) → All P m → All P (sort_by_version m)
  unfolding sort_by_version
  All-sort_by_version [] a = tt
  All-sort_by_version (e ∷ m) a =
      All-insert_by_version e (sort_by_version m) a.0 (All-sort_by_version m a.1)

  -- What holds of each entry holds of each stale one.
  pub All-stale : (from : ℕ) (o : NodeState) → All P o.key_values → All P (stale from o)
  unfolding stale_key_values Read.stale_key_values
  All-stale from o a = All-sort_by_version _ (All-keep P (λ e. ltb from e.1.version) o.key_values a)

insert-Rising :
    (e : Str × VersionedValue) (b : ℕ) (m : Map Str VersionedValue)
    → All (λ (f : Str × VersionedValue). f.1.version ≢ e.1.version) m
    → b < e.1.version
    → Rising b m
    → Rising b (insert_by_version e m)
unfolding insert_by_version
insert-Rising e b [] other h r = (h, tt)
insert-Rising e b (f ∷ m) other h r = ground (arith, insert-Rising e f.1.version m other.1, other.0)

sort-Rising :
    (b : ℕ) (m : Map Str VersionedValue)
    → NoRepeat m
    → All (λ (e : Str × VersionedValue). b < e.1.version) m
    → Rising b (sort_by_version m)
unfolding sort_by_version
sort-Rising b [] u a = tt
sort-Rising b (e ∷ m) u a =
    insert-Rising e b (sort_by_version m)
      (All-sort_by_version (λ (f : Str × VersionedValue). f.1.version ≢ e.1.version) m u.0) a.0
      (sort-Rising b m u.1 a.1)

keep-above :
    (b : ℕ) (m : Map Str VersionedValue)
    → All (λ (e : Str × VersionedValue). b < e.1.version) (keep (λ e. ltb b e.1.version) m)
keep-above b [] = tt
keep-above b (e ∷ m) = ground (arith, keep-above b m)

pub stale-Rising : (from : ℕ) (o : NodeState) → NoRepeat o.key_values → Rising from (stale from o)
unfolding stale_key_values Read.stale_key_values
stale-Rising from o h =
    sort-Rising from _ (keep-NoRepeat (λ e. ltb from e.1.version) o.key_values h)
      (keep-above from o.key_values)

pub mutations-Climbing :
    (b : ℕ) (m : Map Str VersionedValue) → Rising b m → Climbing b (mutations m)
mutations-Climbing b [] r = tt
mutations-Climbing b ((k, v) ∷ m) r = (r.0, mutations-Climbing v.version m r.1)

pub take-Climbing :
    (n b : ℕ) (kvs : List KeyValueMutation) → Climbing b kvs → Climbing b (take n kvs)
take-Climbing zero b kvs c = tt
take-Climbing (suc n) b [] c = tt
take-Climbing (suc n) b (kv ∷ kvs) c = (c.0, take-Climbing n kv.version kvs c.1)

module _ {κ} {A : Type 0} (P : A → Type κ) where
  pub All-take : (n : ℕ) (xs : List A) → All P xs → All P (take n xs)
  All-take zero xs a = tt
  All-take (suc n) [] a = tt
  All-take (suc n) (x ∷ xs) a = (a.0, All-take n xs a.1)

pub All-mutations :
    (P : KeyValueMutation → Type 0) (m : Map Str VersionedValue)
    → All (λ (e : Str × VersionedValue). P (mutation_of e.0 e.1)) m
    → All P (mutations m)
All-mutations P [] a = tt
All-mutations P ((k, v) ∷ m) a = (a.0, All-mutations P m a.1)
