-- ===== src/Replica/Sound.antt =====
-- What a delta that the owner sends holds of the owner's state, then and later: chitchat/src/state.rs.
use scuttlebutt.Prelude.{
  In, ℕ, zero, suc, ◌≤◌, ◌<◌, ◌≡◌, ◌⊎◌, refl, ap, inl, inr, Bool, true, Bool-cases, none, some,
  List, [], ◌∷◌, All, All-imp, keep, take, same, same→eq, ltb, lt→ltb, if◌then◌else◌, list_ord,
  nat_ord, arith,
}
use scuttlebutt.Prelude.Maps
use scuttlebutt.Prelude.Maps.{Map}
use scuttlebutt.Ids.{Str, ChitchatId}
use scuttlebutt.Types.{VersionedValue, KeyValueMutation}
use scuttlebutt.NodeDelta.{NodeDelta}
use scuttlebutt.NodeState.{NodeState, get_versioned}
use scuttlebutt.NodeState.Read
use scuttlebutt.NodeState.Apply.{max_from, or_max_version}
use scuttlebutt.Delta.Serializer.{mutation_of}
use scuttlebutt.Cluster.Stale.{insert_by_version, sort_by_version, stale_key_values}
use scuttlebutt.Cluster.Partial.{is_empty}
use scuttlebutt.Replica.Merge.{IsOlder, Climbing}
use scuttlebutt.Replica.Deliver.{IsSound, top_from}
use scuttlebutt.Replica.Owner.{IsOwner, Evolves}
use scuttlebutt.Replica.Send.{
  mutations, stale, sent, Rising, stale-Rising, mutations-Climbing, take-Climbing, All-take,
  All-mutations, All-stale,
}

-- The version of the last mutation, or `b`.
abbrev last_of : ℕ → List KeyValueMutation → ℕ
last_of b [] = b
last_of b (kv ∷ kvs) = last_of kv.version kvs

max_from-last_of :
    (b : ℕ) (kvs : List KeyValueMutation) → Climbing b kvs → max_from b kvs ≡ last_of b kvs
max_from-last_of b [] c = refl
max_from-last_of b (kv ∷ kvs) c = ground (arith, max_from-last_of kv.version kvs c.1)

In-above :
    (b : ℕ) (g : KeyValueMutation) (kvs : List KeyValueMutation)
    → Climbing b kvs
    → In g kvs
    → b < g.version
In-above b g [] c i = absurd i
In-above b g (kv ∷ kvs) c (inl here) = ground arith
In-above b g (kv ∷ kvs) c (inr later) = omega (arith, In-above kv.version g kvs c.1 later)

-- The front of a list of mutations has all of them up to its last version.
In-take :
    (n b : ℕ) (g : KeyValueMutation) (kvs : List KeyValueMutation)
    → Climbing b kvs
    → In g kvs
    → g.version ≤ last_of b (take n kvs)
    → In g (take n kvs)
In-take zero b g kvs c i h = absurd (omega (arith, In-above b g kvs c i))
In-take (suc n) b g [] c i h = i
In-take (suc n) b g (kv ∷ kvs) c (inl here) h = inl here
In-take (suc n) b g (kv ∷ kvs) c (inr later) h = inr (In-take n kv.version g kvs c.1 later h)

In-insert_by_version :
    (e f : Str × VersionedValue) (m : Map Str VersionedValue)
    → (e ≡ f) ⊎ In e m
    → In e (insert_by_version f m)
unfolding insert_by_version
In-insert_by_version e f [] i = i
In-insert_by_version e f (g ∷ m) i = ground (arith, In-insert_by_version e f m)

In-sort_by_version :
    (e : Str × VersionedValue) (m : Map Str VersionedValue) → In e m → In e (sort_by_version m)
unfolding sort_by_version
In-sort_by_version e [] i = i
In-sort_by_version e (f ∷ m) (inl here) = In-insert_by_version e f (sort_by_version m) (inl here)
In-sort_by_version e (f ∷ m) (inr later) =
    In-insert_by_version e f (sort_by_version m) (inr (In-sort_by_version e m later))

In-keep :
    (p : Str × VersionedValue → Bool) (e : Str × VersionedValue) (m : Map Str VersionedValue)
    → p e ≡ true
    → In e m
    → In e (keep p m)
In-keep p e [] h i = i
In-keep p e (f ∷ m) h (inl here) = ground (arith, ap p here)
In-keep p e (f ∷ m) h (inr later) = ground (arith, In-keep p e m h later)

In-get :
    (k : Str) (v : VersionedValue) (m : Map Str VersionedValue)
    → Maps.get k m ≡ some v
    → In (k, v) m
unfolding Maps.get
In-get k v [] h = cc
In-get k v ((j, w) ∷ m) h = elim (Bool-cases (same k j)) [
  | inl hit ↦ inl (cc (same→eq k j hit, rw (hit, Maps.get) at h))
  | inr miss ↦ inr (In-get k v m (rw (miss, Maps.get) at h))
]

In-mutations :
    (k : Str) (v : VersionedValue) (m : Map Str VersionedValue)
    → In (k, v) m
    → In (mutation_of k v) (mutations m)
In-mutations k v [] i = i
In-mutations k v ((j, w) ∷ m) (inl here) =
    inl (ap (λ (e : Str × VersionedValue). mutation_of e.0 e.1) here)
In-mutations k v ((j, w) ∷ m) (inr later) = inr (In-mutations k v m later)

top_from-last_of :
    (from : ℕ) (kvs : List KeyValueMutation)
    → Climbing from kvs
    → top_from from (or_max_version none kvs) ≡ last_of from kvs
top_from-last_of from [] c = refl
top_from-last_of from (kv ∷ kvs) c = max_from-last_of kv.version kvs c.1

last_of-le :
    (b n : ℕ) (kvs : List KeyValueMutation)
    → b ≤ n
    → All (λ (kv : KeyValueMutation). kv.version ≤ n) kvs
    → last_of b kvs ≤ n
last_of-le b n [] h a = h
last_of-le b n (kv ∷ kvs) h a = last_of-le kv.version n kvs a.0 a.1

take-nil : (n : ℕ) → take {A = KeyValueMutation} n [] ≡ []
take-nil zero = refl
take-nil (suc n) = refl

module _ (from n m : ℕ) (room : Bool) where
  -- Up to the version that it leads to, a front has all mutations.
  front_full :
      (entries : Map Str VersionedValue) (g : KeyValueMutation)
      → Rising from entries
      → In g (mutations entries)
      → g.version
        ≤ top_from from (
            or_max_version
              (if is_empty entries then (if room then some m else none) else none)
              (take n (mutations entries)))
      → In g (take n (mutations entries))
  front_full [] g r i h = absurd i
  front_full (e ∷ es) g r i h =
      let climbing = mutations-Climbing from (e ∷ es) r in
      In-take n from g (mutations (e ∷ es)) climbing i (
        omega (
          arith,
          top_from-last_of from (take n (mutations (e ∷ es)))
              (take-Climbing n from (mutations (e ∷ es)) climbing),
        ))

  front_below :
      (entries : Map Str VersionedValue)
      → Rising from entries
      → from ≤ m
      → All (λ (kv : KeyValueMutation). kv.version ≤ m) (take n (mutations entries))
      → top_from from (
          or_max_version
            (if is_empty entries then (if room then some m else none) else none)
            (take n (mutations entries)))
        ≤ m
  front_below [] r low a = rw take-nil (ground arith)
  front_below (e ∷ es) r low a =
      let climbing = mutations-Climbing from (e ∷ es) r in
      omega (
        arith,
        top_from-last_of from (take n (mutations (e ∷ es)))
            (take-Climbing n from (mutations (e ∷ es)) climbing),
        last_of-le from m (take n (mutations (e ∷ es))) low a,
      )

entry-IsOlder :
    (k j : Str) (v w : VersionedValue) (o : NodeState)
    → get_versioned k o ≡ some v
    → get_versioned j o ≡ some w
    → IsOlder (mutation_of k v) (mutation_of j w)
entry-IsOlder k j v w o e f = elim (Bool-cases (same k j)) [
  | inl hit ↦ inr (inl (cc (same→eq k j hit, e, f)))
  | inr miss ↦ inl miss
]

-- A delta that the owner sends is sound, whatever digest it answers and however much room it has.
pub sent-IsSound :
    (from n : ℕ) (room : Bool) (o : NodeState)
    → IsOwner o
    → from ≤ o.max_version
    → IsSound (sent from n room o) o
unfolding sent get_versioned
sent-IsSound from n room o h low =
    let rising = stale-Rising from o h.unique in
    let kvs = mutations (stale from o) in
    let own = Maps.get-All o.key_values h.valid.sorted in
    let small : All (λ (kv : KeyValueMutation). kv.version ≤ o.max_version) (take n kvs) =
      All-take (λ (kv : KeyValueMutation). kv.version ≤ o.max_version) n kvs
        (All-mutations (λ (kv : KeyValueMutation). kv.version ≤ o.max_version) (stale from o)
          (All-stale (λ (e : Str × VersionedValue). e.1.version ≤ o.max_version) from o
            h.valid.bounded)) in
    record {
      climbing = take-Climbing n from kvs (mutations-Climbing from (stale from o) rising);
      older = λ k v e. All-take (IsOlder (mutation_of k v)) n kvs (
          All-mutations (IsOlder (mutation_of k v)) (stale from o) (
            All-stale
              (λ (f : Str × VersionedValue). IsOlder (mutation_of k v) (mutation_of f.0 f.1)) from o
              (All-imp (λ (f : Str × VersionedValue). Maps.get f.0 o.key_values ≡ some f.1)
                (λ (f : Str × VersionedValue). IsOlder (mutation_of k v) (mutation_of f.0 f.1))
                (λ f g. entry-IsOlder k f.0 v f.1 o e g) o.key_values own)));
      full = λ k v e above reached.
          front_full from n o.max_version room (stale from o) (mutation_of k v) rising
            (In-mutations k v (stale from o) (
              unfold stale_key_values Read.stale_key_values in
              In-sort_by_version (k, v) _
                (In-keep (λ f. ltb from f.1.version) (k, v) o.key_values
                  (lt→ltb from v.version above) (In-get k v o.key_values e))))
            reached;
      capped = small;
      below = front_below from n o.max_version room (stale from o) rising low small;
    }

-- It stays sound while the owner's state evolves.
pub IsSound-Evolves : (d : NodeDelta) (o t : NodeState) → IsSound d o → Evolves o t → IsSound d t
IsSound-Evolves d o t s ev = record {
  climbing = s.climbing;
  older = λ k v e. elim (ev.entries k v e) [
    | inl old ↦ s.older k v old
    | inr fresh ↦
        All-imp (λ (kv : KeyValueMutation). kv.version ≤ o.max_version) (IsOlder (mutation_of k v))
          (λ kv cap. inr (inr (omega arith))) d.key_values s.capped
  ];
  full = λ k v e above reached. elim (ev.entries k v e) [
    | inl old ↦ s.full k v old above reached
    | inr fresh ↦ absurd (omega (arith, s.below))
  ];
  capped =
      All-imp (λ (kv : KeyValueMutation). kv.version ≤ o.max_version)
        (λ (kv : KeyValueMutation). kv.version ≤ t.max_version)
        (λ kv cap. omega (arith, ev.forward)) d.key_values s.capped;
  below = omega (arith, s.below, ev.forward);
}

-- Under which identifier a delta is sent does not matter.
pub renamed-IsSound :
    (id : ChitchatId) (d : NodeDelta) (o : NodeState)
    → IsSound d o
    → IsSound (record d { chitchat_id = id }) o
renamed-IsSound id d o s = record {
  climbing = s.climbing;
  older = s.older;
  full = s.full;
  capped = s.capped;
  below = s.below;
}
