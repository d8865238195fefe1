-- ===== src/Replica/World.antt =====
-- The owner of a state and one replica of it, with the deltas between them, as a system that steps:
-- chitchat/src/state.rs. Deltas stay in flight for ever, so that one may arrive late, more than once,
-- out of order, or never. A delta that the replica takes is taken to its end: where a listener would
-- panic on an event, the event is in the replica's log.
use scuttlebutt.Prelude.{
  In, In-All, ℕ, ◌+◌, ◌≤◌, ◌<◌, ◌≡◌, sym, inl, inr, some, List, [], ◌∷◌, All, All-imp, list_ord,
  nat_ord, arith,
}
use mathlib.Core.Path.{subst}
use scuttlebutt.Prelude.Maps
use scuttlebutt.NodeState
use scuttlebutt.Ids.{Str, ChitchatId, id_ord}
use scuttlebutt.Types.{VersionedValue, KeyChangeEvent, u64_mod}
use scuttlebutt.NodeDelta.{NodeDelta}
use scuttlebutt.NodeState.{NodeState, new, get_versioned}
use scuttlebutt.NodeState.Gc.{gc_keys_marked_for_deletion}
use scuttlebutt.NodeState.Apply.{apply_delta}
use scuttlebutt.NodeState.Valid.{IsValid, new-IsValid, apply_delta-IsValid}
use scuttlebutt.Stream.{Compressor}
use scuttlebutt.Digest.{Digest}
use scuttlebutt.Delta.{Delta}
use scuttlebutt.Delta.Serializer.{mutation_of}
use scuttlebutt.Cluster.{ClusterState}
use scuttlebutt.Cluster.Stale.{StaleNode}
use scuttlebutt.Cluster.Partial.{from_version, compute_partial_delta_respecting_mtu}
use scuttlebutt.Cluster.Offered.{AddsNone, from_version-le}
use scuttlebutt.Replica.Merge.{Has}
use scuttlebutt.Replica.Deliver.{
  Faithful, IsSound, IsApplicable, apply_delta-Faithful, apply_delta-le,
}
use scuttlebutt.Replica.Owner.{
  IsOwner, Evolves, IsNext, new-IsOwner, set-IsNext, set_with_ttl-IsNext, delete-IsNext,
  delete_after_ttl-IsNext, gc-IsNext,
}
use scuttlebutt.Replica.Send.{sent}
use scuttlebutt.Replica.Sound.{sent-IsSound, renamed-IsSound, IsSound-Evolves}
use scuttlebutt.Replica.Partial.{IsSentBy, partial_delta-IsSentBy}

pub record World : Type 0 where
  pub owner : NodeState
  pub replica : NodeState
  pub in_flight : List NodeDelta

abbrev pub HasRoom : World → Type 0
HasRoom w = w.owner.max_version + 1 < u64_mod

-- The owner writes, collects garbage, or answers a digest (whose ever, and of whatever age) with a
-- partial delta of its cluster, of which one node delta is about itself; the replica takes a delta that is applicable, which leaves out an
-- increment that it would reset to; or the replica is forgotten and starts anew.
pub data Step : World → World → Type 0 where
  set :
      (w : World) (key value : Str) (t : NodeState)
      → HasRoom w
      → NodeState.set key value w.owner ≡ some t
      → Step w (record w { owner = t })
  set_with_ttl :
      (w : World) (now : ℕ) (key value : Str) (t : NodeState)
      → HasRoom w
      → NodeState.set_with_ttl now key value w.owner ≡ some t
      → Step w (record w { owner = t })
  delete :
      (w : World) (now : ℕ) (key : Str)
      → HasRoom w
      → Step w (record w { owner = NodeState.delete now key w.owner })
  delete_after_ttl :
      (w : World) (now : ℕ) (key : Str)
      → HasRoom w
      → Step w (record w { owner = NodeState.delete_after_ttl now key w.owner })
  collect :
      (w : World) (now grace : ℕ)
      → Step w (record w { owner = gc_keys_marked_for_deletion now grace w.owner })
  send :
      (w : World) (z : Compressor) (shuffle : List StaleNode → List StaleNode) (digest : Digest)
      (mtu : ℕ) (scheduled : List ChitchatId) (c : ClusterState) (partial : Delta) (d : NodeDelta)
      → AddsNone shuffle
      → Maps.IsSorted c.node_states
      → Maps.get d.chitchat_id c.node_states ≡ some w.owner
      → compute_partial_delta_respecting_mtu z shuffle digest mtu scheduled c ≡ some partial
      → In d partial.node_deltas
      → Step w (record w { in_flight = d ∷ w.in_flight })
  deliver :
      (w : World) (now : ℕ) (d : NodeDelta)
      → In d w.in_flight
      → IsApplicable d w.replica
      → Step w (record w { replica = apply_delta now d w.replica })
  forget :
      (w : World) (id : ChitchatId) (l : List KeyChangeEvent)
      → Step w (record w { replica = new id l })

pub data Reach (s : World) : World → Type 0 where
  here : Reach s s
  next : {t u : World} → Reach s t → Step t u → Reach s u

unfoldable pub start : ChitchatId → List KeyChangeEvent → List KeyChangeEvent → World
unfolding new
start id l m = record { owner = new id l; replica = new id m; in_flight = [] }

record Inv (w : World) : Type 0 where
  owner : IsOwner w.owner
  replica : IsValid w.replica
  behind : w.replica.max_version ≤ w.owner.max_version
  faithful : Faithful w.replica w.owner
  sound : All (λ (d : NodeDelta). IsSound d w.owner) w.in_flight

positive :
    (o : NodeState)
    → IsOwner o
    → (k : Str) (v : VersionedValue) → get_versioned k o ≡ some v
    → 0 < v.version
unfolding get_versioned
positive o h k v e =
    Maps.All-get (λ (e : Str × VersionedValue). 0 < e.1.version) k o.key_values h.positive e

Faithful-new :
    (id : ChitchatId) (l : List KeyChangeEvent) (o : NodeState) → IsOwner o → Faithful (new id l) o
unfolding new
Faithful-new id l o h k v e reached = absurd (omega (arith, positive o h k v e))

Faithful-Evolves :
    (r o t : NodeState) → r.max_version ≤ o.max_version → Evolves o t → Faithful r o → Faithful r t
Faithful-Evolves r o t behind ev f k v e reached = elim (ev.entries k v e) [
  | inl old ↦ f k v old reached
  | inr fresh ↦ absurd (omega arith)
]

owner-Inv : (w : World) (t : NodeState) → Inv w → IsNext w.owner t → Inv (record w { owner = t })
owner-Inv w t i n = record {
  owner = n.0;
  replica = i.replica;
  behind = omega (arith, i.behind, n.1.forward);
  faithful = Faithful-Evolves w.replica w.owner t i.behind n.1 i.faithful;
  sound =
      All-imp (λ (d : NodeDelta). IsSound d w.owner) (λ (d : NodeDelta). IsSound d t)
        (λ d s. IsSound-Evolves d w.owner t s n.1) w.in_flight i.sound;
}

-- A partial delta of a cluster is sound about the owner that the cluster holds.
partial-IsSound :
    (o : NodeState) (c : ClusterState) (digest : Digest) (scheduled : List ChitchatId)
    (d : NodeDelta)
    → IsOwner o
    → Maps.get d.chitchat_id c.node_states ≡ some o
    → IsSentBy c digest scheduled d
    → IsSound d o
partial-IsSound o c digest scheduled d owner stored s =
    let same_node : s.node ≡ o = ground (arith, s.stored, stored) in
    let from_owner =
      subst
        (λ n.
          from_version (Maps.get d.chitchat_id digest.node_digests) n
          ≡ some d.from_version_excluded)
        same_node s.from in
    let same_delta =
      subst
        (λ n.
          d
          ≡ record (sent d.from_version_excluded s.count s.room n) { chitchat_id = d.chitchat_id })
        same_node s.same in
    subst (λ e. IsSound e o) (sym same_delta)
      (renamed-IsSound d.chitchat_id (sent d.from_version_excluded s.count s.room o) o (
        sent-IsSound d.from_version_excluded s.count s.room o owner (
          from_version-le (Maps.get d.chitchat_id digest.node_digests) o d.from_version_excluded
            from_owner)))

Step-Inv : {w u : World} → Step w u → Inv w → Inv u
Step-Inv (set w key value t room e) i =
    owner-Inv w t i (set-IsNext w.owner i.owner key room value t e)
Step-Inv (set_with_ttl w now key value t room e) i =
    owner-Inv w t i (set_with_ttl-IsNext w.owner i.owner key room now value t e)
Step-Inv (delete w now key room) i = owner-Inv w _ i (delete-IsNext w.owner i.owner key room now)
Step-Inv (delete_after_ttl w now key room) i =
    owner-Inv w _ i (delete_after_ttl-IsNext w.owner i.owner key room now)
Step-Inv (collect w now grace) i = owner-Inv w _ i (gc-IsNext w.owner i.owner now grace)
Step-Inv (send w z shuffle digest mtu scheduled c partial d f sorted stored e member) i = record {
  owner = i.owner;
  replica = i.replica;
  behind = i.behind;
  faithful = i.faithful;
  sound = (
    partial-IsSound w.owner c digest scheduled d i.owner stored (
        In-All (IsSentBy c digest scheduled) d partial.node_deltas member
          (partial_delta-IsSentBy c digest scheduled z shuffle mtu partial f sorted e)),
    i.sound,
  );
}
Step-Inv (deliver w now d flying applicable) i =
    let sound = In-All (λ (d : NodeDelta). IsSound d w.owner) d w.in_flight flying i.sound in
    record {
      owner = i.owner;
      replica = apply_delta-IsValid now d w.replica i.replica;
      behind = ground (arith, apply_delta-le now d w.owner sound w.replica, sound.below, i.behind);
      faithful =
          apply_delta-Faithful now d w.owner sound w.replica i.replica (positive w.owner i.owner)
            applicable i.faithful;
      sound = i.sound;
    }
Step-Inv (forget w id l) i = record {
  owner = i.owner;
  replica = new-IsValid id l;
  behind = unfold new in omega arith;
  faithful = Faithful-new id l w.owner i.owner;
  sound = i.sound;
}

start-Inv : (id : ChitchatId) (l m : List KeyChangeEvent) → Inv (start id l m)
unfolding start
start-Inv id l m = record {
  owner = new-IsOwner id l;
  replica = new-IsValid id m;
  behind = omega arith;
  faithful = Faithful-new id m (new id l) (new-IsOwner id l);
  sound = tt;
}

Reach-Inv : {s w : World} → Inv s → Reach s w → Inv w
Reach-Inv i here = i
Reach-Inv i (next r step) = Step-Inv step (Reach-Inv i r)

-- However the owner writes, with a version left for each write, and collects garbage, and whichever of
-- the deltas that it sends reach the replica, when and how often, as long as they are applicable where
-- they arrive, the replica has each entry of the owner up to its own `max_version`, with its value, its
-- version and its status, except for one marked for deletion that the replica's `last_gc_version` covers.
pub Reach-Has :
    (id : ChitchatId) (l m : List KeyChangeEvent) (w : World) (k : Str) (v : VersionedValue)
    → Reach (start id l m) w
    → get_versioned k w.owner ≡ some v
    → v.version ≤ w.replica.max_version
    → Has (mutation_of k v) w.replica
Reach-Has id l m w k v r e reached = (Reach-Inv (start-Inv id l m) r).faithful k v e reached
