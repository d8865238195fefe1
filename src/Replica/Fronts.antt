-- ===== src/Replica/Fronts.antt =====
-- A partial delta is made of fronts of the stale nodes, in the order in which they are gossiped:
-- `compute_partial_delta_respecting_mtu` of chitchat/src/state.rs.
use scuttlebutt.Prelude.{
  ℕ, zero, suc, ◌≡◌, ◌≢◌, ◌⊎◌, refl, sym, ap, ◌∙◌, Bool, true, false, Bool-cases, Option, none,
  some, Option-cases, inl, inr, List, [], ◌∷◌, ◌++◌, take, length, if◌then◌else◌, arith,
}
use mathlib.Core.List.{append_assoc, append-nil}
use mathlib.Core.Path.{subst}
use scuttlebutt.Ids.{Str, ChitchatId}
use scuttlebutt.Types.{VersionedValue}
use scuttlebutt.NodeDelta.{NodeDelta}
use scuttlebutt.Stream.{Compressor}
use scuttlebutt.Digest.{Digest}
use scuttlebutt.Delta
use scuttlebutt.Delta.{Delta, DeltaOp, DeltaBuilder, apply_op, flush, new_builder}
use scuttlebutt.Delta.Serializer
use scuttlebutt.Delta.Serializer.{
  DeltaSerializer, mutation_of, with_mtu, try_add_kv, try_add_node, try_set_max_version, try_add_op,
}
use scuttlebutt.Delta.Serializer.Taken.{try_add_op-taken, try_add_op-refused, outcomes}
use scuttlebutt.Cluster.{ClusterState}
use scuttlebutt.Cluster.Stale.{StaleNode, stale_key_values, into_iter}
use scuttlebutt.Cluster.Partial.{
  offer_all, add_contents, add_nodes, is_empty, compute_partial_delta_respecting_mtu,
}
use scuttlebutt.Replica.Full.{IsFull, refused-IsFull, full-stops}
use scuttlebutt.Replica.Send.{mutations, sent}
use scuttlebutt.Replica.Fill.{
  IsAt, IsFilled, opened, complete, complete-IsAt, apply_node-IsAt, apply_max_version-IsAt,
  add_key_values-IsFilled,
}

-- What is sent of a stale node.
abbrev pub front : ℕ → Bool → StaleNode → NodeDelta
front count room n = record (sent n.from_version_excluded count room n.node) {
  chitchat_id = n.chitchat_id;
}

pub record IsFront (n : StaleNode) (d : NodeDelta) : Type 0 where
  pub count : ℕ
  pub room : Bool
  pub same : d ≡ front count room n

-- What is announced of a stale node, given room: its `max_version`, if there is no stale key-value.
abbrev pub announced : StaleNode → Option ℕ
announced n = if is_empty (stale_key_values n) then some n.node.max_version else none

-- All of the stale node is in the node delta.
abbrev pub IsWhole : StaleNode → NodeDelta → Type 0
IsWhole n d = (d.key_values ≡ mutations (stale_key_values n)) × (d.max_version ≡ announced n)

-- Each node delta is a front of the stale node at its place, and the whole of it unless it is the last
-- one.
abbrev pub Fills : List StaleNode → List NodeDelta → Type 0
Fills ns [] = Unit
Fills [] (d ∷ ds) = ⊥
Fills (n ∷ ns) (d ∷ ds) = IsFront n d × ((ds ≡ []) ⊎ IsWhole n d) × Fills ns ds

-- The builder works on a front of the stale node, the whole of it if the flag says so.
record IsBegun (ds : List NodeDelta) (n : StaleNode) (all : Bool) (b : DeltaBuilder) : Type 0 where
  d : NodeDelta
  front : IsFront n d
  at : IsAt ds d b
  whole : (all ≡ false) ⊎ (d.key_values ≡ mutations (stale_key_values n))

filled-IsBegun :
    (n : StaleNode) (ds : List NodeDelta) (all : Bool) (b : DeltaBuilder)
    → is_empty (stale_key_values n) ≡ false
    → IsFilled (mutations (stale_key_values n)) ds (opened n) all b
    → (begun : IsBegun ds n all b) × (begun.d.max_version ≡ announced n)
unfolding stale_key_values sent
filled-IsBegun n ds all b some_kvs f = (
  record {
    d = record (opened n) { key_values = take f.count (mutations (stale_key_values n)) };
    front = record { count = f.count; room = false; same = ground (arith, some_kvs) };
    at = f.at;
    whole = f.whole;
  },
  ground (arith, some_kvs),
)

bare-IsBegun :
    (n : StaleNode) (ds : List NodeDelta) (all room : Bool) (b : DeltaBuilder)
    → is_empty (stale_key_values n) ≡ true
    → IsAt ds (record (opened n) { max_version = if room then some n.node.max_version else none }) b
    → IsBegun ds n all b
unfolding stale_key_values sent
bare-IsBegun n ds all room b bare h = record {
  d = record (opened n) { max_version = if room then some n.node.max_version else none };
  front = record { count = 0; room = room; same = ground (arith, bare) };
  at = h;
  whole = inr (nothing (stale_key_values n) bare);
}
  where
    nothing :
        (m : scuttlebutt.Prelude.Maps.Map Str VersionedValue) → is_empty m ≡ true → [] ≡ mutations m
    nothing [] e = refl
    nothing (x ∷ m) e = cc

module _ (z : Compressor) where
  -- The contents of a node in the delta, which announce what they can.
  record IsTold (ds : List NodeDelta) (n : StaleNode) (all : Bool) (t : DeltaSerializer)
      : Type 0 where
    begun : IsBegun ds n all t.delta_builder
    told : (begun.d.max_version ≡ announced n) ⊎ IsFull z t

  add_contents-IsTold :
      (n : StaleNode) (s t : DeltaSerializer) (all : Bool) (ds : List NodeDelta)
      → IsAt ds (opened n) s.delta_builder
      → add_contents z n s ≡ some (t, all)
      → IsTold ds n all t
  unfolding add_contents
  add_contents-IsTold n s t all ds h e =
      let op = DeltaOp.set_max_version n.node.max_version in
      elim (Bool-cases (is_empty (stale_key_values n))) [
        | inr some_kvs ↦
            let filled = filled-IsBegun n ds all t.delta_builder some_kvs (
              add_key_values-IsFilled z ds (stale_key_values n) s t all (opened n) h
                (rw (some_kvs, add_contents) at e)) in
            record { begun = filled.0; told = inl filled.1 }
        | inl bare ↦ elim (outcomes (try_set_max_version z n.node.max_version s)) [
          | inl panic ↦ cc (bare, panic, e)
          | inr (inr (u, refused)) ↦
              let same : u ≡ s =
                try_add_op-refused z op s u (unfold try_set_max_version in refused) in
              let full : IsFull z s = refused-IsFull z n.node.max_version s u refused in
              record {
                begun =
                    bare-IsBegun n ds all false t.delta_builder bare
                      (ground (arith, bare, refused, same, h));
                told = inr (subst (IsFull z) (ground (arith, bare, refused, same)) full);
              }
          | inr (inl (u, taken)) ↦
              let step = try_add_op-taken z op s u (unfold try_set_max_version in taken) in
              let begun =
                apply_max_version-IsAt ds (opened n) s.delta_builder u.delta_builder h
                  n.node.max_version step in
              record {
                begun =
                    bare-IsBegun n ds all true t.delta_builder bare
                      (ground (arith, bare, taken, begun));
                told = inl (ground (arith, bare));
              }
        ]
      ]

  -- What the loop over the stale nodes adds to the builder.
  record HasFilled (ns : List StaleNode) (s t : DeltaSerializer) : Type 0 where
    ds : List NodeDelta
    fills : Fills ns ds
    added : complete t.delta_builder ≡ complete s.delta_builder ++ ds

  nothing-HasFilled : (ns : List StaleNode) (s t : DeltaSerializer) → t ≡ s → HasFilled ns s t
  nothing-HasFilled ns s t e = record {
    ds = [];
    fills = tt;
    added = rw append-nil (ap (λ u. complete u.delta_builder) e);
  }

  first-HasFilled :
      (n : StaleNode) (ns : List StaleNode) (s t : DeltaSerializer) (all : Bool)
      → IsBegun (complete s.delta_builder) n all t.delta_builder
      → HasFilled (n ∷ ns) s t
  first-HasFilled n ns s t all b = record {
    ds = b.d ∷ [];
    fills = (b.front, inl refl, tt);
    added = complete-IsAt (complete s.delta_builder) b.d t.delta_builder b.at;
  }

  more-HasFilled :
      (n : StaleNode) (ns : List StaleNode) (s t u : DeltaSerializer)
      → (b : IsBegun (complete s.delta_builder) n true t.delta_builder)
      → b.d.max_version ≡ announced n
      → HasFilled ns t u
      → HasFilled (n ∷ ns) s u
  more-HasFilled n ns s t u b told f = record {
    ds = b.d ∷ f.ds;
    fills = (b.front, inr (ground (arith, b.whole), told), f.fills);
    added =
        f.added
        ∙ ap (λ l. l ++ f.ds) (complete-IsAt (complete s.delta_builder) b.d t.delta_builder b.at)
        ∙ append_assoc (complete s.delta_builder) (b.d ∷ []) f.ds;
  }

  add_nodes-HasFilled :
      (ns : List StaleNode) (s t : DeltaSerializer) → add_nodes z ns s ≡ some t → HasFilled ns s t
  unfolding add_nodes
  add_nodes-HasFilled [] s t e = nothing-HasFilled [] s t (ground arith)
  add_nodes-HasFilled (n ∷ ns) s t e =
      let op = DeltaOp.node n.chitchat_id n.node.last_gc_version n.from_version_excluded in
      let attempt = try_add_node z n.chitchat_id n.node.last_gc_version n.from_version_excluded s in
      elim (outcomes attempt) [
        | inl panic ↦ cc (panic, e)
        | inr (inr (u, refused)) ↦
            let same : u ≡ s = try_add_op-refused z op s u (unfold try_add_node in refused) in
            nothing-HasFilled (n ∷ ns) s t (ground (arith, refused, same))
        | inr (inl (u, taken)) ↦
            let step = try_add_op-taken z op s u (unfold try_add_node in taken) in
            let begun = apply_node-IsAt n s.delta_builder u.delta_builder step in
            let fill = λ (v : DeltaSerializer) (all : Bool).
              add_contents-IsTold n u v all (complete s.delta_builder) begun in
            elim (outcomes (add_contents z n u)) [
              | inl panic ↦ cc (taken, panic, e)
              | inr (inr (v, part)) ↦
                  let last : v ≡ t = ground (arith, taken, part) in
                  first-HasFilled n ns s t false (
                    subst
                      (λ (w : DeltaSerializer).
                        IsBegun (complete s.delta_builder) n false w.delta_builder)
                      last (fill v false part).begun)
              | inr (inl (v, all)) ↦
                  let rest = rw (taken, all, add_nodes) at e in
                  let contents = fill v true all in
                  elim contents.told [
                    | inl told ↦
                        more-HasFilled n ns s v t contents.begun told
                          (add_nodes-HasFilled ns v t rest)
                    | inr full ↦ first-HasFilled n ns s t true (
                        subst
                          (λ (w : DeltaSerializer).
                            IsBegun (complete s.delta_builder) n true w.delta_builder)
                          (full-stops z ns v t full rest) contents.begun)
                  ]
            ]
      ]

  new_nodes :
      (mtu : ℕ) (s : DeltaSerializer) → with_mtu mtu ≡ some s → complete s.delta_builder ≡ []
  unfolding with_mtu new_builder flush Delta.empty
  new_nodes mtu s e = ground arith

  -- Where a partial delta is returned, its node deltas are fronts of the stale nodes, without a gap and
  -- in the order in which these are gossiped; each but the last one has all stale key-values of its node,
  -- or announces its `max_version` where there is none.
  pub partial_delta-Fills :
      (shuffle : List StaleNode → List StaleNode) (digest : Digest) (mtu : ℕ)
      (scheduled : List ChitchatId) (c : ClusterState) (d : Delta)
      → compute_partial_delta_respecting_mtu z shuffle digest mtu scheduled c ≡ some d
      → Fills (into_iter shuffle (offer_all digest scheduled c.node_states [])) d.node_deltas
  unfolding compute_partial_delta_respecting_mtu
  partial_delta-Fills shuffle digest mtu scheduled c d e =
      let ns = into_iter shuffle (offer_all digest scheduled c.node_states []) in
      elim (Option-cases (with_mtu mtu)) [
        | inl tiny ↦ cc (tiny, e)
        | inr (s, ready) ↦ elim (Option-cases (add_nodes z ns s)) [
          | inl panic ↦ cc (ready, panic, e)
          | inr (t, filled) ↦
              let f = add_nodes-HasFilled ns s t filled in
              let finished_nodes : d.node_deltas ≡ complete t.delta_builder =
                unfold Serializer.finish Delta.finish in ground (arith, ready, filled) in
              subst (Fills ns) (sym (finished_nodes ∙ f.added ∙ rw (new_nodes mtu s ready) refl))
                f.fills
        ]
      ]
