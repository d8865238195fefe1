-- ===== src/Replica/Arrives.antt =====
-- From the computation of a partial delta to the delta that the peer reads: chitchat/src/state.rs,
-- chitchat/src/delta.rs and chitchat/src/serialize.rs.
use scuttlebutt.Prelude.{
  ℕ, ◌≤◌, ◌≡◌, refl, some, Option-cases, inl, inr, List, [], ◌++◌, All, All-imp, length, min, arith,
}
use scuttlebutt.Prelude.Maps
use scuttlebutt.Ids.{Str, ChitchatId, id_ord}
use scuttlebutt.Types.{VersionedValue}
use scuttlebutt.NodeState.{NodeState}
use scuttlebutt.Stream.{Compressor}
use scuttlebutt.Stream
use scuttlebutt.Stream.Items.{append_all}
use scuttlebutt.Digest.{Digest}
use scuttlebutt.Delta
use scuttlebutt.Delta.{Delta, DeltaOp, new_builder, operations, flush, empty}
use scuttlebutt.Delta.Ops.{serialized_len_op}
use scuttlebutt.Delta.Codec.{serialize_delta, deserialize_delta, deserialize_delta_lem}
use scuttlebutt.Delta.Serializer
use scuttlebutt.Delta.Serializer.{DeltaSerializer, block_threshold, with_mtu, mutation_of}
use scuttlebutt.Delta.Serializer.Bound.{with_mtu-Fits}
use scuttlebutt.Cluster.{ClusterState}
use scuttlebutt.Cluster.Stale.{StaleNode, into_iter}
use scuttlebutt.Cluster.Partial.{offer_all, add_nodes, compute_partial_delta_respecting_mtu}
use scuttlebutt.Cluster.Offered.{OfOffered, All-into_iter, from_version-le}
use scuttlebutt.Cluster.Gossiped.{Reorders}
use scuttlebutt.Cluster.Distinct.{into_iter-NoTwice}
use scuttlebutt.Cluster.Within.{
  IsSmall, IsSmallNode, IsSmallStale, KeepsLast, add_nodes-KeepsLast, finish-KeepsLast,
}
use scuttlebutt.Cluster.Mtu.{partial_delta-le-mtu}
use scuttlebutt.Replica.Owner.{NoRepeat}
use scuttlebutt.Replica.Fronts.{partial_delta-Fills}
use scuttlebutt.Replica.Answer.{IsShareable, Reorders-AddsNone, partial_delta-returns}
use scuttlebutt.Replica.Written.{IsWritten}
use scuttlebutt.Replica.Written.Loops.{add_nodes-IsWritten}
use scuttlebutt.Replica.Carried.{IsCarried, Fills-IsDelta}

-- The node's entries have different versions, and whatever is sent of it is small and can be carried
-- by the format.
abbrev pub IsGossipable : ChitchatId × NodeState → Type 0
IsGossipable (id, s) = NoRepeat s.key_values × IsSmallNode id s

gossipable-IsShareable : (e : ChitchatId × NodeState) → IsGossipable e → IsShareable e
unfolding serialized_len_op
gossipable-IsShareable e h = (
  h.0,
  All-imp (λ (x : Str × VersionedValue). IsSmall (DeltaOp.key_value (mutation_of x.0 x.1)))
      (λ (x : Str × VersionedValue).
        serialized_len_op (DeltaOp.key_value (mutation_of x.0 x.1)) ≤ 65535)
      (λ x small. omega (arith, small.1)) e.1.key_values h.1.0,
  omega (arith, h.1.1.1),
)

-- A serializer that has been filled is finished with the payload that its delta is serialized to.
finished_payload :
    (z : Compressor) (t : DeltaSerializer)
    → 16384 ≤ t.mtu
    → IsWritten z t
    → serialize_delta z (Serializer.finish z t) ≡ some (Stream.finish z t.compressed_stream_writer)
unfolding serialize_delta Serializer.finish Delta.finish
finished_payload z t large w =
    let threshold : min block_threshold t.mtu ≡ 16384 = ground arith in
    let written = rw threshold at w.written in ground (arith, written)

-- The delta is computed and serialized, within the `mtu`, and read back whatever follows.
abbrev pub Arrives :
    Compressor
    → (List StaleNode → List StaleNode)
    → Digest
    → ℕ
    → List ChitchatId
    → ClusterState
    → List ℕ
    → Delta
    → Type 0
Arrives z shuffle digest mtu scheduled c rest d =
    (payload : List ℕ) × (compute_partial_delta_respecting_mtu z shuffle digest mtu scheduled c
      ≡ some d)
    × (serialize_delta z d ≡ some payload)
    × (length payload ≤ mtu)
    × (deserialize_delta z (payload ++ rest) ≡ some (d, rest))

module _ (z : Compressor) (shuffle : List StaleNode → List StaleNode) (digest : Digest) (mtu : ℕ)
    (scheduled : List ChitchatId) (c : ClusterState) (reorders : Reorders shuffle)
    (sorted : Maps.IsSorted c.node_states) (ok : All IsGossipable c.node_states) where
  abbrev gossiped : List StaleNode
  gossiped = into_iter shuffle (offer_all digest scheduled c.node_states [])

  gossiped-IsCarried : All IsCarried gossiped
  gossiped-IsCarried =
      All-into_iter IsCarried shuffle digest scheduled c.node_states
        (Reorders-AddsNone shuffle reorders)
        (All-imp IsGossipable (OfOffered IsCarried digest scheduled)
          (λ e h from shared offered.
            (h.0, (h.1, from_version-le (Maps.get e.0 digest.node_digests) e.1 from offered)))
          c.node_states ok)

  fresh-IsWritten : (s : DeltaSerializer) → with_mtu mtu ≡ some s → IsWritten z s
  unfolding with_mtu new_builder empty flush operations append_all
  fresh-IsWritten s e = record { written = ground arith }

  -- What a filled serializer is finished to arrives.
  arrives :
      (rest : List ℕ) (s t : DeltaSerializer)
      → 16384 ≤ mtu
      → with_mtu mtu ≡ some s
      → add_nodes z gossiped s ≡ some t
      → Arrives z shuffle digest mtu scheduled c rest (Serializer.finish z t)
  unfolding compute_partial_delta_respecting_mtu
  arrives rest s t large ready filled =
      let d = Serializer.finish z t in
      let fits = with_mtu-Fits z mtu s ready in
      let kept : KeepsLast z mtu (add_nodes z gossiped s) =
        add_nodes-KeepsLast z gossiped s mtu
          (All-imp IsCarried IsSmallStale (λ n h. h.1) gossiped gossiped-IsCarried) fits.0 fits.1 in
      let kept' = rw filled at kept in
      let payload =
        finished_payload z t (omega (arith, kept'.1))
          (add_nodes-IsWritten z gossiped s t (fresh-IsWritten s ready) filled) in
      let computes : compute_partial_delta_respecting_mtu z shuffle digest mtu scheduled c
          ≡ some d =
        rw (ready, filled, compute_partial_delta_respecting_mtu) refl in
      let carried =
        Fills-IsDelta z gossiped d gossiped-IsCarried
          (into_iter-NoTwice digest scheduled shuffle c.node_states reorders sorted)
          (partial_delta-Fills z shuffle digest mtu scheduled c d computes) in
      (
        Stream.finish z t.compressed_stream_writer,
        computes,
        payload,
        unfold Serializer.finish Delta.finish in finish-KeepsLast z (some t) mtu d kept' refl,
        deserialize_delta_lem z d (Stream.finish z t.compressed_stream_writer) rest carried payload,
      )

  -- With an `mtu` of at least 16384, a shuffle that only reorders a group, and nodes in order of which
  -- each has entries of different versions and operations of at most 16384 bytes that the format can
  -- carry (an IPv6 address has neither flow information nor a scope), a partial delta is returned and
  -- serialized without a panic, to a payload within the `mtu`, from which the peer reads the same delta,
  -- whatever follows.
  pub partial_delta-Arrives :
      (rest : List ℕ) → 16384 ≤ mtu → (d : Delta) × Arrives z shuffle digest mtu scheduled c rest d
  partial_delta-Arrives rest large =
      let returned =
        partial_delta-returns z shuffle digest mtu scheduled c (omega arith) reorders sorted
          (All-imp IsGossipable IsShareable gossipable-IsShareable c.node_states ok) in
      elim (Option-cases (with_mtu mtu)) [
        | inl tiny ↦ absurd (unfold with_mtu in ground (arith, tiny))
        | inr (s, ready) ↦ elim (Option-cases (add_nodes z gossiped s)) [
          | inl panic ↦
              absurd (unfold compute_partial_delta_respecting_mtu in cc (ready, panic, returned.1))
          | inr (t, filled) ↦ (Serializer.finish z t, arrives rest s t large ready filled)
        ]
      ]

  -- With an `mtu` of at least 100, a shuffle that only reorders a group, and nodes in order of which
  -- each has entries of different versions and operations of at most 16384 bytes that the format can
  -- carry (an IPv6 address has neither flow information nor a scope), a partial delta is returned, and
  -- announces a length within the `mtu`.
  pub partial_delta-within :
      100 ≤ mtu
      → (d : Delta) × (compute_partial_delta_respecting_mtu z shuffle digest mtu scheduled c
          ≡ some d)
        × (d.serialized_len ≤ mtu)
  partial_delta-within large =
      let returned =
        partial_delta-returns z shuffle digest mtu scheduled c large reorders sorted
          (All-imp IsGossipable IsShareable gossipable-IsShareable c.node_states ok) in
      (
        returned.0,
        returned.1,
        partial_delta-le-mtu z shuffle digest mtu scheduled c returned.0
            (Reorders-AddsNone shuffle reorders)
            (All-imp IsGossipable (λ (e : ChitchatId × NodeState). IsSmallNode e.0 e.1) (λ e h. h.1)
              c.node_states ok)
            returned.1,
      )
