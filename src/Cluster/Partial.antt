-- ===== src/Cluster/Partial.antt =====
-- `compute_partial_delta_respecting_mtu` of chitchat/src/state.rs. `none` is a panic.
use scuttlebutt.Prelude.{
  ℕ, Bool, true, false, ◌&&◌, Option, none, some, List, [], ◌∷◌, if◌then◌else◌, ltb, leb,
}
use scuttlebutt.Prelude.Maps
use scuttlebutt.Prelude.Maps.{Map}
use scuttlebutt.Ids.{Str, ChitchatId, id_ord}
use scuttlebutt.Types.{VersionedValue}
use scuttlebutt.NodeState.{NodeState}
use scuttlebutt.Digest.{Digest, NodeDigest}
use scuttlebutt.Stream.{Compressor}
use scuttlebutt.Delta.{Delta, contains}
use scuttlebutt.Delta.Serializer
use scuttlebutt.Delta.Serializer.{
  DeltaSerializer, with_mtu, try_add_kv, try_add_node, try_set_max_version,
}
use scuttlebutt.Cluster.{ClusterState}
use scuttlebutt.Cluster.Stale.{StaleNode, SortedStaleNodes, offer, into_iter, stale_key_values}

-- (`last_gc_version`, `max_version`) of the digest, or zeros
abbrev pub digest_versions : Option NodeDigest → ℕ × ℕ
digest_versions none = (0, 0)
digest_versions (some d) = (d.last_gc_version, d.max_version)

abbrev pub should_reset : ℕ → ℕ → NodeState → Bool
should_reset digest_gc digest_max s =
    ltb digest_gc s.last_gc_version && ltb digest_max s.last_gc_version

-- The version to send from, or nothing to offer.
unfoldable pub from_version : Option NodeDigest → NodeState → Option ℕ
from_version d s =
    let (gc, max) = digest_versions d in
    if leb s.max_version max then none else some (if should_reset gc max s then 0 else max)

abbrev pub offer_from : ChitchatId → NodeState → SortedStaleNodes → Option ℕ → SortedStaleNodes
offer_from id s m none = m
offer_from id s m (some from) = offer id s from m

-- The loop over `node_states`.
unfoldable pub offer_all :
    Digest → List ChitchatId → Map ChitchatId NodeState → SortedStaleNodes → SortedStaleNodes
unfolding from_version
offer_all digest scheduled [] stale = stale
offer_all digest scheduled ((id, s) ∷ m) stale = offer_all digest scheduled m (
    if contains id scheduled
    then stale
    else offer_from id s stale (from_version (Maps.get id digest.node_digests) s))

abbrev pub is_empty : Map Str VersionedValue → Bool
is_empty [] = true
is_empty (e ∷ m) = false

abbrev pub forget : Option (DeltaSerializer × Bool) → Option (DeltaSerializer × Bool)
forget none = none
forget (some (s, taken)) = some (s, true)

module _ (z : Compressor) where
  -- The loop over the key-values; the flag says that all of them were taken.
  unfoldable pub add_key_values :
      Map Str VersionedValue → DeltaSerializer → Option (DeltaSerializer × Bool)
  add_key_values [] s = some (s, true)
  add_key_values ((k, v) ∷ m) s = elim (try_add_kv z k v s) [
    | none ↦ none
    | some (s', taken) ↦ elim taken [ true ↦ add_key_values m s' | false ↦ some (s', false) ]
  ]

  -- A node with no stale key-value gets its `max_version` instead; what comes of that is ignored.
  unfoldable pub add_contents : StaleNode → DeltaSerializer → Option (DeltaSerializer × Bool)
  unfolding add_key_values
  add_contents n s =
      if is_empty (stale_key_values n)
      then forget (try_set_max_version z n.node.max_version s)
      else add_key_values (stale_key_values n) s

  -- The loop over the stale nodes, up to the first operation that is not taken.
  unfoldable pub add_nodes : List StaleNode → DeltaSerializer → Option DeltaSerializer
  unfolding add_contents
  add_nodes [] s = some s
  add_nodes (n ∷ ns) s =
      elim (try_add_node z n.chitchat_id n.node.last_gc_version n.from_version_excluded s) [
        | none ↦ none
        | some (s', taken) ↦ elim taken [
          | false ↦ some s'
          | true ↦ elim (add_contents n s') [
            | none ↦ none
            | some (s'', all) ↦ elim all [ true ↦ add_nodes ns s'' | false ↦ some s'' ]
          ]
        ]
      ]

  abbrev pub finished : Option DeltaSerializer → Option Delta
  finished none = none
  finished (some s) = some (Serializer.finish z s)

  unfoldable pub compute_partial_delta_respecting_mtu :
      (List StaleNode → List StaleNode) → Digest → ℕ → List ChitchatId → ClusterState → Option Delta
  unfolding add_nodes offer_all
  compute_partial_delta_respecting_mtu shuffle digest mtu scheduled c = elim (with_mtu mtu) [
    | none ↦ none
    | some s ↦
        finished (add_nodes (into_iter shuffle (offer_all digest scheduled c.node_states [])) s)
  ]
