-- ===== src/Cluster/Stale.antt =====
-- The stale nodes and the order in which they are gossiped: chitchat/src/state.rs.
use Prim.Native.Nat.{compare, Ordering}
use scuttlebutt.Prelude.{
  ℕ, Bool, true, false, Option, none, some, List, [], ◌∷◌, ◌++◌, length, if◌then◌else◌, leb, ◌==◌,
  then_with,
}
use scuttlebutt.Prelude.Order.{reverse}
use scuttlebutt.Prelude.Maps.{Map}
use scuttlebutt.Ids.{Str, ChitchatId}
use scuttlebutt.Types.{VersionedValue}
use scuttlebutt.NodeState.{NodeState}
use scuttlebutt.NodeState.Read

pub record Staleness : Type 0 where
  pub is_unknown : Bool
  pub max_version : ℕ
  pub num_stale_key_values : ℕ

abbrev bool_cmp : Bool → Bool → Ordering
bool_cmp false true = Ordering.lt
bool_cmp true false = Ordering.gt
bool_cmp _ _ = Ordering.eq

-- `impl Ord for Staleness`: the higher, the sooner.
unfoldable pub staleness_cmp : Staleness → Staleness → Ordering
staleness_cmp a b = then_with (bool_cmp a.is_unknown b.is_unknown) (
    if a.is_unknown
    then reverse (compare a.max_version b.max_version)
    else compare a.num_stale_key_values b.num_stale_key_values)

pub record StaleNode : Type 0 where
  pub chitchat_id : ChitchatId
  pub node : NodeState
  pub from_version_excluded : ℕ

unfoldable pub staleness_score : NodeState → ℕ → Option Staleness
staleness_score s floor =
    if leb s.max_version floor
    then none
    else some (record {
      is_unknown = floor == 0;
      max_version = s.max_version;
      num_stale_key_values =
          if floor == 0 then Read.num_key_values s else length (Read.stale_key_values floor s);
    })

-- `BTreeMap<Staleness, Vec<StaleNode>>`, in ascending order
abbrev pub SortedStaleNodes : Type 0
SortedStaleNodes = List (Staleness × List StaleNode)

-- `entry(staleness).or_default().push(stale_node)`
unfoldable pub push : Staleness → StaleNode → SortedStaleNodes → SortedStaleNodes
unfolding staleness_cmp
push k n [] = (k, n ∷ []) ∷ []
push k n ((j, ns) ∷ m) =
    let rest = push k n m in
    elim (staleness_cmp k j) [
      | Ordering.lt ↦ (k, n ∷ []) ∷ (j, ns) ∷ m
      | Ordering.eq ↦ (j, ns ++ (n ∷ [])) ∷ m
      | Ordering.gt ↦ (j, ns) ∷ rest
    ]

abbrev pub pushed : StaleNode → SortedStaleNodes → Option Staleness → SortedStaleNodes
pushed n m none = m
pushed n m (some k) = push k n m

unfoldable pub offer : ChitchatId → NodeState → ℕ → SortedStaleNodes → SortedStaleNodes
unfolding staleness_score push
offer id s from m =
    pushed (record { chitchat_id = id; node = s; from_version_excluded = from }) m
      (staleness_score s from)

-- `into_values().rev()`, each group shuffled by the random generator
unfoldable pub into_iter : (List StaleNode → List StaleNode) → SortedStaleNodes → List StaleNode
into_iter shuffle [] = []
into_iter shuffle ((k, ns) ∷ m) = into_iter shuffle m ++ shuffle ns

-- `sorted_unstable_by_key` on the version, by insertion
unfoldable pub insert_by_version :
    Str × VersionedValue → Map Str VersionedValue → Map Str VersionedValue
insert_by_version e [] = e ∷ []
insert_by_version e (f ∷ es) =
    let rest = insert_by_version e es in
    if leb e.1.version f.1.version then e ∷ f ∷ es else f ∷ rest

unfoldable pub sort_by_version : Map Str VersionedValue → Map Str VersionedValue
unfolding insert_by_version
sort_by_version [] = []
sort_by_version (e ∷ es) = insert_by_version e (sort_by_version es)

unfoldable pub stale_key_values : StaleNode → Map Str VersionedValue
unfolding sort_by_version
stale_key_values n = sort_by_version (Read.stale_key_values n.from_version_excluded n.node)
