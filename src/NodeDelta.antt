-- ===== src/NodeDelta.antt =====
-- `struct NodeDelta` of chitchat/src/delta.rs: what a peer sends about one node.
use scuttlebutt.Prelude.{ℕ, Option, List}
use scuttlebutt.Ids.{ChitchatId}
use scuttlebutt.Types.{KeyValueMutation}

pub record NodeDelta : Type 0 where
  pub chitchat_id : ChitchatId
  pub from_version_excluded : ℕ
  pub last_gc_version : ℕ
  pub key_values : List KeyValueMutation
  pub max_version : Option ℕ
