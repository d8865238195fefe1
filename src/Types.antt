-- ===== src/Types.antt =====
-- chitchat/src/types.rs: versions, heartbeats, deletion statuses, versioned values and mutations.
use scuttlebutt.Prelude.{
  ℕ, ◌+◌, ◌%◌, ◌^◌, Bool, true, false, Option, none, some, if◌then◌else◌, ◌==◌,
}
use scuttlebutt.Ids.{Str}

abbrev pub u64_mod : ℕ
u64_mod = 2 ^ 64

-- `x + 1` on a `u64`, as `wrapping_add` and as `+` without overflow checks.
abbrev pub inc_u64 : ℕ → ℕ
inc_u64 x = (x + 1) % u64_mod

-- The instant is the reference start time, not the scheduled time of deletion.
pub data DeletionStatus : Type 0 where
  set : DeletionStatus
  deleted : ℕ → DeletionStatus
  delete_after_ttl : ℕ → DeletionStatus

abbrev pub time_of_start_scheduled_for_deletion : DeletionStatus → Option ℕ
time_of_start_scheduled_for_deletion DeletionStatus.set = none
time_of_start_scheduled_for_deletion (DeletionStatus.deleted t) = some t
time_of_start_scheduled_for_deletion (DeletionStatus.delete_after_ttl t) = some t

pub record VersionedValue : Type 0 where
  pub value : Str
  pub version : ℕ
  pub status : DeletionStatus

unfoldable pub new_versioned : ℕ → Str → ℕ → Bool → VersionedValue
new_versioned now value version is_tombstone = record {
  value = value;
  version = version;
  status = if is_tombstone then DeletionStatus.deleted now else DeletionStatus.set;
}

abbrev pub is_deleted_status : DeletionStatus → Bool
is_deleted_status DeletionStatus.set = false
is_deleted_status (DeletionStatus.deleted t) = true
is_deleted_status (DeletionStatus.delete_after_ttl t) = false

abbrev pub is_deleted : VersionedValue → Bool
is_deleted v = is_deleted_status v.status

pub data DeletionStatusMutation : Type 0 where
  set delete delete_after_ttl : DeletionStatusMutation

abbrev pub into_status : DeletionStatusMutation → ℕ → DeletionStatus
into_status DeletionStatusMutation.set now = DeletionStatus.set
into_status DeletionStatusMutation.delete_after_ttl now = DeletionStatus.delete_after_ttl now
into_status DeletionStatusMutation.delete now = DeletionStatus.deleted now

abbrev pub scheduled_for_deletion : DeletionStatusMutation → Bool
scheduled_for_deletion DeletionStatusMutation.set = false
scheduled_for_deletion DeletionStatusMutation.delete = true
scheduled_for_deletion DeletionStatusMutation.delete_after_ttl = true

-- `impl From<DeletionStatus> for DeletionStatusMutation`
abbrev pub from_status : DeletionStatus → DeletionStatusMutation
from_status DeletionStatus.set = DeletionStatusMutation.set
from_status (DeletionStatus.delete_after_ttl t) = DeletionStatusMutation.delete_after_ttl
from_status (DeletionStatus.deleted t) = DeletionStatusMutation.delete

-- `TryFrom<u8>` and the cast to `u8`
abbrev pub status_of_code : ℕ → Option DeletionStatusMutation
status_of_code c =
    if c == 0
    then some DeletionStatusMutation.set
    else if c == 1
    then some DeletionStatusMutation.delete
    else if c == 2
    then some DeletionStatusMutation.delete_after_ttl
    else none

abbrev pub code_of_status : DeletionStatusMutation → ℕ
code_of_status DeletionStatusMutation.set = 0
code_of_status DeletionStatusMutation.delete = 1
code_of_status DeletionStatusMutation.delete_after_ttl = 2

pub record KeyValueMutation : Type 0 where
  pub key : Str
  pub value : Str
  pub version : ℕ
  pub status : DeletionStatusMutation

-- What a listener is called with: chitchat/src/lib.rs
pub record KeyChangeEvent : Type 0 where
  pub key : Str
  pub value : Str
  pub node : scuttlebutt.Ids.ChitchatId
