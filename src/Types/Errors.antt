-- ===== src/Types/Errors.antt =====
-- oceanraft/src/error.rs, oceanraft/src/storage/mod.rs: the error types and their conversions.
-- A message text, and an error that a third party boxes, is a text.
use oceanraft.Common.{ℕ, ◌≡◌, refl, String, Outcome, ok, panic}

-- `storage::Error`
pub data StorageError : Type 0 where
  storage_unavailable storage_temporarily_unavailable : StorageError
  log_compacted log_unavailable log_temporarily_unavailable : StorageError
  snapshot_out_of_date snapshot_unavailable snapshot_temporarily_unavailable : StorageError
  other : String → StorageError

-- `raft::StorageError`
pub data RaftStorageError : Type 0 where
  compacted unavailable : RaftStorageError
  log_temporarily_unavailable : RaftStorageError
  snapshot_out_of_date : RaftStorageError
  snapshot_temporarily_unavailable : RaftStorageError
  other : String → RaftStorageError

-- `raft::Error`; every error that is not of the store is one case, told apart by its text.
pub data RaftError : Type 0 where
  store : RaftStorageError → RaftError
  not_store : String → RaftError

pub data RaftGroupError : Type 0 where
  not_exist deleted exists : ℕ → ℕ → RaftGroupError

pub data ChannelError : Type 0 where
  full sender_closed receiver_closed : String → ChannelError

pub data ProposeError : Type 0 where
  not_leader : (node_id group_id replica_id : ℕ) → ProposeError
  stale : ℕ → ℕ → ProposeError
  unexpected_index : (node_id group_id replica_id expected unexpected : ℕ) → ProposeError
  membership_pending : ℕ → ℕ → ProposeError

-- `Error`; what a serializer or a deserializer reports is a text.
pub data Error : Type 0 where
  config_invalid bad_parameter : String → Error
  channel : ChannelError → Error
  propose : ProposeError → Error
  stopped : Error
  storage : StorageError → Error
  serialization deserialization : String → Error
  raft : RaftError → Error
  raft_group : RaftGroupError → Error

-- `impl From<raft::StorageError> for Error`
unfoldable pub of_raft_storage : RaftStorageError → StorageError
of_raft_storage RaftStorageError.compacted = StorageError.log_compacted
of_raft_storage RaftStorageError.unavailable = StorageError.log_unavailable
of_raft_storage RaftStorageError.log_temporarily_unavailable =
    StorageError.log_temporarily_unavailable
of_raft_storage RaftStorageError.snapshot_out_of_date = StorageError.snapshot_out_of_date
of_raft_storage RaftStorageError.snapshot_temporarily_unavailable =
    StorageError.snapshot_temporarily_unavailable
of_raft_storage (RaftStorageError.other e) = StorageError.other e

-- `impl From<raft::Error> for Error`: any error but one of the store is `unreachable!()`.
unfoldable pub of_raft : RaftError → Outcome StorageError StorageError
unfolding of_raft_storage
of_raft (store e) = ok (of_raft_storage e)
of_raft (not_store e) = panic

-- `impl From<Error> for raft::StorageError`
unfoldable pub to_raft_storage : StorageError → RaftStorageError
to_raft_storage StorageError.storage_unavailable = RaftStorageError.unavailable
to_raft_storage StorageError.storage_temporarily_unavailable =
    RaftStorageError.log_temporarily_unavailable
to_raft_storage StorageError.snapshot_unavailable = RaftStorageError.unavailable
to_raft_storage StorageError.log_compacted = RaftStorageError.compacted
to_raft_storage StorageError.log_unavailable = RaftStorageError.unavailable
to_raft_storage StorageError.log_temporarily_unavailable =
    RaftStorageError.log_temporarily_unavailable
to_raft_storage StorageError.snapshot_out_of_date = RaftStorageError.snapshot_out_of_date
to_raft_storage StorageError.snapshot_temporarily_unavailable =
    RaftStorageError.snapshot_temporarily_unavailable
to_raft_storage (StorageError.other e) = RaftStorageError.other e

-- `impl From<Error> for raft::Error`
unfoldable pub to_raft : StorageError → RaftError
to_raft StorageError.storage_unavailable = store RaftStorageError.unavailable
to_raft StorageError.storage_temporarily_unavailable =
    store RaftStorageError.log_temporarily_unavailable
to_raft StorageError.snapshot_unavailable = store RaftStorageError.unavailable
to_raft StorageError.log_compacted = store RaftStorageError.compacted
to_raft StorageError.log_unavailable = store RaftStorageError.unavailable
to_raft StorageError.log_temporarily_unavailable =
    store RaftStorageError.log_temporarily_unavailable
to_raft StorageError.snapshot_out_of_date = store RaftStorageError.snapshot_out_of_date
to_raft StorageError.snapshot_temporarily_unavailable =
    store RaftStorageError.snapshot_temporarily_unavailable
to_raft (StorageError.other e) = store (RaftStorageError.other e)

-- Every error that raft knows of its store survives the way into a storage error and back, as an
-- error of the store and as a whole error of raft; and the two ways back agree on every error.
pub storage_error_roundtrip :
    ((e : RaftStorageError) → to_raft_storage (of_raft_storage e) ≡ e)
    × ((e : RaftStorageError) → to_raft (of_raft_storage e) ≡ store e)
    × ((e : StorageError) → to_raft e ≡ store (to_raft_storage e))
unfolding of_raft_storage to_raft_storage to_raft
storage_error_roundtrip = (λ e. back e, λ e. whole e, λ e. agree e)
  where
    back : (e : RaftStorageError) → to_raft_storage (of_raft_storage e) ≡ e
    back RaftStorageError.compacted = refl
    back e = refl

    whole : (e : RaftStorageError) → to_raft (of_raft_storage e) ≡ store e
    whole RaftStorageError.compacted = refl
    whole e = refl

    agree : (e : StorageError) → to_raft e ≡ store (to_raft_storage e)
    agree StorageError.storage_unavailable = refl
    agree e = refl
