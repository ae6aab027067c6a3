-- ===== src/Rocks/Errors.antt =====
-- oceanraft/src/storage/rocks.rs, `ErrorHandler`: how an error of the database is reported. The line
-- that is logged is left out.
use oceanraft.Common.{◌≡◌, refl, Bool, true, false, if◌then◌else◌}
use oceanraft.Types.Errors.{StorageError, RaftStorageError, to_raft_storage}

-- `rocksdb::ErrorKind`, as far as the conversions name it
pub data RocksdbErrorKind : Type 0 where
  not_found corruption not_supported invalid_argument io_error : RocksdbErrorKind
  merge_in_progress incomplete shutdown_in_progress timed_out aborted : RocksdbErrorKind
  busy expired try_again compaction_too_large column_family_dropped unknown : RocksdbErrorKind

-- The first of the three arms of the two conversions.
unfoldable pub is_temporary : RocksdbErrorKind → Bool
is_temporary corruption = false
is_temporary shutdown_in_progress = false
is_temporary _ = true

-- `impl From<ErrorHandler> for Error`
unfoldable pub to_storage_error : (is_log is_snap : Bool) → RocksdbErrorKind → StorageError
unfolding is_temporary
to_storage_error is_log is_snap kind =
    if is_temporary kind
    then (if is_log
        then StorageError.log_temporarily_unavailable
        else if is_log
        then StorageError.snapshot_temporarily_unavailable
        else StorageError.storage_temporarily_unavailable)
    else if is_log
    then StorageError.log_unavailable
    else if is_snap
    then StorageError.snapshot_unavailable
    else StorageError.storage_unavailable

-- `impl From<ErrorHandler> for RaftStorageError`
unfoldable pub to_raft_error : (is_log is_snap : Bool) → RocksdbErrorKind → RaftStorageError
unfolding is_temporary
to_raft_error is_log is_snap kind =
    if is_temporary kind
    then (if is_log
        then RaftStorageError.log_temporarily_unavailable
        else if is_snap
        then RaftStorageError.snapshot_temporarily_unavailable
        else RaftStorageError.unavailable)
    else RaftStorageError.unavailable

-- On the log, raft is told by both conversions the same. On a snapshot they agree where the error
-- lasts, and where it is temporary raft is told that the snapshot is unavailable for now by the one,
-- and that the log is unavailable for now by the other.
pub to_storage_error-to_raft_error :
    (kind : RocksdbErrorKind)
    → (to_raft_storage (to_storage_error true false kind) ≡ to_raft_error true false kind)
      × (to_raft_storage (to_storage_error false true kind) ≡ (
          if is_temporary kind
          then RaftStorageError.log_temporarily_unavailable
          else to_raft_error false true kind))
      × (to_raft_error false true kind ≡ (
          if is_temporary kind
          then RaftStorageError.snapshot_temporarily_unavailable
          else RaftStorageError.unavailable))
unfolding to_storage_error to_raft_error is_temporary to_raft_storage
to_storage_error-to_raft_error not_found = (refl, refl, refl)
to_storage_error-to_raft_error corruption = (refl, refl, refl)
to_storage_error-to_raft_error not_supported = (refl, refl, refl)
to_storage_error-to_raft_error invalid_argument = (refl, refl, refl)
to_storage_error-to_raft_error io_error = (refl, refl, refl)
to_storage_error-to_raft_error merge_in_progress = (refl, refl, refl)
to_storage_error-to_raft_error incomplete = (refl, refl, refl)
to_storage_error-to_raft_error shutdown_in_progress = (refl, refl, refl)
to_storage_error-to_raft_error timed_out = (refl, refl, refl)
to_storage_error-to_raft_error aborted = (refl, refl, refl)
to_storage_error-to_raft_error busy = (refl, refl, refl)
to_storage_error-to_raft_error expired = (refl, refl, refl)
to_storage_error-to_raft_error try_again = (refl, refl, refl)
to_storage_error-to_raft_error compaction_too_large = (refl, refl, refl)
to_storage_error-to_raft_error column_family_dropped = (refl, refl, refl)
to_storage_error-to_raft_error unknown = (refl, refl, refl)
