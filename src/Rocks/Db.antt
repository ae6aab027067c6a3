-- ===== src/Rocks/Db.antt =====
-- What oceanraft/src/storage/rocks.rs calls of the database, and of the serializer: both are
-- parameters. A call works on the state of the database, which an error leaves as the call left it,
-- so what a handler wrote before it failed stays written. A value is a row of bytes.
pub use oceanraft.Common.Action.{
  Action, and_then, ◌>>=◌, lift, map_error, or_err, unwrap_result, unwrap,
}
use oceanraft.Common.{
  ◌≡◌, Bool, true, false, ◌&&◌, not, List, [], ◌∷◌, map, Option, some, none, if◌then◌else◌, Outcome,
  ok,
}
use oceanraft.Types.{Entry, HardState, ConfState, SnapshotMetadata, GroupMetadata, ReplicaDesc}
use oceanraft.Rocks.Errors.{RocksdbErrorKind}
use oceanraft.Rocks.Keys.{Bytes, bytes_lt, same_bytes}

-- "metadta_cf" and "raft_log_cf"
pub data Cf : Type 0 where
  metadata_cf log_cf : Cf

abbrev pub same_cf : Cf → Cf → Bool
same_cf metadata_cf metadata_cf = true
same_cf metadata_cf log_cf = false
same_cf log_cf metadata_cf = false
same_cf log_cf log_cf = true

-- One `put_cf` of a `WriteBatch`.
pub record Put : Type 0 where
  pub cf : Cf
  pub key : Bytes
  pub value : Bytes

pub record RocksDb (S : Type 0) : Type 0 where
  pub get : Cf → Bytes → Action S RocksdbErrorKind (Option Bytes)
  pub multi_get : Cf → List Bytes → S → S × List (Outcome RocksdbErrorKind (Option Bytes))
  pub iterate : Cf → Bytes → S → S × List (Outcome RocksdbErrorKind (Bytes × Bytes))
  pub put : Put → Action S RocksdbErrorKind (Unit {0})
  pub delete : Cf → Bytes → Action S RocksdbErrorKind (Unit {0})
  pub delete_range : Cf → (start last : Bytes) → Action S RocksdbErrorKind (Unit {0})
  pub write : List Put → Action S RocksdbErrorKind (Unit {0})

-- What stands under a key after a batch: the last of its puts that writes the key.
unfoldable pub put_value : Put → Cf → Bytes → Option Bytes → Option Bytes
put_value p cf key old = if same_cf p.cf cf && same_bytes p.key key then some p.value else old

unfoldable pub write_value : List Put → Cf → Bytes → Option Bytes → Option Bytes
unfolding put_value
write_value [] cf key old = old
write_value (p ∷ ps) cf key old = write_value ps cf key (put_value p cf key old)

-- A range holds its start and not its end.
unfoldable pub delete_value : Cf → (start last : Bytes) → Cf → Bytes → Option Bytes → Option Bytes
delete_value cf' start last cf key old =
    if same_cf cf' cf && not (bytes_lt key start) && bytes_lt key last then none else old

-- What the database promises while it works: `view` is what stands under a key. A range is deleted
-- only if its end is behind its start.
pub record IsRocksDb {S : Type 0} (rocks : RocksDb S) : Type 1 where
  pub Working : S → Type 0
  pub view : S → Cf → Bytes → Option Bytes
  pub after_put : Put → S → S
  pub after_delete : Cf → (start last : Bytes) → S → S
  pub after_write : List Put → S → S
  pub get_lem :
      (cf : Cf) (key : Bytes) (s : S) → Working s → rocks.get cf key s ≡ (s, ok (view s cf key))
  pub multi_get_lem :
      (cf : Cf) (keys : List Bytes) (s : S)
      → Working s
      → rocks.multi_get cf keys s ≡ (s, map (λ key. ok (view s cf key)) keys)
  pub put_lem : (p : Put) (s : S) → Working s → rocks.put p s ≡ (after_put p s, ok tt)
  pub after_delete_key : Cf → Bytes → S → S
  pub delete_lem :
      (cf : Cf) (key : Bytes) (s : S)
      → Working s
      → rocks.delete cf key s ≡ (after_delete_key cf key s, ok tt)
  pub delete_range_lem :
      (cf : Cf) (start last : Bytes) (s : S)
      → Working s
      → bytes_lt start last ≡ true
      → rocks.delete_range cf start last s ≡ (after_delete cf start last s, ok tt)
  pub write_lem : (ps : List Put) (s : S) → Working s → rocks.write ps s ≡ (after_write ps s, ok tt)
  pub put-Working : (p : Put) (s : S) → Working s → Working (after_put p s)
  pub delete_key-Working :
      (cf : Cf) (key : Bytes) (s : S) → Working s → Working (after_delete_key cf key s)
  pub delete-Working :
      (cf : Cf) (start last : Bytes) (s : S) → Working s → Working (after_delete cf start last s)
  pub write-Working : (ps : List Put) (s : S) → Working s → Working (after_write ps s)
  pub view_put :
      (p : Put) (s : S) (cf : Cf) (key : Bytes)
      → view (after_put p s) cf key ≡ put_value p cf key (view s cf key)
  pub view_delete_key :
      (cf' : Cf) (deleted : Bytes) (s : S) (cf : Cf) (key : Bytes)
      → view (after_delete_key cf' deleted s) cf key
        ≡ (if same_cf cf' cf && same_bytes deleted key then none else view s cf key)
  pub view_delete :
      (cf' : Cf) (start last : Bytes) (s : S) (cf : Cf) (key : Bytes)
      → view (after_delete cf' start last s) cf key
        ≡ delete_value cf' start last cf key (view s cf key)
  pub view_write :
      (ps : List Put) (s : S) (cf : Cf) (key : Bytes)
      → view (after_write ps s) cf key ≡ write_value ps cf key (view s cf key)

-- A serializer of one type, `encode_to_vec` and `decode`.
pub record Codec (A : Type 0) : Type 0 where
  pub encode : A → Bytes
  pub decode : Bytes → Option A

pub record Prost : Type 0 where
  pub entry : Codec Entry
  pub hard_state : Codec HardState
  pub conf_state : Codec ConfState
  pub metadata : Codec SnapshotMetadata
  pub group_metadata : Codec GroupMetadata
  pub replica_desc : Codec ReplicaDesc

abbrev pub RoundTrips : {A : Type 0} → Codec A → Type 0
RoundTrips {A} codec = (a : A) → codec.decode (codec.encode a) ≡ some a

pub record IsProst (prost : Prost) : Type 0 where
  pub entry : RoundTrips prost.entry
  pub hard_state : RoundTrips prost.hard_state
  pub conf_state : RoundTrips prost.conf_state
  pub metadata : RoundTrips prost.metadata
  pub group_metadata : RoundTrips prost.group_metadata
  pub replica_desc : RoundTrips prost.replica_desc
