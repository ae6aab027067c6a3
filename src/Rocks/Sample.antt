-- ===== src/Rocks/Sample.antt =====
-- A database in memory and a serializer, on which the definitions about
-- oceanraft/src/storage/rocks.rs can be run. Not a model of RocksDB or of prost.
use oceanraft.Common.{
  ℕ, zero, suc, ◌≡◌, refl, ap, Bool, true, false, ◌&&◌, if◌then◌else◌, List, [], ◌∷◌, ◌++◌, map,
  Option, some, none, length, take, drop, Outcome, ok, err,
}
use oceanraft.Types.{
  Entry, EntryType, entry_normal, entry_conf_change, entry_conf_change_v2, HardState, ConfState,
  SnapshotMetadata, GroupMetadata, ReplicaDesc,
}
use oceanraft.Rocks.Errors.{RocksdbErrorKind}
use oceanraft.Rocks.Keys.{Bytes, bytes_lt, same_bytes}
use oceanraft.Rocks.Db.{
  Cf, same_cf, RocksDb, IsRocksDb, Prost, IsProst, put_value, write_value, delete_value,
}

abbrev pub State : Type 0
State = Cf → Bytes → Option Bytes

abbrev pub no_keys : State
no_keys cf key = none

-- Every iterator yields the same items.
abbrev pub database : List (Outcome RocksdbErrorKind (Bytes × Bytes)) → RocksDb State
database items = record {
  get = λ cf key s. (s, ok (s cf key));
  multi_get = λ cf keys s. (s, map (λ key. ok (s cf key)) keys);
  iterate = λ cf start s. (s, items);
  put = λ p s. (λ cf key. put_value p cf key (s cf key), ok tt);
  delete = λ cf' deleted s.
      (λ cf key. if same_cf cf' cf && same_bytes deleted key then none else s cf key, ok tt);
  delete_range = λ cf' start last s.
      if bytes_lt start last
      then (λ cf key. delete_value cf' start last cf key (s cf key), ok tt)
      else (s, err RocksdbErrorKind.invalid_argument);
  write = λ ps s. (λ cf key. write_value ps cf key (s cf key), ok tt);
}

abbrev pub database-IsRocksDb :
    (items : List (Outcome RocksdbErrorKind (Bytes × Bytes))) → IsRocksDb (database items)
database-IsRocksDb items = record {
  Working = λ s. Unit;
  view = λ s cf key. s cf key;
  after_put = λ p s cf key. put_value p cf key (s cf key);
  after_delete_key =
      λ cf' deleted s cf key. if same_cf cf' cf && same_bytes deleted key then none else s cf key;
  delete_lem = λ cf key s w. refl;
  delete_key-Working = λ cf key s w. tt;
  view_delete_key = λ cf' deleted s cf key. refl;
  after_delete = λ cf' start last s cf key. delete_value cf' start last cf key (s cf key);
  after_write = λ ps s cf key. write_value ps cf key (s cf key);
  get_lem = λ cf key s w. refl;
  multi_get_lem = λ cf keys s w. refl;
  put_lem = λ p s w. refl;
  delete_range_lem = λ cf start last s w h. rw h refl;
  write_lem = λ ps s w. refl;
  put-Working = λ p s w. tt;
  delete-Working = λ cf start last s w. tt;
  write-Working = λ ps s w. tt;
  view_put = λ p s cf key. refl;
  view_delete = λ cf' start last s cf key. refl;
  view_write = λ ps s cf key. refl;
}

take-append : (xs ys : Bytes) → take (length xs) (xs ++ ys) ≡ xs
take-append [] ys = refl
take-append (x ∷ xs) ys = ap (◌∷◌ x) (take-append xs ys)

drop-append : (xs ys : Bytes) → drop (length xs) (xs ++ ys) ≡ ys
drop-append [] ys = refl
drop-append (x ∷ xs) ys = drop-append xs ys

take-all : (xs : Bytes) → take (length xs) xs ≡ xs
take-all [] = refl
take-all (x ∷ xs) = ap (◌∷◌ x) (take-all xs)

abbrev bit : Bool → ℕ
bit true = 1
bit false = 0

abbrev is_bit : ℕ → Bool
is_bit zero = false
is_bit (suc n) = true

is_bit-bit : (b : Bool) → is_bit (bit b) ≡ b
is_bit-bit true = refl
is_bit-bit false = refl

abbrev type_code : EntryType → ℕ
type_code entry_normal = 0
type_code entry_conf_change = 1
type_code entry_conf_change_v2 = 2

abbrev type_of : ℕ → EntryType
type_of zero = entry_normal
type_of (suc zero) = entry_conf_change
type_of (suc (suc n)) = entry_conf_change_v2

type_of-type_code : (t : EntryType) → type_of (type_code t) ≡ t
type_of-type_code entry_normal = refl
type_of-type_code entry_conf_change = refl
type_of-type_code entry_conf_change_v2 = refl

abbrev encode_entry : Entry → Bytes
encode_entry e =
    type_code e.entry_type
    ∷ e.term
    ∷ e.index
    ∷ bit e.sync_log
    ∷ length e.payload
    ∷ (e.payload ++ e.context)

abbrev decode_entry : Bytes → Option Entry
decode_entry (t ∷ term ∷ index ∷ b ∷ n ∷ bytes) = some (record {
  entry_type = type_of t;
  term = term;
  index = index;
  payload = take n bytes;
  context = drop n bytes;
  sync_log = is_bit b;
})
decode_entry _ = none

abbrev encode_conf : ConfState → Bytes
encode_conf cs =
    bit cs.auto_leave
    ∷ length cs.voters
    ∷ length cs.learners
    ∷ length cs.voters_outgoing
    ∷ (cs.voters ++ (cs.learners ++ (cs.voters_outgoing ++ cs.learners_next)))

abbrev decode_conf : Bytes → Option ConfState
decode_conf (b ∷ l ∷ m ∷ n ∷ bytes) = some (record {
  voters = take l bytes;
  learners = take m (drop l bytes);
  voters_outgoing = take n (drop m (drop l bytes));
  learners_next = drop n (drop m (drop l bytes));
  auto_leave = is_bit b;
})
decode_conf _ = none

abbrev with_conf : ℕ → ℕ → Option ConfState → Option SnapshotMetadata
with_conf index term none = none
with_conf index term (some cs) = some (record { conf_state = cs; index = index; term = term })

abbrev decode_metadata : Bytes → Option SnapshotMetadata
decode_metadata (index ∷ term ∷ bytes) = with_conf index term (decode_conf bytes)
decode_metadata _ = none

abbrev decode_hard_state : Bytes → Option HardState
decode_hard_state (term ∷ vote ∷ commit ∷ bytes) =
    some (record { term = term; vote = vote; commit = commit })
decode_hard_state _ = none

abbrev decode_group_metadata : Bytes → Option GroupMetadata
decode_group_metadata (g ∷ r ∷ n ∷ l ∷ t ∷ b ∷ bytes) = some (record {
  group_id = g;
  replica_id = r;
  node_id = n;
  leader_id = l;
  create_timestamp = t;
  deleted = is_bit b;
})
decode_group_metadata _ = none

abbrev decode_replica_desc : Bytes → Option ReplicaDesc
decode_replica_desc (n ∷ g ∷ r ∷ bytes) =
    some (record { node_id = n; group_id = g; replica_id = r })
decode_replica_desc _ = none

abbrev pub prost : Prost
prost = record {
  entry = record { encode = encode_entry; decode = decode_entry };
  hard_state = record {
    encode = λ hs. hs.term ∷ hs.vote ∷ hs.commit ∷ [];
    decode = decode_hard_state;
  };
  conf_state = record { encode = encode_conf; decode = decode_conf };
  metadata = record {
    encode = λ meta. meta.index ∷ meta.term ∷ encode_conf meta.conf_state;
    decode = decode_metadata;
  };
  group_metadata = record {
    encode = λ m.
        m.group_id
        ∷ m.replica_id
        ∷ m.node_id
        ∷ m.leader_id
        ∷ m.create_timestamp
        ∷ bit m.deleted
        ∷ [];
    decode = decode_group_metadata;
  };
  replica_desc = record {
    encode = λ d. d.node_id ∷ d.group_id ∷ d.replica_id ∷ [];
    decode = decode_replica_desc;
  };
}

conf-RoundTrips : (cs : ConfState) → decode_conf (encode_conf cs) ≡ some cs
conf-RoundTrips cs =
    rw
      (
        is_bit-bit cs.auto_leave,
        take-append cs.voters (cs.learners ++ (cs.voters_outgoing ++ cs.learners_next)),
        drop-append cs.voters (cs.learners ++ (cs.voters_outgoing ++ cs.learners_next)),
        take-append cs.learners (cs.voters_outgoing ++ cs.learners_next),
        drop-append cs.learners (cs.voters_outgoing ++ cs.learners_next),
        take-append cs.voters_outgoing cs.learners_next,
        drop-append cs.voters_outgoing cs.learners_next,
      )
      refl

pub prost-IsProst : IsProst prost
prost-IsProst = record {
  entry = λ e.
      rw
        (
          type_of-type_code e.entry_type,
          is_bit-bit e.sync_log,
          take-append e.payload e.context,
          drop-append e.payload e.context,
        )
        refl;
  hard_state = λ hs. refl;
  conf_state = conf-RoundTrips;
  metadata = λ meta. ap (with_conf meta.index meta.term) (conf-RoundTrips meta.conf_state);
  group_metadata = λ m. rw (is_bit-bit m.deleted) refl;
  replica_desc = λ d. refl;
}
