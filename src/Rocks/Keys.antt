-- ===== src/Rocks/Keys.antt =====
-- oceanraft/src/storage/rocks.rs, `DBEnv`: the keys of the database, as bytes. `digits` and
-- `pad_left` are what `{}` and `{:0>20}` print of a `u64`.
pub mod Digits
pub mod Order
pub mod Apart
use oceanraft.Common.{
  ℕ, zero, suc, ◌+◌, ◌-◌, Bool, true, false, List, [], ◌∷◌, ◌++◌, ltb, ◌==◌, if◌then◌else◌, length,
}
use Prim.Native.Nat.{◌/◌, ◌%◌}

abbrev pub Bytes : Type 0
Bytes = List ℕ

abbrev pub underscore : Bytes
underscore = 95 ∷ []

-- "hs", "cs", "applied_index", "snap_meta", "log_empty", "fidx", "lidx", "rd", "ent"
abbrev hard_state_prefix : Bytes
hard_state_prefix = 104 ∷ 115 ∷ []

abbrev conf_state_prefix : Bytes
conf_state_prefix = 99 ∷ 115 ∷ []

abbrev applied_index_prefix : Bytes
applied_index_prefix =
    97 ∷ 112 ∷ 112 ∷ 108 ∷ 105 ∷ 101 ∷ 100 ∷ 95 ∷ 105 ∷ 110 ∷ 100 ∷ 101 ∷ 120 ∷ []

abbrev log_snap_meta_prefix : Bytes
log_snap_meta_prefix = 115 ∷ 110 ∷ 97 ∷ 112 ∷ 95 ∷ 109 ∷ 101 ∷ 116 ∷ 97 ∷ []

abbrev log_empty_prefix : Bytes
log_empty_prefix = 108 ∷ 111 ∷ 103 ∷ 95 ∷ 101 ∷ 109 ∷ 112 ∷ 116 ∷ 121 ∷ []

abbrev log_first_index_prefix : Bytes
log_first_index_prefix = 102 ∷ 105 ∷ 100 ∷ 120 ∷ []

abbrev log_last_index_prefix : Bytes
log_last_index_prefix = 108 ∷ 105 ∷ 100 ∷ 120 ∷ []

abbrev pub replica_desc_prefix : Bytes
replica_desc_prefix = 114 ∷ 100 ∷ []

abbrev pub entry_prefix : Bytes
entry_prefix = 101 ∷ 110 ∷ 116 ∷ 95 ∷ []

-- Twenty steps are enough for a number of 64 bits.
unfoldable pub digits_within : ℕ → ℕ → Bytes
digits_within zero n = []
digits_within (suc fuel) n = elim (ltb n 10) [
  | true ↦ (48 + n) ∷ []
  | false ↦ digits_within fuel (n / 10) ++ (48 + n % 10) ∷ []
]

unfoldable pub digits : ℕ → Bytes
unfolding digits_within
digits n = digits_within 20 n

unfoldable pub zeros : ℕ → Bytes
zeros zero = []
zeros (suc n) = 48 ∷ zeros n

unfoldable pub pad_left : ℕ → Bytes → Bytes
unfolding zeros
pad_left width text = zeros (width - length text) ++ text

unfoldable pub format_hardstate_key : (group_id replica_id : ℕ) → Bytes
format_hardstate_key group_id replica_id =
    digits group_id ++ underscore ++ digits replica_id ++ underscore ++ hard_state_prefix

unfoldable pub format_confstate_key : (group_id replica_id : ℕ) → Bytes
format_confstate_key group_id replica_id =
    digits group_id ++ underscore ++ digits replica_id ++ underscore ++ conf_state_prefix

unfoldable pub format_empty_key : (group_id replica_id : ℕ) → Bytes
format_empty_key group_id replica_id =
    log_empty_prefix ++ underscore ++ digits group_id ++ underscore ++ digits replica_id

unfoldable pub format_first_index_key : (group_id replica_id : ℕ) → Bytes
format_first_index_key group_id replica_id =
    log_first_index_prefix ++ underscore ++ digits group_id ++ underscore ++ digits replica_id

unfoldable pub format_last_index_key : (group_id replica_id : ℕ) → Bytes
format_last_index_key group_id replica_id =
    log_last_index_prefix ++ underscore ++ digits group_id ++ underscore ++ digits replica_id

unfoldable pub format_entry_key_prefix : ℕ → Bytes
format_entry_key_prefix group_id = entry_prefix ++ digits group_id ++ underscore

unfoldable pub format_entry_key : (group_id index : ℕ) → Bytes
format_entry_key group_id index =
    entry_prefix ++ digits group_id ++ underscore ++ pad_left 20 (digits index)

unfoldable pub format_applied_key : ℕ → Bytes
format_applied_key group_id = applied_index_prefix ++ underscore ++ digits group_id

unfoldable pub format_snapshot_metadata_key : (group_id replica_id : ℕ) → Bytes
format_snapshot_metadata_key group_id replica_id =
    log_snap_meta_prefix ++ underscore ++ digits group_id ++ underscore ++ digits replica_id

unfoldable pub format_replica_desc_key : (group_id replica_id : ℕ) → Bytes
format_replica_desc_key group_id replica_id =
    replica_desc_prefix
    ++ underscore
    ++ pad_left 20 (digits group_id)
    ++ underscore
    ++ pad_left 20 (digits replica_id)

unfoldable pub format_replica_desc_seek_key : Bytes
format_replica_desc_seek_key = replica_desc_prefix ++ underscore

unfoldable pub format_group_replica_desc_seek_key : ℕ → Bytes
format_group_replica_desc_seek_key group_id =
    replica_desc_prefix ++ underscore ++ digits group_id ++ underscore

-- The order of the database on its keys, byte by byte.
abbrev pub bytes_lt : Bytes → Bytes → Bool
bytes_lt [] [] = false
bytes_lt [] (y ∷ ys) = true
bytes_lt (x ∷ xs) [] = false
bytes_lt (x ∷ xs) (y ∷ ys) = if ltb x y then true else if ltb y x then false else bytes_lt xs ys

abbrev pub same_bytes : Bytes → Bytes → Bool
same_bytes [] [] = true
same_bytes [] (y ∷ ys) = false
same_bytes (x ∷ xs) [] = false
same_bytes (x ∷ xs) (y ∷ ys) = if x == y then same_bytes xs ys else false
