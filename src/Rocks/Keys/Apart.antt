-- ===== src/Rocks/Keys/Apart.antt =====
-- oceanraft/src/storage/rocks.rs, `DBEnv`: the keys of the log's column family are told apart.
use oceanraft.Common.{ℕ, ◌≡◌, ◌<◌, refl, false, [], ◌∷◌, ◌++◌, All, arith}
use oceanraft.Rocks.Keys.Digits.{IsDigit, digits-IsDigit}
use oceanraft.Rocks.Keys.{
  Bytes, digits, underscore, format_hardstate_key, format_confstate_key,
  format_snapshot_metadata_key, format_empty_key, format_first_index_key, format_last_index_key,
  format_entry_key, bytes_lt, same_bytes,
}

module _ (g i g' r : ℕ) where
  pub entry_empty : same_bytes (format_entry_key g i) (format_empty_key g' r) ≡ false
  unfolding format_entry_key format_empty_key
  entry_empty = refl

  pub entry_first : same_bytes (format_entry_key g i) (format_first_index_key g' r) ≡ false
  unfolding format_entry_key format_first_index_key
  entry_first = refl

  pub entry_last : same_bytes (format_entry_key g i) (format_last_index_key g' r) ≡ false
  unfolding format_entry_key format_last_index_key
  entry_last = refl

  pub empty_entry : same_bytes (format_empty_key g' r) (format_entry_key g i) ≡ false
  unfolding format_entry_key format_empty_key
  empty_entry = refl

  pub first_entry : same_bytes (format_first_index_key g' r) (format_entry_key g i) ≡ false
  unfolding format_entry_key format_first_index_key
  first_entry = refl

  pub last_entry : same_bytes (format_last_index_key g' r) (format_entry_key g i) ≡ false
  unfolding format_entry_key format_last_index_key
  last_entry = refl

  -- The other keys stand behind every entry, so that no range of entries holds them.
  pub empty_behind : bytes_lt (format_empty_key g' r) (format_entry_key g i) ≡ false
  unfolding format_entry_key format_empty_key
  empty_behind = refl

  pub first_behind : bytes_lt (format_first_index_key g' r) (format_entry_key g i) ≡ false
  unfolding format_entry_key format_first_index_key
  first_behind = refl

  pub last_behind : bytes_lt (format_last_index_key g' r) (format_entry_key g i) ≡ false
  unfolding format_entry_key format_last_index_key
  last_behind = refl

module _ (g r : ℕ) where
  pub first_empty : same_bytes (format_first_index_key g r) (format_empty_key g r) ≡ false
  unfolding format_first_index_key format_empty_key
  first_empty = refl

  pub last_empty : same_bytes (format_last_index_key g r) (format_empty_key g r) ≡ false
  unfolding format_last_index_key format_empty_key
  last_empty = refl

  pub empty_first : same_bytes (format_empty_key g r) (format_first_index_key g r) ≡ false
  unfolding format_first_index_key format_empty_key
  empty_first = refl

  pub last_first : same_bytes (format_last_index_key g r) (format_first_index_key g r) ≡ false
  unfolding format_last_index_key format_first_index_key
  last_first = refl

module _ (x : ℕ) (xs : Bytes) (letter : 95 < x) where
  letter_number :
      (ds a b c : Bytes)
      → All IsDigit ds
      → same_bytes (x ∷ xs) (ds ++ underscore ++ a ++ b ++ c) ≡ false
  letter_number [] a b c h = ground arith
  letter_number (d ∷ ds) a b c h = ground (arith, h.0)

  number_letter :
      (ds a b c : Bytes)
      → All IsDigit ds
      → same_bytes (ds ++ underscore ++ a ++ b ++ c) (x ∷ xs) ≡ false
  number_letter [] a b c h = ground arith
  number_letter (d ∷ ds) a b c h = ground (arith, h.0)

module _ (g r : ℕ) where
  pub meta_hardstate :
      same_bytes (format_snapshot_metadata_key g r) (format_hardstate_key g r) ≡ false
  unfolding format_snapshot_metadata_key format_hardstate_key
  meta_hardstate =
      letter_number 115
        (110
          ∷ 97
          ∷ 112
          ∷ 95
          ∷ 109
          ∷ 101
          ∷ 116
          ∷ 97
          ∷ (underscore ++ digits g ++ underscore ++ digits r))
        (omega arith) (digits g) (digits r) underscore _ (digits-IsDigit g)

  pub hardstate_meta :
      same_bytes (format_hardstate_key g r) (format_snapshot_metadata_key g r) ≡ false
  unfolding format_snapshot_metadata_key format_hardstate_key
  hardstate_meta =
      number_letter 115 _ (omega arith) (digits g) (digits r) underscore _ (digits-IsDigit g)

  pub confstate_meta :
      same_bytes (format_confstate_key g r) (format_snapshot_metadata_key g r) ≡ false
  unfolding format_snapshot_metadata_key format_confstate_key
  confstate_meta =
      number_letter 115 _ (omega arith) (digits g) (digits r) underscore _ (digits-IsDigit g)
