-- ===== src/Rocks/Keys/Order.antt =====
-- oceanraft/src/storage/rocks.rs, `DBEnv`: how the database orders the keys of the entries.
use oceanraft.Common.{
  ℕ, ◌+◌, ◌-◌, ◌*◌, ◌^◌, ◌<◌, ◌≡◌, refl, sym, ◌∙◌, inl, inr, true, false, [], ◌∷◌, ◌++◌, ltb, ◌==◌,
  length, All, Bool-cases, arith,
}
use oceanraft.Rocks.Keys.{
  Bytes, entry_prefix, underscore, digits, pad_left, format_entry_key, bytes_lt, same_bytes,
}
use oceanraft.Rocks.Keys.Digits.{
  value_from, IsDigit, length-pad_left-digits, pad_left-digits-IsDigit, value_from-pad_left,
}

value_from_mono :
    (a b : ℕ) (xs ys : Bytes)
    → a < b
    → length xs ≡ length ys
    → All IsDigit xs
    → All IsDigit ys
    → value_from a xs < value_from b ys
value_from_mono a b [] [] h l dx dy = h
value_from_mono a b [] (y ∷ ys) h l dx dy = absurd (omega arith)
value_from_mono a b (x ∷ xs) [] h l dx dy = absurd (omega arith)
value_from_mono a b (x ∷ xs) (y ∷ ys) h l dx dy =
    value_from_mono (a * 10 + (x - 48)) (b * 10 + (y - 48)) xs ys (omega (arith, dx.0.1))
      (omega arith) dx.1 dy.1

-- Rows of digits of one length stand in the order of their numbers.
bytes_lt-value_from :
    (a : ℕ) (xs ys : Bytes)
    → length xs ≡ length ys
    → All IsDigit xs
    → All IsDigit ys
    → bytes_lt xs ys ≡ ltb (value_from a xs) (value_from a ys)
bytes_lt-value_from a [] [] l dx dy = ground arith
bytes_lt-value_from a [] (y ∷ ys) l dx dy = absurd (omega arith)
bytes_lt-value_from a (x ∷ xs) [] l dx dy = absurd (omega arith)
bytes_lt-value_from a (x ∷ xs) (y ∷ ys) l dx dy = elim (Bool-cases (ltb x y)) [
  | inl h ↦
      let less : value_from a (x ∷ xs) < value_from a (y ∷ ys) =
        value_from_mono (a * 10 + (x - 48)) (a * 10 + (y - 48)) xs ys (ground (arith, dx.0, dy.0))
          (omega arith) dx.1 dy.1 in
      ground (arith, less)
  | inr h ↦ elim (Bool-cases (ltb y x)) [
    | inl h' ↦
        let more : value_from a (y ∷ ys) < value_from a (x ∷ xs) =
          value_from_mono (a * 10 + (y - 48)) (a * 10 + (x - 48)) ys xs (ground (arith, dx.0, dy.0))
            (omega arith) dy.1 dx.1 in
        ground (arith, more)
    | inr h' ↦
        let same : x ≡ y = ground arith in
        let rest = bytes_lt-value_from (a * 10 + (x - 48)) xs ys (omega arith) dx.1 dy.1 in
        rw (h, h', rest, same) refl
  ]
]

bytes_lt-prefix : (p xs ys : Bytes) → bytes_lt (p ++ xs) (p ++ ys) ≡ bytes_lt xs ys
bytes_lt-prefix [] xs ys = refl
bytes_lt-prefix (x ∷ p) xs ys =
    let e : ltb x x ≡ false = ground arith in rw (e, bytes_lt-prefix p xs ys) refl

-- The keys of one group stand in the order of the indexes.
pub format_entry_key-bytes_lt :
    (group_id i j : ℕ)
    → i < 10 ^ 20
    → j < 10 ^ 20
    → bytes_lt (format_entry_key group_id i) (format_entry_key group_id j) ≡ ltb i j
unfolding format_entry_key
format_entry_key-bytes_lt group_id i j hi hj =
    let a = pad_left 20 (digits i) in
    let b = pad_left 20 (digits j) in
    let l = length-pad_left-digits i ∙ sym (length-pad_left-digits j) in
    let order =
      bytes_lt-value_from 0 a b l (pad_left-digits-IsDigit i) (pad_left-digits-IsDigit j) in
    bytes_lt-prefix (entry_prefix ++ digits group_id ++ underscore) a b
    ∙ order
    ∙ rw (value_from-pad_left i hi, value_from-pad_left j hj) refl

same_bytes-bytes_lt : (xs ys : Bytes) → bytes_lt xs ys ≡ true → same_bytes xs ys ≡ false
same_bytes-bytes_lt [] [] h = cc
same_bytes-bytes_lt [] (y ∷ ys) h = refl
same_bytes-bytes_lt (x ∷ xs) [] h = refl
same_bytes-bytes_lt (x ∷ xs) (y ∷ ys) h = ground (arith, same_bytes-bytes_lt xs ys)

same_bytes-bytes_gt : (xs ys : Bytes) → bytes_lt ys xs ≡ true → same_bytes xs ys ≡ false
same_bytes-bytes_gt [] [] h = cc
same_bytes-bytes_gt [] (y ∷ ys) h = refl
same_bytes-bytes_gt (x ∷ xs) [] h = refl
same_bytes-bytes_gt (x ∷ xs) (y ∷ ys) h = ground (arith, same_bytes-bytes_gt xs ys)

pub same_bytes_refl : (xs : Bytes) → same_bytes xs xs ≡ true
same_bytes_refl [] = refl
same_bytes_refl (x ∷ xs) = ground (arith, same_bytes_refl xs)

-- Within one group the key tells the index.
pub same_bytes-format_entry_key :
    (group_id i j : ℕ)
    → i < 10 ^ 20
    → j < 10 ^ 20
    → same_bytes (format_entry_key group_id i) (format_entry_key group_id j) ≡ (i == j)
same_bytes-format_entry_key g i j hi hj = elim (Bool-cases (ltb i j)) [
  | inl h ↦
      let order = format_entry_key-bytes_lt g i j hi hj ∙ h in
      same_bytes-bytes_lt (format_entry_key g i) (format_entry_key g j) order ∙ ground arith
  | inr h ↦ elim (Bool-cases (ltb j i)) [
    | inl h' ↦
        let order = format_entry_key-bytes_lt g j i hj hi ∙ h' in
        same_bytes-bytes_gt (format_entry_key g i) (format_entry_key g j) order ∙ ground arith
    | inr h' ↦
        let same : i ≡ j = ground arith in
        rw same (same_bytes_refl (format_entry_key g j) ∙ ground arith)
  ]
]
