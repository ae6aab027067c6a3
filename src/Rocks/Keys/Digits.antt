-- ===== src/Rocks/Keys/Digits.antt =====
-- oceanraft/src/storage/rocks.rs, `DBEnv`: what the printed numbers are.
use oceanraft.Common.{
  ℕ, zero, suc, ◌+◌, ◌-◌, ◌*◌, ◌^◌, ◌≤◌, ◌<◌, ◌≡◌, refl, ap, ◌∙◌, inl, inr, true, [], ◌∷◌, ◌++◌,
  ltb, length, length-append, All, All-append, Bool-cases, arith,
}
use Prim.Native.Nat.{◌/◌, ◌%◌}
use native.Mathlib.Numerals.{unary_clauses}
use oceanraft.Rocks.Keys.{Bytes, digits_within, digits, zeros, pad_left}

-- The number that a row of digits continues to.
abbrev pub value_from : ℕ → Bytes → ℕ
value_from acc [] = acc
value_from acc (d ∷ ds) = value_from (acc * 10 + (d - 48)) ds

abbrev pub IsDigit : ℕ → Type 0
IsDigit d = (48 ≤ d) × (d ≤ 57)

value_from-snoc :
    (acc : ℕ) (ds : Bytes) (d : ℕ)
    → value_from acc (ds ++ d ∷ []) ≡ value_from acc ds * 10 + (d - 48)
value_from-snoc acc [] d = refl
value_from-snoc acc (e ∷ ds) d = value_from-snoc (acc * 10 + (e - 48)) ds d

pow-suc : (fuel n : ℕ) → n < 10 ^ suc fuel → n / 10 < 10 ^ fuel
pow-suc fuel n h = let h' = simp unary_clauses at h in omega (arith, h')

pub value_from-digits_within :
    (fuel n : ℕ) → n < 10 ^ fuel → value_from 0 (digits_within fuel n) ≡ n
unfolding digits_within
value_from-digits_within zero n h = omega arith
value_from-digits_within (suc fuel) n h = elim (Bool-cases (ltb n 10)) [
  | inl t ↦ rw (digits_within, t) (omega arith)
  | inr f ↦
      let rest = value_from-digits_within fuel (n / 10) (pow-suc fuel n h) in
      rw (digits_within, f, value_from-snoc 0 (digits_within fuel (n / 10)) (48 + n % 10), rest)
        (omega arith)
]

pub length-digits_within : (fuel n : ℕ) → length (digits_within fuel n) ≤ fuel
unfolding digits_within
length-digits_within zero n = omega arith
length-digits_within (suc fuel) n = elim (Bool-cases (ltb n 10)) [
  | inl t ↦ rw (digits_within, t) (omega arith)
  | inr f ↦
      let rest = length-digits_within fuel (n / 10) in
      let joined = length-append (digits_within fuel (n / 10)) ((48 + n % 10) ∷ []) in
      rw (digits_within, f) (omega (arith, rest, joined))
]

pub digits_within-IsDigit : (fuel n : ℕ) → All IsDigit (digits_within fuel n)
unfolding digits_within
digits_within-IsDigit zero n = tt
digits_within-IsDigit (suc fuel) n = elim (Bool-cases (ltb n 10)) [
  | inl t ↦ rw (digits_within, t) ((omega arith, ground arith), tt)
  | inr f ↦
      let last : All IsDigit ((48 + n % 10) ∷ []) = ((omega arith, omega arith), tt) in
      let rest = digits_within-IsDigit fuel (n / 10) in
      rw (digits_within, f)
        (All-append IsDigit (digits_within fuel (n / 10)) ((48 + n % 10) ∷ []) rest last)
]

length-zeros : (n : ℕ) → length (zeros n) ≡ n
unfolding zeros
length-zeros zero = refl
length-zeros (suc n) = ap suc (length-zeros n)

zeros-IsDigit : (n : ℕ) → All IsDigit (zeros n)
unfolding zeros
zeros-IsDigit zero = tt
zeros-IsDigit (suc n) = ((omega arith, omega arith), zeros-IsDigit n)

value_from-zeros : (n : ℕ) (ds : Bytes) → value_from 0 (zeros n ++ ds) ≡ value_from 0 ds
unfolding zeros
value_from-zeros zero ds = refl
value_from-zeros (suc n) ds = value_from-zeros n ds

-- A number of up to twenty digits, printed and padded: its length, its digits, its value.
pub length-pad_left-digits : (n : ℕ) → length (pad_left 20 (digits n)) ≡ 20
unfolding pad_left digits
length-pad_left-digits n =
    let short = length-digits_within 20 n in
    let filled = length-zeros (20 - length (digits_within 20 n)) in
    length-append (zeros (20 - length (digits_within 20 n))) (digits_within 20 n) ∙ omega arith

pub pad_left-digits-IsDigit : (n : ℕ) → All IsDigit (pad_left 20 (digits n))
unfolding pad_left digits
pad_left-digits-IsDigit n =
    All-append IsDigit (zeros (20 - length (digits_within 20 n))) (digits_within 20 n)
      (zeros-IsDigit (20 - length (digits_within 20 n))) (digits_within-IsDigit 20 n)

pub value_from-digits : (n : ℕ) → n < 10 ^ 20 → value_from 0 (digits n) ≡ n
unfolding digits
value_from-digits n h = value_from-digits_within 20 n h

pub value_from-pad_left : (n : ℕ) → n < 10 ^ 20 → value_from 0 (pad_left 20 (digits n)) ≡ n
unfolding pad_left digits
value_from-pad_left n h =
    value_from-zeros (20 - length (digits_within 20 n)) (digits_within 20 n)
    ∙ value_from-digits_within 20 n h

pub digits-IsDigit : (n : ℕ) → All IsDigit (digits n)
unfolding digits
digits-IsDigit n = digits_within-IsDigit 20 n

length-digits_below : (fuel k n : ℕ) → n < 10 ^ suc k → length (digits_within fuel n) ≤ suc k
unfolding digits_within
length-digits_below zero k n h = omega arith
length-digits_below (suc fuel) zero n h =
    let small : ltb n 10 ≡ true = ground arith in rw (digits_within, small) (omega arith)
length-digits_below (suc fuel) (suc k) n h = elim (Bool-cases (ltb n 10)) [
  | inl t ↦ rw (digits_within, t) (omega arith)
  | inr f ↦
      let rest = length-digits_below fuel k (n / 10) (pow-suc (suc k) n h) in
      let joined = length-append (digits_within fuel (n / 10)) ((48 + n % 10) ∷ []) in
      rw (digits_within, f) (omega (arith, rest, joined))
]

-- A number below `10 ^ 19` has at most nineteen digits.
pub length-digits : (n : ℕ) → n < 10 ^ 19 → length (digits n) ≤ 19
unfolding digits
length-digits n h = length-digits_below 20 18 n h
