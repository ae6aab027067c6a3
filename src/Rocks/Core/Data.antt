-- ===== src/Rocks/Core/Data.antt =====
-- oceanraft/src/storage/rocks.rs: the numbers and flags that are stored read back.
use oceanraft.Common.{
  ℕ, zero, suc, ◌+◌, ◌*◌, ◌^◌, ◌<◌, ◌≡◌, refl, ◌∙◌, Bool, true, false, [], ◌∷◌, ◌++◌, length,
  length-append, ok, arith,
}
use Prim.Native.Nat.{◌/◌, ◌%◌}
use native.Mathlib.Numerals.{unary_clauses}
use oceanraft.Rocks.Keys.{Bytes}
use oceanraft.Rocks.Core.{be_bytes, be_value, to_be_bytes, from_be_bytes, flag_text, parse_flag}

be_value-snoc :
    (acc : ℕ) (bs : Bytes) (b : ℕ) → be_value acc (bs ++ b ∷ []) ≡ be_value acc bs * 256 + b
unfolding be_value
be_value-snoc acc [] b = refl
be_value-snoc acc (x ∷ bs) b = be_value-snoc (acc * 256 + x) bs b

be_value-be_bytes : (width n : ℕ) → n < 256 ^ width → be_value 0 (be_bytes width n) ≡ n
unfolding be_bytes be_value
be_value-be_bytes zero n h = omega arith
be_value-be_bytes (suc width) n h =
    let h' = simp unary_clauses at h in
    be_value-snoc 0 (be_bytes width (n / 256)) (n % 256)
    ∙ omega (arith, be_value-be_bytes width (n / 256) (omega (arith, h')))

length-be_bytes : (width n : ℕ) → length (be_bytes width n) ≡ width
unfolding be_bytes
length-be_bytes zero n = refl
length-be_bytes (suc width) n =
    length-append (be_bytes width (n / 256)) (n % 256 ∷ [])
    ∙ omega (arith, length-be_bytes width (n / 256))

-- A number of 64 bits is read back from its eight bytes.
pub from_be_bytes-to_be_bytes :
    {E : Type 0} (n : ℕ) → n < 2 ^ 64 → from_be_bytes {E = E} (to_be_bytes n) ≡ ok n
unfolding from_be_bytes to_be_bytes
from_be_bytes-to_be_bytes n h =
    rw (length-be_bytes 8 n, be_value-be_bytes 8 n (omega (arith, h))) refl

pub parse_flag-flag_text :
    {E : Type 0} (flag : Bool) → parse_flag {E = E} (flag_text flag) ≡ ok flag
unfolding parse_flag flag_text
parse_flag-flag_text true = refl
parse_flag-flag_text false = refl
