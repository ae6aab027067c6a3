-- ===== src/Storage/Mem/Contiguous.antt =====
-- Runs of log entries whose indices follow one another.
use oceanraft.Common.{
  ℕ, zero, suc, ◌+◌, ◌≡◌, refl, List, [], ◌∷◌, ◌++◌, some, length, get_elem?, take, drop, last,
  arith,
}
use oceanraft.Types.{Entry}

-- The indices count up from `i`.
abbrev pub Contiguous : ℕ → List Entry → Type 0
Contiguous i [] = Unit
Contiguous i (e ∷ es) = (e.index ≡ i) × Contiguous (suc i) es

pub Contiguous-append :
    (i j : ℕ) (xs ys : List Entry)
    → Contiguous i xs
    → Contiguous j ys
    → j ≡ i + length xs
    → Contiguous i (xs ++ ys)
Contiguous-append i j [] ys hx hy e = let e' : j ≡ i = omega arith in rw (e') at hy
Contiguous-append i j (x ∷ xs) ys hx hy e =
    (hx.0, Contiguous-append (suc i) j xs ys hx.1 hy (omega arith))

pub take-Contiguous : (i n : ℕ) (xs : List Entry) → Contiguous i xs → Contiguous i (take n xs)
take-Contiguous i zero xs h = tt
take-Contiguous i (suc n) [] h = tt
take-Contiguous i (suc n) (x ∷ xs) h = (h.0, take-Contiguous (suc i) n xs h.1)

pub drop-Contiguous : (i n : ℕ) (xs : List Entry) → Contiguous i xs → Contiguous (i + n) (drop n xs)
drop-Contiguous i zero xs h = let e : i + zero ≡ i = omega arith in rw e h
drop-Contiguous i (suc n) [] h = tt
drop-Contiguous i (suc n) (x ∷ xs) h =
    let e : i + suc n ≡ suc i + n = omega arith in rw e (drop-Contiguous (suc i) n xs h.1)

pub index-Contiguous :
    (i k : ℕ) (xs : List Entry) (e : Entry)
    → Contiguous i xs
    → get_elem? xs k ≡ some e
    → e.index ≡ i + k
index-Contiguous i k [] e h g = cc
index-Contiguous i zero (x ∷ xs) e h g = ground arith
index-Contiguous i (suc k) (x ∷ xs) e h g = omega (arith, index-Contiguous (suc i) k xs e h.1 g)

-- The last entry of a run ends it.
pub last-Contiguous :
    (i : ℕ) (x : Entry) (xs : List Entry)
    → Contiguous i (x ∷ xs)
    → (e : Entry) × (last (x ∷ xs) ≡ some e) × (e.index + 1 ≡ i + length (x ∷ xs))
last-Contiguous i x [] h = (x, refl, omega arith)
last-Contiguous i x (y ∷ ys) h =
    let (e, found, ends) = last-Contiguous (suc i) y ys h.1 in (e, found, omega (arith, ends))
