-- ===== src/Group/Tracked.antt =====
-- Which nodes a group tracks after a node is added or removed.
use oceanraft.Common.{
  ℕ, zero, suc, ◌+◌, ◌-◌, ◌≤◌, ◌<◌, ◌≡◌, refl, inl, inr, max, List, [], ◌∷◌, ◌++◌, none, some, ◌==◌,
  if◌then◌else◌, length, get_elem?, take, set, Bool-cases, Option-cases, get_elem?-some, arith,
}
use oceanraft.Group.Raft.{RaftGroup}
use oceanraft.Group.Track.{
  position, swap, add_node_id, remove_node_id, add_track_node, remove_track_node,
}

-- How often a node stands in the list.
abbrev pub one : ℕ → ℕ → ℕ
one n x = if n == x then 1 else 0

abbrev pub count : ℕ → List ℕ → ℕ
count n [] = 0
count n (x ∷ xs) = one n x + count n xs

count-snoc : (n x : ℕ) (xs : List ℕ) → count n (xs ++ x ∷ []) ≡ count n xs + one n x
count-snoc n x [] = omega arith
count-snoc n x (y ∷ xs) = omega (arith, count-snoc n x xs)

position-none : (n : ℕ) (xs : List ℕ) → position n xs ≡ none → count n xs ≡ 0
position-none n [] h = refl
position-none n (x ∷ xs) h = elim (Bool-cases (x == n)) [
  | inl same ↦ absurd (ground arith)
  | inr other ↦ elim (Option-cases (position n xs)) [
    | inl free ↦ ground (arith, position-none n xs free)
    | inr (i, at) ↦ absurd (ground arith)
  ]
]

-- The position is one of the list, and the node stands there.
position-some :
    (n i : ℕ) (xs : List ℕ)
    → position n xs ≡ some i
    → (get_elem? xs i ≡ some n) × (i < length xs) × (1 ≤ count n xs)
position-some n i [] h = absurd cc
position-some n i (x ∷ xs) h = elim (Bool-cases (x == n)) [
  | inl same ↦
      let e : x ≡ n = ground arith in
      let z : i ≡ zero = ground arith in rw (z, e) (refl, omega arith, ground arith)
  | inr other ↦ elim (Option-cases (position n xs)) [
    | inl free ↦ absurd (ground arith)
    | inr (j, at) ↦
        let s : i ≡ suc j = ground arith in
        let (found, bound, there) = position-some n j xs at in
        rw s (found, omega (arith, bound), ground (arith, there))
  ]
]

-- A write exchanges one element for another.
count-set :
    (n i a b : ℕ) (xs : List ℕ)
    → get_elem? xs i ≡ some a
    → count n (set xs i b) + one n a ≡ count n xs + one n b
count-set n i a b [] h = absurd cc
count-set n zero a b (x ∷ xs) h = let e : x ≡ a = cc in rw e (omega arith)
count-set n (suc i) a b (x ∷ xs) h = omega (arith, count-set n i a b xs h)

length-set : (i b : ℕ) (xs : List ℕ) → length (set xs i b) ≡ length xs
length-set i b [] = refl
length-set zero b (x ∷ xs) = refl
length-set (suc i) b (x ∷ xs) = omega (arith, length-set i b xs)

get_elem?-set :
    (i j b c : ℕ) (xs : List ℕ)
    → get_elem? xs j ≡ some c
    → get_elem? (set xs i b) j ≡ (if i == j then some b else some c)
get_elem?-set i j b c [] h = absurd cc
get_elem?-set zero zero b c (x ∷ xs) h = ground arith
get_elem?-set zero (suc j) b c (x ∷ xs) h = ground arith
get_elem?-set (suc i) zero b c (x ∷ xs) h = ground arith
get_elem?-set (suc i) (suc j) b c (x ∷ xs) h = ground (arith, get_elem?-set i j b c xs h)

-- To cut off the last element.
count-take :
    (n a l : ℕ) (xs : List ℕ)
    → length xs ≡ suc l
    → get_elem? xs l ≡ some a
    → count n (take l xs) + one n a ≡ count n xs
count-take n a l [] e h = absurd (omega arith)
count-take n a zero (x ∷ []) e h = let s : x ≡ a = cc in rw s (omega arith)
count-take n a zero (x ∷ y ∷ xs) e h = absurd (omega arith)
count-take n a (suc l) (x ∷ xs) e h = omega (arith, count-take n a l xs (omega arith) h)

swap_lem :
    (i j a b : ℕ) (xs : List ℕ)
    → get_elem? xs i ≡ some a
    → get_elem? xs j ≡ some b
    → swap i j xs ≡ set (set xs i b) j a
swap_lem i j a b xs at end = rw (swap, at, end) refl

remove_node_id-none : (n : ℕ) (xs : List ℕ) → position n xs ≡ none → remove_node_id n xs ≡ xs
unfolding remove_node_id
remove_node_id-none n xs free = rw (remove_node_id, free) refl

remove_node_id-some :
    (n i : ℕ) (xs : List ℕ)
    → position n xs ≡ some i
    → remove_node_id n xs ≡ take (length xs - 1) (swap i (length xs - 1) xs)
unfolding remove_node_id
remove_node_id-some n i xs at = rw (remove_node_id, at) refl

-- What `remove_node_id` makes of a node that is found at position `i`.
count-swap_cut :
    (n a i l b : ℕ) (xs : List ℕ)
    → length xs ≡ suc l
    → get_elem? xs i ≡ some a
    → get_elem? xs l ≡ some b
    → count n (take l (swap i l xs)) + one n a ≡ count n xs
count-swap_cut n a i l b xs e at end =
    let moved : get_elem? (set xs i b) l ≡ some b = ground (arith, get_elem?-set i l b b xs end) in
    let put : get_elem? (set (set xs i b) l a) l ≡ some a =
      ground (arith, get_elem?-set l l a b (set xs i b) moved) in
    let len : length (set (set xs i b) l a) ≡ suc l =
      omega (arith, length-set l a (set xs i b), length-set i b xs) in
    rw (swap_lem i l a b xs at end) (
      omega (
        arith,
        count-take n a l (set (set xs i b) l a) len put,
        count-set n l b a (set xs i b) moved,
        count-set n i a b xs at,
      ))

count-remove_node_id :
    (n m : ℕ) (xs : List ℕ)
    → count m (remove_node_id n xs) ≡ (if m == n then count m xs - 1 else count m xs)
count-remove_node_id n m xs = elim (Option-cases (position n xs)) [
  | inl free ↦ rw (remove_node_id-none n xs free) (ground (arith, position-none n xs free))
  | inr (i, at) ↦
      let (found, bound, there) = position-some n i xs at in
      let (b, end) = get_elem?-some xs (length xs - 1) (omega (arith, bound)) in
      rw (remove_node_id-some n i xs at) (
        ground (
          arith,
          count-swap_cut m n i (length xs - 1) b xs (omega (arith, bound)) found end,
          there,
        ))
]

-- Adding a node tracks it once if it was not tracked, and removing one takes it off once; every
-- other node is tracked as often as before, although the removal reorders the list.
pub track_node_lem :
    {N : Type 0} (n m : ℕ) (g : RaftGroup N)
    → (count m (add_track_node n g).node_ids
        ≡ (if m == n then max 1 (count m g.node_ids) else count m g.node_ids))
      × (count m (remove_track_node n g).node_ids
          ≡ (if m == n then count m g.node_ids - 1 else count m g.node_ids))
unfolding add_track_node remove_track_node add_node_id
track_node_lem n m g = (added, count-remove_node_id n m g.node_ids)
  where
    added :
        count m (add_node_id n g.node_ids)
        ≡ (if m == n then max 1 (count m g.node_ids) else count m g.node_ids)
    added = elim (Option-cases (position n g.node_ids)) [
      | inl free ↦ ground (arith, position-none n g.node_ids free, count-snoc m n g.node_ids)
      | inr (i, at) ↦ ground (arith, (position-some n i g.node_ids at).2)
    ]
