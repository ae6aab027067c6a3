-- ===== src/Common/Action.antt =====
-- A call that works on a state and may fail: what it changed before it failed stays changed.
use oceanraft.Common.Control.{Outcome, ok, err, panic}

abbrev pub Action : Type 0 → Type 0 → Type 0 → Type 0
Action S E A = S → S × Outcome E A

-- How a chain goes on after a call: an error or a panic ends it.
abbrev pub and_then : {S E A B : Type 0} → S × Outcome E A → (A → Action S E B) → S × Outcome E B
and_then (s, ok a) f = f a s
and_then (s, err e) f = (s, err e)
and_then (s, panic) f = (s, panic)

-- The operator `?`.
infixl 5 ◌>>=◌
abbrev pub ◌>>=◌ : {S E A B : Type 0} → Action S E A → (A → Action S E B) → Action S E B
(m >>= f) s = and_then (m s) f

abbrev pub lift : {S E A : Type 0} → Outcome E A → Action S E A
lift o s = (s, o)

-- `map_err`
abbrev pub map_error : {S E F A : Type 0} → (E → F) → S × Outcome E A → S × Outcome F A
map_error f (s, ok a) = (s, ok a)
map_error f (s, err e) = (s, err (f e))
map_error f (s, panic) = (s, panic)

abbrev pub or_err : {S E F A : Type 0} → (E → F) → Action S E A → Action S F A
or_err f m s = map_error f (m s)

-- `unwrap`
abbrev pub unwrap_result : {S E F A : Type 0} → S × Outcome E A → S × Outcome F A
unwrap_result (s, ok a) = (s, ok a)
unwrap_result (s, err e) = (s, panic)
unwrap_result (s, panic) = (s, panic)

abbrev pub unwrap : {S E F A : Type 0} → Action S E A → Action S F A
unwrap m s = unwrap_result (m s)
