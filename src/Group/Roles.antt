-- ===== src/Group/Roles.antt =====
-- The role of a group, as the callers of the node read it from oceanraft/src/state.rs.
use oceanraft.Common.{
  ℕ, ◌≡◌, ◌≢◌, ◌⊎◌, inl, inr, refl, Bool, false, ◌==◌, Bool-cases, Outcome, ok, panic, arith,
}
use oceanraft.Types.Errors.{Error}
use oceanraft.Group.State.{
  StateRole, follower, pre_candidate, candidate, leader, GroupState, role_number, role_of, set_role,
  get_role, is_leader, is_leader_role,
}

-- The ways in which asking for the leadership can end.
pub data LeaderRead (s : GroupState) : Outcome Error Bool → Type 0 where
  known : (role : StateRole) → s.role ≡ role_number role → LeaderRead s (ok (is_leader_role role))
  unset : ((role : StateRole) → s.role ≢ role_number role) → LeaderRead s panic

number_ends :
    (n : ℕ)
    → ((role : StateRole) × (n ≡ role_number role) × (role_of n ≡ ok role))
      ⊎ (((role : StateRole) → n ≢ role_number role) × (role_of n ≡ panic))
unfolding role_number role_of
number_ends n = elim (Bool-cases (n == 1)) [
  | inl h ↦ inl (follower, ground arith, ground arith)
  | inr h₁ ↦ elim (Bool-cases (n == 2)) [
    | inl h ↦ inl (pre_candidate, ground arith, ground arith)
    | inr h₂ ↦ elim (Bool-cases (n == 3)) [
      | inl h ↦ inl (candidate, ground arith, ground arith)
      | inr h₃ ↦ elim (Bool-cases (n == 4)) [
        | inl h ↦ inl (leader, ground arith, ground arith)
        | inr h₄ ↦ inr (other h₁ h₂ h₃ h₄, ground arith)
      ]
    ]
  ]
]
  where
    other :
        (n == 1) ≡ false
        → (n == 2) ≡ false
        → (n == 3) ≡ false
        → (n == 4) ≡ false
        → (role : StateRole) → n ≢ role_number role
    other h₁ h₂ h₃ h₄ follower = ground arith
    other h₁ h₂ h₃ h₄ pre_candidate = ground arith
    other h₁ h₂ h₃ h₄ candidate = ground arith
    other h₁ h₂ h₃ h₄ leader = ground arith

-- Asking whether the group leads tells the role that was stored, whichever it was, and panics when
-- none was stored, as in a state that is new.
pub is_leader_lem : (s : GroupState) → LeaderRead s (is_leader s)
unfolding is_leader get_role
is_leader_lem s = elim (number_ends s.role) [
  | inl (role, e, r) ↦ rw r (known role e)
  | inr (ne, r) ↦ rw r (unset ne)
]

-- The role that is stored last is the role that is read, and the rest of the state stays.
pub set_role-get_role :
    (role : StateRole) (s : GroupState)
    → (get_role (set_role role s) ≡ ok role)
      × (is_leader (set_role role s) ≡ ok (is_leader_role role))
      × (record (set_role role s) { role = s.role } ≡ s)
unfolding set_role get_role is_leader role_of role_number
set_role-get_role follower s = (refl, refl, refl)
set_role-get_role pre_candidate s = (refl, refl, refl)
set_role-get_role candidate s = (refl, refl, refl)
set_role-get_role leader s = (refl, refl, refl)
