-- ===== src/Group/State.antt =====
-- oceanraft/src/state.rs, `GroupState`: what a group shares with the callers of its node. Each field
-- is an atomic of its own, read and written in one step.
use oceanraft.Common.{ℕ, Bool, true, false, ◌==◌, if◌then◌else◌, Outcome, ok, panic, ◌>>=◌}
use oceanraft.Types.Errors.{Error}

-- raft's `StateRole`.
pub data StateRole : Type 0 where
  follower pre_candidate candidate leader : StateRole

pub record GroupState : Type 0 where
  pub replica_id : ℕ
  pub commit_index : ℕ
  pub commit_term : ℕ
  pub leader_id : ℕ
  pub role : ℕ

-- `From<&StateRole> for WrapStateRole`
unfoldable pub role_number : StateRole → ℕ
role_number follower = 1
role_number pre_candidate = 2
role_number candidate = 3
role_number leader = 4

-- `Into<StateRole> for WrapStateRole`: another number is `unreachable!()`.
unfoldable pub role_of : ℕ → Outcome Error StateRole
role_of n =
    if n == 1
    then ok follower
    else if n == 2
    then ok pre_candidate
    else if n == 3
    then ok candidate
    else if n == 4
    then ok leader
    else panic

-- The derived `==` with `StateRole::Leader`.
abbrev pub is_leader_role : StateRole → Bool
is_leader_role leader = true
is_leader_role r = false

unfoldable pub new : GroupState
new = record { replica_id = 0; commit_index = 0; commit_term = 0; leader_id = 0; role = 0 }

unfoldable pub of_parts : ℕ → ℕ → ℕ → ℕ → StateRole → GroupState
unfolding role_number
of_parts replica_id commit_index commit_term leader_id role = record {
  replica_id = replica_id;
  commit_index = commit_index;
  commit_term = commit_term;
  leader_id = leader_id;
  role = role_number role;
}

unfoldable pub set_commit_index : ℕ → GroupState → GroupState
set_commit_index val s = record s { commit_index = val }

unfoldable pub set_commit_term : ℕ → GroupState → GroupState
set_commit_term val s = record s { commit_term = val }

unfoldable pub set_leader_id : ℕ → GroupState → GroupState
set_leader_id val s = record s { leader_id = val }

unfoldable pub set_role : StateRole → GroupState → GroupState
unfolding role_number
set_role role s = record s { role = role_number role }

unfoldable pub get_role : GroupState → Outcome Error StateRole
unfolding role_of
get_role s = role_of s.role

unfoldable pub is_leader : GroupState → Outcome Error Bool
unfolding get_role
is_leader s = do role ← get_role s; ok (is_leader_role role)
