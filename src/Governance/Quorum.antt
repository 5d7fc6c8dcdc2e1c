-- ===== src/Governance/Quorum.antt =====
-- GovernanceService.evaluateQuorum and resolveEligibleCount. Vote counts and products stay below
-- 2 ^ 53, where JavaScript's arithmetic is exact.
pub mod Turnout
use water_credits_backend.Prelude.{
  ℕ, ◌+◌, ◌*◌, ◌/◌, Bool, ◌||◌, Option, none, some, List, leb, if◌then◌else◌, Action, pure, gets,
}
use water_credits_backend.Users.{User, count_eligible}
use water_credits_backend.Governance.Entities.{GovernanceConfig, Db}

pub data QuorumMode : Type 0 where
  percentage absolute : QuorumMode

pub record QuorumResult : Type 0 where
  pub quorum_met : Bool
  pub mode : QuorumMode
  pub turnout_basis_points : Option ℕ

unfoldable pub evaluate_quorum : ℕ → ℕ → GovernanceConfig → ℕ → QuorumResult
evaluate_quorum votes_for votes_against config eligible_count =
    let total_votes = votes_for + votes_against in
    if leb config.quorum_basis_points 0 || leb eligible_count 0
    then record {
      quorum_met = leb config.quorum total_votes;
      mode = absolute;
      turnout_basis_points = none;
    }
    else record {
      quorum_met = leb (eligible_count * config.quorum_basis_points) (total_votes * 10000);
      mode = percentage;
      turnout_basis_points = some ((total_votes * 10000) / eligible_count);
    }

unfoldable pub resolve_eligible_count : GovernanceConfig → Db → ℕ
unfolding count_eligible
resolve_eligible_count config db =
    if leb config.quorum_basis_points 0 then 0 else count_eligible db.users
