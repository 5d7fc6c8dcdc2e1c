-- ===== src/Governance/Proposals.antt =====
-- Creating and reading proposals: createProposal, registerProposalOnChain, getProposalById and
-- checkExpiry of governance.service.ts.
use Prim.Native.String.{String}
use water_credits_backend.Prelude.{
  ℕ, ◌+◌, ◌*◌, Bool, ◌&&◌, Option, none, some, ltb, ◌==◌, or_else, ok, not_found, Action, ◌>>=◌,
  ◌>>◌, gets, modify, require, if◌then◌else◌, count_where, update_where, find_id, save,
}
use water_credits_backend.Governance.Entities.{
  GovernanceConfig, active, expired, is_active, Proposal, Proposal-entity, Db,
}
use water_credits_backend.Governance.Config.{get_config}

-- What StellarService.execute resolves to; a missing result has neither hash.
pub record ExecuteResult : Type 0 where
  pub tx_hash : Option String
  pub hash : Option String

-- The calls of StellarService that governance makes, as the answers that it gets: `none` is an
-- exception. A contract id that is not configured is `none`.
pub record Chain : Type 0 where
  pub contract : Option ℕ
  pub create_proposal : ℕ → String → String → String → String → Option ℕ
  pub execute : ℕ → ℕ → Option ExecuteResult

pub record CreateProposalDto : Type 0 where
  pub title : String
  pub description : Option String
  pub action_type : String
  pub action_params : Option String

abbrev pub is_open : Proposal → Bool
is_open p = is_active p.status

-- The conditional UPDATE of checkExpiry, then the entity, which follows if a row was affected.
unfoldable pub check_expiry : ℕ → Proposal → Db → Proposal × Db
check_expiry now p db =
    if is_open p && ltb p.deadline now
    then (
      (if count_where (λ q. q.id == p.id && is_open q) db.proposals == 0
          then p
          else record p { status = expired }),
      record db {
        proposals =
            update_where (λ q. q.id == p.id && is_open q) (λ q. record q { status = expired })
              db.proposals;
      },
    )
    else (p, db)

unfoldable pub get_proposal_by_id : ℕ → ℕ → Action Db Proposal
unfolding check_expiry
get_proposal_by_id now id = do
  found ← gets (λ db. find_id id db.proposals)
  proposal ← require found not_found
  λ db. let (p, db') = check_expiry now proposal db in (ok p, db')

unfoldable pub register_proposal_on_chain : Chain → Proposal → Option ℕ
register_proposal_on_chain chain p = elim chain.contract [
  | none ↦ none
  | some contract ↦
      chain.create_proposal contract p.title (or_else p.description "") p.action_type
        (or_else p.action_params "{}")
]

-- The deadline is `votingPeriod` seconds from now; `id` is the generated UUID.
abbrev pub new_proposal : ℕ → ℕ → GovernanceConfig → ℕ → CreateProposalDto → Proposal
new_proposal id now config proposer dto = record {
  id = id;
  proposer = proposer;
  title = dto.title;
  description = dto.description;
  action_type = dto.action_type;
  action_params = dto.action_params;
  votes_for = 0;
  votes_against = 0;
  status = active;
  deadline = now + config.voting_period * 1000;
  on_chain_proposal_id = none;
  execution_tx_hash = none;
  executed_by = none;
  executed_at = none;
  created_at = now;
}

unfoldable pub save_proposal : Proposal → Db → Db
save_proposal p db = record db { proposals = save p db.proposals }

-- The second save, where the registration gave an id.
unfoldable pub save_registered : Option ℕ → Proposal → Action Db Proposal
unfolding save_proposal
save_registered none saved db = (ok saved, db)
save_registered (some n) saved db =
    let registered = record saved { on_chain_proposal_id = some n } in
    (ok registered, save_proposal registered db)

unfoldable pub create_proposal : Chain → ℕ → ℕ → ℕ → CreateProposalDto → Action Db Proposal
unfolding save_registered
create_proposal chain id now proposer dto = do
  config ← get_config
  let saved = new_proposal id now config proposer dto
  modify (save_proposal saved)
  save_registered (register_proposal_on_chain chain saved) saved
