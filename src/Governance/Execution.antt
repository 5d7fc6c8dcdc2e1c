-- ===== src/Governance/Execution.antt =====
-- GovernanceService.executeProposal.
pub mod Guards
use Prim.Native.String.{String}
use water_credits_backend.Prelude.{
  ℕ, ◌+◌, ◌*◌, Bool, true, false, ◌&&◌, not, Option, none, some, ltb, or_else, Result, ok, err,
  bad_request, forbidden, not_found, internal_error, Action, ◌>>=◌, ◌>>◌, gets, modify, require,
  pure, throw_if, if◌then◌else◌, find_id, update_id,
}
use water_credits_backend.Users.{count_eligible}
use water_credits_backend.Governance.Entities.{
  GovernanceConfig, ProposalStatus, executed, is_passed, Proposal, Proposal-entity, Db,
}
use water_credits_backend.Governance.Config.{get_config}
use water_credits_backend.Governance.Quorum.{evaluate_quorum}
use water_credits_backend.Governance.Proposals.{
  ExecuteResult, Chain, get_proposal_by_id, register_proposal_on_chain, save_proposal,
}

-- `elapsed < timelockMs` with elapsed = now - deadline, which may be negative.
abbrev pub is_locked : ℕ → GovernanceConfig → Proposal → Bool
is_locked now config p = ltb now (p.deadline + config.timelock_period * 1000)

-- In percentage mode the quorum is checked again, against the voters of this moment.
unfoldable pub recheck_quorum : GovernanceConfig → Proposal → Action Db (Unit {0})
recheck_quorum config p db =
    throw_if
      (ltb 0 config.quorum_basis_points
        && not
            (evaluate_quorum p.votes_for p.votes_against config
              (count_eligible db.users)).quorum_met)
      bad_request db

-- The on-chain id: the one on record, or one that is registered now and saved.
unfoldable pub resolve_on_chain_id : Chain → Proposal → Option ℕ → Action Db ℕ
resolve_on_chain_id chain p (some n) db = (ok n, db)
resolve_on_chain_id chain p none db = elim (register_proposal_on_chain chain p) [
  | none ↦ (err bad_request, db)
  | some n ↦ (ok n, save_proposal (record p { on_chain_proposal_id = some n }) db)
]

abbrev pub tx_hash_of : ExecuteResult → String
tx_hash_of r = or_else r.tx_hash (or_else r.hash "confirmed")

abbrev pub mark_executed : ℕ → ℕ → String → Proposal → Proposal
mark_executed now executor tx_hash p = record p {
  status = executed;
  execution_tx_hash = some tx_hash;
  executed_by = some executor;
  executed_at = some now;
}

unfoldable pub persist_execution : ℕ → ℕ → ℕ → String → Db → Db
persist_execution now id executor tx_hash db = record db {
  proposals = update_id id (mark_executed now executor tx_hash) db.proposals;
}

unfoldable pub execute_proposal : Chain → ℕ → ℕ → ℕ → Action Db Proposal
unfolding recheck_quorum resolve_on_chain_id persist_execution
execute_proposal chain now proposal_id executor = do
  proposal ← get_proposal_by_id now proposal_id
  throw_if (not (is_passed proposal.status)) bad_request
  config ← get_config
  throw_if (is_locked now config proposal) forbidden
  recheck_quorum config proposal
  contract ← require chain.contract internal_error
  on_chain_id ← resolve_on_chain_id chain proposal proposal.on_chain_proposal_id
  result ← require (chain.execute contract on_chain_id) internal_error
  modify (persist_execution now proposal_id executor (tx_hash_of result))
  saved ← gets (λ db. find_id proposal_id db.proposals)
  require saved internal_error
