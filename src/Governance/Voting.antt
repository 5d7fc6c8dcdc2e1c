-- ===== src/Governance/Voting.antt =====
-- GovernanceService.vote. It runs in a serialisable transaction: an exception rolls back all that it
-- wrote, the expiry of the proposal included.
pub mod Cast
pub mod Tally
use water_credits_backend.Prelude.{
  ℕ, ◌+◌, ◌<◌, Bool, true, false, ◌&&◌, not, Option, none, some, List, [], ◌∷◌, ◌++◌, ltb, ◌==◌,
  is_some, Result, ok, err, bad_request, not_found, conflict, internal_error, Action, ◌>>=◌, ◌>>◌,
  gets, modify, require, pure, throw_if, transaction, if◌then◌else◌, find, find_id, update_id,
}
use water_credits_backend.Governance.Entities.{
  GovernanceConfig, ProposalStatus, passed, rejected, expired, is_active, Proposal, Proposal-entity,
  ProposalVote, Db,
}
use water_credits_backend.Governance.Config.{get_config}
use water_credits_backend.Governance.Quorum.{evaluate_quorum, resolve_eligible_count}

abbrev pub is_vote_of : ℕ → ℕ → ProposalVote → Bool
is_vote_of proposal_id voter v = v.proposal_id == proposal_id && v.voter_wallet == voter

unfoldable pub set_status : ℕ → ProposalStatus → Db → Db
set_status id status db = record db {
  proposals = update_id id (λ p. record p { status = status }) db.proposals;
}

-- `UPDATE … SET votes_for = votes_for + 1`, or votes_against
abbrev pub count_vote : Bool → Proposal → Proposal
count_vote true p = record p { votes_for = p.votes_for + 1 }
count_vote false p = record p { votes_against = p.votes_against + 1 }

unfoldable pub increment_counter : ℕ → Bool → Db → Db
increment_counter id approve db = record db {
  proposals = update_id id (count_vote approve) db.proposals;
}

-- INSERT into proposal_votes, whose UNIQUE (proposal_id, voter_wallet) is answered by a 409.
unfoldable pub insert_vote : ProposalVote → Action Db (Unit {0})
insert_vote v db =
    if is_some (find (is_vote_of v.proposal_id v.voter_wallet) db.votes)
    then (err conflict, db)
    else (ok tt, record db { votes = db.votes ++ v ∷ [] })

-- Steps 1 and 2: the proposal must be there, in time and active, and the voter new.
unfoldable pub expire_if_late : ℕ → ℕ → Proposal → Action Db Proposal
unfolding set_status
expire_if_late now proposal_id p db =
    if is_active p.status && ltb p.deadline now
    then (ok (record p { status = expired }), set_status proposal_id expired db)
    else (ok p, db)

-- Step 6: a met quorum decides the proposal.
abbrev pub decision : ℕ → ℕ → ProposalStatus
decision votes_for votes_against = if ltb votes_against votes_for then passed else rejected

unfoldable pub decide : ℕ → Proposal → Action Db Proposal
unfolding set_status
decide proposal_id updated = do
  config ← get_config
  eligible ← gets (resolve_eligible_count config)
  λ db.
      if (evaluate_quorum updated.votes_for updated.votes_against config eligible).quorum_met
      then (
        ok (record updated { status = decision updated.votes_for updated.votes_against }),
        set_status proposal_id (decision updated.votes_for updated.votes_against) db,
      )
      else (ok updated, db)

unfoldable pub vote : ℕ → ℕ → ℕ → Bool → Action Db Proposal
unfolding expire_if_late insert_vote increment_counter
vote now proposal_id voter approve = transaction do
  found ← gets (λ db. find_id proposal_id db.proposals)
  loaded ← require found not_found
  proposal ← expire_if_late now proposal_id loaded
  throw_if (not (is_active proposal.status)) bad_request
  existing ← gets (λ db. find (is_vote_of proposal_id voter) db.votes)
  throw_if (is_some existing) conflict
  insert_vote (record { proposal_id = proposal_id; voter_wallet = voter; support = approve })
  modify (increment_counter proposal_id approve)
  reloaded ← gets (λ db. find_id proposal_id db.proposals)
  updated ← require reloaded internal_error
  decide proposal_id updated
