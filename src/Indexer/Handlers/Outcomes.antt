-- ===== src/Indexer/Handlers/Outcomes.antt =====
-- The branches of the handlers, as equations.
use Prim.Native.String.{String}
use water_credits_backend.Prelude.{
  ℕ, ℤ, pos, pos_part, ltb_ℤ, ◌≡◌, refl, Bool, true, false, ◌&&◌, none, some, List, [], ◌∷◌, ◌++◌,
  ◌==◌, arith, Option-cases, inl, inr, is_some, if◌then◌else◌, find, save, update_where, update_id,
  find-save_found, find-save_first, find-update_id, ==_refl, find-append_new,
}
use water_credits_backend.Governance.Entities.{Proposal, Proposal-entity}
use water_credits_backend.Governance.Voting.{is_vote_of, count_vote}
use water_credits_backend.Oracle.Entities.{OracleSubmission, OracleSubmission-entity}
use water_credits_backend.Credits.Entities.{is_placeholder}
use water_credits_backend.Indexer.Events.{
  EventSource, credit_retire, reading_submitted, proposal_executed, vote_cast,
}
use water_credits_backend.Indexer.Handlers.{
  credit_retired, oracle_submitted, governance_proposal, governance_vote_cast, Db, broadcast,
  is_submission, is_confirmed, confirm_submission, confirm_project_batches, on_reading_submitted,
  is_on_chain, newest_passed, found_or, is_executed, execute, on_proposal_executed, record_vote,
  on_vote_cast, has_token, pending_retirement, is_candidate, confirm_retirement, mark_retired,
  on_credit_retire,
}

pub counted_id : (support : Bool) (p : Proposal) → (count_vote support p).id ≡ p.id
counted_id true p = refl
counted_id false p = refl

update_where_same :
    {A : Type 0} (p : A → Bool) (f : A → A) (rows : List A)
    → ((x : A) → f x ≡ x)
    → update_where p f rows ≡ rows
update_where_same p f [] k = refl
update_where_same p f (x ∷ xs) k = ground (arith, k x, update_where_same p f xs k)

module _ (key : String → ℕ) (now : ℕ) (source : EventSource) (db : Db) where
  pub mark_retired_same :
      (project_id user_id : ℕ) (amount : ℤ) → mark_retired key now project_id user_id amount db ≡ db
  unfolding mark_retired
  mark_retired_same project_id user_id amount =
      elim (Option-cases (pending_retirement key now project_id user_id amount db.retirements)) [
        | inl missing ↦ ground (arith, missing)
        | inr (r, found) ↦ ground (
          arith,
          found,
          update_where_same
              (λ x.
                x.id == r.id
                && is_candidate key now project_id user_id amount x
                && is_placeholder x.tx_hash)
              (confirm_retirement key now) db.retirements (λ x. refl),
        )
      ]

  -- The event of a retirement is broadcast, and changes no table.
  pub on_credit_retire_same :
      (from : String) (amount : ℤ) (purpose metadata_uri : String)
      → on_credit_retire key now source from amount purpose metadata_uri db
        ≡ broadcast credit_retired (credit_retire source from amount purpose metadata_uri) db
  unfolding on_credit_retire
  on_credit_retire_same from amount purpose metadata_uri =
      elim (Option-cases (find (has_token (key source.contract_id)) db.projects)) [
        | inl missing ↦ ground (arith, missing)
        | inr (project, found) ↦ elim (Option-cases (find (λ u. u.wallet == key from) db.users)) [
          | inl unknown ↦ ground (arith, found, unknown)
          | inr (user, known) ↦
              ground (arith, found, known, mark_retired_same project.id user.id amount)
        ]
      ]

  pub reading-missing :
      (project_id oracle_address : String) (nonce credits : ℤ)
      → find (is_submission key now project_id oracle_address nonce) db.submissions ≡ none
      → on_reading_submitted key now source project_id oracle_address nonce credits db
        ≡ broadcast oracle_submitted
            (reading_submitted source project_id oracle_address nonce credits)
            db
  unfolding on_reading_submitted
  reading-missing project_id oracle_address nonce credits missing = ground arith

  pub reading-done :
      (project_id oracle_address : String) (nonce credits : ℤ) (s : OracleSubmission)
      → find (is_submission key now project_id oracle_address nonce) db.submissions ≡ some s
      → is_confirmed key now s ≡ true
      → on_reading_submitted key now source project_id oracle_address nonce credits db
        ≡ broadcast oracle_submitted
            (reading_submitted source project_id oracle_address nonce credits)
            db
  unfolding on_reading_submitted
  reading-done project_id oracle_address nonce credits s found done = ground arith

  abbrev pub confirmed_reading : String → ℤ → OracleSubmission → Db
  confirmed_reading project_id credits s = record db {
    submissions = save (confirm_submission key now source credits s) db.submissions;
    batches =
        if ltb_ℤ (pos 0) credits
        then confirm_project_batches key now (key project_id) credits db.batches
        else db.batches;
  }

  pub reading-confirms :
      (project_id oracle_address : String) (nonce credits : ℤ) (s : OracleSubmission)
      → find (is_submission key now project_id oracle_address nonce) db.submissions ≡ some s
      → is_confirmed key now s ≡ false
      → on_reading_submitted key now source project_id oracle_address nonce credits db
        ≡ broadcast oracle_submitted
            (reading_submitted source project_id oracle_address nonce credits)
            (confirmed_reading project_id credits s)
  unfolding on_reading_submitted
  reading-confirms project_id oracle_address nonce credits s found open_one = ground arith

  pub executed_again :
      (id : ℤ) (executed_by : String)
      → found_or key now
          (find (is_on_chain key now id) db.proposals)
          (newest_passed key now db.proposals)
        ≡ none
      → on_proposal_executed key now source id executed_by db
        ≡ broadcast governance_proposal (proposal_executed source id executed_by) db
  unfolding on_proposal_executed
  executed_again id executed_by missing = ground arith

  pub executed-done :
      (id : ℤ) (executed_by : String) (p : Proposal)
      → found_or key now
          (find (is_on_chain key now id) db.proposals)
          (newest_passed key now db.proposals)
        ≡ some p
      → is_executed key now p.status ≡ true
      → on_proposal_executed key now source id executed_by db
        ≡ broadcast governance_proposal (proposal_executed source id executed_by) db
  unfolding on_proposal_executed
  executed-done id executed_by p found done = ground arith

  abbrev pub executed_proposal : ℤ → String → Proposal → Db
  executed_proposal id executed_by p = record db {
    proposals = save (execute key now id executed_by p) db.proposals;
  }

  pub executed-marks :
      (id : ℤ) (executed_by : String) (p : Proposal)
      → found_or key now
          (find (is_on_chain key now id) db.proposals)
          (newest_passed key now db.proposals)
        ≡ some p
      → is_executed key now p.status ≡ false
      → on_proposal_executed key now source id executed_by db
        ≡ broadcast governance_proposal
            (proposal_executed source id executed_by)
            (executed_proposal id executed_by p)
  unfolding on_proposal_executed
  executed-marks id executed_by p found waiting = ground arith

  pub execute-found :
      (later : ℕ) (id : ℤ) (executed_by : String) (p : Proposal)
      → found_or key now
          (find (is_on_chain key now id) db.proposals)
          (newest_passed key now db.proposals)
        ≡ some p
      → find (is_on_chain key later id) (save (execute key now id executed_by p) db.proposals)
        ≡ some (execute key now id executed_by p)
  execute-found later id executed_by p found =
      let test : Proposal → Bool = is_on_chain key now id in
      let p' = execute key now id executed_by p in
      elim (Option-cases (find test db.proposals)) [
        | inl missing ↦ find-save_first test p' db.proposals missing (==_refl (pos_part id))
        | inr (q, there) ↦
            find-save_found test p' p db.proposals (ground (arith, there, found)) refl
              (==_refl (pos_part id))
      ]

  pub vote-known :
      (proposal_id voter : ℕ) (support : Bool)
      → is_some (find (is_vote_of proposal_id voter) db.votes) ≡ true
      → record_vote key now proposal_id voter support db ≡ db
  unfolding record_vote
  vote-known proposal_id voter support known = ground arith

  abbrev pub voted : ℕ → ℕ → Bool → Db
  voted proposal_id voter support = record db {
    votes =
        db.votes
        ++ record { proposal_id = proposal_id; voter_wallet = voter; support = support } ∷ [];
    proposals = update_id proposal_id (count_vote support) db.proposals;
  }

  pub vote-new :
      (proposal_id voter : ℕ) (support : Bool)
      → is_some (find (is_vote_of proposal_id voter) db.votes) ≡ false
      → record_vote key now proposal_id voter support db ≡ voted proposal_id voter support
  unfolding record_vote
  vote-new proposal_id voter support unknown = ground arith

  -- The vote that was added is found again, and so is its proposal.
  pub voted-known :
      (proposal_id voter : ℕ) (support : Bool)
      → is_some (find (is_vote_of proposal_id voter) db.votes) ≡ false
      → is_some (find (is_vote_of proposal_id voter) (voted proposal_id voter support).votes) ≡ true
  voted-known proposal_id voter support unknown = ground (
    arith,
    find-append_new (is_vote_of proposal_id voter) db.votes
        (record { proposal_id = proposal_id; voter_wallet = voter; support = support }),
  )

  pub voted-found :
      (later : ℕ) (id : ℤ) (voter : ℕ) (support : Bool) (p : Proposal)
      → find (is_on_chain key now id) db.proposals ≡ some p
      → find (is_on_chain key later id) (voted p.id voter support).proposals
        ≡ some (count_vote support p)
  voted-found later id voter support p found = ground (
    arith,
    find-update_id (is_on_chain key now id) p.id (count_vote support) db.proposals
        (counted_on_chain support),
  )
    where
      counted_on_chain :
          (support : Bool) (x : Proposal)
          → is_on_chain key now id (count_vote support x) ≡ is_on_chain key now id x
      counted_on_chain true x = refl
      counted_on_chain false x = refl

  pub vote-missing :
      (id : ℤ) (wallet : String) (support : Bool)
      → find (is_on_chain key now id) db.proposals ≡ none
      → on_vote_cast key now source id wallet support db ≡ db
  unfolding on_vote_cast
  vote-missing id wallet support missing = ground arith

  pub vote-records :
      (id : ℤ) (wallet : String) (support : Bool) (p : Proposal)
      → find (is_on_chain key now id) db.proposals ≡ some p
      → on_vote_cast key now source id wallet support db
        ≡ broadcast governance_vote_cast
            (vote_cast source id wallet support)
            (record_vote key now p.id (key wallet) support db)
  unfolding on_vote_cast
  vote-records id wallet support p found = ground arith
