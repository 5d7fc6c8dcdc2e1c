-- ===== src/Indexer/Handlers.antt =====
-- The handlers of IndexerService: what each event does to the tables, and what is broadcast.
pub mod Outcomes
pub mod Idempotent
pub mod Tally
use Prim.Native.String.{String}
use water_credits_backend.Prelude.{
  ℕ, ◌+◌, ◌*◌, ◌-◌, suc, ℤ, pos, negsuc, pos_part, ltb_ℤ, Bool, true, false, ◌&&◌, ◌||◌, not,
  Option, none, some, List, [], ◌∷◌, ◌++◌, ltb, ◌==◌, is_some, or_else, if◌then◌else◌, find,
  find_id, select, order_by, update_where, update_id, save,
}
use water_credits_backend.Users.{User}
use water_credits_backend.Projects.Entities.{Project}
use water_credits_backend.Credits.Entities.{Retirement, is_placeholder}
use water_credits_backend.Governance.Entities.{
  ProposalStatus, active, passed, rejected, executed, expired, is_passed, Proposal, Proposal-entity,
  ProposalVote,
}
use water_credits_backend.Governance.Voting.{is_vote_of, count_vote}
use water_credits_backend.Sensors.Entities.{
  BatchStatus, pending, submitted, confirmed, failed, ReadingBatch,
}
use water_credits_backend.Oracle.Entities as OracleTables
use water_credits_backend.Oracle.Entities.{
  OracleSubmission, OracleSubmission-entity, SubmissionResult, empty_result,
}
use water_credits_backend.Indexer.Events.{
  EventSource, IndexedEvent, credit_mint, credit_retire, credit_transfer, reading_submitted,
  proposal_executed, vote_cast,
}

-- The rooms and names under which an event is sent to the websocket clients.
pub data Channel : Type 0 where
  global_readings credit_minted credit_retired credit_transferred : Channel
  oracle_submitted governance_proposal governance_vote_cast : Channel

pub record Message : Type 0 where
  pub channel : Channel
  pub event : IndexedEvent

pub record Db : Type 0 where
  pub projects : List Project
  pub batches : List ReadingBatch
  pub submissions : List OracleSubmission
  pub users : List User
  pub retirements : List Retirement
  pub proposals : List Proposal
  pub votes : List ProposalVote
  pub messages : List Message

unfoldable pub broadcast : Channel → IndexedEvent → Db → Db
broadcast channel event db = record db {
  messages = db.messages ++ record { channel = channel; event = event } ∷ [];
}

-- Whole credits in millionths, the last digit of the columns.
abbrev pub millionths : ℤ → ℤ
millionths (pos n) = pos (n * 1_000_000)
millionths (negsuc n) = negsuc (suc n * 1_000_000 - 1)

abbrev pub is_amount : ℤ → ℕ → Bool
is_amount (pos n) amount = amount == n * 1_000_000
is_amount (negsuc _) amount = false

abbrev pub is_awaiting : BatchStatus → Bool
is_awaiting pending = true
is_awaiting submitted = true
is_awaiting _ = false

-- SET status = 'confirmed', confirmed_at = COALESCE(…), credits_generated = COALESCE(…)
abbrev pub confirm_batch : ℕ → ℤ → ReadingBatch → ReadingBatch
confirm_batch now amount b = record b {
  status = confirmed;
  confirmed_at = some (or_else b.confirmed_at now);
  credits_generated = some (or_else b.credits_generated (millionths amount));
}

abbrev pub has_token : ℕ → Project → Bool
has_token contract p = elim p.credit_token_address [ none ↦ false | some a ↦ a == contract ]

-- Ids, wallets and addresses are texts in an event and numbers in the tables: `key` numbers them.
module _ (key : String → ℕ) (now : ℕ) where
  abbrev pub is_minted : EventSource → List Project → ReadingBatch → Bool
  is_minted source projects b =
      is_some (find (λ p. p.id == b.project_id && has_token (key source.contract_id) p) projects)
      && is_awaiting b.status

  unfoldable pub on_credit_mint : EventSource → String → ℤ → Db → Db
  unfolding broadcast
  on_credit_mint source to amount db =
      let event = credit_mint source to amount in
      broadcast credit_minted event (
        broadcast global_readings event (record db {
          batches =
              update_where (is_minted source db.projects) (confirm_batch now amount) db.batches;
        }))

  abbrev pub is_candidate : ℕ → ℕ → ℤ → Retirement → Bool
  is_candidate project_id user_id amount r =
      r.project_id == project_id && r.user_id == user_id && is_amount amount r.amount

  -- The oldest candidate without a real hash.
  abbrev pub pending_retirement : ℕ → ℕ → ℤ → List Retirement → Option Retirement
  pending_retirement project_id user_id amount retirements =
      find (λ r. is_placeholder r.tx_hash)
        (order_by (λ r. r.retired_at)
          (order_by (λ r. r.created_at)
            (order_by (λ r. r.id) (select (is_candidate project_id user_id amount) retirements))))

  -- SET retired_at = COALESCE(retired_at, NOW())
  abbrev pub confirm_retirement : Retirement → Retirement
  confirm_retirement r = record r { retired_at = or_else (some r.retired_at) now }

  unfoldable pub mark_retired : ℕ → ℕ → ℤ → Db → Db
  mark_retired project_id user_id amount db =
      elim (pending_retirement project_id user_id amount db.retirements) [
        | none ↦ db
        | some candidate ↦ record db {
          retirements =
              update_where
                (λ r.
                  r.id == candidate.id
                  && is_candidate project_id user_id amount r
                  && is_placeholder r.tx_hash)
                confirm_retirement db.retirements;
        }
      ]

  unfoldable pub on_credit_retire : EventSource → String → ℤ → String → String → Db → Db
  unfolding broadcast mark_retired
  on_credit_retire source from amount purpose metadata_uri db =
      broadcast credit_retired (credit_retire source from amount purpose metadata_uri)
        (elim (find (has_token (key source.contract_id)) db.projects) [
          | none ↦ db
          | some project ↦ elim (find (λ u. u.wallet == key from) db.users) [
            | none ↦ db
            | some user ↦ mark_retired project.id user.id amount db
          ]
        ])

  -- A nonce and an on-chain proposal id are u32 numbers in the contracts.
  abbrev pub is_submission : String → String → ℤ → OracleSubmission → Bool
  is_submission project_id oracle_address nonce s =
      s.project_id == key project_id
      && s.oracle_address == key oracle_address
      && s.nonce == pos_part nonce

  abbrev pub is_confirmed : OracleSubmission → Bool
  is_confirmed s = elim s.status [ OracleTables.confirmed ↦ true | _ ↦ false ]

  abbrev pub confirm_submission : EventSource → ℤ → OracleSubmission → OracleSubmission
  confirm_submission source credits_awarded s = record s {
    status = OracleTables.confirmed;
    result = some (record (or_else s.result empty_result) {
      confirmed_by_indexer = true;
      confirmed_at = some now;
      credits_awarded = some credits_awarded;
      ledger = some source.ledger;
    });
  }

  -- Every batch of the project that is awaiting its confirmation.
  abbrev pub confirm_project_batches : ℕ → ℤ → List ReadingBatch → List ReadingBatch
  confirm_project_batches project_id credits_awarded =
      update_where (λ b. b.project_id == project_id && is_awaiting b.status)
        (confirm_batch now credits_awarded)

  unfoldable pub on_reading_submitted : EventSource → String → String → ℤ → ℤ → Db → Db
  unfolding broadcast
  on_reading_submitted source project_id oracle_address nonce credits_awarded db =
      broadcast oracle_submitted
        (reading_submitted source project_id oracle_address nonce credits_awarded)
        (elim (find (is_submission project_id oracle_address nonce) db.submissions) [
          | none ↦ db
          | some s ↦ if is_confirmed s then db else record db {
            submissions = save (confirm_submission source credits_awarded s) db.submissions;
            batches =
                if ltb_ℤ (pos 0) credits_awarded
                then confirm_project_batches (key project_id) credits_awarded db.batches
                else db.batches;
          }
        ])

  abbrev pub is_on_chain : ℤ → Proposal → Bool
  is_on_chain id p = elim p.on_chain_proposal_id [ none ↦ false | some n ↦ n == pos_part id ]

  -- WHERE status = 'passed' ORDER BY created_at DESC
  abbrev pub newest_passed : List Proposal → Option Proposal
  newest_passed [] = none
  newest_passed (p ∷ rest) =
      let others = newest_passed rest in
      if is_passed p.status
      then elim others [
        | none ↦ some p
        | some q ↦ if ltb p.created_at q.created_at then some q else some p
      ]
      else others

  abbrev pub is_executed : ProposalStatus → Bool
  is_executed executed = true
  is_executed _ = false

  abbrev pub execute : ℤ → String → Proposal → Proposal
  execute id executed_by p = record p {
    status = executed;
    on_chain_proposal_id = some (pos_part id);
    executed_by = some (key executed_by);
    executed_at = some now;
  }

  abbrev pub found_or : Option Proposal → Option Proposal → Option Proposal
  found_or none fallback = fallback
  found_or (some p) fallback = some p

  unfoldable pub on_proposal_executed : EventSource → ℤ → String → Db → Db
  unfolding broadcast
  on_proposal_executed source id executed_by db =
      broadcast governance_proposal (proposal_executed source id executed_by)
        (elim (found_or (find (is_on_chain id) db.proposals) (newest_passed db.proposals)) [
          | none ↦ db
          | some p ↦
              if is_executed p.status
              then db
              else record db { proposals = save (execute id executed_by p) db.proposals }
        ])

  -- INSERT … ON CONFLICT DO NOTHING, and the counter where a row was inserted
  unfoldable pub record_vote : ℕ → ℕ → Bool → Db → Db
  record_vote proposal_id voter support db =
      if is_some (find (is_vote_of proposal_id voter) db.votes) then db else record db {
        votes =
            db.votes
            ++ record { proposal_id = proposal_id; voter_wallet = voter; support = support } ∷ [];
        proposals = update_id proposal_id (count_vote support) db.proposals;
      }

  unfoldable pub on_vote_cast : EventSource → ℤ → String → Bool → Db → Db
  unfolding broadcast record_vote
  on_vote_cast source id voter_wallet support db = elim (find (is_on_chain id) db.proposals) [
    | none ↦ db
    | some p ↦
        broadcast governance_vote_cast (vote_cast source id voter_wallet support)
          (record_vote p.id (key voter_wallet) support db)
  ]

  unfoldable pub dispatch : IndexedEvent → Db → Db
  unfolding on_credit_mint on_credit_retire on_reading_submitted on_proposal_executed on_vote_cast
      broadcast
  dispatch (credit_mint source to amount) db = on_credit_mint source to amount db
  dispatch (credit_retire source from amount purpose metadata_uri) db =
      on_credit_retire source from amount purpose metadata_uri db
  dispatch (credit_transfer source from to amount) db =
      broadcast credit_transferred (credit_transfer source from to amount) db
  dispatch (reading_submitted source project_id oracle_address nonce credits_awarded) db =
      on_reading_submitted source project_id oracle_address nonce credits_awarded db
  dispatch (proposal_executed source id executed_by) db =
      on_proposal_executed source id executed_by db
  dispatch (vote_cast source id voter_wallet support) db =
      on_vote_cast source id voter_wallet support db
