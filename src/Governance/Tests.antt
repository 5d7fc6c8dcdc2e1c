-- ===== src/Governance/Tests.antt =====
-- Runs of the governance operations, and the theorems at concrete inputs.
use Prim.Native.String.{String}
use water_credits_backend.Prelude.{
  ℕ, ◌+◌, ◌*◌, ◌≢◌, ◌≤◌, ◌<◌, ◌≡◌, ◌↔◌, ◌⊎◌, refl, true, false, Option, none, some, List, [], ◌∷◌,
  ◌++◌, arith, ok, err, forbidden, bad_request, conflict, not_found, find_id, is_some, find, ◌==◌,
  if◌then◌else◌, internal_error, failure,
}
use water_credits_backend.Users.{super_admin, admin, User, count_eligible, is_super_admin}
use water_credits_backend.Governance.Entities.{
  ConfigValues, ConfigChange, pending, applied, scheduler, Proposal, active, passed, executed,
  Proposal-entity, ConfigChange-entity, Db,
}
use water_credits_backend.Governance.Config.{
  default_config, get_config, is_empty, assign, fits_columns,
}
use water_credits_backend.Governance.Quorum.{evaluate_quorum, resolve_eligible_count}
use water_credits_backend.Governance.Quorum.Turnout.{evaluate_quorum_turnout}
use water_credits_backend.Governance.Changes.{
  new_change, propose_config_change, cancel_config_change, emergency_config_update,
  apply_due_config_changes, apply_all, apply_single_change, commit_change,
}
use water_credits_backend.Governance.Changes.Timelock.{
  applied_when_due, apply_due_config_changes-find_id,
}
use water_credits_backend.Governance.Changes.Lifecycle.{
  config_in_force, IsSound, propose_config_change_lem, propose_config_change_timelocked, proposed,
}
use water_credits_backend.Governance.Changes.Closing.{
  apply_due_config_changes-IsSound, cancel_config_change_final, cancelled_change,
}
use water_credits_backend.Governance.Changes.Applied.{
  overwritten, override, propose_config_change_applied, emergency_config_update_lem,
}
use water_credits_backend.Governance.Proposals.{
  Chain, get_proposal_by_id, register_proposal_on_chain, save_proposal,
}
use water_credits_backend.Governance.Voting.{vote, decide, is_vote_of}
use water_credits_backend.Governance.Voting.Cast.{vote_lem, takes_votes, voted}
use water_credits_backend.Governance.Voting.Tally.{IsTallied, vote-IsTallied}
use water_credits_backend.Governance.Execution.{execute_proposal}
use water_credits_backend.Governance.Execution.Guards.{
  IsExecutable, IsReported, execute_proposal_success, execute_proposal_sound,
  execute_proposal_retryable,
}

abbrev no_values : ConfigValues
no_values = record {
  protocol_fee_bps = none;
  min_oracle_confirmations = none;
  voting_period = none;
  timelock_period = none;
  quorum = none;
  quorum_basis_points = none;
  ph_min = none;
  ph_max = none;
  do_threshold = none;
  temp_penalty_delta = none;
  weight_volumetric = none;
  weight_nitrogen = none;
  weight_phosphorus = none;
}

abbrev new_fee : ConfigValues
new_fee = record no_values { protocol_fee_bps = some 150 }

abbrev open_proposal : Proposal
open_proposal = record {
  id = 7;
  proposer = 1;
  title = "Lower the fee";
  description = none;
  action_type = "config";
  action_params = none;
  votes_for = 0;
  votes_against = 0;
  status = active;
  deadline = 1000;
  on_chain_proposal_id = none;
  execution_tx_hash = none;
  executed_by = none;
  executed_at = none;
  created_at = 0;
}

abbrev voters : List User
voters =
    record {
      id = 1;
      wallet = 11;
      email = none;
      display_name = none;
      role = admin;
      is_active = true;
      is_kyc_verified = true;
    }
    ∷ record {
      id = 2;
      wallet = 12;
      email = none;
      display_name = none;
      role = admin;
      is_active = true;
      is_kyc_verified = true;
    }
    ∷ []

abbrev start : Db
start = record {
  config = some default_config;
  changes = [];
  proposals = open_proposal ∷ [];
  votes = [];
  events = [];
  users = voters;
}

abbrev chain : Chain
chain = record {
  contract = some 5;
  create_proposal = λ c t d a p. some 42;
  execute = λ c n. some (record { tx_hash = some "abc"; hash = none });
}

run : Unit {0}
unfolding vote decide get_config evaluate_quorum resolve_eligible_count count_eligible
    propose_config_change is_empty assign emergency_config_update cancel_config_change
    apply_due_config_changes apply_all apply_single_change commit_change execute_proposal
    get_proposal_by_id register_proposal_on_chain save_proposal
run = tt

-- One vote of two eligible voters is 50 %, over the 20 % of the default configuration.
abbrev after_vote : Proposal
after_vote = record open_proposal { votes_for = 1; status = passed }

vote_tests :
    ((vote 1000 7 11 true start).0 ≡ ok after_vote)
    × ((vote 1001 7 11 true start) ≡ (err bad_request, start))
    × ((vote 1000 8 11 true start) ≡ (err not_found, start))
    × ((vote 1000 7 12 true (vote 1000 7 11 true start).1).0 ≡ err bad_request)
unfolding run
vote_tests = (refl, refl, refl, refl)

abbrev decided : Db
decided = record start { proposals = after_vote ∷ [] }

execute_tests :
    ((execute_proposal chain 86400999 7 11 decided).0 ≡ err forbidden)
    × ((execute_proposal chain 86401000 7 11 start).0 ≡ err bad_request)
    × ((execute_proposal (record chain { contract = none }) 86401000 7 11 decided).0
        ≡ err internal_error)
unfolding run
execute_tests = (refl, refl, refl)

vote-IsTallied_example : IsTallied (vote 1000 7 11 true start).1
vote-IsTallied_example =
    vote-IsTallied 1000 7 11 true start
      (record { counted = ((refl, refl), tt); one_each = λ i w. omega arith })

vote_lem_example :
    let (r, db') = vote 1000 7 11 true start in
    ((find_id 7 start.proposals ≡ none) × (r ≡ err not_found) × (db' ≡ start))
    ⊎ ((p : Proposal) × (find_id 7 start.proposals ≡ some p)
        × ((takes_votes 1000 p ≡ false) × (r ≡ err bad_request) × (db' ≡ start)
            ⊎ (takes_votes 1000 p ≡ true)
              × (is_some (find (is_vote_of 7 11) start.votes) ≡ true)
              × (r ≡ err conflict)
              × (db' ≡ start)
            ⊎ (takes_votes 1000 p ≡ true)
              × (is_some (find (is_vote_of 7 11) start.votes) ≡ false)
              × (r ≡ ok (voted start true p))
              × (db'.votes
                  ≡ start.votes
                    ++ record { proposal_id = 7; voter_wallet = 11; support = true } ∷ [])
              × ((j : ℕ)
                  → find_id j db'.proposals
                    ≡ (if j == 7 then some (voted start true p) else find_id j start.proposals))))
vote_lem_example = vote_lem 1000 7 11 true start

executable : IsExecutable chain 86401000 decided after_vote
unfolding run
executable = record {
  has_passed = refl;
  unlocked = omega arith;
  quorate = refl;
  contract = 5;
  configured = refl;
  on_chain_id = 42;
  registered = refl;
  result = record { tx_hash = some "abc"; hash = none };
  confirmed = refl;
}

execute_proposal_success_example :
    let (r, db') = execute_proposal chain 86401000 7 11 decided in
    (tx_hash : String) × IsReported (record { tx_hash = some "abc"; hash = none }) tx_hash
    × (let row = record after_vote {
      on_chain_proposal_id = some 42;
      status = executed;
      execution_tx_hash = some tx_hash;
      executed_by = some 11;
      executed_at = some 86401000;
    } in
        (r ≡ ok row)
        × (find_id 7 db'.proposals ≡ some row)
        × ((again : Chain) (later other : ℕ)
            → execute_proposal again later 7 other db' ≡ (err bad_request, db')))
unfolding executable
execute_proposal_success_example =
    execute_proposal_success chain 86401000 7 11 decided after_vote refl executable

execute_proposal_sound_example : IsExecutable chain 86401000 decided after_vote
unfolding run
execute_proposal_sound_example =
    execute_proposal_sound chain 86401000 7 11 decided after_vote refl refl

execute_proposal_retryable_example :
    (on_chain : Option ℕ) × (find_id 7
        (execute_proposal
          (record chain { execute = λ c n. none })
          86401000
          7
          11
          decided).1.proposals
      ≡ some (record after_vote { on_chain_proposal_id = on_chain }))
unfolding run
execute_proposal_retryable_example =
    execute_proposal_retryable (record chain { execute = λ c n. none }) 86401000 7 11 decided
      after_vote refl {error = internal_error} refl refl

start-IsSound : IsSound start
start-IsSound = record { unique_ids = tt; configured = tt; timed = tt }

propose_config_change_lem_example :
    let (r, db') = propose_config_change 3 1000 11 new_fee none start in
    let change = proposed 3 1000 11 new_fee none start in
    ((is_empty new_fee ≡ true) × (r ≡ err bad_request) × (db' ≡ start))
    ⊎ ((is_empty new_fee ≡ false)
        × (change.status ≡ pending)
        × (change.effective_at ≡ 1000 + (config_in_force start).timelock_period * 1000)
        × (r ≡ ok change)
        × (find_id 3 db'.changes ≡ some change)
        × ((i : ℕ) → i ≢ 3 → find_id i db'.changes ≡ find_id i start.changes)
        × (config_in_force db' ≡ config_in_force start))
propose_config_change_lem_example = propose_config_change_lem 3 1000 11 new_fee none start

propose_config_change_timelocked_example :
    let change = proposed 3 1000 11 new_fee none start in
    let db' = (propose_config_change 3 1000 11 new_fee none start).1 in
    let found = find_id 3 (apply_due_config_changes 5000 db').changes in
    (5000 < 1000 + (config_in_force start).timelock_period * 1000 → found ≡ some change)
    × (1000 + (config_in_force start).timelock_period * 1000 ≤ 5000
        → found ≡ (
            if fits_columns new_fee
            then some (record change {
              status = applied;
              applied_at = some 5000;
              applied_by = some scheduler;
            })
            else some change))
unfolding run
propose_config_change_timelocked_example =
    propose_config_change_timelocked 3 1000 11 new_fee none start 5000 start-IsSound refl refl

abbrev waiting : ConfigChange
waiting = new_change 3 1000 default_config 11 new_fee none

abbrev with_change : Db
with_change = record start { changes = waiting ∷ [] }

with_change-IsSound : IsSound with_change
with_change-IsSound = record {
  unique_ids = (refl, tt);
  configured = ((default_config, refl), tt);
  timed = ((λ h. cc h), tt);
}

apply_due_config_changes-find_id_example :
    find_id 3 (apply_due_config_changes 86401000 with_change).changes
    ≡ some (applied_when_due 86401000 waiting)
unfolding with_change-IsSound
apply_due_config_changes-find_id_example =
    apply_due_config_changes-find_id 3 86401000 with_change waiting with_change-IsSound.unique_ids
      with_change-IsSound.configured refl

apply_due_config_changes-IsSound_example : IsSound (apply_due_config_changes 86401000 with_change)
apply_due_config_changes-IsSound_example =
    apply_due_config_changes-IsSound 86401000 with_change with_change-IsSound

cancel_config_change_final_example :
    find_id 3
      (apply_due_config_changes 90000000 (cancel_config_change 2000 3 11 with_change).1).changes
    ≡ some (cancelled_change 2000 11 waiting)
unfolding run
cancel_config_change_final_example =
    cancel_config_change_final 2000 3 11 with_change 90000000 (cancelled_change 2000 11 waiting)
      with_change-IsSound refl

propose_config_change_applied_example :
    (apply_due_config_changes 86401000
      (propose_config_change 3 1000 11 new_fee none start).1).config
    ≡ some (overwritten (config_in_force start) new_fee 11)
unfolding run fits_columns
propose_config_change_applied_example =
    propose_config_change_applied 3 1000 11 new_fee none start 86401000 refl refl refl refl
      (ground arith)

emergency_config_update_lem_example :
    let (r, db') = emergency_config_update 4 1000 11 new_fee none super_admin start in
    let updated = overwritten (config_in_force start) new_fee 11 in
    ((is_super_admin super_admin ≡ false) × (r ≡ err forbidden) × (db' ≡ start))
    ⊎ ((is_super_admin super_admin ≡ true)
        × (is_empty new_fee ≡ true)
        × (r ≡ err bad_request)
        × (db' ≡ start))
    ⊎ ((is_super_admin super_admin ≡ true)
        × (is_empty new_fee ≡ false)
        × (find_id 4 db'.changes ≡ some (override 4 1000 11 new_fee none super_admin start))
        × ((i : ℕ) → i ≢ 4 → find_id i db'.changes ≡ find_id i start.changes)
        × (((fits_columns new_fee ≡ true) × (r ≡ ok updated) × (db'.config ≡ some updated))
            ⊎ ((fits_columns new_fee ≡ false)
                × (r ≡ err failure)
                × (db'.config ≡ some (config_in_force start)))))
emergency_config_update_lem_example =
    emergency_config_update_lem 4 1000 11 new_fee none super_admin start

evaluate_quorum_turnout_example :
    ((evaluate_quorum 1 0 default_config 5).quorum_met ≡ true)
    ↔ (default_config.quorum_basis_points ≤ 2000)
unfolding run
evaluate_quorum_turnout_example = evaluate_quorum_turnout 1 0 5 2000 default_config refl
