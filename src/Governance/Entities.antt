-- ===== src/Governance/Entities.antt =====
-- The tables of src/modules/governance/entities, and the database that the service works on.
-- Ids, wallets and on-chain ids are numbers; times are milliseconds. Decimal columns are counted in
-- units of their last digit: hundredths for the thresholds, ten-thousandths for the weights.
use Prim.Native.String.{String}
use water_credits_backend.Prelude.{ℕ, Bool, true, false, Option, List, Entity}
use water_credits_backend.Users.{User}

pub record GovernanceConfig : Type 0 where
  pub id : ℕ
  pub protocol_fee_bps : ℕ
  pub min_oracle_confirmations : ℕ
  pub voting_period : ℕ
  pub timelock_period : ℕ
  pub quorum : ℕ
  pub quorum_basis_points : ℕ
  pub ph_min : Option ℕ
  pub ph_max : Option ℕ
  pub do_threshold : Option ℕ
  pub temp_penalty_delta : Option ℕ
  pub weight_volumetric : ℕ
  pub weight_nitrogen : ℕ
  pub weight_phosphorus : ℕ
  pub updated_by : Option ℕ

-- The config fields of UpdateGovernanceConfigDto; an absent field is `none`. An explicit `null`, which
-- `@IsOptional` lets through, has no counterpart.
pub record ConfigValues : Type 0 where
  pub protocol_fee_bps : Option ℕ
  pub min_oracle_confirmations : Option ℕ
  pub voting_period : Option ℕ
  pub timelock_period : Option ℕ
  pub quorum : Option ℕ
  pub quorum_basis_points : Option ℕ
  pub ph_min : Option ℕ
  pub ph_max : Option ℕ
  pub do_threshold : Option ℕ
  pub temp_penalty_delta : Option ℕ
  pub weight_volumetric : Option ℕ
  pub weight_nitrogen : Option ℕ
  pub weight_phosphorus : Option ℕ

pub data ChangeStatus : Type 0 where
  pending applied cancelled emergency : ChangeStatus

abbrev pub is_pending : ChangeStatus → Bool
is_pending pending = true
is_pending _ = false

-- Who applied a change: the scheduler, or an admin by an emergency override.
pub data Applier : Type 0 where
  scheduler : Applier
  wallet : ℕ → Applier

pub record ConfigChange : Type 0 where
  pub id : ℕ
  pub config_id : ℕ
  pub proposed_values : ConfigValues
  pub proposed_by : ℕ
  pub effective_at : ℕ
  pub status : ChangeStatus
  pub applied_at : Option ℕ
  pub applied_by : Option Applier
  pub cancelled_at : Option ℕ
  pub cancelled_by : Option ℕ
  pub reason : Option String

instance abbrev pub ConfigChange-entity : Entity ConfigChange
ConfigChange-entity = record { id_of = λ c. c.id }

pub data ProposalStatus : Type 0 where
  active passed rejected executed expired : ProposalStatus

abbrev pub is_active : ProposalStatus → Bool
is_active active = true
is_active _ = false

abbrev pub is_passed : ProposalStatus → Bool
is_passed passed = true
is_passed _ = false

pub record Proposal : Type 0 where
  pub id : ℕ
  pub proposer : ℕ
  pub title : String
  pub description : Option String
  pub action_type : String
  pub action_params : Option String
  pub votes_for : ℕ
  pub votes_against : ℕ
  pub status : ProposalStatus
  pub deadline : ℕ
  pub on_chain_proposal_id : Option ℕ
  pub execution_tx_hash : Option String
  pub executed_by : Option ℕ
  pub executed_at : Option ℕ
  pub created_at : ℕ

instance abbrev pub Proposal-entity : Entity Proposal
Proposal-entity = record { id_of = λ p. p.id }

-- The vote's own id and its constant weight 1 are left out: nothing reads them.
pub record ProposalVote : Type 0 where
  pub proposal_id : ℕ
  pub voter_wallet : ℕ
  pub support : Bool

pub data EventType : Type 0 where
  config_change_proposed config_change_cancelled config_change_applied : EventType
  config_emergency_updated : EventType

-- A row of governance_events; the payload is its change id and the values.
pub record GovernanceEvent : Type 0 where
  pub event_type : EventType
  pub actor : ℕ
  pub change_id : ℕ
  pub values : ConfigValues

-- `config` is the row of id 1 in governance_config; a CHECK constraint allows no other.
pub record Db : Type 0 where
  pub config : Option GovernanceConfig
  pub changes : List ConfigChange
  pub proposals : List Proposal
  pub votes : List ProposalVote
  pub events : List GovernanceEvent
  pub users : List User
