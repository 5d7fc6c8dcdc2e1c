-- ===== src/Oracle/Entities.antt =====
-- The tables of src/modules/oracle/entities, the jobs of the queue `oracle-submit`, and the state
-- that the oracle's services work on. Oracle addresses are numbers, as ids are.
use Prim.Native.String.{String}
use water_credits_backend.Prelude.{ℕ, ℤ, Bool, false, Option, none, List, Entity}
use water_credits_backend.Projects.Entities.{Project}
use water_credits_backend.Sensors.Entities.{ReadingBatch, SensorReading}

pub data SubmissionStatus : Type 0 where
  pending submitted confirmed failed : SubmissionStatus

-- A value of a readings snapshot. Numbers are counted in half thousandths, since a median of two
-- readings may lie between two thousandths; `other` is a Boolean, a list or a map.
pub data SnapshotValue : Type 0 where
  number : ℤ → SnapshotValue
  text : String → SnapshotValue
  null other : SnapshotValue

-- The keys of the JSON object with their values; a key that is absent is undefined.
abbrev pub Snapshot : Type 0
Snapshot = List (String × SnapshotValue)

-- GovernanceConfigSnapshot: thresholds in hundredths, weights in ten-thousandths.
pub record ConfigSnapshot : Type 0 where
  pub protocol_fee_bps : ℕ
  pub min_oracle_confirmations : ℕ
  pub ph_min : Option ℕ
  pub ph_max : Option ℕ
  pub do_threshold : Option ℕ
  pub temp_penalty_delta : Option ℕ
  pub weight_volumetric : ℕ
  pub weight_nitrogen : ℕ
  pub weight_phosphorus : ℕ

-- Why a submission failed.
pub data SubmissionError : Type 0 where
  not_configured no_parameters unexpected_status send_failed : SubmissionError
  behind_chain : (on_chain_nonce nonce : ℕ) → SubmissionError
  newer_confirmed : ℕ → SubmissionError

-- The JSON object `result`; a key that is absent is `none`, or `false`.
pub record SubmissionResult : Type 0 where
  pub confirmed : Bool
  pub confirmed_at : Option ℕ
  pub oracle_address : Option ℕ
  pub nonce : Option ℕ
  pub reconciled : Bool
  pub ledger : Option ℕ
  pub config_snapshot : Option ConfigSnapshot
  pub error : Option SubmissionError
  pub confirmed_by_indexer : Bool
  pub credits_awarded : Option ℤ

abbrev pub empty_result : SubmissionResult
empty_result = record {
  confirmed = false;
  confirmed_at = none;
  oracle_address = none;
  nonce = none;
  reconciled = false;
  ledger = none;
  config_snapshot = none;
  error = none;
  confirmed_by_indexer = false;
  credits_awarded = none;
}

-- Less updated_at, which the database sets.
pub record OracleSubmission : Type 0 where
  pub id : ℕ
  pub project_id : ℕ
  pub batch_id : Option ℕ
  pub oracle_address : ℕ
  pub nonce : ℕ
  pub tx_hash : String
  pub status : SubmissionStatus
  pub readings_snapshot : Snapshot
  pub result : Option SubmissionResult
  pub created_at : ℕ

instance abbrev pub OracleSubmission-entity : Entity OracleSubmission
OracleSubmission-entity = record { id_of = λ s. s.id }

pub record TriggerSubmissionDto : Type 0 where
  pub project_id : ℕ
  pub oracle_address : ℕ
  pub batch_id : Option ℕ
  pub readings : Option Snapshot

-- A job of the queue: `submissionId`, `projectId`, `batchId`, `oracleAddress` and `nonce`.
pub record SubmitJob : Type 0 where
  pub submission_id : ℕ
  pub project_id : ℕ
  pub batch_id : Option ℕ
  pub oracle_address : ℕ
  pub nonce : ℕ

-- What is outside of the services: the clock; the id that the database generates for a new row;
-- whether a transaction that adds a row commits and whether Bull takes a job; the median of values in
-- thousandths that percentile_cont(0.5) computes, in half thousandths, null for no values; whether
-- shutdown was requested by the time the loop reaches a batch; and whether the UPDATE that claims or
-- releases a batch is answered, rather than throwing.
pub record Env : Type 0 where
  pub now : ℕ
  pub generated_id : List OracleSubmission → ℕ
  pub commits : OracleSubmission → Bool
  pub takes : SubmitJob → Bool
  pub percentile_cont : List ℤ → Option ℤ
  pub shutting_down : ReadingBatch → Bool
  pub claims : ℕ → Bool
  pub releases : ℕ → Bool

-- The queue holds every job that was added to it, in order.
pub record Db : Type 0 where
  pub projects : List Project
  pub readings : List SensorReading
  pub batches : List ReadingBatch
  pub submissions : List OracleSubmission
  pub queue : List SubmitJob
