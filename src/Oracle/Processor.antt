-- ===== src/Oracle/Processor.antt =====
-- OracleProcessor: a job of the queue `oracle-submit`, and the credits of its batch. A job runs as one
-- sequence of statements; the queue's concurrency is 1.
pub mod Paths
mod Tests
use Prim.Native.String.{String}
use package.text.Mathlib.Text.{◌==◌ as str_eq}
use water_credits_backend.Prelude.{
  ℕ, ◌+◌, ◌/◌, ℤ, pos, Bool, true, false, not, ◌&&◌, Option, none, some, List, ltb, ◌==◌, is_some,
  if◌then◌else◌, find, find_id, save, ok, err, failure, Action,
}
use water_credits_backend.Governance.Entities.{GovernanceConfig}
use water_credits_backend.Projects.Entities.{Project, find_project}
use water_credits_backend.Sensors.Entities as SensorTables
use water_credits_backend.Sensors.Entities.{
  is_submitted, Parameters, ReadingBatch, ReadingBatch-entity,
}
use water_credits_backend.Oracle.Entities.{
  SubmissionStatus, pending, submitted, confirmed, failed, Snapshot, ConfigSnapshot,
  SubmissionError, not_configured, no_parameters, unexpected_status, send_failed, behind_chain,
  newer_confirmed, SubmissionResult, empty_result, OracleSubmission, OracleSubmission-entity,
  SubmitJob, Db,
}
use water_credits_backend.Oracle.Scoring.{calculate}
use water_credits_backend.Oracle.Payload.{
  map_snapshot_to_payload, load_live_config_snapshot, score_reading,
}

-- What StellarService.submitReading resolves to.
pub record Submitted : Type 0 where
  pub success : Bool
  pub tx_hash : String
  pub ledger : Option ℕ

-- What is around a job: the clock, whether the oracle's contract id is configured, what the chain
-- answers (`none` is an exception), JavaScript's parseFloat, and the row of governance_config when
-- the job starts and when the credits are calculated.
pub record Surroundings : Type 0 where
  pub now : ℕ
  pub is_configured : Bool
  pub on_chain_nonce : ℕ → Option ℕ
  pub submit_reading : ℕ → Parameters → ℕ → Option Submitted
  pub parse_float : String → Option ℤ
  pub config_at_start : Option GovernanceConfig
  pub config_at_end : Option GovernanceConfig

abbrev pub is_confirmed : SubmissionStatus → Bool
is_confirmed confirmed = true
is_confirmed _ = false

abbrev pub store : OracleSubmission → Db → Db
store s db = record db { submissions = save s db.submissions }

-- `submission.status = FAILED; submission.result = { error }`
abbrev pub fail : SubmissionError → OracleSubmission → OracleSubmission
fail e s = record s { status = failed; result = some (record empty_result { error = some e }) }

-- `a || b`
abbrev pub text_or : String → String → String
text_or a b = if str_eq a "" then b else a

-- Credits in 1/(2·10^10), as the column of six decimals stores them.
abbrev pub stored : ℕ → ℤ
stored credits = pos ((credits + 10000) / 20000)

abbrev pub is_submitted_batch : ℕ → ℕ → ReadingBatch → Bool
is_submitted_batch id project_id b =
    b.id == id && b.project_id == project_id && is_submitted b.status

abbrev pub find_submitted_batch : OracleSubmission → ℕ → List ReadingBatch → Option ReadingBatch
find_submitted_batch s project_id batches = elim s.batch_id [
  | none ↦ none
  | some id ↦ find (is_submitted_batch id project_id) batches
]

abbrev pub is_newer_confirmed : ℕ → OracleSubmission → OracleSubmission → Bool
is_newer_confirmed address s t =
    t.oracle_address == address
    && is_confirmed t.status
    && not (t.id == s.id)
    && ltb s.created_at t.created_at

-- UNIQUE (project_id, oracle_address, nonce)
abbrev pub has_nonce : OracleSubmission → ℕ → OracleSubmission → Bool
has_nonce s nonce t =
    not (t.id == s.id)
    && t.project_id == s.project_id
    && t.oracle_address == s.oracle_address
    && t.nonce == nonce

module _ (env : Surroundings) where
  abbrev pub confirm_with : ℕ → ReadingBatch → ReadingBatch
  confirm_with credits b = record b {
    status = SensorTables.confirmed;
    confirmed_at = some env.now;
    credits_generated = some (stored credits);
  }

  unfoldable pub calculate_credits_and_confirm_batch : OracleSubmission → ℕ → Db → Db
  unfolding calculate
  calculate_credits_and_confirm_batch s project_id db = elim (find_project project_id db.projects) [
    | none ↦ db
    | some project ↦ elim env.config_at_end [
      | none ↦ db
      | some config ↦ elim (find_submitted_batch s project_id db.batches) [
        | none ↦ db
        | some b ↦
            let credits =
              calculate env.parse_float s.readings_snapshot config project.area_hectares in
            record db { batches = save (confirm_with credits b) db.batches }
      ]
    ]
  ]

  abbrev pub reconciled : ℕ → OracleSubmission → OracleSubmission
  reconciled address s = record s {
    status = confirmed;
    tx_hash = text_or s.tx_hash "reconciled-on-chain";
    result = some (record empty_result {
      confirmed = true;
      confirmed_at = some env.now;
      oracle_address = some address;
      nonce = some s.nonce;
      reconciled = true;
    });
  }

  abbrev pub succeeded : ℕ → ℕ → ConfigSnapshot → Submitted → OracleSubmission → OracleSubmission
  succeeded address nonce config tx s = record s {
    status = confirmed;
    tx_hash = tx.tx_hash;
    result = some (record empty_result {
      confirmed = true;
      confirmed_at = some env.now;
      oracle_address = some address;
      nonce = some nonce;
      ledger = tx.ledger;
      config_snapshot = some config;
    });
  }

  -- What became of the transaction.
  unfoldable pub settle :
      SubmitJob → ConfigSnapshot → ℕ → OracleSubmission → Option Submitted → Action Db (Unit {0})
  unfolding calculate_credits_and_confirm_batch
  settle job config nonce s none db = (err failure, store (fail send_failed s) db)
  settle job config nonce s (some tx) db =
      let s' = succeeded job.oracle_address nonce config tx s in
      if tx.success
      then (ok tt, calculate_credits_and_confirm_batch s' job.project_id (store s' db))
      else (err failure, store (fail unexpected_status s) db)

  -- From the reading on, with the nonce that the chain expects.
  unfoldable pub submit : SubmitJob → OracleSubmission → ℕ → Action Db (Unit {0})
  unfolding settle map_snapshot_to_payload load_live_config_snapshot score_reading
  submit job s nonce db =
      let config = load_live_config_snapshot env.config_at_start in
      elim (map_snapshot_to_payload env.parse_float s.readings_snapshot) [
        | none ↦ (err failure, store (fail no_parameters s) db)
        | some payload ↦
            let sent = record s { status = submitted } in
            settle job config nonce sent
              (env.submit_reading job.project_id (score_reading config payload) nonce)
              (store sent db)
      ]

  -- The nonce is ahead of the one that the chain expects.
  unfoldable pub resequence : SubmitJob → OracleSubmission → ℕ → Action Db (Unit {0})
  unfolding submit
  resequence job s expected db =
      let s' = record s { nonce = expected } in
      elim (find (is_newer_confirmed job.oracle_address s) db.submissions) [
        | some newer ↦ (ok tt, store (fail (newer_confirmed newer.id) s) db)
        | none ↦
            if is_some (find (has_nonce s expected) db.submissions)
            then (err failure, db)
            else submit job s' expected (store s' db)
      ]

  unfoldable pub with_nonce : SubmitJob → OracleSubmission → ℕ → Action Db (Unit {0})
  unfolding submit resequence calculate_credits_and_confirm_batch
  with_nonce job s on_chain db =
      let s' = reconciled job.oracle_address s in
      if s.nonce == on_chain + 1
      then submit job s (on_chain + 1) db
      else if ltb (on_chain + 1) s.nonce
      then resequence job s (on_chain + 1) db
      else if s.nonce == on_chain
      then (ok tt, calculate_credits_and_confirm_batch s' job.project_id (store s' db))
      else (ok tt, store (fail (behind_chain on_chain s.nonce) s) db)

  unfoldable pub process_submission : SubmitJob → Action Db (Unit {0})
  unfolding with_nonce
  process_submission job db = elim (find_id job.submission_id db.submissions) [
    | none ↦ (ok tt, db)
    | some s ↦
        if is_confirmed s.status
        then (ok tt, db)
        else if not env.is_configured
        then (err failure, store (fail not_configured s) db)
        else elim (env.on_chain_nonce job.oracle_address) [
          | none ↦ (err failure, db)
          | some on_chain ↦ with_nonce job s on_chain db
        ]
  ]
