-- ===== src/Oracle/Processor/Paths.antt =====
-- The ways through a job of the oracle.
pub mod Confirmed
pub mod Delivered
use Prim.Native.String.{String}
use mathlib.Core.Option.{some-injective}
use water_credits_backend.Prelude.{
  ℕ, ◌+◌, ◌≡◌, refl, sym, ap, ◌∙◌, Bool, true, false, not, Option, none, some, ltb, ◌==◌, is_some,
  arith, Bool-cases, Option-cases, inl, inr, if◌then◌else◌, find, find_id, save, find_id-save_self,
  id_of-find_id, ok, err, failure, Action,
}
use water_credits_backend.Governance.Entities.{GovernanceConfig}
use water_credits_backend.Projects.Entities.{Project, find_project}
use water_credits_backend.Sensors.Entities.{Parameters, ReadingBatch, ReadingBatch-entity}
use water_credits_backend.Oracle.Entities.{
  submitted, ConfigSnapshot, SubmissionError, not_configured, no_parameters, unexpected_status,
  send_failed, behind_chain, newer_confirmed, OracleSubmission, OracleSubmission-entity, SubmitJob,
  Db,
}
use water_credits_backend.Oracle.Scoring.{calculate}
use water_credits_backend.Oracle.Payload.{
  map_snapshot_to_payload, load_live_config_snapshot, score_reading,
}
use water_credits_backend.Oracle.Processor.{
  Submitted, Surroundings, is_confirmed, store, fail, find_submitted_batch, is_newer_confirmed,
  has_nonce, confirm_with, calculate_credits_and_confirm_batch, reconciled, succeeded, settle,
  submit, resequence, with_nonce, process_submission,
}

module _ (env : Surroundings) (job : SubmitJob) where
  module _ (db : Db) (s : OracleSubmission) (project_id : ℕ) where
    -- The credits are written to batches only.
    pub calculate_submissions :
        (calculate_credits_and_confirm_batch env s project_id db).submissions ≡ db.submissions
    unfolding calculate_credits_and_confirm_batch
    calculate_submissions = elim (Option-cases (find_project project_id db.projects)) [
      | inl missing ↦ ground (arith, missing)
      | inr (project, found) ↦ elim (Option-cases env.config_at_end) [
        | inl no_config ↦ ground (arith, found, no_config)
        | inr (config, there) ↦ elim (Option-cases (find_submitted_batch s project_id db.batches)) [
          | inl no_batch ↦ ground (arith, found, there, no_batch)
          | inr (b, batch) ↦ ground (arith, found, there, batch)
        ]
      ]
    ]

    pub credits-confirm :
        (project : Project) (config : GovernanceConfig) (b : ReadingBatch)
        → find_project project_id db.projects ≡ some project
        → env.config_at_end ≡ some config
        → find_submitted_batch s project_id db.batches ≡ some b
        → calculate_credits_and_confirm_batch env s project_id db ≡ record db {
          batches =
              save
                (confirm_with env
                  (calculate env.parse_float s.readings_snapshot config project.area_hectares)
                  b)
                db.batches;
        }
    unfolding calculate_credits_and_confirm_batch
    credits-confirm project config b found there batch = ground (arith, found, there, batch)

  module _ (db : Db) (s : OracleSubmission) (nonce : ℕ) where
    abbrev pub sent : OracleSubmission
    sent = record s { status = submitted }

    pub submit-empty :
        map_snapshot_to_payload env.parse_float s.readings_snapshot ≡ none
        → submit env job s nonce db ≡ (err failure, store (fail no_parameters s) db)
    unfolding submit
    submit-empty empty = ground arith

    pub submit-settle :
        (payload : Parameters)
        → map_snapshot_to_payload env.parse_float s.readings_snapshot ≡ some payload
        → submit env job s nonce db
          ≡ settle env job
              (load_live_config_snapshot env.config_at_start)
              nonce
              sent
              (env.submit_reading job.project_id
                (score_reading (load_live_config_snapshot env.config_at_start) payload)
                nonce)
              (store sent db)
    unfolding submit
    submit-settle payload read = ground arith

    abbrev pub moved : OracleSubmission
    moved = record s { nonce = nonce }

    pub resequence-newer :
        (newer : OracleSubmission)
        → find (is_newer_confirmed job.oracle_address s) db.submissions ≡ some newer
        → resequence env job s nonce db ≡ (ok tt, store (fail (newer_confirmed newer.id) s) db)
    unfolding resequence
    resequence-newer newer found = ground arith

    pub resequence-taken :
        find (is_newer_confirmed job.oracle_address s) db.submissions ≡ none
        → is_some (find (has_nonce s nonce) db.submissions) ≡ true
        → resequence env job s nonce db ≡ (err failure, db)
    unfolding resequence
    resequence-taken none_newer taken = ground arith

    pub resequence-submit :
        find (is_newer_confirmed job.oracle_address s) db.submissions ≡ none
        → is_some (find (has_nonce s nonce) db.submissions) ≡ false
        → resequence env job s nonce db ≡ submit env job moved nonce (store moved db)
    unfolding resequence
    resequence-submit none_newer free = ground arith

  module _ (db : Db) (s : OracleSubmission) (on_chain : ℕ) where
    pub with_nonce-submit :
        s.nonce ≡ on_chain + 1
        → with_nonce env job s on_chain db ≡ submit env job s (on_chain + 1) db
    unfolding with_nonce
    with_nonce-submit same = ground arith

    pub with_nonce-resequence :
        ltb (on_chain + 1) s.nonce ≡ true
        → with_nonce env job s on_chain db ≡ resequence env job s (on_chain + 1) db
    unfolding with_nonce
    with_nonce-resequence ahead = ground arith

    pub with_nonce-reconcile :
        s.nonce ≡ on_chain
        → with_nonce env job s on_chain db ≡ (
          ok tt,
          calculate_credits_and_confirm_batch env
              (reconciled env job.oracle_address s)
              job.project_id
              (store (reconciled env job.oracle_address s) db),
        )
    unfolding with_nonce
    with_nonce-reconcile same = ground arith

    pub with_nonce-behind :
        ltb s.nonce on_chain ≡ true
        → with_nonce env job s on_chain db
          ≡ (ok tt, store (fail (behind_chain on_chain s.nonce) s) db)
    unfolding with_nonce
    with_nonce-behind behind = ground arith

  module _ (db : Db) (s : OracleSubmission)
      (found : find_id job.submission_id db.submissions ≡ some s)
      (waiting : is_confirmed s.status ≡ false) where
    pub process-unconfigured :
        env.is_configured ≡ false
        → process_submission env job db ≡ (err failure, store (fail not_configured s) db)
    unfolding process_submission
    process-unconfigured unset = ground arith

    pub process-unreachable :
        env.is_configured ≡ true
        → env.on_chain_nonce job.oracle_address ≡ none
        → process_submission env job db ≡ (err failure, db)
    unfolding process_submission
    process-unreachable set unreachable = ground arith

    pub process-nonce :
        (on_chain : ℕ)
        → env.is_configured ≡ true
        → env.on_chain_nonce job.oracle_address ≡ some on_chain
        → process_submission env job db ≡ with_nonce env job s on_chain db
    unfolding process_submission
    process-nonce on_chain set reached = ground arith
