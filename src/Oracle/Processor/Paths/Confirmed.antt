-- ===== src/Oracle/Processor/Paths/Confirmed.antt =====
-- When a job of the oracle leaves its submission confirmed.
use water_credits_backend.Prelude.{
  ℕ, ◌+◌, ◌≡◌, refl, ap, ◌∙◌, Bool, true, false, Option, none, some, ltb, ◌==◌, is_some, arith,
  Bool-cases, Option-cases, inl, inr, find, find_id, find_id-save_self, id_of-find_id,
}
use water_credits_backend.Sensors.Entities.{Parameters, ReadingBatch-entity}
use water_credits_backend.Oracle.Entities.{
  ConfigSnapshot, not_configured, no_parameters, unexpected_status, send_failed, behind_chain,
  newer_confirmed, OracleSubmission, OracleSubmission-entity, SubmitJob, Db,
}
use water_credits_backend.Oracle.Payload.{
  map_snapshot_to_payload, load_live_config_snapshot, score_reading,
}
use water_credits_backend.Oracle.Processor.{
  Submitted, Surroundings, is_confirmed, store, fail, is_newer_confirmed, has_nonce, settle, submit,
  resequence, with_nonce, process_submission,
}
use water_credits_backend.Oracle.Processor.Paths.{
  sent, submit-empty, submit-settle, moved, resequence-newer, resequence-taken, resequence-submit,
  with_nonce-submit, with_nonce-resequence, with_nonce-behind, process-unconfigured,
  process-unreachable, process-nonce,
}

-- The stored submission of that id is confirmed.
abbrev pub is_done : ℕ → Db → Bool
is_done id db = elim (find_id id db.submissions) [ none ↦ false | some s ↦ is_confirmed s.status ]

is_done-store : (s : OracleSubmission) (db : Db) → is_done s.id (store s db) ≡ is_confirmed s.status
is_done-store s db =
    ap (λ (o : Option OracleSubmission). elim o [ none ↦ false | some x ↦ is_confirmed x.status ])
      (find_id-save_self s db.submissions)

module _ (env : Surroundings) (job : SubmitJob) where
  -- The chain took the submission's readings, under the nonce after its own.
  pub record HasSent (s : OracleSubmission) (nonce : ℕ) : Type 0 where
    pub payload : Parameters
    pub tx : Submitted
    pub read : map_snapshot_to_payload env.parse_float s.readings_snapshot ≡ some payload
    pub answered :
        env.submit_reading job.project_id
          (score_reading (load_live_config_snapshot env.config_at_start) payload)
          nonce
        ≡ some tx
    pub success : tx.success ≡ true

  settle-success :
      (config : ConfigSnapshot) (nonce : ℕ) (s : OracleSubmission) (o : Option Submitted) (db : Db)
      → is_done s.id (settle env job config nonce s o db).1 ≡ true
      → (tx : Submitted) × (o ≡ some tx) × (tx.success ≡ true)
  unfolding settle
  settle-success config nonce s none db h =
      absurd (ground (arith, is_done-store (fail send_failed s) db))
  settle-success config nonce s (some tx) db h = elim (Bool-cases tx.success) [
    | inl yes_ok ↦ (tx, refl, yes_ok)
    | inr no_ok ↦ absurd (ground (arith, is_done-store (fail unexpected_status s) db))
  ]

  submit-HasSent :
      (db : Db) (s : OracleSubmission) (nonce : ℕ)
      → is_done s.id (submit env job s nonce db).1 ≡ true
      → HasSent s nonce
  submit-HasSent db s nonce h =
      elim (Option-cases (map_snapshot_to_payload env.parse_float s.readings_snapshot)) [
        | inl empty ↦ absurd (
            ground (
              arith,
              submit-empty env job db s nonce empty,
              is_done-store (fail no_parameters s) db,
            ))
        | inr (payload, read) ↦
            let config = load_live_config_snapshot env.config_at_start in
            let (tx, answered, success) =
              settle-success config nonce (sent env job db s nonce)
                (env.submit_reading job.project_id (score_reading config payload) nonce)
                (store (sent env job db s nonce) db)
                (rw (submit-settle env job db s nonce payload read) at h) in
            record {
              payload = payload;
              tx = tx;
              read = read;
              answered = answered;
              success = success;
            }
      ]

  -- Why a submission was confirmed: the chain had its nonce, or took its readings under the next one.
  pub data IsBacked (s : OracleSubmission) : Type 0 where
    already : env.on_chain_nonce job.oracle_address ≡ some s.nonce → IsBacked s
    taken :
        (on_chain : ℕ)
        → env.on_chain_nonce job.oracle_address ≡ some on_chain
        → HasSent s (on_chain + 1)
        → IsBacked s

  resequence-HasSent :
      (db : Db) (s : OracleSubmission) (nonce : ℕ)
      → is_done s.id db ≡ false
      → is_done s.id (resequence env job s nonce db).1 ≡ true
      → HasSent s nonce
  resequence-HasSent db s nonce before h =
      elim (Option-cases (find (is_newer_confirmed job.oracle_address s) db.submissions)) [
        | inr (newer, found) ↦ absurd (
            ground (
              arith,
              resequence-newer env job db s nonce newer found,
              is_done-store (fail (newer_confirmed newer.id) s) db,
            ))
        | inl no_newer ↦ elim (Bool-cases (is_some (find (has_nonce s nonce) db.submissions))) [
          | inl in_use ↦
              absurd (ground (arith, resequence-taken env job db s nonce no_newer in_use))
          | inr free ↦
              let s' = moved env job db s nonce in
              let rest =
                submit-HasSent (store s' db) s' nonce
                  (rw (resequence-submit env job db s nonce no_newer free) at h) in
              record {
                payload = rest.payload;
                tx = rest.tx;
                read = rest.read;
                answered = rest.answered;
                success = rest.success;
              }
        ]
      ]

  with_nonce-IsBacked :
      (db : Db) (s : OracleSubmission) (on_chain : ℕ)
      → env.on_chain_nonce job.oracle_address ≡ some on_chain
      → is_done s.id db ≡ false
      → is_done s.id (with_nonce env job s on_chain db).1 ≡ true
      → IsBacked s
  with_nonce-IsBacked db s on_chain reached before h =
      elim (Bool-cases (ltb (on_chain + 1) s.nonce)) [
        | inl ahead ↦ taken on_chain reached (
            resequence-HasSent db s (on_chain + 1) before
              (rw (with_nonce-resequence env job db s on_chain ahead) at h))
        | inr not_ahead ↦ elim (Bool-cases (s.nonce == on_chain + 1)) [
          | inl next ↦ taken on_chain reached (
              submit-HasSent db s (on_chain + 1)
                (rw (with_nonce-submit env job db s on_chain (ground arith)) at h))
          | inr not_next ↦ elim (Bool-cases (ltb s.nonce on_chain)) [
            | inl behind ↦ absurd (
                ground (
                  arith,
                  with_nonce-behind env job db s on_chain behind,
                  is_done-store (fail (behind_chain on_chain s.nonce) s) db,
                ))
            | inr not_behind ↦
                let same : on_chain ≡ s.nonce = ground arith in already (reached ∙ ap some same)
          ]
        ]
      ]

  -- A job that makes its submission a confirmed one is backed by the chain: the chain already had the
  -- submission's nonce, or it took the submission's readings, under the nonce after its own.
  pub process_submission-IsBacked :
      (db : Db) (s : OracleSubmission)
      → find_id job.submission_id db.submissions ≡ some s
      → is_confirmed s.status ≡ false
      → is_done job.submission_id (process_submission env job db).1 ≡ true
      → IsBacked s
  process_submission-IsBacked db s found waiting h =
      let same : s.id ≡ job.submission_id = id_of-find_id job.submission_id db.submissions found in
      let before : is_done job.submission_id db ≡ false =
        ap
          (λ (o : Option OracleSubmission). elim o [
            | none ↦ false
            | some x ↦ is_confirmed x.status
          ])
          found
        ∙ waiting in
      elim (Bool-cases env.is_configured) [
        | inr unset ↦ absurd (
            ground (
              arith,
              process-unconfigured env job db s found waiting unset,
              is_done-store (fail not_configured s) db,
              ap (λ (i : ℕ). is_done i (store (fail not_configured s) db)) same,
            ))
        | inl set ↦ elim (Option-cases (env.on_chain_nonce job.oracle_address)) [
          | inl unreachable ↦
              absurd
                (ground (arith, process-unreachable env job db s found waiting set unreachable))
          | inr (on_chain, reached) ↦
              with_nonce-IsBacked db s on_chain reached (ap (λ (i : ℕ). is_done i db) same ∙ before)
                (ap (λ (i : ℕ). is_done i (with_nonce env job s on_chain db).1) same
                  ∙ (rw (process-nonce env job db s found waiting on_chain set reached) at h))
        ]
      ]
