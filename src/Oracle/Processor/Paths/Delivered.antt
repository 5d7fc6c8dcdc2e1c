-- ===== src/Oracle/Processor/Paths/Delivered.antt =====
-- A job of the oracle where nothing goes wrong.
use water_credits_backend.Prelude.{
  ℕ, ◌+◌, ◌-◌, ◌*◌, ◌/◌, min, pos_part, ◌≡◌, true, false, some, find_id,
}
use water_credits_backend.Governance.Entities.{GovernanceConfig}
use water_credits_backend.Projects.Entities.{Project, find_project}
use water_credits_backend.Sensors.Entities as SensorTables
use water_credits_backend.Sensors.Entities.{Parameters, ReadingBatch, ReadingBatch-entity}
use water_credits_backend.Oracle.Entities.{OracleSubmission, OracleSubmission-entity, SubmitJob, Db}
use water_credits_backend.Oracle.Scoring.{scored_of, reduction, ph_deviation, above}
use water_credits_backend.Oracle.Payload.{
  map_snapshot_to_payload, load_live_config_snapshot, score_reading,
}
use water_credits_backend.Oracle.Processor.{
  Submitted, Surroundings, is_confirmed, find_submitted_batch, succeeded,
}

module _ (env : Surroundings) (job : SubmitJob) (db : Db) (s : OracleSubmission) (on_chain : ℕ)
    (payload : Parameters) (tx : Submitted) (project : Project) (config : GovernanceConfig)
    (b : ReadingBatch) where
  -- The chain expects the nonce, takes the readings, and everything that the credits need is there.
  pub record IsDeliverable : Type 0 where
    pub found : find_id job.submission_id db.submissions ≡ some s
    pub waiting : is_confirmed s.status ≡ false
    pub set : env.is_configured ≡ true
    pub reached : env.on_chain_nonce job.oracle_address ≡ some on_chain
    pub next : s.nonce ≡ on_chain + 1
    pub read : map_snapshot_to_payload env.parse_float s.readings_snapshot ≡ some payload
    pub answered :
        env.submit_reading job.project_id
          (score_reading (load_live_config_snapshot env.config_at_start) payload)
          (on_chain + 1)
        ≡ some tx
    pub success : tx.success ≡ true
    pub project_there : find_project job.project_id db.projects ≡ some project
    pub config_there : env.config_at_end ≡ some config
    pub batch_there : find_submitted_batch s job.project_id db.batches ≡ some b

  abbrev confirmed_submission : OracleSubmission
  confirmed_submission =
      succeeded env job.oracle_address (on_chain + 1)
        (load_live_config_snapshot env.config_at_start) tx s

  -- The credits of a snapshot: the weighted score, less the penalty for pH and temperature, times the
  -- area, and rounded to six decimals.
  abbrev pub credits_due : ℕ → ℕ
  credits_due area =
      let r = scored_of env.parse_float s.readings_snapshot in
      let weighted =
        min 2000 (pos_part r.flow_rate) * 10 * config.weight_volumetric
        + reduction r.nitrogen * config.weight_nitrogen
        + reduction r.phosphorus * config.weight_phosphorus in
      let deviation = ph_deviation config r.ph + above config.temp_penalty_delta r.temperature in
      ((weighted - deviation * 100000) * area + 10000) / 20000
