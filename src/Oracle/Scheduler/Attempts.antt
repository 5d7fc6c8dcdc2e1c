-- ===== src/Oracle/Scheduler/Attempts.antt =====
-- One attempt at submitting a batch, in steady surroundings.
use water_credits_backend.Prelude.{
  ℕ, ◌≡◌, refl, Bool, true, false, none, some, List, [], ◌∷◌, ◌++◌, ◌==◌, arith, Option-cases, inl,
  inr, ok, err, not_found, not, ◌&&◌, Bool-cases, failure, Result, HttpError, length, select,
  update_where, if◌then◌else◌, count_where, find_id, HasUniqueIds, find_id-update_where,
  update_where-HasUniqueIds, id_of-find_id, ap,
}
use water_credits_backend.Sensors.Entities.{
  ReadingBatch, ReadingBatch-entity, SensorReading, is_pending, pending, submitted,
}
use water_credits_backend.Oracle.Entities.{
  OracleSubmission, Env, SubmitJob, Db, Snapshot, TriggerSubmissionDto,
}
use water_credits_backend.Oracle.Aggregation.{is_aggregated, medians_of, to_readings_snapshot}
use water_credits_backend.Oracle.Submissions.{job_of, trigger_submission}
use water_credits_backend.Oracle.Submissions.Nonces.{inserted, trigger_submission_lem}
use water_credits_backend.Oracle.Scheduler.Backed.{dto, aggregate-empty, aggregate-full}
use water_credits_backend.Oracle.Scheduler.{
  is_claimable, claimed, is_releasable, released, submit_claimed,
}

-- Whether a transaction commits is a matter of the snapshot alone, the queue takes every job or none,
-- no shutdown is requested, and the UPDATEs that claim and release batches do not throw. A database that refuses every transaction is steady too.
pub record IsSteady (env : Env) : Type 0 where
  pub accepts : Snapshot → Bool
  pub commits : (s : OracleSubmission) → env.commits s ≡ accepts s.readings_snapshot
  pub taken : Bool
  pub takes : (job : SubmitJob) → env.takes job ≡ taken
  pub runs : (b : ReadingBatch) → env.shutting_down b ≡ false
  pub claims : (id : ℕ) → env.claims id ≡ true
  pub releases : (id : ℕ) → env.releases id ≡ true

pub claimable_once :
    (id : ℕ) (batches : List ReadingBatch)
    → HasUniqueIds batches
    → count_where (is_claimable id) batches
      ≡ elim (find_id id batches) [ none ↦ 0 | some b ↦ if is_pending b.status then 1 else 0 ]
claimable_once id [] u = refl
claimable_once id (b ∷ rest) u =
    ground
      (arith, claimable_once id rest u.1, u.0, ap (λ (j : ℕ). find_id j rest) {x = b.id} {y = id})

module _ (env : Env) (project_id oracle_address : ℕ) (steady : IsSteady env) where
  -- Whether a submission for a batch with these readings goes through: there is a verified reading,
  -- the database takes the snapshot of their medians, and the queue takes the job.
  unfoldable pub is_accepted : List SensorReading → ℕ → Bool
  is_accepted readings id =
      let verified = select (is_aggregated project_id id) readings in
      not (length verified == 0)
      && steady.accepts (
          to_readings_snapshot
            (record { medians = medians_of env verified; oracle_count = length verified }))
      && steady.taken

  -- An accepted batch is submitted now; any other is pending again, without a submission time.
  abbrev pub attempted : List SensorReading → ReadingBatch → ReadingBatch
  attempted readings b =
      if is_accepted readings b.id
      then record b { status = submitted; submitted_at = some env.now }
      else record b { status = pending; submitted_at = none }

  abbrev pub attempted_if_pending : List SensorReading → ReadingBatch → ReadingBatch
  attempted_if_pending readings b = if is_pending b.status then attempted readings b else b

  module _ (id : ℕ) (db : Db) where
    abbrev dto_of : TriggerSubmissionDto
    dto_of = dto env project_id oracle_address id db

    abbrev new : OracleSubmission
    new = inserted env dto_of db

    submit_claimed-trigger :
        (length (select (is_aggregated project_id id) db.readings) == 0) ≡ false
        → (r : Result OracleSubmission) (db' : Db) → trigger_submission env dto_of db ≡ (r, db')
        → submit_claimed env project_id oracle_address id db ≡ (r, db')
    unfolding submit_claimed
    submit_claimed-trigger some_there r db' triggers =
        ground (arith, aggregate-full env project_id oracle_address id db some_there, triggers)

    submit_claimed-empty :
        (length (select (is_aggregated project_id id) db.readings) == 0) ≡ true
        → submit_claimed env project_id oracle_address id db ≡ (err not_found, db)
    unfolding submit_claimed
    submit_claimed-empty none_there =
        ground (arith, aggregate-empty env project_id oracle_address id db none_there)

    pub submit_claimed-accepted :
        is_accepted db.readings id ≡ true
        → (s : OracleSubmission) × (subs : List OracleSubmission) × (queue : List SubmitJob)
          × (submit_claimed env project_id oracle_address id db
              ≡ (ok s, record db { submissions = subs; queue = queue }))
    unfolding is_accepted
    submit_claimed-accepted accepted = (
      new,
      db.submissions ++ new ∷ [],
      db.queue ++ job_of new ∷ [],
      submit_claimed-trigger (ground arith) (ok new)
          (record db {
            submissions = db.submissions ++ new ∷ [];
            queue = db.queue ++ job_of new ∷ [];
          })
          ((trigger_submission_lem env dto_of db).2 (ground (arith, steady.commits new))
            (ground (arith, steady.takes (job_of new)))),
    )

    pub submit_claimed-refused :
        is_accepted db.readings id ≡ false
        → (e : HttpError) × (subs : List OracleSubmission) × (submit_claimed env project_id
              oracle_address id db
            ≡ (err e, record db { submissions = subs }))
    unfolding is_accepted
    submit_claimed-refused refused =
        elim (Bool-cases (length (select (is_aggregated project_id id) db.readings) == 0)) [
          | inl none_there ↦ (not_found, db.submissions, submit_claimed-empty none_there)
          | inr some_there ↦ elim (Bool-cases (env.commits new)) [
            | inr fails ↦ (
              failure,
              db.submissions,
              submit_claimed-trigger some_there (err failure) db
                  ((trigger_submission_lem env dto_of db).0 fails),
            )
            | inl commits ↦ (
              failure,
              db.submissions ++ new ∷ [],
              submit_claimed-trigger some_there (err failure)
                  (record db { submissions = db.submissions ++ new ∷ [] })
                  ((trigger_submission_lem env dto_of db).1 commits
                    (ground (arith, steady.commits new, steady.takes (job_of new)))),
            )
          ]
        ]

module _ (now id : ℕ) (batches : List ReadingBatch) (c : ReadingBatch)
    (found : find_id id batches ≡ some c) (open_one : is_pending c.status ≡ true) where
  abbrev pub claimed_rows : List ReadingBatch
  claimed_rows = update_where (is_claimable id) (claimed now) batches

  abbrev pub released_rows : List ReadingBatch
  released_rows = update_where (is_releasable id) released claimed_rows

  pub claimed_rows-find_id :
      (i : ℕ)
      → find_id i claimed_rows ≡ (if i == id then some (claimed now c) else find_id i batches)
  claimed_rows-find_id i = elim (Option-cases (find_id i batches)) [
    | inl missing ↦ ground (
      arith,
      find_id-update_where (is_claimable id) (claimed now) i batches (λ x. refl),
      ap (λ (j : ℕ). find_id j batches) {x = i} {y = id},
    )
    | inr (b, there) ↦ ground (
      arith,
      find_id-update_where (is_claimable id) (claimed now) i batches (λ x. refl),
      id_of-find_id i batches there,
      ap (λ (j : ℕ). find_id j batches) {x = i} {y = id},
    )
  ]

  pub released_rows-find_id :
      (i : ℕ)
      → find_id i released_rows
        ≡ (if i == id then some (released (claimed now c)) else find_id i batches)
  released_rows-find_id i = elim (Option-cases (find_id i batches)) [
    | inl missing ↦ ground (
      arith,
      find_id-update_where (is_releasable id) released i claimed_rows (λ x. refl),
      claimed_rows-find_id i,
      id_of-find_id id batches found,
    )
    | inr (b, there) ↦ ground (
      arith,
      find_id-update_where (is_releasable id) released i claimed_rows (λ x. refl),
      claimed_rows-find_id i,
      id_of-find_id id batches found,
      id_of-find_id i batches there,
    )
  ]

  pub claimed_rows-HasUniqueIds : HasUniqueIds batches → HasUniqueIds claimed_rows
  claimed_rows-HasUniqueIds =
      update_where-HasUniqueIds (is_claimable id) (claimed now) batches (λ x. refl)

  pub released_rows-HasUniqueIds : HasUniqueIds batches → HasUniqueIds released_rows
  released_rows-HasUniqueIds u =
      update_where-HasUniqueIds (is_releasable id) released claimed_rows (λ x. refl)
        (claimed_rows-HasUniqueIds u)
