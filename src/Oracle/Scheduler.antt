-- ===== src/Oracle/Scheduler.antt =====
-- OracleSchedulerService: the batches of a project that a cycle submits, one after the other.
pub mod Backed
pub mod Claims
pub mod Stranded
pub mod Attempts
pub mod Settled
use water_credits_backend.Prelude.{
  ℕ, ◌+◌, Bool, ◌&&◌, not, Option, none, some, List, [], ◌∷◌, ltb, ◌==◌, if◌then◌else◌, count_where,
  select, order_by, update_where, Result, HttpError, ok, err, failure, Action, ◌>>=◌, ◌>>◌,
}
use water_credits_backend.Sensors.Entities.{
  BatchStatus, pending, submitted, is_pending, is_submitted, ReadingBatch,
}
use water_credits_backend.Sensors.Batches.{is_stale}
use water_credits_backend.Oracle.Entities.{OracleSubmission, TriggerSubmissionDto, Env, Db}
use water_credits_backend.Oracle.Submissions.{trigger_submission}
use water_credits_backend.Oracle.Aggregation.{aggregate_readings_for_batch, to_readings_snapshot}

-- Pending, not empty, and `created_at < now - BATCH_WINDOW_MS`.
abbrev pub is_eligible : ℕ → ℕ → ReadingBatch → Bool
is_eligible now project_id b =
    b.project_id == project_id && is_pending b.status && ltb 0 b.reading_count && is_stale now b

unfoldable pub find_eligible_batches : ℕ → ℕ → List ReadingBatch → List ReadingBatch
find_eligible_batches now project_id batches =
    order_by (λ b. b.created_at) (select (is_eligible now project_id) batches)

abbrev pub is_claimable : ℕ → ReadingBatch → Bool
is_claimable id b = b.id == id && is_pending b.status

abbrev pub claimed : ℕ → ReadingBatch → ReadingBatch
claimed now b = record b { status = submitted; submitted_at = some now }

-- The conditional UPDATE from pending to submitted.
unfoldable pub claim : ℕ → ℕ → Db → Db
claim now id db = record db { batches = update_where (is_claimable id) (claimed now) db.batches }

abbrev pub is_releasable : ℕ → ReadingBatch → Bool
is_releasable id b = b.id == id && is_submitted b.status

abbrev pub released : ReadingBatch → ReadingBatch
released b = record b { status = pending; submitted_at = none }

-- The UPDATE back to pending; submit_batch tests whether it is answered.
unfoldable pub release : ℕ → Db → Db
release id db = record db { batches = update_where (is_releasable id) released db.batches }

pub record CycleCount : Type 0 where
  pub submitted : ℕ
  pub failed : ℕ

abbrev pub add_counts : CycleCount → CycleCount → CycleCount
add_counts a b = record { submitted = a.submitted + b.submitted; failed = a.failed + b.failed }

-- The body of the `try`.
unfoldable pub submit_claimed : Env → ℕ → ℕ → ℕ → Action Db OracleSubmission
submit_claimed env project_id oracle_address batch_id = do
  aggregate ← aggregate_readings_for_batch env project_id batch_id
  trigger_submission env (record {
    project_id = project_id;
    oracle_address = oracle_address;
    batch_id = some batch_id;
    readings = some (to_readings_snapshot aggregate);
  })

abbrev pub no_counts : CycleCount
no_counts = record { submitted = 0; failed = 0 }

-- One batch of the loop; an UPDATE that claims or releases it may throw, out of the loop.
unfoldable pub submit_batch : Env → ℕ → ℕ → ReadingBatch → Action Db CycleCount
submit_batch env project_id oracle_address b db =
    if not (env.claims b.id)
    then (err failure, db)
    else if not (count_where (is_claimable b.id) db.batches == 1)
    then (ok no_counts, db)
    else let (outcome, db') =
        submit_claimed env project_id oracle_address b.id (claim env.now b.id db) in
      elim outcome [
        | ok _ ↦ (ok (record { submitted = 1; failed = 0 }), db')
        | err _ ↦
            if env.releases b.id
            then (ok (record { submitted = 0; failed = 1 }), release b.id db')
            else (err failure, db')
      ]

abbrev pub add_results : CycleCount → Result CycleCount → Result CycleCount
add_results count (ok others) = ok (add_counts count others)
add_results count (err e) = err e

unfoldable pub submit_all : Env → ℕ → ℕ → List ReadingBatch → Action Db CycleCount
submit_all env project_id oracle_address [] db = (ok no_counts, db)
submit_all env project_id oracle_address (b ∷ rest) db =
    let (outcome, db') = submit_batch env project_id oracle_address b db in
    let (others, db'') = submit_all env project_id oracle_address rest db' in
    if env.shutting_down b
    then (ok no_counts, db)
    else elim outcome [ err e ↦ (err e, db') | ok count ↦ (add_results count others, db'') ]

unfoldable pub submit_project_batches : Env → ℕ → ℕ → Action Db CycleCount
submit_project_batches env project_id oracle_address db =
    submit_all env project_id oracle_address (find_eligible_batches env.now project_id db.batches)
      db
