-- ===== src/Oracle/Scheduler/Backed.antt =====
-- One claimed batch: whether it is submitted with a job, or released.
use water_credits_backend.Oracle.Submissions.Nonces.{HasUniqueNonces}
use water_credits_backend.Prelude.{
  ℕ, ◌≡◌, Bool, true, false, ◌||◌, not, none, some, List, [], ◌∷◌, ◌++◌, ◌==◌, arith, All,
  Bool-cases, inl, inr, ◌⊎◌, find, is_some, ok, err, HttpError, failure, not_found, length, select,
  update_where,
}
use water_credits_backend.Sensors.Entities.{SensorReading, ReadingBatch, is_submitted}
use water_credits_backend.Oracle.Entities.{
  OracleSubmission, TriggerSubmissionDto, SubmitJob, Env, Db,
}
use water_credits_backend.Oracle.Submissions.{job_of}
use water_credits_backend.Oracle.Submissions.Nonces.{
  trigger_submission-cases, inserted-HasUniqueNonces, inserted,
}
use water_credits_backend.Oracle.Aggregation.{
  is_aggregated, medians_of, AggregatedReading, aggregate_readings_for_batch, to_readings_snapshot,
}
use water_credits_backend.Oracle.Scheduler.{
  is_claimable, claimed, is_releasable, released, submit_claimed,
}

abbrev pub is_job_of : ℕ → SubmitJob → Bool
is_job_of id j = elim j.batch_id [ none ↦ false | some i ↦ i == id ]

-- The queue was given a job for the batch, if the batch is submitted.
abbrev pub IsBacked : List SubmitJob → ReadingBatch → Type 0
IsBacked queue b = (not (is_submitted b.status) || is_some (find (is_job_of b.id) queue)) ≡ true

find-append_left :
    {A : Type 0} (p : A → Bool) (xs ys : List A)
    → is_some (find p xs) ≡ true
    → is_some (find p (xs ++ ys)) ≡ true
find-append_left p [] ys h = cc
find-append_left p (x ∷ xs) ys h = ground (arith, find-append_left p xs ys)

find-append_right :
    {A : Type 0} (p : A → Bool) (xs : List A) (y : A)
    → p y ≡ true
    → is_some (find p (xs ++ y ∷ [])) ≡ true
find-append_right p [] y h = ground (arith, h)
find-append_right p (x ∷ xs) y h = ground (arith, find-append_right p xs y, h)

pub release-IsBacked :
    (now id : ℕ) (queue : List SubmitJob) (batches : List ReadingBatch)
    → All (IsBacked queue) batches
    → All (IsBacked queue) (
        update_where
          (is_releasable id)
          released
          (update_where (is_claimable id) (claimed now) batches))
release-IsBacked now id queue [] h = tt
release-IsBacked now id queue (b ∷ rest) h =
    (ground (arith, h.0), release-IsBacked now id queue rest h.1)

pub claim-IsBacked :
    (now id : ℕ) (queue : List SubmitJob) (job : SubmitJob) (batches : List ReadingBatch)
    → is_job_of id job ≡ true
    → All (IsBacked queue) batches
    → All (IsBacked (queue ++ job ∷ [])) (update_where (is_claimable id) (claimed now) batches)
claim-IsBacked now id queue job [] new h = tt
claim-IsBacked now id queue job (b ∷ rest) new h = (
  ground (
    arith,
    h.0,
    find-append_left (is_job_of b.id) queue (job ∷ []),
    find-append_right (is_job_of id) queue job new,
    find-append_right (is_job_of b.id) queue job,
  ),
  claim-IsBacked now id queue job rest new h.1,
)

module _ (env : Env) (project_id oracle_address batch_id : ℕ) (db : Db) where
  abbrev pub verified : List SensorReading
  verified = select (is_aggregated project_id batch_id) db.readings

  abbrev pub aggregated : AggregatedReading
  aggregated = record { medians = medians_of env verified; oracle_count = length verified }

  pub aggregate-empty :
      (length verified == 0) ≡ true
      → aggregate_readings_for_batch env project_id batch_id db ≡ (err not_found, db)
  unfolding aggregate_readings_for_batch
  aggregate-empty h = ground arith

  pub aggregate-full :
      (length verified == 0) ≡ false
      → aggregate_readings_for_batch env project_id batch_id db ≡ (ok aggregated, db)
  unfolding aggregate_readings_for_batch
  aggregate-full h = ground arith

  abbrev pub dto : TriggerSubmissionDto
  dto = record {
    project_id = project_id;
    oracle_address = oracle_address;
    batch_id = some batch_id;
    readings = some (to_readings_snapshot aggregated);
  }

  -- A claimed batch ends in an exception, which adds no job, or in one submission and its job.
  pub submit_claimed-cases :
      ((e : HttpError) × (subs : List OracleSubmission) × (submit_claimed env project_id
            oracle_address batch_id db
          ≡ (err e, record db { submissions = subs }))
        × (HasUniqueNonces db.submissions → HasUniqueNonces subs))
      ⊎ ((s : OracleSubmission) × (submit_claimed env project_id oracle_address batch_id db ≡ (
        ok s,
        record db { submissions = db.submissions ++ s ∷ []; queue = db.queue ++ job_of s ∷ [] },
      ))
          × (is_job_of batch_id (job_of s) ≡ true)
          × (HasUniqueNonces db.submissions → HasUniqueNonces (db.submissions ++ s ∷ [])))
  unfolding submit_claimed
  submit_claimed-cases = elim (Bool-cases (length verified == 0)) [
    | inl none_there ↦
        inl (not_found, db.submissions, ground (arith, aggregate-empty none_there), λ u. u)
    | inr some_there ↦ elim (trigger_submission-cases env dto db) [
      | inl (subs, fails, unique) ↦
          inl (failure, subs, ground (arith, aggregate-full some_there, fails), unique)
      | inr stored ↦ inr (
        inserted env dto db,
        ground (arith, aggregate-full some_there, stored),
        ground arith,
        inserted-HasUniqueNonces env dto db,
      )
    ]
  ]
