-- ===== src/Oracle/Scheduler/Claims.antt =====
-- What a cycle does to the batches of a project, and to the queue.
pub use water_credits_backend.Oracle.Submissions.Nonces.{HasUniqueNonces}
use water_credits_backend.Prelude.{
  ℕ, ◌+◌, ◌≡◌, refl, Result, Result-cases, Action, true, false, List, [], ◌∷◌, ◌++◌, ◌==◌, arith,
  All, Bool-cases, inl, inr, ok, err, HttpError, length, length-append, count_where,
}
use water_credits_backend.Sensors.Entities.{ReadingBatch}
use water_credits_backend.Oracle.Entities.{OracleSubmission, SubmitJob, Env, Db}
use water_credits_backend.Oracle.Submissions.{job_of}
use water_credits_backend.Oracle.Scheduler.{
  is_claimable, claim, release, submit_claimed, submit_batch, CycleCount, add_results, submit_all,
  submit_project_batches, find_eligible_batches,
}
use water_credits_backend.Oracle.Scheduler.Backed.{
  IsBacked, release-IsBacked, claim-IsBacked, submit_claimed-cases,
}

-- What a cycle keeps, and how its counts and the queue go together.
pub record IsConsistent (db : Db) : Type 0 where
  pub unique : HasUniqueNonces db.submissions
  pub backed : All (IsBacked db.queue) db.batches

-- Where counts are reported, the queue has grown by the submissions among them.
abbrev pub IsCounted : Result CycleCount → List SubmitJob → List SubmitJob → Type 0
IsCounted r before after =
    (count : CycleCount) → r ≡ ok count → length after ≡ length before + count.submitted

add_results-IsCounted :
    (first : CycleCount) (r : Result CycleCount) (before middle after : List SubmitJob)
    → length middle ≡ length before + first.submitted
    → IsCounted r middle after
    → IsCounted (add_results first r) before after
add_results-IsCounted first (err e) before middle after added others count same = cc same
add_results-IsCounted first (ok n) before middle after added others count same =
    ground (arith, same, added, others n refl)

module _ (env : Env) (project_id oracle_address : ℕ)
    (releases : (id : ℕ) → env.releases id ≡ true) where
  abbrev batch_step : ReadingBatch → Action Db CycleCount
  batch_step = submit_batch env project_id oracle_address

  module _ (b : ReadingBatch) (db : Db) (claims : env.claims b.id ≡ true)
      (once : (count_where (is_claimable b.id) db.batches == 1) ≡ true) where
    submit_batch-fails :
        (e : HttpError) (db' : Db)
        → submit_claimed env project_id oracle_address b.id (claim env.now b.id db) ≡ (err e, db')
        → batch_step b db ≡ (ok (record { submitted = 0; failed = 1 }), release b.id db')
    unfolding submit_batch
    submit_batch-fails e db' fails = ground (arith, claims, once, fails, releases b.id)

    submit_batch-submits :
        (s : OracleSubmission) (db' : Db)
        → submit_claimed env project_id oracle_address b.id (claim env.now b.id db) ≡ (ok s, db')
        → batch_step b db ≡ (ok (record { submitted = 1; failed = 0 }), db')
    unfolding submit_batch
    submit_batch-submits s db' stored = ground (arith, claims, once, stored)

    submit_batch-claimed :
        IsConsistent db
        → IsConsistent (batch_step b db).1
          × IsCounted (batch_step b db).0 db.queue (batch_step b db).1.queue
    unfolding claim release
    submit_batch-claimed c =
        elim (submit_claimed-cases env project_id oracle_address b.id (claim env.now b.id db)) [
          | inl (e, subs, fails, unique) ↦
              rw
                (submit_batch-fails e (record (claim env.now b.id db) { submissions = subs }) fails)
                (
                  record {
                    unique = unique c.unique;
                    backed = release-IsBacked env.now b.id db.queue db.batches c.backed;
                  },
                  λ count same. ground (arith, same),
                )
          | inr (s, stored, named, unique) ↦
              let db' = record (claim env.now b.id db) {
                submissions = db.submissions ++ s ∷ [];
                queue = db.queue ++ job_of s ∷ [];
              } in
              rw (submit_batch-submits s db' stored) (
                record {
                  unique = unique c.unique;
                  backed =
                      claim-IsBacked env.now b.id db.queue (job_of s) db.batches named c.backed;
                },
                λ count same. ground (arith, same, length-append db.queue (job_of s ∷ [])),
              )
        ]

  submit_batch-IsConsistent :
      (b : ReadingBatch) (db : Db)
      → IsConsistent db
      → IsConsistent (batch_step b db).1
        × IsCounted (batch_step b db).0 db.queue (batch_step b db).1.queue
  unfolding submit_batch
  submit_batch-IsConsistent b db c = elim (Bool-cases (env.claims b.id)) [
    | inr thrown ↦ rw thrown (c, λ count same. cc same)
    | inl claims ↦ elim (Bool-cases (count_where (is_claimable b.id) db.batches == 1)) [
      | inl once ↦ submit_batch-claimed b db claims once c
      | inr elsewhere ↦ rw (claims, elsewhere) (c, λ count same. ground (arith, same))
    ]
  ]

  submit_all-err :
      (b : ReadingBatch) (rest : List ReadingBatch) (db : Db) (e : HttpError)
      → env.shutting_down b ≡ false
      → (batch_step b db).0 ≡ err e
      → submit_all env project_id oracle_address (b ∷ rest) db ≡ (err e, (batch_step b db).1)
  unfolding submit_all
  submit_all-err b rest db e goes_on thrown = ground (arith, goes_on, thrown)

  submit_all-ok :
      (b : ReadingBatch) (rest : List ReadingBatch) (db : Db) (count : CycleCount)
      → env.shutting_down b ≡ false
      → (batch_step b db).0 ≡ ok count
      → let others = submit_all env project_id oracle_address rest (batch_step b db).1 in
        submit_all env project_id oracle_address (b ∷ rest) db
        ≡ (add_results count others.0, others.1)
  unfolding submit_all
  submit_all-ok b rest db count goes_on counted = ground (arith, goes_on, counted)

  submit_all-IsConsistent :
      (batches : List ReadingBatch) (db : Db)
      → IsConsistent db
      → let (r, db') = submit_all env project_id oracle_address batches db in
        IsConsistent db' × IsCounted r db.queue db'.queue
  unfolding submit_all
  submit_all-IsConsistent [] db c = (c, λ count same. ground (arith, same))
  submit_all-IsConsistent (b ∷ rest) db c =
      let (kept, added) = submit_batch-IsConsistent b db c in
      let (kept', added') = submit_all-IsConsistent rest (batch_step b db).1 kept in
      elim (Bool-cases (env.shutting_down b)) [
        | inl stopped ↦ rw stopped (c, λ count same. ground (arith, same))
        | inr goes_on ↦ elim (Result-cases (batch_step b db).0) [
          | inl (e, thrown) ↦
              rw (submit_all-err b rest db e goes_on thrown) (kept, λ count same. cc same)
          | inr (first, counted) ↦ rw (submit_all-ok b rest db first goes_on counted) (
            kept',
            add_results-IsCounted first
                (submit_all env project_id oracle_address rest (batch_step b db).1).0 db.queue
                (batch_step b db).1.queue
                (submit_all env project_id oracle_address rest (batch_step b db).1).1.queue
                (added first counted) added',
          )
        ]
      ]

  -- Where the UPDATEs that release batches do not throw, a cycle over a project keeps two invariants,
  -- whatever else fails in it: no two submissions of an address have the same nonce, and a job was
  -- queued for every batch that is submitted. If it does not throw, the number of submissions that it
  -- reports is the number of jobs that it has queued.
  pub submit_project_batches-IsConsistent :
      (db : Db)
      → IsConsistent db
      → let (r, db') = submit_project_batches env project_id oracle_address db in
        IsConsistent db' × IsCounted r db.queue db'.queue
  unfolding submit_project_batches
  submit_project_batches-IsConsistent db =
      submit_all-IsConsistent (find_eligible_batches env.now project_id db.batches) db
