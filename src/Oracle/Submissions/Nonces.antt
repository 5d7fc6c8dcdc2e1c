-- ===== src/Oracle/Submissions/Nonces.antt =====
-- The nonces that triggerSubmission hands out: one more than the largest of the address, so that no
-- two submissions of an address have the same.
use water_credits_backend.Prelude.{
  ℕ, ◌≤◌, ◌≡◌, refl, Bool, true, false, ◌&&◌, none, List, [], ◌∷◌, ◌++◌, ◌==◌, arith, All,
  All-weaken, Bool-cases, inl, inr, ◌⊎◌, find, or_else, ok, err, failure,
}
use water_credits_backend.Oracle.Entities.{
  OracleSubmission, TriggerSubmissionDto, SubmitJob, Env, Db,
}
use water_credits_backend.Oracle.Submissions.{
  max_nonce, new_submission, insert_submission, job_of, add_job, trigger_submission,
}

abbrev pub same_nonce : OracleSubmission → OracleSubmission → Bool
same_nonce s t = t.oracle_address == s.oracle_address && t.nonce == s.nonce

-- No two submissions of an address have the same nonce.
abbrev pub HasUniqueNonces : List OracleSubmission → Type 0
HasUniqueNonces [] = Unit
HasUniqueNonces (s ∷ rest) = (find (same_nonce s) rest ≡ none) × HasUniqueNonces rest

-- Of this address only with a nonce up to n.
abbrev pub IsUpTo : ℕ → ℕ → OracleSubmission → Type 0
IsUpTo address n s = (s.oracle_address == address) ≡ true → s.nonce ≤ n

max_nonce-IsUpTo :
    (address : ℕ) (submissions : List OracleSubmission)
    → All (IsUpTo address (or_else (max_nonce address submissions) 0)) submissions
unfolding max_nonce
max_nonce-IsUpTo address [] = tt
max_nonce-IsUpTo address (s ∷ rest) = (
  ground arith,
  All-weaken (IsUpTo address (or_else (max_nonce address rest) 0))
      (IsUpTo address (or_else (max_nonce address (s ∷ rest)) 0)) rest
      (λ x h k. ground (arith, h k)) (max_nonce-IsUpTo address rest),
)

find-append_none :
    {A : Type 0} (p : A → Bool) (xs : List A) (y : A)
    → find p xs ≡ none
    → p y ≡ false
    → find p (xs ++ y ∷ []) ≡ none
find-append_none p [] y h k = ground (arith, k)
find-append_none p (x ∷ xs) y h k = ground (arith, find-append_none p xs y, k)

append-HasUniqueNonces :
    (submissions : List OracleSubmission) (t : OracleSubmission)
    → All (λ s. same_nonce s t ≡ false) submissions
    → HasUniqueNonces submissions
    → HasUniqueNonces (submissions ++ t ∷ [])
append-HasUniqueNonces [] t new u = (refl, tt)
append-HasUniqueNonces (s ∷ rest) t new u =
    (find-append_none (same_nonce s) rest t u.0 new.0, append-HasUniqueNonces rest t new.1 u.1)

module _ (env : Env) (dto : TriggerSubmissionDto) (db : Db) where
  abbrev pub inserted : OracleSubmission
  inserted = new_submission env dto db.submissions

  -- Every earlier submission of the address has a smaller nonce than the new one.
  inserted_new : All (λ s. same_nonce s inserted ≡ false) db.submissions
  inserted_new =
      All-weaken
        (IsUpTo dto.oracle_address (or_else (max_nonce dto.oracle_address db.submissions) 0))
        (λ s. same_nonce s inserted ≡ false) db.submissions (λ s h. ground (arith, h))
        (max_nonce-IsUpTo dto.oracle_address db.submissions)

  insert_submission-fails :
      env.commits inserted ≡ false → insert_submission env dto db ≡ (err failure, db)
  unfolding insert_submission
  insert_submission-fails h = ground arith

  insert_submission-stores :
      env.commits inserted ≡ true
      → insert_submission env dto db
        ≡ (ok inserted, record db { submissions = db.submissions ++ inserted ∷ [] })
  unfolding insert_submission
  insert_submission-stores h = ground arith

  add_job-refused :
      (job : SubmitJob) (db' : Db)
      → env.takes job ≡ false
      → add_job env job db' ≡ (err failure, db')
  unfolding add_job
  add_job-refused job db' h = ground arith

  add_job-taken :
      (job : SubmitJob) (db' : Db)
      → env.takes job ≡ true
      → add_job env job db' ≡ (ok tt, record db' { queue = db'.queue ++ job ∷ [] })
  unfolding add_job
  add_job-taken job db' h = ground arith

  -- triggerSubmission, branch by branch: where the transaction does not commit, nothing is written;
  -- where the queue does not take the job, the submission is stored, but the call throws; otherwise
  -- the submission is stored, its job is queued, and it is returned.
  pub trigger_submission_lem :
      (env.commits inserted ≡ false → trigger_submission env dto db ≡ (err failure, db))
      × (env.commits inserted ≡ true
          → env.takes (job_of inserted) ≡ false
          → trigger_submission env dto db
            ≡ (err failure, record db { submissions = db.submissions ++ inserted ∷ [] }))
      × (env.commits inserted ≡ true
          → env.takes (job_of inserted) ≡ true
          → trigger_submission env dto db ≡ (
            ok inserted,
            record db {
              submissions = db.submissions ++ inserted ∷ [];
              queue = db.queue ++ job_of inserted ∷ [];
            },
          ))
  unfolding trigger_submission
  trigger_submission_lem =
      let stored = record db { submissions = db.submissions ++ inserted ∷ [] } in
      (
        λ h. ground (arith, insert_submission-fails h),
        λ h k.
            ground (arith, insert_submission-stores h, add_job-refused (job_of inserted) stored k),
        λ h k. ground (arith, insert_submission-stores h, add_job-taken (job_of inserted) stored k),
      )

  -- The three outcomes, as cases.
  pub trigger_submission-cases :
      ((subs : List OracleSubmission) × (trigger_submission env dto db
          ≡ (err failure, record db { submissions = subs }))
        × (HasUniqueNonces db.submissions → HasUniqueNonces subs))
      ⊎ (trigger_submission env dto db ≡ (
        ok inserted,
        record db {
          submissions = db.submissions ++ inserted ∷ [];
          queue = db.queue ++ job_of inserted ∷ [];
        },
      ))
  trigger_submission-cases = elim (Bool-cases (env.commits inserted)) [
    | inr fails ↦ inl (db.submissions, trigger_submission_lem.0 fails, λ u. u)
    | inl commits ↦ elim (Bool-cases (env.takes (job_of inserted))) [
      | inr refused ↦ inl (
        db.submissions ++ inserted ∷ [],
        trigger_submission_lem.1 commits refused,
        append-HasUniqueNonces db.submissions inserted inserted_new,
      )
      | inl taken ↦ inr (trigger_submission_lem.2 commits taken)
    ]
  ]

  pub inserted-HasUniqueNonces :
      HasUniqueNonces db.submissions → HasUniqueNonces (db.submissions ++ inserted ∷ [])
  inserted-HasUniqueNonces = append-HasUniqueNonces db.submissions inserted inserted_new

  -- However triggerSubmission ends, no two submissions of an address have the same nonce, if that
  -- was so before.
  pub trigger_submission-HasUniqueNonces :
      HasUniqueNonces db.submissions → HasUniqueNonces (trigger_submission env dto db).1.submissions
  trigger_submission-HasUniqueNonces u = elim trigger_submission-cases [
    | inl (subs, fails, unique) ↦ rw fails (unique u)
    | inr stored ↦ rw stored (inserted-HasUniqueNonces u)
  ]
