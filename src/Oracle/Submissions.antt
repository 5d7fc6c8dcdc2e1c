-- ===== src/Oracle/Submissions.antt =====
-- OracleService.triggerSubmission. The advisory lock makes the reading of MAX(nonce) and the INSERT
-- one step.
pub mod Nonces
use water_credits_backend.Prelude.{
  ℕ, ◌+◌, max, Bool, not, Option, none, some, List, [], ◌∷◌, ◌++◌, ◌==◌, if◌then◌else◌, or_else,
  Result, HttpError, ok, err, failure, Action, ◌>>=◌, ◌>>◌, modify, throw_if, pure,
}
use water_credits_backend.Oracle.Entities.{
  SubmissionStatus, pending, OracleSubmission, TriggerSubmissionDto, SubmitJob, Env, Db,
}

-- SELECT MAX(nonce) … WHERE oracle_address = address. The code adds FOR UPDATE, which PostgreSQL
-- refuses with an aggregate function: there, no transaction commits.
unfoldable pub max_nonce : ℕ → List OracleSubmission → Option ℕ
max_nonce address [] = none
max_nonce address (s ∷ rest) =
    let others = max_nonce address rest in
    if s.oracle_address == address then some (max s.nonce (or_else others 0)) else others

abbrev pub next_nonce : ℕ → List OracleSubmission → ℕ
next_nonce address submissions = or_else (max_nonce address submissions) 0 + 1

abbrev pub new_submission : Env → TriggerSubmissionDto → List OracleSubmission → OracleSubmission
new_submission env dto submissions = record {
  id = env.generated_id submissions;
  project_id = dto.project_id;
  batch_id = dto.batch_id;
  oracle_address = dto.oracle_address;
  nonce = next_nonce dto.oracle_address submissions;
  tx_hash = "";
  status = pending;
  readings_snapshot = or_else dto.readings [];
  result = none;
  created_at = env.now;
}

-- The transaction; where it does not commit, nothing is written and the error is thrown on. `commits`
-- stands for all that can fail in it, the query for the nonce included.
unfoldable pub insert_submission : Env → TriggerSubmissionDto → Action Db OracleSubmission
insert_submission env dto db =
    let submission = new_submission env dto db.submissions in
    if env.commits submission
    then (ok submission, record db { submissions = db.submissions ++ submission ∷ [] })
    else (err failure, db)

abbrev pub job_of : OracleSubmission → SubmitJob
job_of s = record {
  submission_id = s.id;
  project_id = s.project_id;
  batch_id = s.batch_id;
  oracle_address = s.oracle_address;
  nonce = s.nonce;
}

-- `oracleQueue.add`, after the transaction
unfoldable pub add_job : Env → SubmitJob → Action Db (Unit {0})
add_job env job db =
    if env.takes job then (ok tt, record db { queue = db.queue ++ job ∷ [] }) else (err failure, db)

unfoldable pub trigger_submission : Env → TriggerSubmissionDto → Action Db OracleSubmission
trigger_submission env dto = do
  saved ← insert_submission env dto
  add_job env (job_of saved)
  pure saved
