-- ===== src/Oracle/Reconciliation.antt =====
-- OracleService: the drift of the nonces between the table and the chain, and reconcile.
use water_credits_backend.Prelude.{
  ℕ, ◌+◌, ℤ, sub_ℕ, Bool, true, false, ◌&&◌, Option, none, some, List, [], ◌∷◌, ltb, leb, ◌==◌,
  is_some, or_else, if◌then◌else◌, find, select, order_by, ◌++◌, ok, err, failure, Action, ◌>>◌,
  pure,
}
use water_credits_backend.Oracle.Entities.{
  SubmissionStatus, pending, failed, OracleSubmission, OracleSubmission-entity, SubmitJob, Db,
}
use water_credits_backend.Oracle.Submissions.{max_nonce, job_of}
use water_credits_backend.Oracle.Processor.{
  Surroundings, is_confirmed, store, has_nonce, reconciled, calculate_credits_and_confirm_batch,
}

-- What reconcile works with: that of a job, what the chain answers when it is asked for the nonce
-- again, and whether Bull takes a job.
pub record ReconcileEnv : Type 0 where
  pub around : Surroundings
  pub nonce_again : Option ℕ
  pub takes : SubmitJob → Bool

-- The drift of the chain's nonce from the largest confirmed one; `none` if the chain does not answer.
unfoldable pub detect_nonce_drift : Option ℕ → ℕ → List OracleSubmission → Option ℤ
unfolding max_nonce
detect_nonce_drift none address rows = none
detect_nonce_drift (some on_chain) address rows =
    some (sub_ℕ on_chain (or_else (max_nonce address (select (λ s. is_confirmed s.status) rows)) 0))

abbrev pub is_stale_submission : ℕ → ℕ → OracleSubmission → Bool
is_stale_submission address on_chain s =
    s.oracle_address == address && is_confirmed s.status && ltb on_chain s.nonce

unfoldable pub find_stale_submissions : Option ℕ → ℕ → List OracleSubmission → List OracleSubmission
find_stale_submissions none address rows = []
find_stale_submissions (some on_chain) address rows =
    order_by (λ s. s.nonce) (select (is_stale_submission address on_chain) rows)

abbrev pub is_open_status : SubmissionStatus → Bool
is_open_status pending = true
is_open_status failed = true
is_open_status _ = false

abbrev pub is_gap : ℕ → ℕ → OracleSubmission → Bool
is_gap address on_chain s =
    s.oracle_address == address && is_open_status s.status && leb s.nonce on_chain

module _ (env : ReconcileEnv) where
  -- `save`, which the unique index may refuse, and the job.
  unfoldable pub resubmit : ℕ → OracleSubmission → Action Db (Unit {0})
  resubmit nonce s db =
      let s' = record s { nonce = nonce; status = pending } in
      if is_some (find (has_nonce s nonce) db.submissions)
      then (err failure, db)
      else if env.takes (job_of s')
      then (ok tt, record (store s' db) { queue = db.queue ++ job_of s' ∷ [] })
      else (err failure, store s' db)

  unfoldable pub resubmit_all : ℕ → List OracleSubmission → Action Db (Unit {0})
  unfolding resubmit
  resubmit_all nonce [] = pure tt
  resubmit_all nonce (s ∷ rest) = resubmit nonce s >> resubmit_all (nonce + 1) rest

  unfoldable pub confirm_gap : ℕ → OracleSubmission → Db → Db
  unfolding calculate_credits_and_confirm_batch
  confirm_gap address s db =
      let s' = reconciled env.around address s in
      calculate_credits_and_confirm_batch env.around s' s.project_id (store s' db)

  unfoldable pub confirm_gaps : ℕ → List OracleSubmission → Db → Db
  unfolding confirm_gap
  confirm_gaps address [] db = db
  confirm_gaps address (s ∷ rest) db = confirm_gaps address rest (confirm_gap address s db)

  abbrev pub find_gaps : ℕ → ℕ → Db → List OracleSubmission
  find_gaps address on_chain db =
      order_by (λ s. s.nonce) (select (is_gap address on_chain) db.submissions)

  abbrev pub close_gaps : ℕ → ℕ → Db → Db
  close_gaps address on_chain db = confirm_gaps address (find_gaps address on_chain db) db

  abbrev pub reconcile_from : ℕ → ℕ → Action Db (Unit {0})
  reconcile_from address on_chain db =
      let stale = find_stale_submissions env.nonce_again address db.submissions in
      let (result, db') = resubmit_all (on_chain + 1) stale db in
      elim result [ ok _ ↦ (ok tt, close_gaps address on_chain db') | err e ↦ (err e, db') ]

  unfoldable pub reconcile : ℕ → Action Db (Unit {0})
  unfolding find_stale_submissions resubmit_all confirm_gaps
  reconcile address db = elim (env.around.on_chain_nonce address) [
    | none ↦ (ok tt, db)
    | some on_chain ↦ reconcile_from address on_chain db
  ]
