-- ===== src/Indexer/Handlers/Idempotent.antt =====
-- An event that is dispatched twice leaves the tables as after the first time.
use Prim.Native.String.{String}
use water_credits_backend.Prelude.{
  ℕ, ℤ, ◌≡◌, refl, ap, ◌∙◌, Bool, Option, [], arith, Bool-cases, Option-cases, inl, inr, is_some,
  find, update_where-update_where, find-save_found, find_found, find_found,
}
use water_credits_backend.Governance.Entities.{Proposal, Proposal-entity}
use water_credits_backend.Governance.Voting.{is_vote_of, count_vote}
use water_credits_backend.Oracle.Entities.{OracleSubmission, OracleSubmission-entity}
use water_credits_backend.Indexer.Events.{
  EventSource, IndexedEvent, credit_mint, credit_retire, credit_transfer, reading_submitted,
  proposal_executed, vote_cast,
}
use water_credits_backend.Indexer.Handlers.{
  Channel, credit_retired, oracle_submitted, governance_proposal, governance_vote_cast, Db,
  broadcast, is_minted, confirm_batch, on_credit_mint, is_submission, is_confirmed,
  confirm_submission, on_reading_submitted, is_on_chain, newest_passed, found_or, is_executed,
  execute, on_proposal_executed, on_vote_cast, on_credit_retire, dispatch,
}
use water_credits_backend.Indexer.Handlers.Outcomes.{
  counted_id, on_credit_retire_same, reading-missing, reading-done, confirmed_reading,
  reading-confirms, executed_again, executed-done, executed_proposal, executed-marks, execute-found,
  vote-known, voted, vote-new, voted-known, voted-found, vote-missing, vote-records,
}

-- The tables, without what was sent to the clients.
abbrev pub tables : Db → Db
tables db = record db { messages = [] }

tables-broadcast :
    (c : Channel) (e : IndexedEvent) (db : Db) → tables (broadcast c e db) ≡ tables db
unfolding broadcast
tables-broadcast c e db = refl

-- Two calls, by what each of them does.
twice :
    (f g : Db → Db) (db first second : Db)
    → f db ≡ first
    → g first ≡ second
    → tables second ≡ tables first
    → tables (g (f db)) ≡ tables (f db)
twice f g db first second once again same = rw once (ap tables again ∙ same)

module _ (key : String → ℕ) (now later : ℕ) where
  module _ (source : EventSource) (to : String) (amount : ℤ) (db : Db) where
    mint_again :
        tables
          (on_credit_mint key later source to amount (on_credit_mint key now source to amount db))
        ≡ tables (on_credit_mint key now source to amount db)
    unfolding on_credit_mint broadcast
    mint_again =
        rw
          (update_where-update_where (is_minted key now source db.projects)
            (confirm_batch now amount) (confirm_batch later amount) db.batches
            (λ b h. ground arith))
          refl

  module _ (source : EventSource) (project_id oracle_address : String) (nonce credits : ℤ)
      (db : Db) where
    reading_again :
        tables (
          on_reading_submitted key later source project_id oracle_address nonce credits
            (on_reading_submitted key now source project_id oracle_address nonce credits db))
        ≡ tables (on_reading_submitted key now source project_id oracle_address nonce credits db)
    unfolding broadcast
    reading_again =
        let test : OracleSubmission → Bool =
          is_submission key now project_id oracle_address nonce in
        let first : Db → Db =
          on_reading_submitted key now source project_id oracle_address nonce credits in
        let second : Db → Db =
          on_reading_submitted key later source project_id oracle_address nonce credits in
        let sent : Db → Db =
          broadcast oracle_submitted
            (reading_submitted source project_id oracle_address nonce credits) in
        elim (Option-cases (find test db.submissions)) [
          | inl missing ↦
              twice first second db (sent db) (sent (sent db))
                (reading-missing key now source db project_id oracle_address nonce credits missing)
                (reading-missing key later source (sent db) project_id oracle_address nonce credits
                  missing)
                refl
          | inr (s, found) ↦ elim (Bool-cases (is_confirmed key now s)) [
            | inl done ↦
                twice first second db (sent db) (sent (sent db))
                  (reading-done key now source db project_id oracle_address nonce credits s found
                    done)
                  (reading-done key later source (sent db) project_id oracle_address nonce credits s
                    found done)
                  refl
            | inr open_one ↦
                let db' = confirmed_reading key now source db project_id credits s in
                let s' = confirm_submission key now source credits s in
                twice first second db (sent db') (sent (sent db'))
                  (reading-confirms key now source db project_id oracle_address nonce credits s
                    found open_one)
                  (reading-done key later source (sent db') project_id oracle_address nonce credits
                    s'
                    (find-save_found test s' s db.submissions found refl
                      (find_found test db.submissions s found))
                    refl)
                  refl
          ]
        ]

  module _ (source : EventSource) (id : ℤ) (executed_by : String) (db : Db) where
    execution_again :
        tables (
          on_proposal_executed key later source id executed_by
            (on_proposal_executed key now source id executed_by db))
        ≡ tables (on_proposal_executed key now source id executed_by db)
    unfolding broadcast
    execution_again =
        let test : Proposal → Bool = is_on_chain key now id in
        let first : Db → Db = on_proposal_executed key now source id executed_by in
        let second : Db → Db = on_proposal_executed key later source id executed_by in
        let sent : Db → Db =
          broadcast governance_proposal (proposal_executed source id executed_by) in
        let chosen : Option Proposal =
          found_or key now (find test db.proposals) (newest_passed key now db.proposals) in
        elim (Option-cases chosen) [
          | inl missing ↦
              twice first second db (sent db) (sent (sent db))
                (executed_again key now source db id executed_by missing)
                (executed_again key later source (sent db) id executed_by missing) refl
          | inr (p, found) ↦ elim (Bool-cases (is_executed key now p.status)) [
            | inl done ↦
                twice first second db (sent db) (sent (sent db))
                  (executed-done key now source db id executed_by p found done)
                  (executed-done key later source (sent db) id executed_by p found done) refl
            | inr waiting ↦
                let db' = executed_proposal key now source db id executed_by p in
                let p' = execute key now id executed_by p in
                twice first second db (sent db') (sent (sent db'))
                  (executed-marks key now source db id executed_by p found waiting)
                  (executed-done key later source (sent db') id executed_by p'
                    (ap (λ o. found_or key later o (newest_passed key later (sent db').proposals))
                      (execute-found key now source db later id executed_by p found))
                    refl)
                  refl
          ]
        ]

  module _ (source : EventSource) (id : ℤ) (wallet : String) (support : Bool) (db : Db) where
    vote_again :
        tables (
          on_vote_cast key later source id wallet support
            (on_vote_cast key now source id wallet support db))
        ≡ tables (on_vote_cast key now source id wallet support db)
    unfolding broadcast
    vote_again =
        let test : Proposal → Bool = is_on_chain key now id in
        let first : Db → Db = on_vote_cast key now source id wallet support in
        let second : Db → Db = on_vote_cast key later source id wallet support in
        let sent : Db → Db = broadcast governance_vote_cast (vote_cast source id wallet support) in
        elim (Option-cases (find test db.proposals)) [
          | inl missing ↦
              twice first second db db db (vote-missing key now source db id wallet support missing)
                (vote-missing key later source db id wallet support missing) refl
          | inr (p, found) ↦
              elim (Bool-cases (is_some (find (is_vote_of p.id (key wallet)) db.votes))) [
                | inl known ↦
                    twice first second db (sent db) (sent (sent db))
                      (vote-records key now source db id wallet support p found
                        ∙ ap sent (vote-known key now source db p.id (key wallet) support known))
                      (vote-records key later source (sent db) id wallet support p found
                        ∙ ap sent
                            (vote-known key later source (sent db) p.id (key wallet) support known))
                      refl
                | inr unknown ↦
                    let db' = voted key now source db p.id (key wallet) support in
                    let p' = count_vote support p in
                    twice first second db (sent db') (sent (sent db'))
                      (vote-records key now source db id wallet support p found
                        ∙ ap sent (vote-new key now source db p.id (key wallet) support unknown))
                      (vote-records key later source (sent db') id wallet support p'
                          (voted-found key now source db later id (key wallet) support p found)
                        ∙ ap sent (
                            vote-known key later source (sent db') p'.id (key wallet) support (
                              rw (counted_id support p)
                                (voted-known key now source db p.id (key wallet) support unknown))))
                      refl
              ]
        ]

  module _ (source : EventSource) (from : String) (amount : ℤ) (purpose metadata_uri : String)
      (db : Db) where
    retire_again :
        tables (
          on_credit_retire key later source from amount purpose metadata_uri
            (on_credit_retire key now source from amount purpose metadata_uri db))
        ≡ tables (on_credit_retire key now source from amount purpose metadata_uri db)
    unfolding broadcast
    retire_again =
        let sent : Db → Db =
          broadcast credit_retired (credit_retire source from amount purpose metadata_uri) in
        twice (on_credit_retire key now source from amount purpose metadata_uri)
          (on_credit_retire key later source from amount purpose metadata_uri) db (sent db)
          (sent (sent db))
          (on_credit_retire_same key now source db from amount purpose metadata_uri)
          (on_credit_retire_same key later source (sent db) from amount purpose metadata_uri) refl

  -- Every event leaves the same tables when it is dispatched a second time, at whatever time, as
  -- after the first.
  pub dispatch_again :
      (e : IndexedEvent) (db : Db)
      → tables (dispatch key later e (dispatch key now e db)) ≡ tables (dispatch key now e db)
  unfolding dispatch broadcast
  dispatch_again (credit_mint source to amount) db = mint_again source to amount db
  dispatch_again (credit_retire source from amount purpose metadata_uri) db =
      retire_again source from amount purpose metadata_uri db
  dispatch_again (credit_transfer source from to amount) db = refl
  dispatch_again (reading_submitted source project_id oracle_address nonce credits) db =
      reading_again source project_id oracle_address nonce credits db
  dispatch_again (proposal_executed source id executed_by) db =
      execution_again source id executed_by db
  dispatch_again (vote_cast source id wallet support) db = vote_again source id wallet support db
