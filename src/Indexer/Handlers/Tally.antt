-- ===== src/Indexer/Handlers/Tally.antt =====
-- Events keep the tally of the votes in the tables of governance.
use Prim.Native.String.{String}
use mathlib.Core.Option.{some-injective}
use water_credits_backend.Prelude.{
  ℕ, ℤ, ◌≡◌, Bool, Option, some, List, [], ◌∷◌, arith, Bool-cases, Option-cases, inl, inr, is_some,
  ltb, All, All-save, find,
}
use water_credits_backend.Governance.Entities.{Proposal, Proposal-entity, ProposalVote, is_passed}
use water_credits_backend.Governance.Voting.{is_vote_of}
use water_credits_backend.Governance.Voting.Tally.{
  IsCounted, HasOneVoteEach, IsCounted-rows-IsCounted, HasOneVoteEach-cast,
}
use water_credits_backend.Indexer.Events.{
  EventSource, IndexedEvent, credit_mint, credit_retire, credit_transfer, reading_submitted,
  proposal_executed, vote_cast,
}
use water_credits_backend.Indexer.Handlers.{
  Channel, Db, broadcast, on_credit_mint, is_submission, is_confirmed, on_reading_submitted,
  is_on_chain, newest_passed, found_or, is_executed, execute, on_proposal_executed, on_vote_cast,
  dispatch,
}
use water_credits_backend.Indexer.Handlers.Outcomes.{
  on_credit_retire_same, reading-missing, reading-done, reading-confirms, executed_again,
  executed-done, executed-marks, vote-known, vote-new, vote-missing, vote-records,
}

-- The counters of every proposal are the numbers of its votes on either side, and no wallet has two
-- votes on one proposal.
pub record HasTally (db : Db) : Type 0 where
  pub counted : All (IsCounted db.votes) db.proposals
  pub one_each : HasOneVoteEach db.votes

-- A row that the tables hold.
found-IsCounted :
    (votes : List ProposalVote) (test : Proposal → Bool) (rows : List Proposal) (p : Proposal)
    → All (IsCounted votes) rows
    → find test rows ≡ some p
    → IsCounted votes p
found-IsCounted votes test [] p h found = cc
found-IsCounted votes test (x ∷ xs) p h found = elim (Bool-cases (test x)) [
  | inl here ↦ head_case (ground (arith, here))
  | inr later ↦ found-IsCounted votes test xs p h.1 (ground (arith, later))
]
  where
    head_case : some x ≡ some p → IsCounted votes p
    head_case e = rw (some-injective _ _ e) at h.0

newest-IsCounted :
    (key : String → ℕ) (now : ℕ) (votes : List ProposalVote) (rows : List Proposal) (p : Proposal)
    → All (IsCounted votes) rows
    → newest_passed key now rows ≡ some p
    → IsCounted votes p
newest-IsCounted key now votes [] p h found = cc
newest-IsCounted key now votes (x ∷ xs) p h found = elim (Bool-cases (is_passed x.status)) [
  | inr no_vote ↦ newest-IsCounted key now votes xs p h.1 (ground (arith, no_vote))
  | inl passed_one ↦ elim (Option-cases (newest_passed key now xs)) [
    | inl last ↦ this_one (ground (arith, passed_one, last))
    | inr (q, others) ↦ elim (Bool-cases (ltb x.created_at q.created_at)) [
      | inl newer ↦
          newest-IsCounted key now votes xs p h.1 (ground (arith, passed_one, others, newer))
      | inr older ↦ this_one (ground (arith, passed_one, others, older))
    ]
  ]
]
  where
    this_one : some x ≡ some p → IsCounted votes p
    this_one e = rw (some-injective _ _ e) at h.0

chosen-IsCounted :
    (key : String → ℕ) (now : ℕ) (votes : List ProposalVote) (id : ℤ) (p : Proposal)
    (rows : List Proposal)
    → All (IsCounted votes) rows
    → found_or key now (find (is_on_chain key now id) rows) (newest_passed key now rows) ≡ some p
    → IsCounted votes p
chosen-IsCounted key now votes id p rows h found =
    elim (Option-cases (find (is_on_chain key now id) rows)) [
      | inl missing ↦ newest-IsCounted key now votes rows p h (rw missing at found)
      | inr (q, there) ↦
          found-IsCounted votes (is_on_chain key now id) rows p h (ground (arith, there))
    ]

module _ (key : String → ℕ) (now : ℕ) (source : EventSource) (db : Db) (t : HasTally db) where
  mint-HasTally : (to : String) (amount : ℤ) → HasTally (on_credit_mint key now source to amount db)
  unfolding on_credit_mint broadcast
  mint-HasTally to amount = record { counted = t.counted; one_each = t.one_each }

  sent-HasTally : (channel : Channel) (e : IndexedEvent) → HasTally (broadcast channel e db)
  unfolding broadcast
  sent-HasTally channel e = record { counted = t.counted; one_each = t.one_each }

  reading-HasTally :
      (project_id oracle_address : String) (nonce credits : ℤ)
      → HasTally (on_reading_submitted key now source project_id oracle_address nonce credits db)
  unfolding broadcast
  reading-HasTally project_id oracle_address nonce credits =
      elim (Option-cases
        (find (is_submission key now project_id oracle_address nonce) db.submissions)) [
          | inl missing ↦
              rw (reading-missing key now source db project_id oracle_address nonce credits missing)
                (record { counted = t.counted; one_each = t.one_each })
          | inr (s, found) ↦ elim (Bool-cases (is_confirmed key now s)) [
            | inl done ↦
                rw
                  (reading-done key now source db project_id oracle_address nonce credits s found
                    done)
                  (record { counted = t.counted; one_each = t.one_each })
            | inr open_one ↦
                rw
                  (reading-confirms key now source db project_id oracle_address nonce credits s
                    found open_one)
                  (record { counted = t.counted; one_each = t.one_each })
          ]
        ]

  execution-HasTally :
      (id : ℤ) (executed_by : String)
      → HasTally (on_proposal_executed key now source id executed_by db)
  unfolding broadcast
  execution-HasTally id executed_by =
      let chosen : Option Proposal =
        found_or key now (find (is_on_chain key now id) db.proposals)
          (newest_passed key now db.proposals) in
      elim (Option-cases chosen) [
        | inl missing ↦
            rw (executed_again key now source db id executed_by missing)
              (record { counted = t.counted; one_each = t.one_each })
        | inr (p, found) ↦ elim (Bool-cases (is_executed key now p.status)) [
          | inl done ↦
              rw (executed-done key now source db id executed_by p found done)
                (record { counted = t.counted; one_each = t.one_each })
          | inr waiting ↦
              rw (executed-marks key now source db id executed_by p found waiting) (record {
                counted =
                    All-save (IsCounted db.votes) (execute key now id executed_by p) db.proposals
                      t.counted
                      (chosen-IsCounted key now db.votes id p db.proposals t.counted found);
                one_each = t.one_each;
              })
        ]
      ]

  vote-HasTally :
      (id : ℤ) (wallet : String) (support : Bool)
      → HasTally (on_vote_cast key now source id wallet support db)
  unfolding broadcast
  vote-HasTally id wallet support =
      elim (Option-cases (find (is_on_chain key now id) db.proposals)) [
        | inl missing ↦ rw (vote-missing key now source db id wallet support missing) t
        | inr (p, found) ↦
            elim (Bool-cases (is_some (find (is_vote_of p.id (key wallet)) db.votes))) [
              | inl known ↦
                  rw
                    (
                      vote-records key now source db id wallet support p found,
                      vote-known key now source db p.id (key wallet) support known,
                    )
                    (record { counted = t.counted; one_each = t.one_each })
              | inr unknown ↦
                  rw
                    (
                      vote-records key now source db id wallet support p found,
                      vote-new key now source db p.id (key wallet) support unknown,
                    )
                    (record {
                      counted =
                          IsCounted-rows-IsCounted p.id (key wallet) support db.votes db.proposals
                            t.counted;
                      one_each =
                          HasOneVoteEach-cast p.id (key wallet) support db.votes t.one_each unknown;
                    })
            ]
      ]

-- Where the counters of every proposal are the numbers of its votes on either side, and no wallet has
-- two votes on one proposal, that is so after every event of the chain, too.
pub dispatch-HasTally :
    (key : String → ℕ) (now : ℕ) (e : IndexedEvent) (db : Db)
    → HasTally db
    → HasTally (dispatch key now e db)
unfolding dispatch broadcast
dispatch-HasTally key now (credit_mint source to amount) db t =
    mint-HasTally key now source db t to amount
dispatch-HasTally key now (credit_retire source from amount purpose metadata_uri) db t =
    rw (on_credit_retire_same key now source db from amount purpose metadata_uri)
      (record { counted = t.counted; one_each = t.one_each })
dispatch-HasTally key now (credit_transfer source from to amount) db t = record {
  counted = t.counted;
  one_each = t.one_each;
}
dispatch-HasTally key now (reading_submitted source project_id oracle_address nonce credits) db t =
    reading-HasTally key now source db t project_id oracle_address nonce credits
dispatch-HasTally key now (proposal_executed source id executed_by) db t =
    execution-HasTally key now source db t id executed_by
dispatch-HasTally key now (vote_cast source id wallet support) db t =
    vote-HasTally key now source db t id wallet support
