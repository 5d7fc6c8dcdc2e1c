-- ===== src/Governance/Voting/Cast.antt =====
-- What a call of GovernanceService.vote does, on each of its branches.
use water_credits_backend.Prelude.{
  ℕ, ◌≡◌, refl, ap, Bool, true, false, ◌&&◌, not, none, some, List, [], ◌∷◌, ◌++◌, ltb, ◌==◌, arith,
  ok, err, bad_request, not_found, conflict, Option-cases, Bool-cases, inl, inr, ◌⊎◌, is_some,
  if◌then◌else◌, find, find_id, find_id-update_id, update_id,
}
use water_credits_backend.Governance.Entities.{
  Proposal, Proposal-entity, ProposalVote, is_active, Db,
}
use water_credits_backend.Governance.Quorum.{evaluate_quorum, resolve_eligible_count}
use water_credits_backend.Governance.Changes.Lifecycle.{config_in_force, get_config_lem}
use water_credits_backend.Governance.Voting.{is_vote_of, count_vote, decision, decide, vote}

-- A proposal that takes votes at `now`: active, and its deadline has not passed.
abbrev pub takes_votes : ℕ → Proposal → Bool
takes_votes now p = is_active p.status && not (ltb p.deadline now)

abbrev pub has_quorum : Db → Proposal → Bool
has_quorum db q =
    (evaluate_quorum q.votes_for q.votes_against (config_in_force db)
      (resolve_eligible_count (config_in_force db) db)).quorum_met

-- The proposal with one more vote, decided if that meets the quorum.
abbrev pub voted : Db → Bool → Proposal → Proposal
voted db approve p =
    let q = count_vote approve p in
    if has_quorum db q then record q { status = decision q.votes_for q.votes_against } else q

abbrev pub cast : ℕ → ℕ → Bool → ProposalVote
cast proposal_id voter approve = record {
  proposal_id = proposal_id;
  voter_wallet = voter;
  support = approve;
}

-- The rows after the counter is raised and, with a quorum, the status set.
abbrev pub counted_rows : ℕ → Bool → Db → List Proposal
counted_rows id approve db = update_id id (count_vote approve) db.proposals

abbrev pub voted_rows : ℕ → Bool → Db → Proposal → List Proposal
voted_rows id approve db p =
    let q = count_vote approve p in
    if has_quorum db q
    then update_id id (λ x. record x { status = decision q.votes_for q.votes_against })
        (counted_rows id approve db)
    else counted_rows id approve db

count_vote-id : (approve : Bool) (p : Proposal) → (count_vote approve p).id ≡ p.id
count_vote-id true p = refl
count_vote-id false p = refl

module _ (now id voter : ℕ) (approve : Bool) (db : Db) where
  pub vote_open :
      (p : Proposal)
      → find_id id db.proposals ≡ some p
      → takes_votes now p ≡ true
      → is_some (find (is_vote_of id voter) db.votes) ≡ false
      → vote now id voter approve db ≡ (
        ok (voted db approve p),
        record db {
          config = some (config_in_force db);
          votes = db.votes ++ cast id voter approve ∷ [];
          proposals = voted_rows id approve db p;
        },
      )
  unfolding vote decide resolve_eligible_count
  vote_open p found open_row fresh = ground (
    arith,
    get_config_lem (record db {
      votes = db.votes ++ cast id voter approve ∷ [];
      proposals = counted_rows id approve db;
    }),
    find_id-update_id id id (count_vote approve) db.proposals (count_vote-id approve),
  )

  pub vote_missing :
      find_id id db.proposals ≡ none → vote now id voter approve db ≡ (err not_found, db)
  unfolding vote
  vote_missing missing = ground arith

  pub vote_closed :
      (p : Proposal)
      → find_id id db.proposals ≡ some p
      → takes_votes now p ≡ false
      → vote now id voter approve db ≡ (err bad_request, db)
  unfolding vote
  vote_closed p found closed = ground arith

  pub vote_again :
      (p : Proposal)
      → find_id id db.proposals ≡ some p
      → takes_votes now p ≡ true
      → is_some (find (is_vote_of id voter) db.votes) ≡ true
      → vote now id voter approve db ≡ (err conflict, db)
  unfolding vote
  vote_again p found open_row again = ground arith

  voted_rows-find_id :
      (p : Proposal) (j : ℕ)
      → find_id id db.proposals ≡ some p
      → find_id j (voted_rows id approve db p)
        ≡ (if j == id then some (voted db approve p) else find_id j db.proposals)
  voted_rows-find_id p j found =
      let q = count_vote approve p in
      ground (
        arith,
        find_id-update_id id j (count_vote approve) db.proposals (count_vote-id approve),
        find_id-update_id id j (λ x. record x { status = decision q.votes_for q.votes_against })
            (counted_rows id approve db) (λ x. refl),
        ap (λ (k : ℕ). find_id k db.proposals) {x = j} {y = id},
      )

  -- The outcome of a vote, branch by branch. An unknown proposal is not found, one that is not
  -- active or whose deadline has passed is a bad request, and a wallet that has already voted on it
  -- is a conflict; none of these leaves a trace, not even the expiry of a late proposal. Otherwise
  -- the vote is added, the proposal has one more vote on its side and is decided if that meets the
  -- quorum, and every other proposal stays as it was.
  pub vote_lem :
      let (r, db') = vote now id voter approve db in
      ((find_id id db.proposals ≡ none) × (r ≡ err not_found) × (db' ≡ db))
      ⊎ ((p : Proposal) × (find_id id db.proposals ≡ some p)
          × ((takes_votes now p ≡ false) × (r ≡ err bad_request) × (db' ≡ db)
              ⊎ (takes_votes now p ≡ true)
                × (is_some (find (is_vote_of id voter) db.votes) ≡ true)
                × (r ≡ err conflict)
                × (db' ≡ db)
              ⊎ (takes_votes now p ≡ true)
                × (is_some (find (is_vote_of id voter) db.votes) ≡ false)
                × (r ≡ ok (voted db approve p))
                × (db'.votes
                    ≡ db.votes
                      ++ record { proposal_id = id; voter_wallet = voter; support = approve } ∷ [])
                × ((j : ℕ)
                    → find_id j db'.proposals
                      ≡ (if j == id then some (voted db approve p) else find_id j db.proposals))))
  vote_lem = elim (Option-cases (find_id id db.proposals)) [
    | inl missing ↦
        inl (missing, ap (λ o. o.0) (vote_missing missing), ap (λ o. o.1) (vote_missing missing))
    | inr (p, found) ↦ inr (
      p,
      found,
      elim (Bool-cases (takes_votes now p)) [
        | inr closed ↦
            let e = vote_closed p found closed in inl (closed, ap (λ o. o.0) e, ap (λ o. o.1) e)
        | inl open_row ↦ elim (Bool-cases (is_some (find (is_vote_of id voter) db.votes))) [
          | inl again ↦
              let e = vote_again p found open_row again in
              inr (inl (open_row, again, ap (λ o. o.0) e, ap (λ o. o.1) e))
          | inr fresh ↦
              let e = vote_open p found open_row fresh in
              inr (
                inr (
                  open_row,
                  fresh,
                  ap (λ o. o.0) e,
                  ap (λ o. o.1.votes) e,
                  λ j. rw e (voted_rows-find_id p j found),
                ))
        ]
      ],
    )
  ]
