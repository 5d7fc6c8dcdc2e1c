-- ===== src/Governance/Voting/Tally.antt =====
-- The tally invariant: the counters of a proposal agree with the rows of proposal_votes, and no
-- wallet has two votes on one proposal.
use water_credits_backend.Prelude.{
  ℕ, ◌≤◌, not, ◌≡◌, refl, ap, Bool, true, false, ◌&&◌, List, [], ◌∷◌, ◌++◌, ◌==◌, arith,
  Option-cases, Bool-cases, inl, inr, is_some, if◌then◌else◌, find, find_id, All, All-update_id,
  count_where, count_where-append, update_id,
}
use water_credits_backend.Governance.Entities.{Proposal, Proposal-entity, ProposalVote, Db}
use water_credits_backend.Governance.Voting.{is_vote_of, count_vote, vote, decision}
use water_credits_backend.Governance.Voting.Cast.{
  vote_open, vote_missing, vote_closed, vote_again, takes_votes, voted_rows, counted_rows,
  has_quorum, cast,
}

abbrev pub is_vote_on : ℕ → Bool → ProposalVote → Bool
is_vote_on id true v = v.proposal_id == id && v.support
is_vote_on id false v = v.proposal_id == id && not v.support

-- The counters of a proposal are the numbers of its votes on either side.
abbrev pub IsCounted : List ProposalVote → Proposal → Type 0
IsCounted votes p =
    (p.votes_for ≡ count_where (is_vote_on p.id true) votes)
    × (p.votes_against ≡ count_where (is_vote_on p.id false) votes)

-- UNIQUE (proposal_id, voter_wallet)
abbrev pub HasOneVoteEach : List ProposalVote → Type 0
HasOneVoteEach votes = (id voter : ℕ) → count_where (is_vote_of id voter) votes ≤ 1

pub record IsTallied (db : Db) : Type 0 where
  pub counted : All (IsCounted db.votes) db.proposals
  pub one_each : HasOneVoteEach db.votes

-- A vote on another proposal, or on this one, as the counters see it.
IsCounted-cast :
    (id voter : ℕ) (approve : Bool) (votes : List ProposalVote) (p : Proposal)
    → IsCounted votes p
    → IsCounted
        (votes ++ cast id voter approve ∷ [])
        (if p.id == id then count_vote approve p else p)
IsCounted-cast id voter true votes p h = ground (
  arith,
  count_where-append (is_vote_on p.id true) votes (cast id voter true ∷ []),
  count_where-append (is_vote_on p.id false) votes (cast id voter true ∷ []),
)
IsCounted-cast id voter false votes p h = ground (
  arith,
  count_where-append (is_vote_on p.id true) votes (cast id voter false ∷ []),
  count_where-append (is_vote_on p.id false) votes (cast id voter false ∷ []),
)

pub IsCounted-rows-IsCounted :
    (id voter : ℕ) (approve : Bool) (votes : List ProposalVote) (rows : List Proposal)
    → All (IsCounted votes) rows
    → All (IsCounted (votes ++ cast id voter approve ∷ [])) (update_id id (count_vote approve) rows)
IsCounted-rows-IsCounted id voter approve votes [] h = tt
IsCounted-rows-IsCounted id voter approve votes (p ∷ rows) h = (
  IsCounted-cast id voter approve votes p h.0,
  IsCounted-rows-IsCounted id voter approve votes rows h.1,
)

not-voted-count :
    (id voter : ℕ) (votes : List ProposalVote)
    → is_some (find (is_vote_of id voter) votes) ≡ false
    → count_where (is_vote_of id voter) votes ≡ 0
not-voted-count id voter [] h = refl
not-voted-count id voter (v ∷ votes) h = ground (arith, not-voted-count id voter votes)

pub HasOneVoteEach-cast :
    (id voter : ℕ) (approve : Bool) (votes : List ProposalVote)
    → HasOneVoteEach votes
    → is_some (find (is_vote_of id voter) votes) ≡ false
    → HasOneVoteEach (votes ++ cast id voter approve ∷ [])
HasOneVoteEach-cast id voter approve votes h fresh i w = ground (
  arith,
  h i w,
  not-voted-count id voter votes fresh,
  count_where-append (is_vote_of i w) votes (cast id voter approve ∷ []),
  ap (λ (k : ℕ). count_where (is_vote_of k w) votes) {x = i} {y = id},
  ap (λ (k : ℕ). count_where (is_vote_of id k) votes) {x = w} {y = voter},
)

module _ (now id voter : ℕ) (approve : Bool) (db : Db) where
  voted_rows-IsCounted :
      (p : Proposal)
      → All (IsCounted db.votes) db.proposals
      → All (IsCounted (db.votes ++ cast id voter approve ∷ [])) (voted_rows id approve db p)
  voted_rows-IsCounted p h =
      let counted = IsCounted-rows-IsCounted id voter approve db.votes db.proposals h in
      let q = count_vote approve p in
      elim (Bool-cases (has_quorum db q)) [
        | inr short ↦ rw short counted
        | inl met ↦ rw met (
            All-update_id (IsCounted (db.votes ++ cast id voter approve ∷ [])) id
              (λ x. record x { status = decision q.votes_for q.votes_against })
              (counted_rows id approve db) (λ x _ k. k) counted)
      ]

  -- However a vote ends, every proposal's counters are the numbers of its votes on either side, and
  -- no wallet has two votes on one proposal, if that was so before.
  pub vote-IsTallied : IsTallied db → IsTallied (vote now id voter approve db).1
  vote-IsTallied t = elim (Option-cases (find_id id db.proposals)) [
    | inl missing ↦ rw (vote_missing now id voter approve db missing) t
    | inr (p, found) ↦ elim (Bool-cases (takes_votes now p)) [
      | inr closed ↦ rw (vote_closed now id voter approve db p found closed) t
      | inl open_row ↦ elim (Bool-cases (is_some (find (is_vote_of id voter) db.votes))) [
        | inl again ↦ rw (vote_again now id voter approve db p found open_row again) t
        | inr fresh ↦ rw (vote_open now id voter approve db p found open_row fresh) (record {
          counted = voted_rows-IsCounted p t.counted;
          one_each = HasOneVoteEach-cast id voter approve db.votes t.one_each fresh;
        })
      ]
    ]
  ]
