-- ===== src/Governance/Execution/Guards.antt =====
-- When executeProposal succeeds, and what it leaves behind when it fails.
use Prim.Native.String.{String}
use water_credits_backend.Prelude.{
  ℕ, ◌+◌, ◌*◌, ◌≤◌, ◌≡◌, refl, Bool, true, false, ◌&&◌, not, Option, none, some, ltb, arith,
  HttpError, ok, err, bad_request, forbidden, internal_error, Option-cases, Bool-cases, inl, inr,
  ◌⊎◌, find_id, find_id-update_id, find_id-save_self, id_of-find_id,
}
use water_credits_backend.Users.{count_eligible}
use water_credits_backend.Governance.Entities.{
  Proposal, Proposal-entity, executed, is_active, is_passed, Db,
}
use water_credits_backend.Governance.Quorum.{evaluate_quorum}
use water_credits_backend.Governance.Changes.Lifecycle.{config_in_force, get_config_lem}
use water_credits_backend.Governance.Proposals.{
  ExecuteResult, Chain, get_proposal_by_id, register_proposal_on_chain, save_proposal,
}
use water_credits_backend.Governance.Execution.{
  is_locked, tx_hash_of, mark_executed, execute_proposal,
}

-- The quorum test of an execution: only in percentage mode, with the voters of the moment.
abbrev pub keeps_quorum : Db → Proposal → Bool
keeps_quorum db p =
    let config = config_in_force db in
    not (
      ltb 0 config.quorum_basis_points
      && not
          (evaluate_quorum p.votes_for p.votes_against config (count_eligible db.users)).quorum_met)

abbrev pub on_chain_id_of : Chain → Proposal → Option ℕ
on_chain_id_of chain p = elim p.on_chain_proposal_id [
  | some n ↦ some n
  | none ↦ register_proposal_on_chain chain p
]

-- All that must hold for an execution: the status, the timelock counted from the deadline, the
-- quorum, the contract, the on-chain id, and the confirmation of the chain.
pub record IsExecutable (chain : Chain) (now : ℕ) (db : Db) (p : Proposal) : Type 0 where
  pub has_passed : is_passed p.status ≡ true
  pub unlocked : p.deadline + (config_in_force db).timelock_period * 1000 ≤ now
  pub quorate : keeps_quorum db p ≡ true
  pub contract : ℕ
  pub configured : chain.contract ≡ some contract
  pub on_chain_id : ℕ
  pub registered : on_chain_id_of chain p ≡ some on_chain_id
  pub result : ExecuteResult
  pub confirmed : chain.execute contract on_chain_id ≡ some result

-- The hash that the chain reported: under one name, under the other, or not at all.
abbrev pub IsReported : ExecuteResult → String → Type 0
IsReported result tx_hash =
    (result.tx_hash ≡ some tx_hash)
    ⊎ ((result.tx_hash ≡ none) × (result.hash ≡ some tx_hash))
    ⊎ ((result.tx_hash ≡ none) × (result.hash ≡ none) × (tx_hash ≡ "confirmed"))

tx_hash_of-IsReported : (result : ExecuteResult) → IsReported result (tx_hash_of result)
tx_hash_of-IsReported result = elim (Option-cases result.tx_hash) [
  | inr (h, named) ↦ inl (ground arith)
  | inl unnamed ↦ inr (elim (Option-cases result.hash) [
    | inr (h, named) ↦ inl (unnamed, ground arith)
    | inl missing ↦ inr (unnamed, missing, ground arith)
  ])
]

-- A proposal whose voting is over and which is not passed is refused.
execute_proposal-closed :
    (chain : Chain) (now id executor : ℕ) (db : Db) (p : Proposal)
    → find_id id db.proposals ≡ some p
    → is_active p.status ≡ false
    → is_passed p.status ≡ false
    → execute_proposal chain now id executor db ≡ (err bad_request, db)
unfolding execute_proposal get_proposal_by_id
execute_proposal-closed chain now id executor db p found decided other = ground arith

module _ (chain : Chain) (now id executor : ℕ) (db : Db) (p : Proposal)
    (found : find_id id db.proposals ≡ some p) where
  get_passed : is_passed p.status ≡ true → get_proposal_by_id now id db ≡ (ok p, db)
  unfolding get_proposal_by_id
  get_passed h = ground arith

  execute_proposal-not_passed :
      is_passed p.status ≡ false → (execute_proposal chain now id executor db).0 ≡ err bad_request
  unfolding execute_proposal get_proposal_by_id
  execute_proposal-not_passed h = ground arith

  resolved : ℕ → Db
  resolved n = elim p.on_chain_proposal_id [
    | some _ ↦ record db { config = some (config_in_force db) }
    | none ↦
        save_proposal (record p { on_chain_proposal_id = some n })
          (record db { config = some (config_in_force db) })
  ]

  resolved-find_id :
      (n : ℕ)
      → on_chain_id_of chain p ≡ some n
      → find_id id (resolved n).proposals ≡ some (record p { on_chain_proposal_id = some n })
  unfolding resolved save_proposal
  resolved-find_id n h = ground (
    arith,
    id_of-find_id id db.proposals found,
    find_id-save_self (record p { on_chain_proposal_id = some n }) db.proposals,
  )

  -- When every condition holds, the execution succeeds: the proposal is returned and stored with
  -- status executed, the on-chain id, the executor, the time and the transaction hash that the chain
  -- reported, everything else being as it was. From then on every further execution of the proposal
  -- is refused and writes nothing.
  pub execute_proposal_success :
      (e : IsExecutable chain now db p)
      → let (r, db') = execute_proposal chain now id executor db in
        (tx_hash : String) × IsReported e.result tx_hash
        × (let row = record p {
          on_chain_proposal_id = some e.on_chain_id;
          status = executed;
          execution_tx_hash = some tx_hash;
          executed_by = some executor;
          executed_at = some now;
        } in
            (r ≡ ok row)
            × (find_id id db'.proposals ≡ some row)
            × ((again : Chain) (later other : ℕ)
                → execute_proposal again later id other db' ≡ (err bad_request, db')))
  unfolding execute_proposal resolved
  execute_proposal_success e =
      let kept = resolved-find_id e.on_chain_id e.registered in
      let rows =
        find_id-update_id id id (mark_executed now executor (tx_hash_of e.result))
          (resolved e.on_chain_id).proposals (λ x. refl) in
      let read = get_passed e.has_passed in
      let after = (execute_proposal chain now id executor db).1 in
      let row : Proposal =
        mark_executed now executor (tx_hash_of e.result)
          (record p { on_chain_proposal_id = some e.on_chain_id }) in
      let stored : find_id id after.proposals ≡ some row = ground (
        arith,
        read,
        get_config_lem db,
        kept,
        rows,
        e.unlocked,
        e.quorate,
        e.configured,
        e.registered,
        e.confirmed,
      ) in
      (
        tx_hash_of e.result,
        tx_hash_of-IsReported e.result,
        (
          ground (
            arith,
            read,
            get_config_lem db,
            kept,
            rows,
            e.unlocked,
            e.quorate,
            e.configured,
            e.registered,
            e.confirmed,
          ),
          stored,
          λ again later other.
              execute_proposal-closed again later id other after row stored refl refl,
        ),
      )

  -- The guards of executeProposal in the order in which the code tests them.
  execute_proposal-cases :
      is_passed p.status ≡ true
      → ((execute_proposal chain now id executor db).0 ≡ err forbidden)
        ⊎ ((execute_proposal chain now id executor db).0 ≡ err bad_request)
        ⊎ ((execute_proposal chain now id executor db).0 ≡ err internal_error)
        ⊎ IsExecutable chain now db p
  unfolding execute_proposal
  execute_proposal-cases h =
      let read = get_passed h in
      let config = get_config_lem db in
      elim (Bool-cases (is_locked now (config_in_force db) p)) [
        | inl locked ↦ inl (ground (arith, read, config))
        | inr unlocked ↦ elim (Bool-cases (keeps_quorum db p)) [
          | inr lost ↦ inr (inl (ground (arith, read, config)))
          | inl quorate ↦ elim (Option-cases chain.contract) [
            | inl missing ↦ inr (inr (inl (ground (arith, read, config))))
            | inr (contract, configured) ↦ elim (Option-cases (on_chain_id_of chain p)) [
              | inl unregistered ↦ inr (inl (ground (arith, read, config)))
              | inr (n, registered) ↦ elim (Option-cases (chain.execute contract n)) [
                | inl thrown ↦ inr (inr (inl (ground (arith, read, config))))
                | inr (result, confirmed) ↦ inr (
                    inr (
                      inr (record {
                        has_passed = h;
                        unlocked = ground arith;
                        quorate = quorate;
                        contract = contract;
                        configured = configured;
                        on_chain_id = n;
                        registered = registered;
                        result = result;
                        confirmed = confirmed;
                      })))
              ]
            ]
          ]
        ]
      ]

  -- A proposal is executed only if it has passed, its timelock (counted from the voting deadline)
  -- is over, the quorum still holds where it is a percentage, and the chain has confirmed the call
  -- for its on-chain id.
  pub execute_proposal_sound :
      {saved : Proposal}
      → (execute_proposal chain now id executor db).0 ≡ ok saved
      → IsExecutable chain now db p
  execute_proposal_sound done = elim (Bool-cases (is_passed p.status)) [
    | inr other ↦ cc (execute_proposal-not_passed other)
    | inl h ↦ elim (execute_proposal-cases h) [
      | inl locked ↦ cc locked
      | inr (inl refused) ↦ cc refused
      | inr (inr (inl failed)) ↦ cc failed
      | inr (inr (inr e)) ↦ e
    ]
  ]

  -- Where the call throws, a passed proposal keeps its status, and its counters, deadline and
  -- execution fields: only the on-chain id may have been filled in, so the call can be repeated.
  pub execute_proposal_retryable :
      {error : HttpError}
      → is_passed p.status ≡ true
      → (execute_proposal chain now id executor db).0 ≡ err error
      → (on_chain : Option ℕ) × (find_id id (execute_proposal chain now id executor db).1.proposals
          ≡ some (record p { on_chain_proposal_id = on_chain }))
  unfolding execute_proposal resolved
  execute_proposal_retryable h failed =
      let read = get_passed h in
      let config = get_config_lem db in
      elim (Bool-cases (is_locked now (config_in_force db) p)) [
        | inl locked ↦ (p.on_chain_proposal_id, ground (arith, read, config))
        | inr unlocked ↦ elim (Bool-cases (keeps_quorum db p)) [
          | inr lost ↦ (p.on_chain_proposal_id, ground (arith, read, config))
          | inl quorate ↦ elim (Option-cases chain.contract) [
            | inl missing ↦ (p.on_chain_proposal_id, ground (arith, read, config))
            | inr (contract, configured) ↦ elim (Option-cases (on_chain_id_of chain p)) [
              | inl unregistered ↦ (p.on_chain_proposal_id, ground (arith, read, config))
              | inr (n, registered) ↦ elim (Option-cases (chain.execute contract n)) [
                | inl thrown ↦ (some n, ground (arith, read, config, resolved-find_id n registered))
                | inr (result, confirmed) ↦ absurd (
                    ground (
                      arith,
                      read,
                      config,
                      resolved-find_id n registered,
                      find_id-update_id id id (mark_executed now executor (tx_hash_of result))
                          (resolved n).proposals (λ x. refl),
                    ))
              ]
            ]
          ]
        ]
      ]
