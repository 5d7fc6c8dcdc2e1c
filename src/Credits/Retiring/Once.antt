-- ===== src/Credits/Retiring/Once.antt =====
-- The calls that were answered as a success, and the hashes of the retirements.
use Prim.Native.String.{String}
use Prim.Native.String.{◌++◌ as str_append}
use package.text.Mathlib.TextPositions.{starts_with-append}
use water_credits_backend.Prelude.{
  ℕ, ℤ, pos, ltb_ℤ, ◌≡◌, refl, sym, ap, ◌∙◌, Bool, true, false, not, Option, none, some, List, [],
  ◌∷◌, ◌++◌, ◌==◌, arith, Bool-cases, Option-cases, inl, inr, ◌⊎◌, if◌then◌else◌, count_where,
  find_id, save, find_id-save_self, find_id-save_ne, id_of-find_id, ok,
}
use water_credits_backend.Users.{User-entity}
use water_credits_backend.Projects.Entities.{find_project}
use water_credits_backend.Credits.Entities.{Retirement, Retirement-entity, is_placeholder}
use water_credits_backend.Credits.Retiring.{
  RetireCreditsDto, RetirementJob, World, RetireEnv, new_retirement, retirement_job, token_of,
  retire, Answer, JobEnv, put, try_put, with_hash, finish, confirm_on_chain, settle_retirement,
  send_retirement, process_retirement,
}

-- The retirement has the hash of a transaction.
abbrev pub is_marked : Option Retirement → Bool
is_marked none = false
is_marked (some r) = not (is_placeholder r.tx_hash)

abbrev pub times_confirmed : ℕ → List ℕ → ℕ
times_confirmed id calls = count_where (λ c. c == id) calls

-- The call of a retirement was answered as a success once if it has a hash, and never if it has none.
abbrev pub IsOnce : World → Type 0
IsOnce w =
    (id : ℕ)
    → times_confirmed id w.retired_on_chain
      ≡ (if is_marked (find_id id w.retirements) then 1 else 0)

put-IsOnce :
    (r : Retirement) (w : World)
    → is_marked (find_id r.id w.retirements) ≡ not (is_placeholder r.tx_hash)
    → IsOnce w
    → IsOnce (put r w)
put-IsOnce r w same h id = elim (Bool-cases (id == r.id)) [
  | inl this ↦ ground (
    arith,
    h id,
    find_id-save_self r w.retirements,
    ap (λ (i : ℕ). find_id i (save r w.retirements)) {x = id} {y = r.id},
    ap (λ (i : ℕ). find_id i w.retirements) {x = id} {y = r.id},
  )
  | inr other ↦ ground (arith, h id, find_id-save_ne id r w.retirements)
]

confirm-IsOnce :
    (r : Retirement) (w : World)
    → is_marked (find_id r.id w.retirements) ≡ false
    → is_placeholder r.tx_hash ≡ false
    → IsOnce w
    → IsOnce (put r (confirm_on_chain r.id w))
confirm-IsOnce r w open_one real h id = elim (Bool-cases (id == r.id)) [
  | inl this ↦ ground (
    arith,
    h id,
    find_id-save_self r w.retirements,
    ap (λ (i : ℕ). find_id i (save r w.retirements)) {x = id} {y = r.id},
    ap (λ (i : ℕ). find_id i w.retirements) {x = id} {y = r.id},
  )
  | inr other ↦ ground (arith, h id, find_id-save_ne id r w.retirements)
]

-- The hashes that the chain answers are not empty, and do not look like a placeholder.
pub record HasRealHashes (env : JobEnv) : Type 0 where
  pub real :
      (token_id : ℕ) (amount : ℤ) (purpose : String) (uri : Option String) (a : Answer)
      → env.retire_credits token_id amount purpose uri ≡ some a
      → is_placeholder a.tx_hash ≡ false

-- The database takes a row that has the hash of a transaction: the save after the call does not throw.
pub record SavesHashes (env : JobEnv) : Type 0 where
  pub saved : (r : Retirement) → is_placeholder r.tx_hash ≡ false → env.saves r ≡ true

try_put-IsOnce :
    (env : JobEnv) (r : Retirement) (w : World)
    → is_marked (find_id r.id w.retirements) ≡ not (is_placeholder r.tx_hash)
    → IsOnce w
    → IsOnce (try_put env r w)
try_put-IsOnce env r w same h = elim (Bool-cases (env.saves r)) [
  | inl saved ↦ rw saved (put-IsOnce r w same h)
  | inr thrown ↦ rw thrown h
]

module _ (env : JobEnv) where
  finish-IsOnce :
      (r : Retirement) (w : World)
      → is_marked (find_id r.id w.retirements) ≡ not (is_placeholder r.tx_hash)
      → IsOnce w
      → IsOnce (finish env r w).1
  unfolding finish
  finish-IsOnce r w same h = elim (Bool-cases env.notifies) [
    | inr silent ↦ rw silent h
    | inl told ↦ elim (Option-cases (env.certificate r)) [
      | inl no_uri ↦ rw (told, no_uri) h
      | inr (uri, there) ↦
          rw (told, there)
            (try_put-IsOnce env (record r { certificate_ipfs_uri = some uri }) w same h)
    ]
  ]

  settle_retirement-IsOnce :
      (r : Retirement) (o : Option Answer) (w : World)
      → SavesHashes env
      → ((a : Answer) → o ≡ some a → is_placeholder a.tx_hash ≡ false)
      → is_marked (find_id r.id w.retirements) ≡ false
      → IsOnce w
      → IsOnce (settle_retirement env r o w).1
  unfolding settle_retirement
  settle_retirement-IsOnce r none w keeps real open_one h =
      try_put-IsOnce env (with_hash "" r) w open_one h
  settle_retirement-IsOnce r (some a) w keeps real open_one h = elim (Bool-cases a.success) [
    | inr failed ↦ rw failed (try_put-IsOnce env (with_hash "" r) w open_one h)
    | inl confirmed ↦
        let r' = record r { tx_hash = a.tx_hash; retired_at = env.now } in
        rw (confirmed, keeps.saved r' (real a refl))
          (finish-IsOnce r' (put r' (confirm_on_chain r.id w))
            (ap is_marked (find_id-save_self r' w.retirements))
            (confirm-IsOnce r' w open_one (real a refl) h))
  ]

  module _ (job : RetirementJob) (w : World) where
    process-missing :
        find_id job.retirement_id w.retirements ≡ none → process_retirement env job w ≡ (ok tt, w)
    unfolding process_retirement
    process-missing missing = ground arith

    module _ (r : Retirement) (found : find_id job.retirement_id w.retirements ≡ some r) where
      process-hashed : is_placeholder r.tx_hash ≡ false → process_retirement env job w ≡ (ok tt, w)
      unfolding process_retirement
      process-hashed hashed = ground arith

      process-sends :
          is_placeholder r.tx_hash ≡ true
          → process_retirement env job w ≡ send_retirement env job r w
      unfolding process_retirement
      process-sends waiting = ground arith

  send_retirement-IsOnce :
      (job : RetirementJob) (r : Retirement) (w : World)
      → HasRealHashes env
      → SavesHashes env
      → is_marked (find_id r.id w.retirements) ≡ false
      → IsOnce w
      → IsOnce (send_retirement env job r w).1
  unfolding send_retirement
  send_retirement-IsOnce job r w hashes keeps open_one h = elim (Option-cases job.token_id) [
    | inl no_token ↦ rw no_token h
    | inr (token_id, there) ↦
        let pending = with_hash (str_append "tx-pending-" env.stamp) r in
        let still : is_placeholder pending.tx_hash ≡ true =
          ground (arith, starts_with-append "tx-pending-" env.stamp) in
        elim (Bool-cases (env.saves pending)) [
          | inr thrown ↦ rw (there, thrown) (try_put-IsOnce env (with_hash "" r) w open_one h)
          | inl saved ↦
              rw (there, saved)
                (settle_retirement-IsOnce pending
                  (env.retire_credits token_id job.amount job.purpose job.metadata_uri)
                  (put pending w) keeps
                  (hashes.real token_id job.amount job.purpose job.metadata_uri)
                  (ap is_marked (find_id-save_self pending w.retirements) ∙ ap not still)
                  (put-IsOnce pending w (open_one ∙ sym (ap not still)) h))
        ]
  ]

  -- Whatever a job of the queue comes to, the call of a retirement was answered as a success once if
  -- it has a hash, and never if it has none, if that was so before, the answered hashes are real and
  -- rows that have one are saved.
  pub process_retirement-IsOnce :
      (job : RetirementJob) (w : World)
      → HasRealHashes env
      → SavesHashes env
      → IsOnce w
      → IsOnce (process_retirement env job w).1
  process_retirement-IsOnce job w hashes keeps h =
      elim (Option-cases (find_id job.retirement_id w.retirements)) [
        | inl missing ↦ rw (process-missing job w missing) h
        | inr (r, found) ↦ elim (Bool-cases (is_placeholder r.tx_hash)) [
          | inr hashed ↦ rw (process-hashed job w r found hashed) h
          | inl waiting ↦ rw (process-sends job w r found waiting) (
              send_retirement-IsOnce job r w hashes keeps
                (ap is_marked (
                    ap (λ (i : ℕ). find_id i w.retirements)
                      (id_of-find_id job.retirement_id w.retirements found)
                    ∙ found)
                  ∙ ap not waiting)
                h)
        ]
      ]

-- The database generates an id that no row has.
pub record HasNewIds (env : RetireEnv) : Type 0 where
  pub new : (rows : List Retirement) → find_id (env.generated_id rows) rows ≡ none

-- A retirement either throws and has at most stored a new row without a hash, or it has stored one.
retire-world :
    (env : RetireEnv) (user_id : ℕ) (dto : RetireCreditsDto) (w : World)
    → ((retire env user_id dto w).1 ≡ w)
      ⊎ ((queue : List RetirementJob) × ((retire env user_id dto w).1 ≡ record w {
        retirements = save (new_retirement env user_id dto w.retirements) w.retirements;
        queue = queue;
      }))
unfolding retire
retire-world env user_id dto w = elim (Bool-cases (ltb_ℤ (pos 0) dto.amount)) [
  | inr not_positive ↦ inl (ground (arith, not_positive))
  | inl positive ↦ elim (Option-cases (find_id user_id w.users)) [
    | inl no_user ↦ inl (ground (arith, positive, no_user))
    | inr (user, known) ↦ elim (Option-cases (token_of (find_project dto.project_id w.projects))) [
      | inl no_token ↦ inl (ground (arith, positive, known, no_token))
      | inr (token, deployed) ↦ elim (Option-cases (env.balance token user.wallet)) [
        | inl unreachable ↦ inl (ground (arith, positive, known, deployed, unreachable))
        | inr (balance, answered) ↦ elim (Bool-cases (ltb_ℤ balance dto.amount)) [
          | inl short ↦ inl (ground (arith, positive, known, deployed, answered, short))
          | inr enough ↦
              let r = new_retirement env user_id dto w.retirements in
              elim (Bool-cases (env.takes (retirement_job r token dto))) [
                | inl queued ↦ inr (
                  w.queue ++ retirement_job r token dto ∷ [],
                  ground (arith, positive, known, deployed, answered, enough, queued),
                )
                | inr lost ↦
                    inr (w.queue, ground (arith, positive, known, deployed, answered, enough, lost))
              ]
        ]
      ]
    ]
  ]
]

-- A new row has no hash, and no call under its id was answered as a success.
stored-IsOnce :
    (env : RetireEnv) (user_id : ℕ) (dto : RetireCreditsDto) (w w' : World)
    → HasNewIds env
    → IsOnce w
    → ((w' ≡ w)
        ⊎ ((queue : List RetirementJob) × (w' ≡ record w {
          retirements = save (new_retirement env user_id dto w.retirements) w.retirements;
          queue = queue;
        })))
    → IsOnce w'
stored-IsOnce env user_id dto w w' ids h (inl same) = rw same h
stored-IsOnce env user_id dto w w' ids h (inr (queue, stored)) =
    let r = new_retirement env user_id dto w.retirements in
    rw stored (put-IsOnce r w (ap is_marked (ids.new w.retirements)) h)

pub retire-IsOnce :
    (env : RetireEnv) (user_id : ℕ) (dto : RetireCreditsDto) (w : World)
    → HasNewIds env
    → IsOnce w
    → IsOnce (retire env user_id dto w).1
retire-IsOnce env user_id dto w ids h =
    stored-IsOnce env user_id dto w (retire env user_id dto w).1 ids h
      (retire-world env user_id dto w)
