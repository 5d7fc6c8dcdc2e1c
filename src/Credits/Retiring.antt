-- ===== src/Credits/Retiring.antt =====
-- CreditsService.retire, and the job of CreditsRetirementProcessor. Amounts are in millionths. The
-- world is the tables, the queue, and the calls of the token contract that were answered as a success.
pub mod Once
pub mod Runs
use Prim.Native.String.{String}
use Prim.Native.String.{◌++◌ as str_append}
use water_credits_backend.Prelude.{
  ℕ, ℤ, pos, pos_part, ltb_ℤ, Bool, true, false, not, ◌||◌, Option, none, some, List, [], ◌∷◌, ◌++◌,
  or_else, if◌then◌else◌, find_id, save, ok, err, bad_request, failure, Result, Action, ◌>>=◌, ◌>>◌,
  pure, throw_if, require, modify, gets,
}
use water_credits_backend.Users.{User, User-entity}
use water_credits_backend.Projects.Entities.{Project, find_project}
use water_credits_backend.Credits.Entities.{Retirement, Retirement-entity, is_placeholder}

pub record RetireCreditsDto : Type 0 where
  pub project_id : ℕ
  pub amount : ℤ
  pub purpose : String
  pub metadata_uri : Option String

-- A job of the queue `retirements`; what is undefined is `none`.
pub record RetirementJob : Type 0 where
  pub retirement_id : ℕ
  pub user_id : ℕ
  pub project_id : ℕ
  pub token_id : Option ℕ
  pub amount : ℤ
  pub purpose : String
  pub metadata_uri : Option String

pub record World : Type 0 where
  pub users : List User
  pub projects : List Project
  pub retirements : List Retirement
  pub queue : List RetirementJob
  pub retired_on_chain : List ℕ

-- Around `retire`: the clock, the id that the database generates, the balance that the chain answers
-- (`none` is an exception), and whether Bull takes a job.
pub record RetireEnv : Type 0 where
  pub now : ℕ
  pub generated_id : List Retirement → ℕ
  pub balance : ℕ → ℕ → Option ℤ
  pub takes : RetirementJob → Bool

abbrev pub new_retirement : RetireEnv → ℕ → RetireCreditsDto → List Retirement → Retirement
new_retirement env user_id dto rows = record {
  id = env.generated_id rows;
  user_id = user_id;
  project_id = dto.project_id;
  amount = pos_part dto.amount;
  purpose = dto.purpose;
  metadata_uri = dto.metadata_uri;
  tx_hash = "";
  certificate_ipfs_uri = none;
  retired_at = env.now;
  created_at = env.now;
}

abbrev pub retirement_job : Retirement → ℕ → RetireCreditsDto → RetirementJob
retirement_job r token_id dto = record {
  retirement_id = r.id;
  user_id = r.user_id;
  project_id = dto.project_id;
  token_id = some token_id;
  amount = dto.amount;
  purpose = dto.purpose;
  metadata_uri = none;
}

-- `retirementRepo.save` of a new row
abbrev pub store_new : RetireEnv → ℕ → RetireCreditsDto → Action World Retirement
store_new env user_id dto w =
    let r = new_retirement env user_id dto w.retirements in
    (ok r, record w { retirements = save r w.retirements })

abbrev pub enqueue : RetireEnv → RetirementJob → Action World (Unit {0})
enqueue env job w =
    if env.takes job then (ok tt, record w { queue = w.queue ++ job ∷ [] }) else (err failure, w)

abbrev pub token_of : Option Project → Option ℕ
token_of none = none
token_of (some p) = p.credit_token_address

unfoldable pub retire : RetireEnv → ℕ → RetireCreditsDto → Action World Retirement
retire env user_id dto = do
  throw_if (not (ltb_ℤ (pos 0) dto.amount)) bad_request
  found ← gets (λ w. find_id user_id w.users)
  user ← require found bad_request
  project ← gets (λ w. find_project dto.project_id w.projects)
  token_id ← require (token_of project) bad_request
  balance ← require (env.balance token_id user.wallet) failure
  throw_if (ltb_ℤ balance dto.amount) bad_request
  saved ← store_new env user_id dto
  enqueue env (retirement_job saved token_id dto)
  pure saved

-- What StellarService.retireCreditsWithHash resolves to.
pub record Answer : Type 0 where
  pub success : Bool
  pub tx_hash : String

-- Around a job: the clock, also as a text, what the contract's call resolves to (`none` is an
-- exception), whether `retirementRepo.save` takes a row or throws, whether the notification is stored,
-- and the URI of the certificate (`none` is null or an exception, which are both ignored).
pub record JobEnv : Type 0 where
  pub now : ℕ
  pub stamp : String
  pub retire_credits : ℕ → ℤ → String → Option String → Option Answer
  pub saves : Retirement → Bool
  pub notifies : Bool
  pub certificate : Retirement → Option String

abbrev pub put : Retirement → World → World
put r w = record w { retirements = save r w.retirements }

-- A save whose exception changes nothing else: it is swallowed, or another one is thrown anyway.
abbrev pub try_put : JobEnv → Retirement → World → World
try_put env r w = if env.saves r then put r w else w

abbrev pub with_hash : String → Retirement → Retirement
with_hash hash r = record r { tx_hash = hash }

-- The notification, and the certificate.
unfoldable pub finish : JobEnv → Retirement → Action World (Unit {0})
finish env r w =
    if env.notifies
    then elim (env.certificate r) [
      | none ↦ (ok tt, w)
      | some uri ↦ (ok tt, try_put env (record r { certificate_ipfs_uri = some uri }) w)
    ]
    else (err failure, w)

-- The call was answered as a success.
abbrev pub confirm_on_chain : ℕ → World → World
confirm_on_chain id w = record w { retired_on_chain = id ∷ w.retired_on_chain }

unfoldable pub settle_retirement : JobEnv → Retirement → Option Answer → Action World (Unit {0})
unfolding finish
settle_retirement env r none w = (err failure, try_put env (with_hash "" r) w)
settle_retirement env r (some a) w =
    let r' = record r { tx_hash = a.tx_hash; retired_at = env.now } in
    let w' = confirm_on_chain r.id w in
    if not a.success
    then (err failure, try_put env (with_hash "" r) w)
    else if env.saves r'
    then finish env r' (put r' w')
    else (err failure, w')

unfoldable pub send_retirement : JobEnv → RetirementJob → Retirement → Action World (Unit {0})
unfolding settle_retirement
send_retirement env job r w = elim job.token_id [
  | none ↦ (err failure, w)
  | some token_id ↦
      let pending = with_hash (str_append "tx-pending-" env.stamp) r in
      let sent =
        settle_retirement env pending
          (env.retire_credits token_id job.amount job.purpose job.metadata_uri) (put pending w) in
      if env.saves pending then sent else (err failure, try_put env (with_hash "" r) w)
]

unfoldable pub process_retirement : JobEnv → RetirementJob → Action World (Unit {0})
unfolding send_retirement
process_retirement env job w = elim (find_id job.retirement_id w.retirements) [
  | none ↦ (ok tt, w)
  | some r ↦ if not (is_placeholder r.tx_hash) then (ok tt, w) else send_retirement env job r w
]
