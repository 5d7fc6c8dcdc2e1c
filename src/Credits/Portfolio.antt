-- ===== src/Credits/Portfolio.antt =====
-- CreditsService.getPortfolio: what a user has retired, by project. Amounts are
-- in millionths; the sums are of JavaScript's doubles, whose rounding is a parameter.
pub mod Sums
use Prim.Native.String.{String}
use water_credits_backend.Prelude.{
  ℕ, ◌+◌, ◌*◌, Bool, Option, none, some, List, [], ◌∷◌, ltb, ◌==◌, if◌then◌else◌, select, or_else,
}
use water_credits_backend.Projects.Entities.{Project, find_project}
use water_credits_backend.Credits.Entities.{Retirement}

-- The numbers that JavaScript adds: `Number(r.amount)`, `+`, `*`, 0 and 1. No law is asked of them.
pub record Numbers (N : Type 0) : Type 0 where
  pub zero : N
  pub one : N
  pub of_amount : ℕ → N
  pub add : N → N → N
  pub times : N → N → N

pub record PortfolioProject (N : Type 0) : Type 0 where
  pub project_id : ℕ
  pub project_name : String
  pub retired : N
  pub certificate_count : ℕ

pub record Portfolio (N : Type 0) : Type 0 where
  pub total_retired : N
  pub total_value : N
  pub projects : List (PortfolioProject N)

-- ORDER BY retired_at DESC
abbrev pub insert_latest : Retirement → List Retirement → List Retirement
insert_latest r [] = r ∷ []
insert_latest r (s ∷ rest) =
    if ltb r.retired_at s.retired_at then s ∷ insert_latest r rest else r ∷ s ∷ rest

abbrev pub latest_first : List Retirement → List Retirement
latest_first [] = []
latest_first (r ∷ rest) = insert_latest r (latest_first rest)

-- `r.project?.name ?? 'Unknown'`
abbrev pub project_name_of : ℕ → List Project → String
project_name_of id projects = elim (find_project id projects) [ none ↦ "Unknown" | some p ↦ p.name ]

module _ {N : Type 0} (numbers : Numbers N) where
  open numbers use {add, of_amount}

  -- `projectMap.set`, which keeps the place of a key that is there.
  abbrev pub add_retirement :
      List Project → Retirement → List (PortfolioProject N) → List (PortfolioProject N)
  add_retirement projects r [] =
      record {
        project_id = r.project_id;
        project_name = project_name_of r.project_id projects;
        retired = add numbers.zero (of_amount r.amount);
        certificate_count = 1;
      }
      ∷ []
  add_retirement projects r (e ∷ rest) =
      if e.project_id == r.project_id
      then record e {
        retired = add e.retired (of_amount r.amount);
        certificate_count = e.certificate_count + 1;
      }
        ∷ rest
      else e ∷ add_retirement projects r rest

  abbrev pub add_retirements :
      List Project → List Retirement → List (PortfolioProject N) → List (PortfolioProject N)
  add_retirements projects [] entries = entries
  add_retirements projects (r ∷ rest) entries =
      add_retirements projects rest (add_retirement projects r entries)

  -- `totalRetired += Number(r.amount)`
  abbrev pub total_amount : N → List Retirement → N
  total_amount total [] = total
  total_amount total (r ∷ rest) = total_amount (add total (of_amount r.amount)) rest

  -- `price` is CREDIT_PRICE_PER_UNIT.
  unfoldable pub get_portfolio :
      (price : Option N) → List Project → List Retirement → (user_id : ℕ) → Portfolio N
  get_portfolio price projects retirements user_id =
      let mine = latest_first (select (λ r. r.user_id == user_id) retirements) in
      let total = total_amount numbers.zero mine in
      record {
        total_retired = total;
        total_value = numbers.times total (or_else price numbers.one);
        projects = add_retirements projects mine [];
      }
