-- ===== src/Credits/Tests.antt =====
-- Runs of retirements, and the theorems at concrete inputs.
use water_credits_backend.Prelude.{
  length, if◌then◌else◌, ◌*◌, select, ◌==◌, ℕ, ◌+◌, max, pos, ◌≡◌, refl, ap, sym, true, false, none,
  some, Option, List, [], ◌∷◌, find_id, arith, ltb,
}
use water_credits_backend.Users.{farmer, User, User-entity}
use water_credits_backend.Projects.Entities.{active, Project}
use water_credits_backend.Credits.Entities.{Retirement, Retirement-entity, is_placeholder}
use water_credits_backend.Credits.Portfolio.{Numbers, latest_first, project_name_of, get_portfolio}
use water_credits_backend.Credits.Portfolio.Sums.{is_in, entry_of, sum_from, get_portfolio_sums}
use water_credits_backend.Credits.Retiring.{
  RetireCreditsDto, RetirementJob, World, RetireEnv, retire, Answer, JobEnv, process_retirement,
}
use water_credits_backend.Credits.Retiring.Once.{IsOnce, HasRealHashes, SavesHashes, HasNewIds}
use water_credits_backend.Credits.Retiring.Runs.{request, attempt, here, next, Steps-IsOnce}

abbrev user : User
user = record {
  id = 3;
  wallet = 30;
  email = none;
  display_name = none;
  role = farmer;
  is_active = true;
  is_kyc_verified = true;
}

abbrev project : Project
project = record {
  id = 5;
  owner_id = 1;
  name = "Wetland";
  description = none;
  latitude = pos 0;
  longitude = pos 0;
  methodology = "M1";
  status = active;
  area_hectares = 200;
  credit_token_address = some 77;
  contract_id = none;
  baseline_start_date = none;
  baseline_end_date = none;
  created_at = 0;
  deleted_at = none;
  is_active = true;
}

abbrev start : World
start = record {
  users = user ∷ [];
  projects = project ∷ [];
  retirements = [];
  queue = [];
  retired_on_chain = [];
}

abbrev largest : List Retirement → ℕ
largest [] = 0
largest (r ∷ rest) = max r.id (largest rest)

abbrev retire_env : RetireEnv
retire_env = record {
  now = 10;
  generated_id = λ rows. largest rows + 1;
  balance = λ _ _. some (pos 9_000_000);
  takes = λ _. true;
}

larger-new :
    (id : ℕ) (rows : List Retirement) → ltb (largest rows) id ≡ true → find_id id rows ≡ none
larger-new id [] h = refl
larger-new id (r ∷ rest) h = ground (arith, larger-new id rest)

retire_env-HasNewIds : HasNewIds retire_env
retire_env-HasNewIds = record { new = λ rows. larger-new (largest rows + 1) rows (ground arith) }

abbrev dto : RetireCreditsDto
dto = record { project_id = 5; amount = pos 2_000_000; purpose = "offset"; metadata_uri = none }

abbrev failing : JobEnv
failing = record {
  now = 20;
  stamp = "20";
  retire_credits = λ _ _ _ _. none;
  saves = λ _. true;
  notifies = true;
  certificate = λ _. none;
}

abbrev confirming : JobEnv
confirming = record failing {
  retire_credits = λ _ _ _ _. some (record { success = true; tx_hash = "hash" });
}

failing-HasRealHashes : HasRealHashes failing
failing-HasRealHashes = record { real = λ _ _ _ _ a e. cc }

confirming-HasRealHashes : HasRealHashes confirming
confirming-HasRealHashes = record {
  real = λ _ _ _ _ a e.
      ap (λ (o : Option Answer). elim o [ none ↦ false | some x ↦ is_placeholder x.tx_hash ])
        (sym e);
}

failing-SavesHashes : SavesHashes failing
failing-SavesHashes = record { saved = λ r real. refl }

confirming-SavesHashes : SavesHashes confirming
confirming-SavesHashes = record { saved = λ r real. refl }

abbrev job : RetirementJob
job = record {
  retirement_id = 1;
  user_id = 3;
  project_id = 5;
  token_id = some 77;
  amount = pos 2_000_000;
  purpose = "offset";
  metadata_uri = none;
}

-- An attempt that fails, one that is confirmed, and one too many.
abbrev requested : World
requested = (retire retire_env 3 dto start).1

abbrev failed_once : World
failed_once = (process_retirement failing job requested).1

abbrev confirmed_once : World
confirmed_once = (process_retirement confirming job failed_once).1

abbrev attempted_again : World
attempted_again = (process_retirement confirming job confirmed_once).1

queued : requested.queue ≡ job ∷ []
unfolding retire
queued = refl

once : attempted_again.retired_on_chain ≡ 1 ∷ []
unfolding retire process_retirement
once = refl

Steps-IsOnce_example : IsOnce attempted_again
Steps-IsOnce_example =
    Steps-IsOnce
      (next
        (next
          (next (next here (request retire_env 3 dto retire_env-HasNewIds))
            (attempt failing job failing-HasRealHashes failing-SavesHashes))
          (attempt confirming job confirming-HasRealHashes confirming-SavesHashes))
        (attempt confirming job confirming-HasRealHashes confirming-SavesHashes))
      (λ id. refl)

abbrev retired : ℕ → ℕ → ℕ → Retirement
retired id project_id amount = record {
  id = id;
  user_id = 3;
  project_id = project_id;
  amount = amount;
  purpose = "offset";
  metadata_uri = none;
  tx_hash = "hash";
  certificate_ipfs_uri = none;
  retired_at = id;
  created_at = id;
}

abbrev several : List Retirement
several = retired 1 5 20 ∷ retired 2 6 30 ∷ retired 3 5 7 ∷ []

-- Amounts that are added without rounding.
abbrev whole : Numbers ℕ
whole = record {
  zero = 0;
  one = 1;
  of_amount = λ amount. amount;
  add = λ a b. a + b;
  times = λ a b. a * b;
}

get_portfolio_sums_example :
    let portfolio = get_portfolio whole none (project ∷ []) several 3 in
    let mine = latest_first (select (λ r. r.user_id == 3) several) in
    (portfolio.total_retired ≡ sum_from whole 0 mine)
    × ((id : ℕ)
        → let his = select (is_in id) mine in
          entry_of whole id portfolio.projects ≡ (
            if length his == 0
            then none
            else some (record {
              project_id = id;
              project_name = project_name_of id (project ∷ []);
              retired = sum_from whole 0 his;
              certificate_count = length his;
            })))
get_portfolio_sums_example = get_portfolio_sums whole none (project ∷ []) several 3
