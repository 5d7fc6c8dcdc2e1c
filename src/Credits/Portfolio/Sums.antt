-- ===== src/Credits/Portfolio/Sums.antt =====
-- The entries of a portfolio.
use mathlib.Core.Path.{subst}
use water_credits_backend.Prelude.{
  ℕ, ◌+◌, ◌≡◌, refl, ap, ◌∙◌, Bool, false, Option, none, some, List, [], ◌∷◌, ◌==◌, arith,
  if◌then◌else◌, select, find, length, Bool-cases, inl, inr,
}
use water_credits_backend.Projects.Entities.{Project}
use water_credits_backend.Credits.Entities.{Retirement}
use water_credits_backend.Credits.Portfolio.{
  Numbers, PortfolioProject, project_name_of, latest_first, add_retirement, add_retirements,
  get_portfolio, total_amount,
}

abbrev pub is_in : ℕ → Retirement → Bool
is_in id r = r.project_id == id

module _ {N : Type 0} (numbers : Numbers N) where
  open numbers use {add, of_amount}

  abbrev pub entry_of : ℕ → List (PortfolioProject N) → Option (PortfolioProject N)
  entry_of id entries = find (λ e. e.project_id == id) entries

  -- The sum of amounts in their order, from a number on.
  abbrev pub sum_from : N → List Retirement → N
  sum_from n [] = n
  sum_from n (r ∷ rest) = sum_from (add n (of_amount r.amount)) rest

  total_amount-sum_from : (n : N) (rs : List Retirement) → total_amount numbers n rs ≡ sum_from n rs
  total_amount-sum_from n [] = refl
  total_amount-sum_from n (r ∷ rest) = total_amount-sum_from (add n (of_amount r.amount)) rest

  -- One more retirement in the project of an entry.
  abbrev more : List Project → ℕ → Retirement → Option (PortfolioProject N) → PortfolioProject N
  more projects id r none = record {
    project_id = id;
    project_name = project_name_of id projects;
    retired = add numbers.zero (of_amount r.amount);
    certificate_count = 1;
  }
  more projects id r (some e) = record e {
    retired = add e.retired (of_amount r.amount);
    certificate_count = e.certificate_count + 1;
  }

  entry_of-add_other :
      (projects : List Project) (id : ℕ) (r : Retirement) (entries : List (PortfolioProject N))
      → is_in id r ≡ false
      → entry_of id (add_retirement numbers projects r entries) ≡ entry_of id entries
  entry_of-add_other projects id r [] other = ground arith
  entry_of-add_other projects id r (e ∷ rest) other =
      ground (arith, entry_of-add_other projects id r rest other)

  entry_of-add_same :
      (projects : List Project) (r : Retirement) (entries : List (PortfolioProject N))
      → entry_of r.project_id (add_retirement numbers projects r entries)
        ≡ some (more projects r.project_id r (entry_of r.project_id entries))
  entry_of-add_same projects r [] = ground arith
  entry_of-add_same projects r (e ∷ rest) = elim (Bool-cases (e.project_id == r.project_id)) [
    | inl same ↦ ground (arith, same)
    | inr other ↦ ground (arith, other, entry_of-add_same projects r rest)
  ]

  entry_of-add_retirement :
      (projects : List Project) (id : ℕ) (r : Retirement) (entries : List (PortfolioProject N))
      → entry_of id (add_retirement numbers projects r entries) ≡ (
          if is_in id r
          then some (more projects id r (entry_of id entries))
          else entry_of id entries)
  entry_of-add_retirement projects id r entries = elim (Bool-cases (is_in id r)) [
    | inr other ↦ rw other (entry_of-add_other projects id r entries other)
    | inl same ↦
        let named : r.project_id ≡ id = ground arith in
        rw same (
          subst
            (λ (j : ℕ).
              entry_of j (add_retirement numbers projects r entries)
              ≡ some (more projects j r (entry_of j entries)))
            named (entry_of-add_same projects r entries))
  ]

  -- The entry after more retirements in its project.
  abbrev grown :
      List Project → ℕ → List Retirement → Option (PortfolioProject N) → Option (PortfolioProject N)
  grown projects id [] entry = entry
  grown projects id (r ∷ rest) entry = grown projects id rest (some (more projects id r entry))

  entry_of-add_retirements :
      (projects : List Project) (id : ℕ) (rs : List Retirement)
      (entries : List (PortfolioProject N))
      → entry_of id (add_retirements numbers projects rs entries)
        ≡ grown projects id (select (is_in id) rs) (entry_of id entries)
  entry_of-add_retirements projects id [] entries = refl
  entry_of-add_retirements projects id (r ∷ rest) entries =
      let tail =
        entry_of-add_retirements projects id rest (add_retirement numbers projects r entries) in
      let head = entry_of-add_retirement projects id r entries in
      elim (Bool-cases (is_in id r)) [
        | inl same ↦
            tail ∙ rw same (ap (grown projects id (select (is_in id) rest)) (head ∙ rw same refl))
        | inr other ↦
            tail ∙ rw other (ap (grown projects id (select (is_in id) rest)) (head ∙ rw other refl))
      ]

  grown-some :
      (projects : List Project) (id : ℕ) (rs : List Retirement) (e : PortfolioProject N)
      → grown projects id rs (some e)
        ≡ some (record e {
          retired = sum_from e.retired rs;
          certificate_count = e.certificate_count + length rs;
        })
  grown-some projects id [] e = ground arith
  grown-some projects id (r ∷ rest) e =
      grown-some projects id rest (more projects id r (some e)) ∙ ground arith

  grown-none :
      (projects : List Project) (id : ℕ) (rs : List Retirement)
      → grown projects id rs none ≡ (
          if length rs == 0
          then none
          else some (record {
            project_id = id;
            project_name = project_name_of id projects;
            retired = sum_from numbers.zero rs;
            certificate_count = length rs;
          }))
  grown-none projects id [] = refl
  grown-none projects id (r ∷ rest) =
      grown-some projects id rest (more projects id r none) ∙ ground arith

  -- The total of a portfolio is the sum of the amounts of the user's retirements, the latest first,
  -- from 0. A project has no entry if the user has retired nothing in it; otherwise its entry has
  -- the project's name, the sum of the amounts that the user has retired in it, in the same order from
  -- 0, and their number. The sums are as JavaScript's addition rounds them.
  pub get_portfolio_sums :
      (price : Option N) (projects : List Project) (retirements : List Retirement) (user_id : ℕ)
      → let portfolio = get_portfolio numbers price projects retirements user_id in
        let mine = latest_first (select (λ r. r.user_id == user_id) retirements) in
        (portfolio.total_retired ≡ sum_from numbers.zero mine)
        × ((id : ℕ)
            → let his = select (is_in id) mine in
              entry_of id portfolio.projects ≡ (
                if length his == 0
                then none
                else some (record {
                  project_id = id;
                  project_name = project_name_of id projects;
                  retired = sum_from numbers.zero his;
                  certificate_count = length his;
                })))
  unfolding get_portfolio
  get_portfolio_sums price projects retirements user_id =
      let mine = latest_first (select (λ r. r.user_id == user_id) retirements) in
      (
        total_amount-sum_from numbers.zero mine,
        λ id.
            entry_of-add_retirements projects id mine []
            ∙ grown-none projects id (select (is_in id) mine),
      )
