-- ===== src/Projects/Lifecycle.antt =====
-- projects.service.ts: creating, updating and removing a project.
pub mod Transitions
use Prim.Native.String.{String}
use water_credits_backend.Prelude.{
  ℕ, ℤ, ltb, Bool, true, false, ◌&&◌, ◌||◌, not, Option, none, some, List, [], ◌∷◌, ◌==◌, or_else,
  Result, HttpError, ok, err, bad_request, forbidden, not_found, conflict, Action, ◌>>=◌, ◌>>◌,
  gets, modify, require, pure, throw_if, if◌then◌else◌, count_where, select, save,
}
use water_credits_backend.Credits.Entities.{Retirement}
use water_credits_backend.Users.{UserRole}
use water_credits_backend.Users.Accounts.{is_admin_role}
use water_credits_backend.Projects.Entities.{
  ProjectStatus, draft, registered, baseline, active, completed, closed, Project, Project-entity,
  find_project,
}

pub record Db : Type 0 where
  pub projects : List Project
  pub retirements : List Retirement

pub record CreateProjectDto : Type 0 where
  pub name : String
  pub description : Option String
  pub latitude : ℤ
  pub longitude : ℤ
  pub methodology : String
  pub area_hectares : ℕ
  pub baseline_start_date : Option ℕ
  pub baseline_end_date : Option ℕ

-- Fields that are absent stay as they are; a field that is null has no counterpart here.
pub record UpdateProjectDto : Type 0 where
  pub name : Option String
  pub description : Option String
  pub latitude : Option ℤ
  pub longitude : Option ℤ
  pub methodology : Option String
  pub area_hectares : Option ℕ
  pub baseline_start_date : Option ℕ
  pub baseline_end_date : Option ℕ
  pub status : Option ProjectStatus

abbrev pub status_code : ProjectStatus → ℕ
status_code draft = 0
status_code registered = 1
status_code baseline = 2
status_code active = 3
status_code completed = 4
status_code closed = 5

abbrev pub same_status : ProjectStatus → ProjectStatus → Bool
same_status a b = status_code a == status_code b

-- VALID_TRANSITIONS
abbrev pub valid_transitions : ProjectStatus → List ProjectStatus
valid_transitions draft = registered ∷ []
valid_transitions registered = baseline ∷ []
valid_transitions baseline = active ∷ []
valid_transitions active = completed ∷ closed ∷ []
valid_transitions completed = closed ∷ []
valid_transitions closed = []

abbrev pub includes : ProjectStatus → List ProjectStatus → Bool
includes s [] = false
includes s (x ∷ xs) = same_status x s || includes s xs

abbrev pub is_refused : Option ProjectStatus → ProjectStatus → Bool
is_refused none current = false
is_refused (some s) current =
    not (same_status s current) && not (includes s (valid_transitions current))

abbrev pub is_other_owner : Option ℕ → Project → Bool
is_other_owner none p = false
is_other_owner (some user_id) p = not (p.owner_id == user_id)

abbrev pub new_project : ℕ → ℕ → ℕ → CreateProjectDto → Project
new_project id now owner_id dto = record {
  id = id;
  owner_id = owner_id;
  name = dto.name;
  description = dto.description;
  latitude = dto.latitude;
  longitude = dto.longitude;
  methodology = dto.methodology;
  status = draft;
  area_hectares = dto.area_hectares;
  credit_token_address = none;
  contract_id = none;
  baseline_start_date = dto.baseline_start_date;
  baseline_end_date = dto.baseline_end_date;
  created_at = now;
  deleted_at = none;
  is_active = true;
}

unfoldable pub save_project : Project → Db → Db
save_project p db = record db { projects = save p db.projects }

unfoldable pub create : ℕ → ℕ → ℕ → CreateProjectDto → Action Db Project
create id now owner_id dto = do
  let project = new_project id now owner_id dto
  modify (save_project project)
  pure project

abbrev pub changed : UpdateProjectDto → Project → Project
changed dto p = record p {
  name = or_else dto.name p.name;
  description = elim dto.description [ none ↦ p.description | some d ↦ some d ];
  latitude = or_else dto.latitude p.latitude;
  longitude = or_else dto.longitude p.longitude;
  methodology = or_else dto.methodology p.methodology;
  area_hectares = or_else dto.area_hectares p.area_hectares;
  baseline_start_date = elim dto.baseline_start_date [
    | none ↦ p.baseline_start_date
    | some d ↦ some d
  ];
  baseline_end_date = elim dto.baseline_end_date [ none ↦ p.baseline_end_date | some d ↦ some d ];
  status = or_else dto.status p.status;
}

unfoldable pub update : ℕ → UpdateProjectDto → Option ℕ → Action Db Project
update id dto user_id = do
  found ← gets (λ db. find_project id db.projects)
  project ← require found not_found
  throw_if (is_other_owner user_id project) forbidden
  throw_if (is_refused dto.status project.status) bad_request
  modify (save_project (changed dto project))
  pure (changed dto project)

abbrev pub is_admin : Option UserRole → Bool
is_admin none = false
is_admin (some role) = is_admin_role role

-- The DELETE; the foreign keys on projects, which make it throw while other rows name the project, are
-- not modelled.
unfoldable pub hard_remove : ℕ → Db → Db
hard_remove id db = record db { projects = select (λ p. not (p.id == id)) db.projects }

-- The UPDATE of is_active, and softRemove, which sets deleted_at.
unfoldable pub soft_remove : ℕ → Project → Db → Db
soft_remove now p db = save_project (record p { is_active = false; deleted_at = some now }) db

-- The WHERE also asks for `tx_hash IS NOT NULL`, which the column always is.
unfoldable pub remove : ℕ → ℕ → ℕ → Option UserRole → Bool → Action Db (Unit {0})
remove now id user_id role force = do
  found ← gets (λ db. find_project id db.projects)
  project ← require found not_found
  throw_if (not (is_admin role) && not (project.owner_id == user_id)) forbidden
  retired ← gets (λ db. count_where (λ r. r.project_id == id) db.retirements)
  throw_if (ltb 0 retired) conflict
  modify (if force && is_admin role then hard_remove id else soft_remove now project)
