-- ===== src/Projects/Entities.antt =====
-- The table of projects (entities/project.entity.ts), less updated_at. Decimals are counted in units
-- of their last digit: hundredths of a hectare, and 10^-7 degrees.
use Prim.Native.String.{String}
use water_credits_backend.Prelude.{
  ℕ, ℤ, Bool, true, false, ◌&&◌, not, Option, List, ◌==◌, is_some, find, Entity,
}

pub data ProjectStatus : Type 0 where
  draft registered baseline active completed closed : ProjectStatus

abbrev pub is_running : ProjectStatus → Bool
is_running active = true
is_running _ = false

pub record Project : Type 0 where
  pub id : ℕ
  pub owner_id : ℕ
  pub name : String
  pub description : Option String
  pub latitude : ℤ
  pub longitude : ℤ
  pub methodology : String
  pub status : ProjectStatus
  pub area_hectares : ℕ
  pub credit_token_address : Option ℕ
  pub contract_id : Option ℕ
  pub baseline_start_date : Option ℕ
  pub baseline_end_date : Option ℕ
  pub created_at : ℕ
  pub deleted_at : Option ℕ
  pub is_active : Bool

instance abbrev pub Project-entity : Entity Project
Project-entity = record { id_of = λ p. p.id }

-- findOne({ where: { id } }), which passes over rows that are softly deleted.
abbrev pub find_project : ℕ → List Project → Option Project
find_project id projects = find (λ p. p.id == id && not (is_some p.deleted_at)) projects
