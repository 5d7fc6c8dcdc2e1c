-- ===== src/Sensors/Access.antt =====
-- sensor-project-access.service.ts: who may see a project's sensors.
use water_credits_backend.Prelude.{
  ℕ, Bool, true, false, Option, none, some, ◌==◌, if◌then◌else◌, ok, err, forbidden, not_found,
  Action,
}
use water_credits_backend.Users.{UserRole, admin, verifier, oracle}
use water_credits_backend.Projects.Entities.{find_project}
use water_credits_backend.Sensors.Entities.{Db}

-- PRIVILEGED_SENSOR_ROLES
abbrev pub is_privileged : Option UserRole → Bool
is_privileged none = false
is_privileged (some admin) = true
is_privileged (some verifier) = true
is_privileged (some oracle) = true
is_privileged (some _) = false

unfoldable pub require_privileged_role : Option UserRole → Action Db (Unit {0})
require_privileged_role role db = (if is_privileged role then ok tt else err forbidden, db)

unfoldable pub assert_project_access : ℕ → Option UserRole → ℕ → Action Db (Unit {0})
assert_project_access user_id role project_id db =
    if is_privileged role then (ok tt, db) else elim (find_project project_id db.projects) [
      | none ↦ (err not_found, db)
      | some project ↦ (if project.owner_id == user_id then ok tt else err forbidden, db)
    ]
