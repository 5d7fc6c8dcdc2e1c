-- ===== src/Users/Accounts.antt =====
-- The operations of UsersService on an account. An INSERT into user_audit_log may fail, which is
-- logged and otherwise ignored: the operations take the rows that it stores.
use Prim.Native.String.{String}
use water_credits_backend.Prelude.{
  ℕ, Bool, true, false, ◌&&◌, not, Option, List, [], ◌∷◌, ◌++◌, ◌==◌, or_else, forbidden, not_found,
  Action, ◌>>=◌, ◌>>◌, gets, modify, require, pure, throw_if, if◌then◌else◌, count_where, find_id,
  save, update_id,
}
use water_credits_backend.Users.{UserRole, super_admin, admin, User, User-entity}

-- ADMIN_ROLES.includes
abbrev pub is_admin_role : UserRole → Bool
is_admin_role super_admin = true
is_admin_role admin = true
is_admin_role _ = false

pub data EventType : Type 0 where
  kyc_status_changed role_changed user_deactivated user_restored : EventType

pub data Payload : Type 0 where
  kyc : (previous new : Bool) → Payload
  roles : (previous new : UserRole) → Payload
  role : UserRole → Payload
  no_payload : Payload

pub record AuditEvent : Type 0 where
  pub event_type : EventType
  pub actor : ℕ
  pub target : ℕ
  pub payload : Payload

pub record Db : Type 0 where
  pub users : List User
  pub audit_log : List AuditEvent

-- UpdateUserDto; a value may be null.
pub record UpdateUserDto : Type 0 where
  pub email : Option (Option String)
  pub display_name : Option (Option String)

abbrev pub find_by_id : ℕ → Action Db User
find_by_id id = λ db. require (find_id id db.users) not_found db

unfoldable pub save_user : User → Db → Db
save_user u db = record db { users = save u db.users }

unfoldable pub write_audit_event : (AuditEvent → Bool) → AuditEvent → Db → Db
write_audit_event inserts event db =
    if inserts event then record db { audit_log = db.audit_log ++ event ∷ [] } else db

unfoldable pub update_profile : ℕ → UpdateUserDto → Action Db User
update_profile id dto = do
  user ← find_by_id id
  let saved = record user {
    email = or_else dto.email user.email;
    display_name = or_else dto.display_name user.display_name;
  }
  modify (save_user saved)
  pure saved

unfoldable pub update_kyc_status : (AuditEvent → Bool) → ℕ → ℕ → Bool → Action Db User
update_kyc_status inserts actor target is_kyc_verified = do
  throw_if (actor == target) forbidden
  user ← find_by_id target
  let saved = record user { is_kyc_verified = is_kyc_verified }
  modify (save_user saved)
  modify (
      write_audit_event inserts (record {
        event_type = kyc_status_changed;
        actor = actor;
        target = target;
        payload = kyc user.is_kyc_verified is_kyc_verified;
      }))
  pure saved

-- An active admin other than the given user.
abbrev pub is_remaining_admin : ℕ → User → Bool
is_remaining_admin excluded u = is_admin_role u.role && u.is_active && not (u.id == excluded)

unfoldable pub assert_not_last_active_admin : ℕ → Action Db (Unit {0})
assert_not_last_active_admin excluded db =
    throw_if (count_where (is_remaining_admin excluded) db.users == 0) forbidden db

-- `if (test) await …`
abbrev pub run_if : Bool → Action Db (Unit {0}) → Action Db (Unit {0})
run_if true action = action
run_if false action = pure tt

unfoldable pub update_role : (AuditEvent → Bool) → ℕ → ℕ → UserRole → Action Db User
update_role inserts actor target new_role = do
  throw_if (actor == target) forbidden
  user ← find_by_id target
  run_if (is_admin_role user.role && not (is_admin_role new_role))
      (assert_not_last_active_admin target)
  let saved = record user { role = new_role }
  modify (save_user saved)
  modify (
      write_audit_event inserts (record {
        event_type = role_changed;
        actor = actor;
        target = target;
        payload = roles user.role new_role;
      }))
  pure saved

abbrev pub deactivate : User → User
deactivate u = record u { is_active = false }

unfoldable pub soft_delete : (AuditEvent → Bool) → ℕ → ℕ → Action Db (Unit {0})
soft_delete inserts actor id = do
  throw_if (actor == id) forbidden
  user ← find_by_id id
  run_if (is_admin_role user.role) (assert_not_last_active_admin id)
  affected ← gets (λ db. count_where (λ u. u.id == id) db.users)
  modify (λ db. record db { users = update_id id deactivate db.users })
  throw_if (affected == 0) not_found
  modify (
      write_audit_event inserts (record {
        event_type = user_deactivated;
        actor = actor;
        target = id;
        payload = role user.role;
      }))

unfoldable pub restore : (AuditEvent → Bool) → ℕ → ℕ → Action Db User
restore inserts actor id = do
  user ← find_by_id id
  let saved = record user { is_active = true }
  modify (save_user saved)
  modify (
      write_audit_event inserts
        (record { event_type = user_restored; actor = actor; target = id; payload = no_payload }))
  pure saved
