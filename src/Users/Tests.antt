-- ===== src/Users/Tests.antt =====
-- Runs of the operations on accounts, and the theorem at a concrete input.
use water_credits_backend.Prelude.{
  ℕ, ◌+◌, ◌≡◌, refl, Bool, true, none, [], ◌∷◌, arith, err, forbidden,
}
use water_credits_backend.Users.{UserRole, super_admin, admin, farmer, User, User-entity}
use water_credits_backend.Users.Accounts.{
  AuditEvent, Db, save_user, write_audit_event, assert_not_last_active_admin, update_role,
  soft_delete,
}
use water_credits_backend.Users.Admins.{IsSound}
use water_credits_backend.Users.Admins.Calls.{
  here, next, change_of_role, deactivation, Calls-IsSound,
}

abbrev user : ℕ → UserRole → User
user id role = record {
  id = id;
  wallet = 10 + id;
  email = none;
  display_name = none;
  role = role;
  is_active = true;
  is_kyc_verified = true;
}

abbrev inserts : AuditEvent → Bool
inserts _ = true

abbrev db : Db
db = record { users = user 1 admin ∷ user 2 super_admin ∷ user 3 farmer ∷ []; audit_log = [] }

-- User 2 demotes user 1, and user 3 then may not deactivate user 2.
abbrev demoted : Db
demoted = (update_role inserts 2 1 farmer db).1

last_admin_tests : (soft_delete inserts 3 2 demoted).0 ≡ err forbidden
unfolding update_role soft_delete assert_not_last_active_admin save_user write_audit_event
last_admin_tests = refl

Calls-IsSound_example : IsSound (soft_delete inserts 3 2 demoted).1
Calls-IsSound_example =
    Calls-IsSound
      (next (next here (change_of_role inserts 2 1 farmer db)) (deactivation inserts 3 2 demoted))
      (record { unique = (refl, (refl, (refl, tt))); admins = omega arith })
