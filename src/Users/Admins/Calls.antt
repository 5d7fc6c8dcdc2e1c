-- ===== src/Users/Admins/Calls.antt =====
-- Sequences of calls of UsersService.
use water_credits_backend.Prelude.{ℕ, Bool}
use water_credits_backend.Users.{UserRole}
use water_credits_backend.Users.Accounts.{
  AuditEvent, Db, UpdateUserDto, update_profile, update_kyc_status, update_role, soft_delete,
  restore,
}
use water_credits_backend.Users.Admins.{IsSound, soft_delete-IsSound}
use water_credits_backend.Users.Admins.Changes.{
  update_profile-IsSound, update_kyc_status-IsSound, update_role-IsSound, restore-IsSound,
}

-- One call, whatever its outcome.
pub data Call : Db → Db → Type 0 where
  profile : (id : ℕ) (dto : UpdateUserDto) (db : Db) → Call db (update_profile id dto db).1
  verification :
      (inserts : AuditEvent → Bool) (actor id : ℕ) (verified : Bool) (db : Db)
      → Call db (update_kyc_status inserts actor id verified db).1
  change_of_role :
      (inserts : AuditEvent → Bool) (actor id : ℕ) (new_role : UserRole) (db : Db)
      → Call db (update_role inserts actor id new_role db).1
  deactivation :
      (inserts : AuditEvent → Bool) (actor id : ℕ) (db : Db)
      → Call db (soft_delete inserts actor id db).1
  restoring :
      (inserts : AuditEvent → Bool) (actor id : ℕ) (db : Db)
      → Call db (restore inserts actor id db).1

pub data Calls (start : Db) : Db → Type 0 where
  here : Calls start start
  next : {db db' : Db} → Calls start db → Call db db' → Calls start db'

Call-IsSound : {db db' : Db} → Call db db' → IsSound db → IsSound db'
Call-IsSound (profile id dto db) h = update_profile-IsSound id dto db h
Call-IsSound (verification inserts actor id verified db) h =
    update_kyc_status-IsSound inserts actor id db verified h
Call-IsSound (change_of_role inserts actor id new_role db) h =
    update_role-IsSound inserts actor id db new_role h
Call-IsSound (deactivation inserts actor id db) h = soft_delete-IsSound inserts actor id db h
Call-IsSound (restoring inserts actor id db) h = restore-IsSound inserts actor id db h

-- Where user ids are unique and there is an active admin, no sequence of calls of UsersService, made
-- one after the other and whatever their outcomes, takes the last active admin away.
pub Calls-IsSound : {start db : Db} → Calls start db → IsSound start → IsSound db
Calls-IsSound here h = h
Calls-IsSound (next calls call) h = Call-IsSound call (Calls-IsSound calls h)
