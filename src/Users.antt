-- ===== src/Users.antt =====
-- src/modules/users: the columns of entities/user.entity.ts, less the refresh token and the times, and
-- the query of users.service.ts that governance uses. The other operations are in Accounts.
pub mod Accounts
pub mod Admins
mod Tests
use Prim.Native.String.{String}
use water_credits_backend.Prelude.{ℕ, Bool, true, false, ◌&&◌, List, Option, count_where, Entity}

pub data UserRole : Type 0 where
  super_admin admin project_owner oracle verifier farmer : UserRole

abbrev pub is_super_admin : UserRole → Bool
is_super_admin super_admin = true
is_super_admin _ = false

-- Wallets are only compared, so they are numbers.
pub record User : Type 0 where
  pub id : ℕ
  pub wallet : ℕ
  pub email : Option String
  pub display_name : Option String
  pub role : UserRole
  pub is_active : Bool
  pub is_kyc_verified : Bool

instance abbrev pub User-entity : Entity User
User-entity = record { id_of = λ u. u.id }

-- UsersService.countEligible
unfoldable pub count_eligible : List User → ℕ
count_eligible users = count_where (λ u. u.is_active && u.is_kyc_verified) users
