-- ===== src/Credits/Entities.antt =====
-- The table of retirements (entities/retirement.entity.ts). Amounts are counted in millionths, the
-- last digit of their column.
use Prim.Native.String.{String}
use text.Mathlib.Text.{◌==◌ as str_eq, starts_with}
use water_credits_backend.Prelude.{ℕ, Bool, ◌||◌, Option, Entity}

pub record Retirement : Type 0 where
  pub id : ℕ
  pub user_id : ℕ
  pub project_id : ℕ
  pub amount : ℕ
  pub purpose : String
  pub metadata_uri : Option String
  pub tx_hash : String
  pub certificate_ipfs_uri : Option String
  pub retired_at : ℕ
  pub created_at : ℕ

instance abbrev pub Retirement-entity : Entity Retirement
Retirement-entity = record { id_of = λ r. r.id }

-- No hash yet, or the placeholder `tx-pending-…`.
abbrev pub is_placeholder : String → Bool
is_placeholder hash = str_eq hash "" || starts_with hash "tx-pending-"
