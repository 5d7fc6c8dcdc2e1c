-- ===== src/Oracle/Scheduler/Stranded.antt =====
-- The cycle after an ingestion: SensorsService.resolveBatch and findEligibleBatches together.
use water_credits_backend.Prelude.{ℕ, ◌≡◌, refl, false, List, [], ◌∷◌, arith, All, select}
use water_credits_backend.Sensors.Entities.{ReadingBatch, Db}
use water_credits_backend.Sensors.Batches.{resolve_batch}
use water_credits_backend.Sensors.Batches.Open.{open_and_stale, resolve_batch-fresh}
use water_credits_backend.Oracle.Scheduler.{is_eligible, find_eligible_batches}

none-eligible :
    (now p : ℕ) (batches : List ReadingBatch)
    → All (λ b. open_and_stale now p b ≡ false) batches
    → select (is_eligible now p) batches ≡ []
none-eligible now p [] h = refl
none-eligible now p (b ∷ rest) h = ground (arith, h.0, none-eligible now p rest h.1)

-- Once resolveBatch has run for a project, a cycle of the oracle at that time finds no batch of the
-- project to submit: the batches whose window is over are no longer pending.
pub resolve_batch-find_eligible_batches :
    (id now p : ℕ) (db : Db)
    → find_eligible_batches now p (resolve_batch id now p db).1.batches ≡ []
unfolding find_eligible_batches
resolve_batch-find_eligible_batches id now p db =
    rw (none-eligible now p (resolve_batch id now p db).1.batches (resolve_batch-fresh id now p db))
      refl
