-- ===== src/Sensors/Batches.antt =====
-- SensorsService.resolveBatch: the open batch of a project. The conditional UPDATE, the INSERT … ON
-- CONFLICT DO NOTHING and the SELECT are the three statements of the code.
pub mod Open
use water_credits_backend.Prelude.{
  ℕ, ◌+◌, Bool, true, false, ◌&&◌, Option, none, some, List, [], ◌∷◌, ◌++◌, ltb, ◌==◌,
  if◌then◌else◌, is_some, find, update_where, Result, ok, err, failure, Action, ◌>>=◌, ◌>>◌, modify,
  gets, require,
}
use water_credits_backend.Sensors.Entities.{
  BatchStatus, pending, submitted, is_pending, batch_window_ms, ReadingBatch, Db,
}

abbrev pub is_open_batch : ℕ → ReadingBatch → Bool
is_open_batch project_id b = b.project_id == project_id && is_pending b.status

-- `created_at < now - BATCH_WINDOW_MS`
abbrev pub is_stale : ℕ → ReadingBatch → Bool
is_stale now b = ltb (b.created_at + batch_window_ms) now

abbrev pub close_batch : ReadingBatch → ReadingBatch
close_batch b = record b { status = submitted }

unfoldable pub close_stale : ℕ → ℕ → List ReadingBatch → List ReadingBatch
close_stale now project_id =
    update_where (λ b. is_open_batch project_id b && is_stale now b) close_batch

abbrev pub new_batch : ℕ → ℕ → ℕ → ReadingBatch
new_batch id now project_id = record {
  id = id;
  project_id = project_id;
  status = pending;
  reading_count = 0;
  credits_generated = none;
  submitted_at = none;
  confirmed_at = none;
  created_at = now;
}

-- The partial unique index on (project_id) WHERE status = 'pending' makes a second INSERT a no-op.
-- The INSERT without ON CONFLICT that runs under NODE_ENV=test is left out.
unfoldable pub insert_pending : ℕ → ℕ → ℕ → List ReadingBatch → List ReadingBatch
insert_pending id now project_id batches =
    if is_some (find (is_open_batch project_id) batches)
    then batches
    else batches ++ new_batch id now project_id ∷ []

unfoldable pub resolve_batch : ℕ → ℕ → ℕ → Action Db ReadingBatch
unfolding close_stale insert_pending
resolve_batch id now project_id = do
  modify (λ db. record db { batches = close_stale now project_id db.batches })
  modify (λ db. record db { batches = insert_pending id now project_id db.batches })
  row ← gets (λ db. find (is_open_batch project_id) db.batches)
  require row failure
