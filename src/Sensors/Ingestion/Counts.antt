-- ===== src/Sensors/Ingestion/Counts.antt =====
-- Every batch counts its readings, whatever the outcome of an ingestion.
use water_credits_backend.Prelude.{
  ℕ, ◌≡◌, sym, Bool, List, [], ◌∷◌, ◌++◌, ◌==◌, is_some, find, arith, All, All-append, Bool-cases,
  Option-cases, inl, inr, count_where, count_where-append, update_id,
}
use water_credits_backend.Sensors.Entities.{ReadingBatch, ReadingBatch-entity, SensorReading, Db}
use water_credits_backend.Sensors.Batches.{
  is_open_batch, close_stale, new_batch, insert_pending, resolve_batch,
}
use water_credits_backend.Sensors.Batches.Open.{resolve_batch-batches}
use water_credits_backend.Sensors.Ingestion.Cases.{
  store_reading-again, store_reading-fresh, after_batch, ingest_reading-cases,
}
use water_credits_backend.Sensors.Ingestion.{
  CreateReadingDto, Env, new_reading, find_same, add_reading, announce, store_reading,
  ingest_reading,
}

abbrev pub in_batch : ℕ → SensorReading → Bool
in_batch id r = r.batch_id == id

abbrev pub IsCounted : List SensorReading → ReadingBatch → Type 0
IsCounted readings b = b.reading_count ≡ count_where (in_batch b.id) readings

-- The count of every batch is the number of stored readings that name it.
abbrev pub HasCounts : Db → Type 0
HasCounts db = All (IsCounted db.readings) db.batches

close_stale-IsCounted :
    (now p : ℕ) (readings : List SensorReading) (batches : List ReadingBatch)
    → All (IsCounted readings) batches
    → All (IsCounted readings) (close_stale now p batches)
unfolding close_stale
close_stale-IsCounted now p readings [] h = tt
close_stale-IsCounted now p readings (b ∷ batches) h =
    (ground arith, close_stale-IsCounted now p readings batches h.1)

insert_pending-IsCounted :
    (id now p : ℕ) (readings : List SensorReading) (batches : List ReadingBatch)
    → count_where (in_batch id) readings ≡ 0
    → All (IsCounted readings) batches
    → All (IsCounted readings) (insert_pending id now p batches)
unfolding insert_pending
insert_pending-IsCounted id now p readings batches new h =
    elim (Bool-cases (is_some (find (is_open_batch p) batches))) [
      | inl there ↦ rw there h
      | inr missing ↦
          rw missing
            (All-append (IsCounted readings) batches (new_batch id now p ∷ []) h (sym new, tt))
    ]

-- The new reading is counted by its own batch alone.
add_reading-IsCounted :
    (r : SensorReading) (readings : List SensorReading) (batches : List ReadingBatch)
    → All (IsCounted readings) batches
    → All (IsCounted (readings ++ r ∷ [])) (update_id r.batch_id add_reading batches)
add_reading-IsCounted r readings [] h = tt
add_reading-IsCounted r readings (b ∷ batches) h = (
  ground (arith, count_where-append (in_batch b.id) readings (r ∷ [])),
  add_reading-IsCounted r readings batches h.1,
)

store_reading-HasCounts :
    (now : ℕ) (r : SensorReading) (db : Db) → HasCounts db → HasCounts (store_reading now r db).1
unfolding announce
store_reading-HasCounts now r db h = elim (Option-cases (find_same r db)) [
  | inr (old, found) ↦ rw (store_reading-again now r db old found) h
  | inl missing ↦
      rw (store_reading-fresh now r db missing) (add_reading-IsCounted r db.readings db.batches h)
]

resolve_batch-readings :
    (id now p : ℕ) (db : Db) → (resolve_batch id now p db).1.readings ≡ db.readings
unfolding resolve_batch
resolve_batch-readings id now p db = ground arith

resolve_batch-HasCounts :
    (id now p : ℕ) (db : Db)
    → count_where (in_batch id) db.readings ≡ 0
    → HasCounts db
    → HasCounts (resolve_batch id now p db).1
resolve_batch-HasCounts id now p db new h =
    rw (resolve_batch-batches id now p db, resolve_batch-readings id now p db)
      (insert_pending-IsCounted id now p db.readings (close_stale now p db.batches) new
        (close_stale-IsCounted now p db.readings db.batches h))

-- However an ingestion ends, every batch's count is the number of stored readings that name it, if
-- that was so before and the id generated for a new batch is not in use.
pub ingest_reading-HasCounts :
    (env : Env) (dto : CreateReadingDto) (db : Db)
    → count_where (in_batch env.batch_id) db.readings ≡ 0
    → HasCounts db
    → HasCounts (ingest_reading env dto db).1
ingest_reading-HasCounts env dto db new h = elim (ingest_reading-cases env dto db) [
  | inl (e, refused) ↦ rw refused h
  | inr (a, b, _, stores) ↦ rw stores (
      store_reading-HasCounts env.now (new_reading env a.device dto b)
        (after_batch env dto db a.device)
        (resolve_batch-HasCounts env.batch_id env.now a.device.project_id db new h))
]
