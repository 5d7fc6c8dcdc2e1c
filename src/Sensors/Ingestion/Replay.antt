-- ===== src/Sensors/Ingestion/Replay.antt =====
-- Replay protection of ingestReading.
use text.Mathlib.Text.{◌==◌ as str_eq}
use text.Mathlib.TextPositions.{eq_refl}
use water_credits_backend.Prelude.{
  ℕ, ◌≡◌, refl, sym, ap, Bool, true, some, ==_refl, find, arith, Option-cases, inl, inr, ok, ◌∙◌,
  find-append_new, find-update_id_back,
}
use water_credits_backend.Sensors.Entities.{
  ReadingBatch, SensorReading, SensorDevice, SensorDevice-entity, Db,
}
use water_credits_backend.Sensors.Batches.{resolve_batch}
use water_credits_backend.Sensors.Ingestion.{
  CreateReadingDto, Env, new_reading, find_same, same_reading, announce, store_reading,
  ingest_reading,
}
use water_credits_backend.Sensors.Ingestion.Cases.{
  IsAccepted, store_reading-again, store_reading-fresh, after_batch, ingest_reading-cases,
}

-- The replay key of a reading is its own.
same_reading_self : (r : SensorReading) → same_reading r.device_id r.timestamp r.signature r ≡ true
same_reading_self r = rw (==_refl r.device_id, ==_refl r.timestamp, eq_refl r.signature)

-- However it ends, storing a reading leaves the row that it returns under the replay key.
store_reading-stored :
    (now : ℕ) (r saved : SensorReading) (db : Db)
    → (store_reading now r db).0 ≡ ok saved
    → find_same r (store_reading now r db).1 ≡ some saved
unfolding announce
store_reading-stored now r saved db done = elim (Option-cases (find_same r db)) [
  | inr (old, found) ↦ ground (arith, store_reading-again now r db old found)
  | inl missing ↦ ground (
    arith,
    store_reading-fresh now r db missing,
    find-append_new (same_reading r.device_id r.timestamp r.signature) db.readings r missing
        (same_reading_self r),
  )
]

abbrev named : CreateReadingDto → SensorDevice → Bool
named dto d = str_eq d.device_id dto.device_id

-- Storing a reading changes no device's id or name.
store_reading-device :
    (now : ℕ) (r : SensorReading) (dto : CreateReadingDto) (d d' : SensorDevice) (db : Db)
    → find (named dto) db.devices ≡ some d
    → find (named dto) (store_reading now r db).1.devices ≡ some d'
    → d'.id ≡ d.id
unfolding announce
store_reading-device now r dto d d' db known after = elim (Option-cases (find_same r db)) [
  | inr (old, found) ↦ ground (arith, store_reading-again now r db old found)
  | inl missing ↦
      let (b, before, same) =
        find-update_id_back (named dto) r.device_id (λ x. record x { last_reading_at = some now })
          db.devices d' (λ x. refl) (λ x. refl)
          (rw (store_reading-fresh now r db missing) at after) in
      ground (arith, same)
]

resolve_batch-kept :
    (id now p : ℕ) (db : Db)
    → ((resolve_batch id now p db).1.readings ≡ db.readings)
      × ((resolve_batch id now p db).1.devices ≡ db.devices)
      × ((resolve_batch id now p db).1.queue ≡ db.queue)
unfolding resolve_batch
resolve_batch-kept id now p db = (ground arith, ground arith, ground arith)

module _ (env : Env) (dto : CreateReadingDto) (db : Db) where
  -- A successful ingestion was of a known device, timely, in range and signed; the reading that it
  -- returns is stored, under the replay key of the request.
  pub ingest_reading_sound :
      {r : SensorReading}
      → (ingest_reading env dto db).0 ≡ ok r
      → (a : IsAccepted env dto db) × (find
            (same_reading a.device.id dto.timestamp dto.signature)
            (ingest_reading env dto db).1.readings
          ≡ some r)
  ingest_reading_sound {r} done = elim (ingest_reading-cases env dto db) [
    | inl (e, refused) ↦ cc refused
    | inr (a, b, _, stores) ↦ (
      a,
      rw stores (
          store_reading-stored env.now (new_reading env a.device dto b) r
            (after_batch env dto db a.device) (ap (λ o. o.0) (sym stores) ∙ done)),
    )
  ]

  replayed :
      (env' : Env) (a : IsAccepted env dto db) (b b' : ReadingBatch) (r : SensorReading)
      → ingest_reading env dto db
        ≡ store_reading env.now (new_reading env a.device dto b) (after_batch env dto db a.device)
      → (ingest_reading env dto db).0 ≡ ok r
      → let db' = (ingest_reading env dto db).1 in
        (a' : IsAccepted env' dto db')
        → find_same (new_reading env' a'.device dto b') (after_batch env' dto db' a'.device)
          ≡ some r
  replayed env' a b b' r stores first a' =
      let kept = resolve_batch-kept env.batch_id env.now a.device.project_id db in
      let db' = (ingest_reading env dto db).1 in
      let kept' = resolve_batch-kept env'.batch_id env'.now a'.device.project_id db' in
      let same : a'.device.id ≡ a.device.id =
        store_reading-device env.now (new_reading env a.device dto b) dto a.device a'.device
          (after_batch env dto db a.device) (ap (find (named dto)) kept.1 ∙ a.known)
          (ap (λ o. find (named dto) o.1.devices) (sym stores) ∙ a'.known) in
      let stored =
        store_reading-stored env.now (new_reading env a.device dto b) r
          (after_batch env dto db a.device) (ap (λ o. o.0) (sym stores) ∙ first) in
      let here : find (same_reading a.device.id dto.timestamp dto.signature) db'.readings ≡ some r =
        ap (λ o. find (same_reading a.device.id dto.timestamp dto.signature) o.1.readings) stores
        ∙ stored in
      ap (find (same_reading a'.device.id dto.timestamp dto.signature)) kept'.0
      ∙ (ap (λ i. find (same_reading i dto.timestamp dto.signature) db'.readings) same ∙ here)

  -- A replay is idempotent: once an ingestion has returned a reading, any later ingestion of the
  -- same request that is accepted returns that reading, stores no second one and queues no job.
  pub ingest_reading_replay :
      (env' : Env) {r r' : SensorReading}
      → (ingest_reading env dto db).0 ≡ ok r
      → let db' = (ingest_reading env dto db).1 in
        (ingest_reading env' dto db').0 ≡ ok r'
        → (r' ≡ r)
          × ((ingest_reading env' dto db').1.readings ≡ db'.readings)
          × ((ingest_reading env' dto db').1.queue ≡ db'.queue)
  ingest_reading_replay env' {r} {r'} first second = elim (ingest_reading-cases env dto db) [
    | inl (e, refused) ↦ cc refused
    | inr (a, b, _, stores) ↦ elim (ingest_reading-cases env' dto (ingest_reading env dto db).1) [
      | inl (e, refused) ↦ cc refused
      | inr (a', b', _, stores') ↦
          let db' = (ingest_reading env dto db).1 in
          let again =
            store_reading-again env'.now (new_reading env' a'.device dto b')
              (after_batch env' dto db' a'.device) r (replayed env' a b b' r stores first a') in
          let kept' = resolve_batch-kept env'.batch_id env'.now a'.device.project_id db' in
          let whole = stores' ∙ again in
          (
            cc (ap (λ o. o.0) whole),
            ap (λ o. o.1.readings) whole ∙ kept'.0,
            ap (λ o. o.1.queue) whole ∙ kept'.2,
          )
    ]
  ]
