-- ===== src/Sensors/Ingestion/Cases.antt =====
-- The two ways in which ingestReading ends: it is refused before it writes anything, or an accepted
-- reading goes to the open batch of its project.
use text.Mathlib.Text.{◌==◌ as str_eq}
use water_credits_backend.Prelude.{
  ℕ, ◌≡◌, true, none, some, [], ◌∷◌, ◌++◌, find, arith, Bool-cases, Option-cases, inl, inr, ◌⊎◌, ok,
  err, update_id, HttpError, bad_request, not_found, Result-cases,
}
use water_credits_backend.Sensors.Entities.{
  ReadingBatch, ReadingBatch-entity, SensorReading, SensorDevice, SensorDevice-entity, Db,
}
use water_credits_backend.Sensors.Batches.{resolve_batch}
use water_credits_backend.Sensors.Batches.Open.{resolve_batch_total}
use water_credits_backend.Sensors.Validation.{
  validate_timestamp, validate_parameters, build_reading_payload, verify_signature,
}
use water_credits_backend.Sensors.Ingestion.{
  CreateReadingDto, Env, new_reading, find_same, add_reading, announce, store_reading,
  ingest_reading,
}

module _ (now : ℕ) (r : SensorReading) (db : Db) where
  -- A duplicate writes nothing, and the stored reading is returned.
  pub store_reading-again :
      (old : SensorReading) → find_same r db ≡ some old → store_reading now r db ≡ (ok old, db)
  unfolding store_reading
  store_reading-again old found = ground arith

  pub store_reading-fresh :
      find_same r db ≡ none
      → store_reading now r db ≡ (
        ok r,
        announce now r (record db {
          readings = db.readings ++ r ∷ [];
          batches = update_id r.batch_id add_reading db.batches;
        }),
      )
  unfolding store_reading
  store_reading-fresh missing = ground arith

-- What an accepted reading has passed.
pub record IsAccepted (env : Env) (dto : CreateReadingDto) (db : Db) : Type 0 where
  pub device : SensorDevice
  pub known : find (λ d. str_eq d.device_id dto.device_id) db.devices ≡ some device
  pub timely : validate_timestamp env.limits env.now dto.timestamp ≡ ok tt
  pub in_range : validate_parameters dto.parameters ≡ ok tt
  pub signed :
      verify_signature env.signing
        (build_reading_payload env.signing dto.device_id dto.timestamp_text dto.parameters)
        dto.signature
        device.public_key
      ≡ true

module _ (env : Env) (dto : CreateReadingDto) (db : Db) where
  -- The database once the open batch is resolved, and the call that stores the reading.
  abbrev pub after_batch : SensorDevice → Db
  after_batch device = (resolve_batch env.batch_id env.now device.project_id db).1

  pub ingest_reading-cases :
      ((e : HttpError) × (ingest_reading env dto db ≡ (err e, db)))
      ⊎ ((a : IsAccepted env dto db) × (b : ReadingBatch) × ((resolve_batch env.batch_id env.now
              a.device.project_id db).0
            ≡ ok b)
          × (ingest_reading env dto db
              ≡ store_reading env.now (new_reading env a.device dto b) (after_batch a.device)))
  unfolding ingest_reading
  ingest_reading-cases =
      elim (Option-cases (find (λ d. str_eq d.device_id dto.device_id) db.devices)) [
        | inl missing ↦ inl (not_found, ground arith)
        | inr (device, known) ↦
            elim (Result-cases (validate_timestamp env.limits env.now dto.timestamp)) [
              | inl (e, refused) ↦ inl (e, ground arith)
              | inr (_, timely) ↦ elim (Result-cases (validate_parameters dto.parameters)) [
                | inl (e, refused) ↦ inl (e, ground arith)
                | inr (_, in_range) ↦
                    elim (Bool-cases (
                      verify_signature env.signing
                        (build_reading_payload env.signing dto.device_id dto.timestamp_text
                          dto.parameters)
                        dto.signature device.public_key)) [
                          | inr forged ↦ inl (bad_request, ground arith)
                          | inl signed ↦
                              let (b, resolved, _, _, _) =
                                resolve_batch_total env.batch_id env.now device.project_id db in
                              inr (
                                record {
                                  device = device;
                                  known = known;
                                  timely = timely;
                                  in_range = in_range;
                                  signed = signed;
                                },
                                b,
                                resolved,
                                ground arith,
                              )
                        ]
              ]
            ]
      ]
