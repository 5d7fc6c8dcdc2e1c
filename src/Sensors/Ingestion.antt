-- ===== src/Sensors/Ingestion.antt =====
-- SensorsService.ingestReading.
pub mod Cases
pub mod Counts
pub mod Replay
use Prim.Native.String.{String}
use text.Mathlib.Text.{◌==◌ as str_eq}
use water_credits_backend.Prelude.{
  ℕ, ◌+◌, Bool, true, false, not, ◌&&◌, Option, none, some, List, [], ◌∷◌, ◌++◌, ◌==◌, is_some,
  if◌then◌else◌, Result, HttpError, ok, err, bad_request, not_found, conflict, Action, ◌>>=◌, ◌>>◌,
  gets, modify, require, throw_if, pure, lift, find, update_id,
}
use water_credits_backend.Sensors.Entities.{
  Parameters, ReadingBatch, ReadingBatch-entity, SensorReading, SensorDevice, SensorDevice-entity,
  IngestionJob, Db,
}
use water_credits_backend.Sensors.Batches.{resolve_batch}
use water_credits_backend.Sensors.Validation.{
  TimeLimits, Signing, validate_timestamp, validate_parameters, build_reading_payload,
  verify_signature,
}

-- CreateReadingDto: the timestamp is an ISO text, which `new Date` reads as milliseconds.
pub record CreateReadingDto : Type 0 where
  pub device_id : String
  pub timestamp_text : String
  pub timestamp : ℕ
  pub parameters : Parameters
  pub signature : String

-- Configuration, signing, the clock, and the UUIDs that the database generates.
pub record Env : Type 0 where
  pub limits : TimeLimits
  pub signing : Signing
  pub now : ℕ
  pub reading_id : ℕ
  pub batch_id : ℕ

unfoldable pub get_device_by_device_id : String → Action Db SensorDevice
get_device_by_device_id device_id db =
    require (find (λ d. str_eq d.device_id device_id) db.devices) not_found db

abbrev pub new_reading : Env → SensorDevice → CreateReadingDto → ReadingBatch → SensorReading
new_reading env device dto batch = record {
  id = env.reading_id;
  device_id = device.id;
  project_id = device.project_id;
  timestamp = dto.timestamp;
  parameters = dto.parameters;
  signature = dto.signature;
  is_verified = true;
  batch_id = batch.id;
}

-- The replay key: UNIQUE (device_id, timestamp, signature).
abbrev pub same_reading : ℕ → ℕ → String → SensorReading → Bool
same_reading device_id timestamp signature r =
    r.device_id == device_id && r.timestamp == timestamp && str_eq r.signature signature

abbrev pub find_same : SensorReading → Db → Option SensorReading
find_same r db = find (same_reading r.device_id r.timestamp r.signature) db.readings

abbrev pub add_reading : ReadingBatch → ReadingBatch
add_reading b = record b { reading_count = b.reading_count + 1 }

-- The transaction: the reading is stored and its batch's count is raised, or the unique constraint
-- refuses and nothing is written.
unfoldable pub insert_reading : SensorReading → Action Db SensorReading
insert_reading r db = if is_some (find_same r db) then (err conflict, db) else (
  ok r,
  record db {
    readings = db.readings ++ r ∷ [];
    batches = update_id r.batch_id add_reading db.batches;
  },
)

-- `deviceRepo.update(…, { lastReadingAt })` and the job for the ingestion queue
unfoldable pub announce : ℕ → SensorReading → Db → Db
announce now r db = record db {
  devices = update_id r.device_id (λ d. record d { last_reading_at = some now }) db.devices;
  queue =
      db.queue
      ++ record { reading_id = r.id; device_id = r.device_id; project_id = r.project_id } ∷ [];
}

-- The handler of a unique violation returns the reading that is already there.
unfoldable pub store_reading : ℕ → SensorReading → Action Db SensorReading
unfolding insert_reading announce
store_reading now r db =
    let (outcome, db') = insert_reading r db in
    elim outcome [
      | ok saved ↦ (ok saved, announce now saved db')
      | err _ ↦ require (find_same r db') bad_request db'
    ]

unfoldable pub ingest_reading : Env → CreateReadingDto → Action Db SensorReading
unfolding get_device_by_device_id
ingest_reading env dto = do
  device ← get_device_by_device_id dto.device_id
  lift (validate_timestamp env.limits env.now dto.timestamp)
  lift (validate_parameters dto.parameters)
  throw_if
      (not (
        verify_signature env.signing
          (build_reading_payload env.signing dto.device_id dto.timestamp_text dto.parameters)
          dto.signature device.public_key))
      bad_request
  batch ← resolve_batch env.batch_id env.now device.project_id
  store_reading env.now (new_reading env device dto batch)
