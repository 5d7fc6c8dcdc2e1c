-- ===== src/Sensors/Entities.antt =====
-- The tables of src/modules/sensors/entities, and the state of SensorsService. Measured values are
-- counted in thousandths, the last digit of their columns; times are milliseconds.
use Prim.Native.String.{String}
use water_credits_backend.Prelude.{ℕ, ℤ, Bool, true, false, Option, List, Entity}
use water_credits_backend.Projects.Entities.{Project}

pub data BatchStatus : Type 0 where
  pending submitted confirmed failed : BatchStatus

abbrev pub is_pending : BatchStatus → Bool
is_pending pending = true
is_pending _ = false

abbrev pub is_submitted : BatchStatus → Bool
is_submitted submitted = true
is_submitted _ = false

-- BATCH_WINDOW_MS
abbrev pub batch_window_ms : ℕ
batch_window_ms = 900000

pub record ReadingBatch : Type 0 where
  pub id : ℕ
  pub project_id : ℕ
  pub status : BatchStatus
  pub reading_count : ℕ
  pub credits_generated : Option ℤ
  pub submitted_at : Option ℕ
  pub confirmed_at : Option ℕ
  pub created_at : ℕ

instance abbrev pub ReadingBatch-entity : Entity ReadingBatch
ReadingBatch-entity = record { id_of = λ b. b.id }

-- The seven measured parameters of a reading; `none` is null.
pub record Parameters : Type 0 where
  pub ph : Option ℤ
  pub turbidity : Option ℤ
  pub dissolved_oxygen : Option ℤ
  pub flow_rate : Option ℤ
  pub nitrogen : Option ℤ
  pub phosphorus : Option ℤ
  pub temperature : Option ℤ

pub record SensorReading : Type 0 where
  pub id : ℕ
  pub device_id : ℕ
  pub project_id : ℕ
  pub timestamp : ℕ
  pub parameters : Parameters
  pub signature : String
  pub is_verified : Bool
  pub batch_id : ℕ

instance abbrev pub SensorReading-entity : Entity SensorReading
SensorReading-entity = record { id_of = λ r. r.id }

-- `device_id` is the unique name that the device signs with.
pub record SensorDevice : Type 0 where
  pub id : ℕ
  pub project_id : ℕ
  pub device_id : String
  pub manufacturer : String
  pub model : String
  pub public_key : String
  pub api_key_hash : Option String
  pub is_active : Bool
  pub last_reading_at : Option ℕ

instance abbrev pub SensorDevice-entity : Entity SensorDevice
SensorDevice-entity = record { id_of = λ d. d.id }

-- A job of the sensor-ingestion queue.
pub record IngestionJob : Type 0 where
  pub reading_id : ℕ
  pub device_id : ℕ
  pub project_id : ℕ

-- The tables, the queue, and the map `lastRotationAt` of the service.
pub record Db : Type 0 where
  pub projects : List Project
  pub devices : List SensorDevice
  pub readings : List SensorReading
  pub batches : List ReadingBatch
  pub queue : List IngestionJob
  pub last_rotation_at : List (ℕ × ℕ)
