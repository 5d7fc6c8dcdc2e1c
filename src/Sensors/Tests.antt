-- ===== src/Sensors/Tests.antt =====
-- Runs of the sensor operations, and the theorems at concrete inputs.
use text.Mathlib.Text.{◌==◌ as str_eq}
use water_credits_backend.Prelude.{
  ℕ, pos, negsuc, ◌+◌, ◌≤◌, ◌≡◌, ◌≢◌, ◌↔◌, refl, ◌==◌, true, none, some, [], ◌∷◌, arith, ok, err,
  conflict, bad_request, find, select,
}
use water_credits_backend.Users.{admin}
use water_credits_backend.Sensors.Entities.{
  Parameters, ReadingBatch, SensorReading, SensorDevice, batch_window_ms, Db,
}
use water_credits_backend.Sensors.Access.{assert_project_access}
use water_credits_backend.Sensors.Batches.{resolve_batch, is_open_batch}
use water_credits_backend.Sensors.Batches.Open.{
  HasOneOpen, resolve_batch_total, resolve_batch-HasOneOpen,
}
use water_credits_backend.Sensors.Validation.{
  InRange, validate_timestamp, validate_parameters, validate_parameters_iff, build_reading_payload,
  verify_signature,
}
use water_credits_backend.Sensors.Ingestion.{
  CreateReadingDto, Env, same_reading, ingest_reading, store_reading,
}
use water_credits_backend.Sensors.Ingestion.Cases.{IsAccepted}
use water_credits_backend.Sensors.Ingestion.Counts.{HasCounts, ingest_reading-HasCounts}
use water_credits_backend.Sensors.Ingestion.Replay.{ingest_reading_sound, ingest_reading_replay}
use water_credits_backend.Sensors.Devices.{
  ApiKey, rotate_device_api_key, rotate_device_api_key_limited,
}

abbrev device : SensorDevice
device = record {
  id = 4;
  project_id = 2;
  device_id = "probe";
  manufacturer = "m";
  model = "x";
  public_key = "key";
  api_key_hash = none;
  is_active = true;
  last_reading_at = none;
}

abbrev no_parameters : Parameters
no_parameters = record {
  ph = some (pos 7000);
  turbidity = none;
  dissolved_oxygen = none;
  flow_rate = none;
  nitrogen = none;
  phosphorus = none;
  temperature = some (negsuc 9999);
}

abbrev start : Db
start = record {
  projects = [];
  devices = device ∷ [];
  readings = [];
  batches = [];
  queue = [];
  last_rotation_at = [];
}

abbrev env : Env
env = record {
  limits = record { max_age_seconds = none; future_offset_seconds = some 60 };
  signing = record { number_text = λ v. "n"; verify = λ k p s. some (str_eq s "good") };
  now = 1000000;
  reading_id = 30;
  batch_id = 20;
}

abbrev request : CreateReadingDto
request = record {
  device_id = "probe";
  timestamp_text = "1970-01-01T00:16:40Z";
  timestamp = 1000000;
  parameters = no_parameters;
  signature = "good";
}

run : Unit {0}
unfolding ingest_reading resolve_batch store_reading validate_timestamp validate_parameters
    verify_signature build_reading_payload rotate_device_api_key assert_project_access
run = tt

abbrev stored : SensorReading
stored = record {
  id = 30;
  device_id = 4;
  project_id = 2;
  timestamp = 1000000;
  parameters = no_parameters;
  signature = "good";
  is_verified = true;
  batch_id = 20;
}

ingest_tests :
    ((ingest_reading env request start).0 ≡ ok stored)
    × ((ingest_reading env (record request { signature = "bad" }) start) ≡ (err bad_request, start))
    × ((ingest_reading env (record request { timestamp = 1060001 }) start)
        ≡ (err bad_request, start))
unfolding run
ingest_tests = (refl, refl, refl)

resolve_batch_total_example :
    (b : ReadingBatch) × ((resolve_batch 20 1000000 2 start).0 ≡ ok b)
    × (find (is_open_batch 2) (resolve_batch 20 1000000 2 start).1.batches ≡ some b)
    × (is_open_batch 2 b ≡ true)
    × (1000000 ≤ b.created_at + batch_window_ms)
resolve_batch_total_example = resolve_batch_total 20 1000000 2 start

resolve_batch-HasOneOpen_example :
    HasOneOpen (resolve_batch 20 1000000 2 start).1.batches
    × ((q : ℕ)
        → q ≢ 2
        → select (λ b. b.project_id == q) (resolve_batch 20 1000000 2 start).1.batches
          ≡ select (λ b. b.project_id == q) start.batches)
resolve_batch-HasOneOpen_example = resolve_batch-HasOneOpen 20 1000000 2 start (λ p. omega arith)

validate_parameters_iff_example : (validate_parameters no_parameters ≡ ok tt) ↔ (
    InRange (some (pos 7000)) (pos 0) (some (pos 14000))
    × InRange none (pos 0) none
    × InRange none (pos 0) none
    × InRange none (pos 0) none
    × InRange none (pos 0) none
    × InRange none (pos 0) none
    × InRange (some (negsuc 9999)) (negsuc 49999) (some (pos 100000)))
validate_parameters_iff_example = validate_parameters_iff no_parameters

ingest_reading-HasCounts_example : HasCounts (ingest_reading env request start).1
ingest_reading-HasCounts_example = ingest_reading-HasCounts env request start refl tt

ingest_reading_sound_example :
    (a : IsAccepted env request start) × (find
        (same_reading a.device.id 1000000 "good")
        (ingest_reading env request start).1.readings
      ≡ some stored)
unfolding run
ingest_reading_sound_example = ingest_reading_sound env request start {r = stored} refl

ingest_reading_replay_example :
    let db' = (ingest_reading env request start).1 in
    let later = record env { now = 1010000; reading_id = 31; batch_id = 21 } in
    (stored ≡ stored)
    × ((ingest_reading later request db').1.readings ≡ db'.readings)
    × ((ingest_reading later request db').1.queue ≡ db'.queue)
unfolding run
ingest_reading_replay_example =
    ingest_reading_replay env request start
      (record env { now = 1010000; reading_id = 31; batch_id = 21 }) {r = stored} {r' = stored} refl
      refl

abbrev key : ApiKey
key = record { plaintext = "p"; hash = "h" }

rotate_device_api_key_limited_example :
    let db' = (rotate_device_api_key key 1000 4 1 (some admin) start).1 in
    rotate_device_api_key key 2000 4 1 (some admin) db' ≡ (err conflict, db')
unfolding run
rotate_device_api_key_limited_example =
    rotate_device_api_key_limited key key 1000 2000 4 1 (some admin) start {plaintext = "p"} refl
      (omega arith) (omega arith)
