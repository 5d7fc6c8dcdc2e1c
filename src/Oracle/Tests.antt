-- ===== src/Oracle/Tests.antt =====
-- Runs of the oracle's operations, and the theorems at concrete inputs.
use mathlib.Core.Option
use water_credits_backend.Prelude.{
  pos, ℕ, ℤ, ◌≡◌, refl, true, false, none, some, Option, List, [], ◌∷◌, ok, find_id, if◌then◌else◌,
  length,
}
use water_credits_backend.Sensors.Entities as SensorTables
use water_credits_backend.Sensors.Entities.{
  pending, batch_window_ms, Parameters, ReadingBatch, ReadingBatch-entity, SensorReading,
}
use water_credits_backend.Sensors.Batches.{resolve_batch}
use water_credits_backend.Oracle.Entities.{TriggerSubmissionDto, Env, Db}
use water_credits_backend.Oracle.Submissions.{insert_submission, add_job, trigger_submission}
use water_credits_backend.Oracle.Submissions.Nonces.{
  HasUniqueNonces, trigger_submission-HasUniqueNonces, inserted,
}
use water_credits_backend.Oracle.Payload.{times}
use water_credits_backend.Oracle.Aggregation.{aggregate_readings_for_batch}
use water_credits_backend.Oracle.Scheduler.{
  is_eligible, find_eligible_batches, claim, release, submit_claimed, submit_batch, submit_all,
  submit_project_batches,
}
use water_credits_backend.Oracle.Scheduler.Claims.{
  IsConsistent, IsCounted, submit_project_batches-IsConsistent,
}
use water_credits_backend.Oracle.Scheduler.Attempts.{IsSteady, attempted}
use water_credits_backend.Oracle.Scheduler.Settled.{submit_project_batches-find_id}
use water_credits_backend.Oracle.Scheduler.Stranded.{resolve_batch-find_eligible_batches}

abbrev first_value : List ℤ → Option ℤ
first_value [] = none
first_value (v ∷ _) = some (times 2 v)

abbrev env : Env
env = record {
  now = 2000000;
  generated_id = λ submissions. length submissions;
  commits = λ _. true;
  takes = λ _. true;
  percentile_cont = first_value;
  shutting_down = λ _. false;
  claims = λ _. true;
  releases = λ _. true;
}

env-IsSteady : IsSteady env
env-IsSteady = record {
  accepts = λ _. true;
  commits = λ _. refl;
  taken = true;
  takes = λ _. refl;
  runs = λ _. refl;
  claims = λ _. refl;
  releases = λ _. refl;
}

-- Batch 1 has a verified reading, batch 2 has none, and batch 3 is still open.
abbrev batch : ℕ → ℕ → ReadingBatch
batch id created_at = record {
  id = id;
  project_id = 5;
  status = pending;
  reading_count = 1;
  credits_generated = none;
  submitted_at = none;
  confirmed_at = none;
  created_at = created_at;
}

abbrev reading : SensorReading
reading = record {
  id = 40;
  device_id = 6;
  project_id = 5;
  timestamp = 900;
  parameters = record {
    ph = some (pos 7000);
    turbidity = none;
    dissolved_oxygen = none;
    flow_rate = none;
    nitrogen = none;
    phosphorus = none;
    temperature = none;
  };
  signature = "signed";
  is_verified = true;
  batch_id = 1;
}

abbrev db : Db
db = record {
  projects = [];
  readings = reading ∷ [];
  batches = batch 1 1000 ∷ batch 2 2000 ∷ batch 3 1900000 ∷ [];
  submissions = [];
  queue = [];
}

abbrev request : TriggerSubmissionDto
request = record { project_id = 5; oracle_address = 9; batch_id = some 1; readings = none }

abbrev after_trigger : Db
after_trigger = record db { submissions = inserted env request db ∷ [] }

abbrev sensor_db : SensorTables.Db
sensor_db = record {
  projects = [];
  devices = [];
  readings = reading ∷ [];
  batches = db.batches;
  queue = [];
  last_rotation_at = [];
}

abbrev after_cycle : Db
after_cycle = (submit_project_batches env 5 9 db).1

cycle_tests :
    ((submit_project_batches env 5 9 db).0 ≡ ok (record { submitted = 1; failed = 1 }))
    × (length after_cycle.queue ≡ 1)
unfolding submit_project_batches submit_all submit_batch find_eligible_batches claim release
    submit_claimed aggregate_readings_for_batch trigger_submission insert_submission add_job
cycle_tests = (refl, refl)

trigger_submission-HasUniqueNonces_example :
    HasUniqueNonces (trigger_submission env request after_trigger).1.submissions
trigger_submission-HasUniqueNonces_example =
    trigger_submission-HasUniqueNonces env request after_trigger (refl, tt)

submit_project_batches-IsConsistent_example :
    let (r, db') = submit_project_batches env 5 9 db in
    IsConsistent db' × IsCounted r db.queue db'.queue
submit_project_batches-IsConsistent_example =
    submit_project_batches-IsConsistent env 5 9 (λ _. refl) db
      (record { unique = tt; backed = (refl, (refl, (refl, tt))) })

submit_project_batches-find_id_example :
    find_id 1 after_cycle.batches
    ≡ Option.map
        (λ b. if is_eligible env.now 5 b then attempted env 5 9 env-IsSteady db.readings b else b)
        (find_id 1 db.batches)
submit_project_batches-find_id_example =
    submit_project_batches-find_id env 5 9 env-IsSteady db (refl, (refl, (refl, tt))) 1

resolve_batch-find_eligible_batches_example :
    find_eligible_batches 2000000 5 (resolve_batch 8 2000000 5 sensor_db).1.batches ≡ []
resolve_batch-find_eligible_batches_example =
    resolve_batch-find_eligible_batches 8 2000000 5 sensor_db
