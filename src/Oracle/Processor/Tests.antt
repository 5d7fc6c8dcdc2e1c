-- ===== src/Oracle/Processor/Tests.antt =====
-- Runs of the processor and of the credit score, and the theorems at concrete inputs.
use Prim.Native.String.{String}
use mathlib.Core.Option
use water_credits_backend.Prelude.{
  ℕ, false, find_id, ◌+◌, ◌*◌, ◌≤◌, ℤ, pos, negsuc, ◌≡◌, refl, true, none, some, Option, [], ◌∷◌,
  arith,
}
use water_credits_backend.Governance.Entities.{GovernanceConfig}
use water_credits_backend.Projects.Entities.{active, Project}
use water_credits_backend.Sensors.Entities as SensorTables
use water_credits_backend.Sensors.Entities.{Parameters, ReadingBatch, ReadingBatch-entity}
use water_credits_backend.Oracle.Entities.{
  confirmed, pending, Snapshot, OracleSubmission, OracleSubmission-entity, Db,
}
use water_credits_backend.Oracle.Aggregation.{to_readings_snapshot}
use water_credits_backend.Oracle.Submissions.{job_of}
use water_credits_backend.Oracle.Scoring.{calculate}
use water_credits_backend.Oracle.Scoring.Bounds.{calculate_bounds, calculate_mono}
use water_credits_backend.Oracle.Payload.{map_snapshot_to_payload, penalised}
use water_credits_backend.Oracle.Payload.Rounds.{map_snapshot_to_payload-to_readings_snapshot}
use water_credits_backend.Oracle.Processor.{Submitted, Surroundings, process_submission}
use water_credits_backend.Oracle.Reconciliation.{ReconcileEnv, detect_nonce_drift, reconcile}
use water_credits_backend.Oracle.Processor.Paths.Confirmed.{
  is_done, IsBacked, process_submission-IsBacked,
}

abbrev no_number : String → Option ℤ
no_number _ = none

abbrev config : GovernanceConfig
config = record {
  id = 1;
  protocol_fee_bps = 100;
  min_oracle_confirmations = 3;
  voting_period = 604800;
  timelock_period = 86400;
  quorum = 3;
  quorum_basis_points = 0;
  ph_min = some 650;
  ph_max = some 850;
  do_threshold = some 500;
  temp_penalty_delta = none;
  weight_volumetric = 5000;
  weight_nitrogen = 3000;
  weight_phosphorus = 2000;
  updated_by = none;
}

-- pH 7, flow 0.5, nitrogen 2 and phosphorus 1, and 4 of dissolved oxygen.
abbrev medians : Parameters
medians = record {
  ph = some (pos 14000);
  turbidity = none;
  dissolved_oxygen = some (pos 8000);
  flow_rate = some (pos 1000);
  nitrogen = some (pos 4000);
  phosphorus = some (pos 2000);
  temperature = none;
}

abbrev snapshot : Snapshot
snapshot = to_readings_snapshot (record { medians = medians; oracle_count = 4 })

abbrev cleaner : Snapshot
cleaner =
    to_readings_snapshot
      (record { medians = record medians { nitrogen = some (pos 3000) }; oracle_count = 4 })

-- 0.5 * 0.5 + 0.8 * 0.3 + 0.9 * 0.2 credits on one hectare.
scored : calculate no_number snapshot config 100 ≡ 67 * 200_000_000
unfolding calculate
scored = refl

-- 4 * 0.8, and halves are rounded up.
penalised_run :
    (penalised (pos 8000) ≡ pos 6400)
    × (penalised (pos 5) ≡ pos 4)
    × (penalised (negsuc 4) ≡ negsuc 3)
penalised_run = (refl, refl, refl)

calculate_bounds_example :
    calculate no_number snapshot config 100 ≤ 20000 * (5000 + 3000 + 2000) * 100
calculate_bounds_example = calculate_bounds no_number snapshot config 100

calculate_mono_example :
    calculate no_number snapshot config 100 ≤ calculate no_number cleaner config 100
calculate_mono_example = calculate_mono no_number cleaner snapshot config 100 (record {
  flow_rate = omega arith;
  nitrogen = omega arith;
  phosphorus = omega arith;
  ph = refl;
  temperature = omega arith;
})

map_snapshot_to_payload-to_readings_snapshot_example :
    map_snapshot_to_payload no_number snapshot ≡ some medians
map_snapshot_to_payload-to_readings_snapshot_example =
    map_snapshot_to_payload-to_readings_snapshot no_number
      (record { medians = medians; oracle_count = 4 })

abbrev project : Project
project = record {
  id = 5;
  owner_id = 1;
  name = "Wetland";
  description = none;
  latitude = pos 0;
  longitude = pos 0;
  methodology = "M1";
  status = active;
  area_hectares = 200;
  credit_token_address = none;
  contract_id = none;
  baseline_start_date = none;
  baseline_end_date = none;
  created_at = 0;
  deleted_at = none;
  is_active = true;
}

abbrev batch : ReadingBatch
batch = record {
  id = 8;
  project_id = 5;
  status = SensorTables.submitted;
  reading_count = 4;
  credits_generated = none;
  submitted_at = some 10;
  confirmed_at = none;
  created_at = 0;
}

abbrev submission : OracleSubmission
submission = record {
  id = 6;
  project_id = 5;
  batch_id = some 8;
  oracle_address = 9;
  nonce = 4;
  tx_hash = "";
  status = pending;
  readings_snapshot = snapshot;
  result = none;
  created_at = 10;
}

-- A later submission of the same oracle, for another project.
abbrev other_submission : OracleSubmission
other_submission = record submission {
  id = 7;
  project_id = 6;
  batch_id = none;
  nonce = 5;
  created_at = 20;
}

abbrev db : Db
db = record {
  projects = project ∷ [];
  readings = [];
  batches = batch ∷ [];
  submissions = submission ∷ [];
  queue = [];
}

abbrev tx : Submitted
tx = record { success = true; tx_hash = "hash"; ledger = some 3 }

-- The chain has the nonce 3, and takes what is sent.
abbrev env : Surroundings
env = record {
  now = 50;
  is_configured = true;
  on_chain_nonce = λ _. some 3;
  submit_reading = λ _ _ _. some tx;
  parse_float = no_number;
  config_at_start = some config;
  config_at_end = some config;
}

process_submission-IsBacked_example : IsBacked env (job_of submission) submission
unfolding process_submission
process_submission-IsBacked_example =
    process_submission-IsBacked env (job_of submission) db submission refl refl refl

-- The send fails at the nonce 4; then a submission for another project is re-sequenced to the same
-- nonce and taken, after which the first is marked as confirmed, although it was never taken.
abbrev failing : Surroundings
failing = record env { submit_reading = λ _ _ _. none }

abbrev moved_on : Surroundings
moved_on = record env { on_chain_nonce = λ _. some 4; submit_reading = λ _ _ _. none }

abbrev after_failure : Db
after_failure =
    (process_submission failing (job_of submission)
      (record db { submissions = submission ∷ other_submission ∷ [] })).1

mistaken :
    is_done 6
      (process_submission moved_on
        (job_of submission)
        (process_submission env (job_of other_submission) after_failure).1).1
    ≡ true
unfolding process_submission
mistaken = refl

-- The chain has the nonce 4: the submission with it was taken, and that with 6 was not.
abbrev drifted : Db
drifted = record db {
  submissions = submission ∷ record other_submission { status = confirmed; nonce = 6 } ∷ [];
}

abbrev reconcile_env : ReconcileEnv
reconcile_env = record {
  around = record env { on_chain_nonce = λ _. some 4 };
  nonce_again = some 4;
  takes = λ _. true;
}

abbrev nonce_of : ℕ → Db → Option ℕ
nonce_of id d = Option.map (λ s. s.nonce) (find_id id d.submissions)

reconciled_run :
    (is_done 6 (reconcile reconcile_env 9 drifted).1 ≡ true)
    × (nonce_of 7 (reconcile reconcile_env 9 drifted).1 ≡ some 5)
    × (is_done 7 (reconcile reconcile_env 9 drifted).1 ≡ false)
    × (detect_nonce_drift (some 4) 9 drifted.submissions ≡ some (negsuc 1))
unfolding reconcile detect_nonce_drift
reconciled_run = (refl, refl, refl, refl)
