-- ===== src/Oracle/Aggregation.antt =====
-- OracleService.aggregateReadingsForBatch and OracleSchedulerService.toReadingsSnapshot.
use Prim.Native.String.{String}
use water_credits_backend.Prelude.{
  ℕ, ◌*◌, pos, ℤ, Bool, ◌&&◌, Option, none, some, List, [], ◌∷◌, ◌==◌, if◌then◌else◌, length,
  select, ok, err, not_found, Action,
}
use water_credits_backend.Sensors.Entities.{Parameters, SensorReading}
use water_credits_backend.Oracle.Entities.{Snapshot, number, Env, Db}

-- WHERE project_id = … AND is_verified = true AND batch_id = …
abbrev pub is_aggregated : ℕ → ℕ → SensorReading → Bool
is_aggregated project_id batch_id r =
    r.project_id == project_id && r.is_verified && r.batch_id == batch_id

-- The values of a column that are not null, which are those that percentile_cont reads.
abbrev pub column : (Parameters → Option ℤ) → List SensorReading → List ℤ
column f [] = []
column f (r ∷ rest) = elim (f r.parameters) [ none ↦ column f rest | some v ↦ v ∷ column f rest ]

unfoldable pub medians_of : Env → List SensorReading → Parameters
medians_of env readings = record {
  ph = env.percentile_cont (column (λ p. p.ph) readings);
  turbidity = env.percentile_cont (column (λ p. p.turbidity) readings);
  dissolved_oxygen = env.percentile_cont (column (λ p. p.dissolved_oxygen) readings);
  flow_rate = env.percentile_cont (column (λ p. p.flow_rate) readings);
  nitrogen = env.percentile_cont (column (λ p. p.nitrogen) readings);
  phosphorus = env.percentile_cont (column (λ p. p.phosphorus) readings);
  temperature = env.percentile_cont (column (λ p. p.temperature) readings);
}

-- Less the times of the first and the last reading, which the scheduler does not use.
pub record AggregatedReading : Type 0 where
  pub medians : Parameters
  pub oracle_count : ℕ

unfoldable pub aggregate_readings_for_batch : Env → ℕ → ℕ → Action Db AggregatedReading
aggregate_readings_for_batch env project_id batch_id db =
    let readings = select (is_aggregated project_id batch_id) db.readings in
    if length readings == 0
    then (err not_found, db)
    else (ok (record { medians = medians_of env readings; oracle_count = length readings }), db)

-- One key of the snapshot, or none where the median is null.
abbrev pub add_field : String → Option ℤ → Snapshot → Snapshot
add_field key none rest = rest
add_field key (some v) rest = (key, number v) ∷ rest

-- The count is a number of the snapshot too.
abbrev pub to_readings_snapshot : AggregatedReading → Snapshot
to_readings_snapshot a =
    ("oracleCount", number (pos (a.oracle_count * 2000)))
    ∷ add_field "ph" a.medians.ph (
        add_field "turbidity" a.medians.turbidity (
          add_field "dissolvedOxygen" a.medians.dissolved_oxygen (
            add_field "flowRate" a.medians.flow_rate (
              add_field "nitrogen" a.medians.nitrogen (
                add_field "phosphorus" a.medians.phosphorus
                  (add_field "temperature" a.medians.temperature []))))))
