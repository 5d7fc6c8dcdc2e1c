-- ===== src/Oracle/Payload.antt =====
-- oracle-processor.ts: what is sent to the contract, from the snapshot of a submission. Numbers are
-- in half thousandths, as in the snapshot.
pub mod Rounds
use Prim.Native.String.{String}
use water_credits_backend.Prelude.{
  ℕ, suc, zero, ◌+◌, ◌*◌, ◌/◌, ℤ, pos, negsuc, ltb_ℤ, Bool, ◌||◌, Option, none, some, is_some,
  or_else, if◌then◌else◌,
}
use water_credits_backend.Governance.Entities.{GovernanceConfig}
use water_credits_backend.Sensors.Entities.{Parameters}
use water_credits_backend.Oracle.Entities.{
  SnapshotValue, number, text, null, other, Snapshot, ConfigSnapshot,
}
use water_credits_backend.Oracle.Scoring.{lookup}

-- The finite number of a value. `parse_float` is JavaScript's, where `none` is NaN or infinite.
abbrev pub coerce : (parse_float : String → Option ℤ) → Option SnapshotValue → Option ℤ
coerce parse_float (some (number v)) = some v
coerce parse_float (some (text s)) = parse_float s
coerce parse_float _ = none

-- `a ?? b`, of numbers
infixr 40 ◌<|>◌
abbrev pub ◌<|>◌ : Option ℤ → Option ℤ → Option ℤ
none <|> b = b
some v <|> b = some v

abbrev pub has_any_value : Parameters → Bool
has_any_value p =
    is_some p.ph
    || is_some p.turbidity
    || is_some p.dissolved_oxygen
    || is_some p.flow_rate
    || is_some p.nitrogen
    || is_some p.phosphorus
    || is_some p.temperature

abbrev pub payload_of : (String → Option ℤ) → Snapshot → Parameters
payload_of parse_float snapshot =
    let value : String → Option ℤ = λ key. coerce parse_float (lookup key snapshot) in
    record {
      ph = value "ph";
      turbidity = value "turbidity" <|> value "turbidity_ntu";
      dissolved_oxygen =
          value "dissolvedOxygen" <|> value "dissolved_oxygen" <|> value "dissolved_oxygen_mgl";
      flow_rate = value "flowRate" <|> value "flow_rate" <|> value "flow_rate_cms";
      nitrogen = value "nitrogen" <|> value "total_nitrogen" <|> value "total_nitrogen_mgl";
      phosphorus = value "phosphorus" <|> value "total_phosphorus" <|> value "total_phosphorus_mgl";
      temperature = value "temperature" <|> value "temperature_c" <|> value "temp";
    }

-- `none` is the exception for a snapshot without numbers.
unfoldable pub map_snapshot_to_payload : (String → Option ℤ) → Snapshot → Option Parameters
map_snapshot_to_payload parse_float snapshot =
    let payload = payload_of parse_float snapshot in
    if has_any_value payload then some payload else none

unfoldable pub load_live_config_snapshot : Option GovernanceConfig → ConfigSnapshot
load_live_config_snapshot none = record {
  protocol_fee_bps = 100;
  min_oracle_confirmations = 3;
  ph_min = none;
  ph_max = none;
  do_threshold = none;
  temp_penalty_delta = none;
  weight_volumetric = 5000;
  weight_nitrogen = 3000;
  weight_phosphorus = 2000;
}
load_live_config_snapshot (some c) = record {
  protocol_fee_bps = c.protocol_fee_bps;
  min_oracle_confirmations = c.min_oracle_confirmations;
  ph_min = c.ph_min;
  ph_max = c.ph_max;
  do_threshold = c.do_threshold;
  temp_penalty_delta = c.temp_penalty_delta;
  weight_volumetric = c.weight_volumetric;
  weight_nitrogen = c.weight_nitrogen;
  weight_phosphorus = c.weight_phosphorus;
}

abbrev pub minus : ℕ → ℤ
minus zero = pos 0
minus (suc n) = negsuc n

abbrev pub times : ℕ → ℤ → ℤ
times k (pos n) = pos (k * n)
times k (negsuc n) = minus (k * suc n)

-- Math.round(v / 10), which rounds halves up.
abbrev pub round_tenth : ℤ → ℤ
round_tenth (pos n) = pos ((n + 5) / 10)
round_tenth (negsuc n) = minus ((n + 5) / 10)

-- Math.round(v * 0.8 * 1000) / 1000
abbrev pub penalised : ℤ → ℤ
penalised v = times 2 (round_tenth (times 4 v))

abbrev pub penalise_below : Option ℕ → Option ℤ → Option ℤ
penalise_below none value = value
penalise_below (some threshold) none = none
penalise_below (some threshold) (some v) =
    if ltb_ℤ v (pos (threshold * 20)) then some (penalised v) else some v

unfoldable pub score_reading : ConfigSnapshot → Parameters → Parameters
score_reading config reading = record reading {
  dissolved_oxygen = penalise_below config.do_threshold reading.dissolved_oxygen;
}
