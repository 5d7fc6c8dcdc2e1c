-- ===== src/Governance/Config.antt =====
-- The configuration singleton: GovernanceService.getConfig, and the writing of proposed values by
-- `Object.assign`.
use water_credits_backend.Prelude.{
  ℕ, Bool, true, ◌&&◌, not, Option, none, some, or_else, is_some, ltb, ok, internal_error, Action,
  require,
}
use water_credits_backend.Governance.Entities.{GovernanceConfig, ConfigValues, Db}

-- The row that getConfig inserts; the columns that the INSERT leaves out take their defaults.
abbrev pub default_config : GovernanceConfig
default_config = record {
  id = 1;
  protocol_fee_bps = 100;
  min_oracle_confirmations = 3;
  voting_period = 604800;
  timelock_period = 86400;
  quorum = 3;
  quorum_basis_points = 2000;
  ph_min = none;
  ph_max = none;
  do_threshold = none;
  temp_penalty_delta = none;
  weight_volumetric = 5000;
  weight_nitrogen = 3000;
  weight_phosphorus = 2000;
  updated_by = none;
}

-- INSERT … ON CONFLICT DO NOTHING
unfoldable pub insert_or_ignore :
    GovernanceConfig → Option GovernanceConfig → Option GovernanceConfig
insert_or_ignore row none = some row
insert_or_ignore row (some old) = some old

unfoldable pub get_config : Action Db GovernanceConfig
unfolding insert_or_ignore
get_config db = elim db.config [
  | some existing ↦ (ok existing, db)
  | none ↦
      let db' : Db = record db { config = insert_or_ignore default_config db.config } in
      require db'.config internal_error db'
]

-- `Object.keys(values).length === 0`, after undefined fields are dropped
unfoldable pub is_empty : ConfigValues → Bool
is_empty v =
    not (is_some v.protocol_fee_bps)
    && not (is_some v.min_oracle_confirmations)
    && not (is_some v.voting_period)
    && not (is_some v.timelock_period)
    && not (is_some v.quorum)
    && not (is_some v.quorum_basis_points)
    && not (is_some v.ph_min)
    && not (is_some v.ph_max)
    && not (is_some v.do_threshold)
    && not (is_some v.temp_penalty_delta)
    && not (is_some v.weight_volumetric)
    && not (is_some v.weight_nitrogen)
    && not (is_some v.weight_phosphorus)

-- A nullable column keeps its value where the update has none.
abbrev keep : Option ℕ → Option ℕ → Option ℕ
keep none old = old
keep (some new) old = some new

-- `Object.assign(config, values, { updatedBy })`
unfoldable pub assign : GovernanceConfig → ConfigValues → ℕ → GovernanceConfig
assign c v actor = record {
  id = c.id;
  protocol_fee_bps = or_else v.protocol_fee_bps c.protocol_fee_bps;
  min_oracle_confirmations = or_else v.min_oracle_confirmations c.min_oracle_confirmations;
  voting_period = or_else v.voting_period c.voting_period;
  timelock_period = or_else v.timelock_period c.timelock_period;
  quorum = or_else v.quorum c.quorum;
  quorum_basis_points = or_else v.quorum_basis_points c.quorum_basis_points;
  ph_min = keep v.ph_min c.ph_min;
  ph_max = keep v.ph_max c.ph_max;
  do_threshold = keep v.do_threshold c.do_threshold;
  temp_penalty_delta = keep v.temp_penalty_delta c.temp_penalty_delta;
  weight_volumetric = or_else v.weight_volumetric c.weight_volumetric;
  weight_nitrogen = or_else v.weight_nitrogen c.weight_nitrogen;
  weight_phosphorus = or_else v.weight_phosphorus c.weight_phosphorus;
  updated_by = some actor;
}

-- Whether a written value stays below the bound of its column.
abbrev is_below : ℕ → Option ℕ → Bool
is_below bound none = true
is_below bound (some n) = ltb n bound

-- Whether PostgreSQL takes the values that an UPDATE of governance_config writes: the columns are
-- int4, a smallint that a CHECK keeps at most 10000, numeric(5,2) and numeric(5,4).
unfoldable pub fits_columns : ConfigValues → Bool
fits_columns v =
    is_below 2147483648 v.protocol_fee_bps
    && is_below 2147483648 v.min_oracle_confirmations
    && is_below 2147483648 v.voting_period
    && is_below 2147483648 v.timelock_period
    && is_below 2147483648 v.quorum
    && is_below 10001 v.quorum_basis_points
    && is_below 100000 v.ph_min
    && is_below 100000 v.ph_max
    && is_below 100000 v.do_threshold
    && is_below 100000 v.temp_penalty_delta
    && is_below 100000 v.weight_volumetric
    && is_below 100000 v.weight_nitrogen
    && is_below 100000 v.weight_phosphorus
