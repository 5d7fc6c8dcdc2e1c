-- ===== src/Oracle/Scoring/Bounds.antt =====
-- What a score can be: at most the weights, more for a better water quality.
use Prim.Native.String.{String}
use native.Mathlib.Nat.{mul-le-mul_right}
use water_credits_backend.Prelude.{
  ℕ, ◌+◌, ◌*◌, ◌≤◌, ◌≡◌, ap, ℤ, pos, negsuc, ◌-ℤ◌, ◌≤ℤ◌, Option, none, some, arith,
}
use water_credits_backend.Governance.Entities.{GovernanceConfig}
use water_credits_backend.Oracle.Entities.{Snapshot}
use water_credits_backend.Oracle.Scoring.{
  clamp, reduction, Scored, scored_of, score, above, ph_deviation, penalty, credits_of, calculate,
}

clamp_le : (most : ℕ) (v : ℤ) → clamp most v ≤ most
clamp_le most v = omega arith

score_le :
    (config : GovernanceConfig) (r : Scored)
    → score config r
      ≤ 20000 * (config.weight_volumetric + config.weight_nitrogen + config.weight_phosphorus)
unfolding score
score_le config r =
    let v =
      mul-le-mul_right config.weight_volumetric (mul-le-mul_right 10 (clamp_le 2000 r.flow_rate)) in
    let n = mul-le-mul_right config.weight_nitrogen (clamp_le 20000 (pos 20000 -ℤ r.nitrogen)) in
    let p =
      mul-le-mul_right config.weight_phosphorus (clamp_le 20000 (pos 20000 -ℤ r.phosphorus)) in
    omega (arith, v, n, p)

-- Calculated credits are at most the area times the sum of the weights, in the units of the result:
-- one credit for each hectare where the weights add up to one.
pub calculate_bounds :
    (parse_float : String → Option ℤ) (snapshot : Snapshot) (config : GovernanceConfig) (area : ℕ)
    → calculate parse_float snapshot config area
      ≤ 20000
        * (config.weight_volumetric + config.weight_nitrogen + config.weight_phosphorus)
        * area
unfolding calculate credits_of
calculate_bounds parse_float snapshot config area =
    let r = scored_of parse_float snapshot in
    mul-le-mul_right area (omega (arith, score_le config r))

clamp_mono : (most : ℕ) (v w : ℤ) → v ≤ℤ w → clamp most v ≤ clamp most w
clamp_mono most (pos n) (pos m) h = omega arith
clamp_mono most (pos n) (negsuc m) h = omega arith
clamp_mono most (negsuc n) w h = omega arith

reduction_anti : (v w : ℤ) → v ≤ℤ w → reduction w ≤ reduction v
reduction_anti (pos n) (pos m) h = ground arith
reduction_anti (pos n) (negsuc m) h = ground arith
reduction_anti (negsuc n) (pos m) h = ground arith
reduction_anti (negsuc n) (negsuc m) h = ground arith

above_mono : (t : Option ℕ) (v w : ℤ) → v ≤ℤ w → above t v ≤ above t w
above_mono none v w h = omega arith
above_mono (some t) (pos n) (pos m) h = ground arith
above_mono (some t) (pos n) (negsuc m) h = ground arith
above_mono (some t) (negsuc n) (pos m) h = ground arith
above_mono (some t) (negsuc n) (negsuc m) h = ground arith

-- Readings that are better: more flow, less nitrogen and phosphorus, the same pH, no warmer.
pub record IsBetter (r s : Scored) : Type 0 where
  pub flow_rate : s.flow_rate ≤ℤ r.flow_rate
  pub nitrogen : r.nitrogen ≤ℤ s.nitrogen
  pub phosphorus : r.phosphorus ≤ℤ s.phosphorus
  pub ph : r.ph ≡ s.ph
  pub temperature : r.temperature ≤ℤ s.temperature

score_mono :
    (config : GovernanceConfig) (r s : Scored) → IsBetter r s → score config s ≤ score config r
unfolding score
score_mono config r s better =
    let v =
      mul-le-mul_right config.weight_volumetric
        (mul-le-mul_right 10 (clamp_mono 2000 s.flow_rate r.flow_rate better.flow_rate)) in
    let n =
      mul-le-mul_right config.weight_nitrogen
        (reduction_anti r.nitrogen s.nitrogen better.nitrogen) in
    let p =
      mul-le-mul_right config.weight_phosphorus
        (reduction_anti r.phosphorus s.phosphorus better.phosphorus) in
    omega (arith, v, n, p)

penalty_anti :
    (config : GovernanceConfig) (r s : Scored) → IsBetter r s → penalty config r ≤ penalty config s
unfolding penalty
penalty_anti config r s better =
    let warm =
      above_mono config.temp_penalty_delta r.temperature s.temperature better.temperature in
    omega (arith, warm, ap (ph_deviation config) better.ph)

-- Where one snapshot has better readings than another (more flow, less nitrogen and phosphorus, the
-- same pH, no higher a temperature), it earns no fewer credits.
pub calculate_mono :
    (parse_float : String → Option ℤ) (better worse : Snapshot) (config : GovernanceConfig)
    (area : ℕ)
    → IsBetter (scored_of parse_float better) (scored_of parse_float worse)
    → calculate parse_float worse config area ≤ calculate parse_float better config area
unfolding calculate credits_of
calculate_mono parse_float better worse config area h =
    let r = scored_of parse_float better in
    let s = scored_of parse_float worse in
    mul-le-mul_right area (omega (arith, score_mono config r s h, penalty_anti config r s h))
