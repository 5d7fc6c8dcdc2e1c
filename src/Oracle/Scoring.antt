-- ===== src/Oracle/Scoring.antt =====
-- CreditScoringService.calculate, in exact arithmetic. Readings are in half thousandths, thresholds
-- in hundredths, weights in ten-thousandths and areas in hundredths of a hectare; reductions are in
-- 1/20000, scores and penalties in 1/(2·10^8), and credits in 1/(2·10^10).
pub mod Bounds
use Prim.Native.String.{String}
use package.text.Mathlib.Text.{◌==◌ as str_eq}
use water_credits_backend.Prelude.{
  ℕ, ◌+◌, ◌-◌, ◌*◌, min, ℤ, pos, pos_part, ◌-ℤ◌, ltb_ℤ, Option, none, some, List, [], ◌∷◌, or_else,
  if◌then◌else◌,
}
use water_credits_backend.Governance.Entities.{GovernanceConfig}
use water_credits_backend.Oracle.Entities.{SnapshotValue, number, text, null, other, Snapshot}

-- `snapshot[key]`, where `none` is undefined.
abbrev pub lookup : String → Snapshot → Option SnapshotValue
lookup key [] = none
lookup key ((k, v) ∷ rest) = if str_eq k key then some v else lookup key rest

-- `a ?? b`
abbrev pub if_nullish : Option SnapshotValue → Option SnapshotValue → Option SnapshotValue
if_nullish none b = b
if_nullish (some null) b = b
if_nullish a b = a

-- The number of a value, or 0. `parse_float` is JavaScript's, and `none` is its NaN.
abbrev pub number_or_zero : (parse_float : String → Option ℤ) → Option SnapshotValue → ℤ
number_or_zero parse_float (some (number v)) = v
number_or_zero parse_float (some (text s)) = or_else (parse_float s) (pos 0)
number_or_zero parse_float _ = pos 0

-- `clamp(value, 0, most)`
abbrev pub clamp : ℕ → ℤ → ℕ
clamp most v = min most (pos_part v)

-- clamp(1 - value / 10, 0, 1)
abbrev pub reduction : ℤ → ℕ
reduction v = clamp 20000 (pos 20000 -ℤ v)

-- The readings that the score is made of.
pub record Scored : Type 0 where
  pub flow_rate : ℤ
  pub nitrogen : ℤ
  pub phosphorus : ℤ
  pub ph : ℤ
  pub temperature : ℤ

abbrev pub scored_of : (String → Option ℤ) → Snapshot → Scored
scored_of parse_float snapshot = record {
  flow_rate =
      number_or_zero parse_float
        (if_nullish (lookup "flowRate" snapshot) (lookup "flow_rate" snapshot));
  nitrogen = number_or_zero parse_float (lookup "nitrogen" snapshot);
  phosphorus = number_or_zero parse_float (lookup "phosphorus" snapshot);
  ph = number_or_zero parse_float (lookup "ph" snapshot);
  temperature = number_or_zero parse_float (lookup "temperature" snapshot);
}

unfoldable pub score : GovernanceConfig → Scored → ℕ
score config r =
    clamp 2000 r.flow_rate * 10 * config.weight_volumetric
    + reduction r.nitrogen * config.weight_nitrogen
    + reduction r.phosphorus * config.weight_phosphorus

-- Half thousandths above a threshold of hundredths, or 0 where there is none.
abbrev pub above : Option ℕ → ℤ → ℕ
above none v = 0
above (some most) v = if ltb_ℤ (pos (most * 20)) v then pos_part (v -ℤ pos (most * 20)) else 0

abbrev pub ph_deviation : GovernanceConfig → ℤ → ℕ
ph_deviation config ph = elim config.ph_min [
  | none ↦ above config.ph_max ph
  | some least ↦
      if ltb_ℤ ph (pos (least * 20))
      then pos_part (pos (least * 20) -ℤ ph)
      else above config.ph_max ph
]

unfoldable pub penalty : GovernanceConfig → Scored → ℕ
penalty config r =
    (ph_deviation config r.ph + above config.temp_penalty_delta r.temperature) * 100000

-- BigNumber.maximum(0, (score - penalty) * areaHectares)
unfoldable pub credits_of : GovernanceConfig → Scored → ℕ → ℕ
unfolding score penalty
credits_of config r area = (score config r - penalty config r) * area

unfoldable pub calculate : (String → Option ℤ) → Snapshot → GovernanceConfig → ℕ → ℕ
unfolding credits_of
calculate parse_float snapshot config area = credits_of config (scored_of parse_float snapshot) area
