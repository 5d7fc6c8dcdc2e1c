-- ===== src/Oracle/Payload/Rounds.antt =====
-- The scheduler's snapshot of a batch, read back by the processor.
use Prim.Native.String.{String}
use package.text.Mathlib.Text.{◌==◌ as str_eq}
use water_credits_backend.Prelude.{
  ◌≡◌, refl, ap, ℤ, false, Option, none, some, List, [], ◌∷◌, Bool-cases, inl, inr, if◌then◌else◌,
}
use water_credits_backend.Sensors.Entities.{Parameters}
use water_credits_backend.Oracle.Entities.{Snapshot}
use water_credits_backend.Oracle.Aggregation.{AggregatedReading, add_field, to_readings_snapshot}
use water_credits_backend.Oracle.Scoring.{lookup}
use water_credits_backend.Oracle.Payload.{
  coerce, ◌<|>◌, has_any_value, payload_of, map_snapshot_to_payload,
}

-- The keys of a snapshot with the medians.
abbrev fields_of : Parameters → List (String × Option ℤ)
fields_of p =
    ("ph", p.ph)
    ∷ ("turbidity", p.turbidity)
    ∷ ("dissolvedOxygen", p.dissolved_oxygen)
    ∷ ("flowRate", p.flow_rate)
    ∷ ("nitrogen", p.nitrogen)
    ∷ ("phosphorus", p.phosphorus)
    ∷ ("temperature", p.temperature)
    ∷ []

abbrev add_all : List (String × Option ℤ) → Snapshot
add_all [] = []
add_all ((k, o) ∷ rest) = add_field k o (add_all rest)

abbrev find_value : String → List (String × Option ℤ) → Option ℤ
find_value key [] = none
find_value key ((k, o) ∷ rest) =
    if str_eq k key then o <|> find_value key rest else find_value key rest

or_none : (o : Option ℤ) → o <|> none ≡ o
or_none none = refl
or_none (some v) = refl

module _ (parse_float : String → Option ℤ) where
  abbrev value : String → Snapshot → Option ℤ
  value key snapshot = coerce parse_float (lookup key snapshot)

  value-add_all :
      (key : String) (fields : List (String × Option ℤ))
      → value key (add_all fields) ≡ find_value key fields
  value-add_all key [] = refl
  value-add_all key ((k, none) ∷ rest) = elim (Bool-cases (str_eq k key)) [
    | inl same ↦ rw same (value-add_all key rest)
    | inr different ↦ rw different (value-add_all key rest)
  ]
  value-add_all key ((k, some v) ∷ rest) = elim (Bool-cases (str_eq k key)) [
    | inl same ↦ rw same refl
    | inr different ↦ rw different (value-add_all key rest)
  ]

  module _ (a : AggregatedReading) where
    value-snapshot :
        (key : String)
        → str_eq "oracleCount" key ≡ false
        → value key (to_readings_snapshot a) ≡ find_value key (fields_of a.medians)
    value-snapshot key h = rw h (value-add_all key (fields_of a.medians))

    -- A key is read first, and then those of other spellings, which the snapshot does not have.
    payload-medians : payload_of parse_float (to_readings_snapshot a) ≡ a.medians
    payload-medians =
        rw
          (
            value-snapshot "ph" refl,
            value-snapshot "turbidity" refl,
            value-snapshot "turbidity_ntu" refl,
            value-snapshot "dissolvedOxygen" refl,
            value-snapshot "dissolved_oxygen" refl,
            value-snapshot "dissolved_oxygen_mgl" refl,
            value-snapshot "flowRate" refl,
            value-snapshot "flow_rate" refl,
            value-snapshot "flow_rate_cms" refl,
            value-snapshot "nitrogen" refl,
            value-snapshot "total_nitrogen" refl,
            value-snapshot "total_nitrogen_mgl" refl,
            value-snapshot "phosphorus" refl,
            value-snapshot "total_phosphorus" refl,
            value-snapshot "total_phosphorus_mgl" refl,
            value-snapshot "temperature" refl,
            value-snapshot "temperature_c" refl,
            value-snapshot "temp" refl,
          )
          (simp or_none refl)

    -- The payload that the processor makes of the scheduler's snapshot of a batch holds the seven
    -- medians of the batch; it throws exactly where all of them are null.
    pub map_snapshot_to_payload-to_readings_snapshot :
        map_snapshot_to_payload parse_float (to_readings_snapshot a)
        ≡ (if has_any_value a.medians then some a.medians else none)
    unfolding map_snapshot_to_payload
    map_snapshot_to_payload-to_readings_snapshot =
        ap (λ p. if has_any_value p then some p else none) payload-medians
