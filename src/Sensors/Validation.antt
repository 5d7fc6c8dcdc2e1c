-- ===== src/Sensors/Validation.antt =====
-- The checks of SensorsService.ingestReading: validateTimestamp, validateParameters,
-- buildReadingPayload and verifySignature.
use Prim.Native.String.{String}
use Prim.Native.String
use water_credits_backend.Prelude.{
  ℕ, ◌+◌, ◌*◌, ◌≤◌, ◌≡◌, ◌↔◌, refl, ℤ, pos, negsuc, ◌≤ℤ◌, ltb_ℤ, Bool, false, ◌||◌, Option, none,
  some, List, [], ◌∷◌, ltb, arith, if◌then◌else◌, or_else, or_nonzero, Result, ok, err, bad_request,
  All, Bool-cases, inl, inr, Option-cases,
}
use water_credits_backend.Sensors.Entities.{Parameters}

-- The options `sensor.maxAgeSeconds` and `sensor.futureOffsetSeconds`; absent or 0 is the default.
pub record TimeLimits : Type 0 where
  pub max_age_seconds : Option ℕ
  pub future_offset_seconds : Option ℕ

abbrev pub max_age : TimeLimits → ℕ
max_age l = or_nonzero l.max_age_seconds 86400

abbrev pub future_offset : TimeLimits → ℕ
future_offset l = or_nonzero l.future_offset_seconds 300

-- `timestamp < now - maxAge`, with the subtraction moved across, since it may pass below 0.
unfoldable pub validate_timestamp : TimeLimits → ℕ → ℕ → Result (Unit {0})
validate_timestamp limits now timestamp =
    if ltb (timestamp + max_age limits * 1000) now
    then err bad_request
    else if ltb (now + future_offset limits * 1000) timestamp
    then err bad_request
    else ok tt

-- A range of PARAMETER_RANGES in thousandths; an upper end of Infinity is `none`.
pub record ParameterRange : Type 0 where
  pub lowest : ℤ
  pub highest : Option ℤ

abbrev at_least_zero : ParameterRange
at_least_zero = record { lowest = pos 0; highest = none }

-- `Object.entries(params)` with the range of each key, in order.
abbrev pub ranged : Parameters → List (Option ℤ × ParameterRange)
ranged p =
    (p.ph, record { lowest = pos 0; highest = some (pos 14000) })
    ∷ (p.turbidity, at_least_zero)
    ∷ (p.dissolved_oxygen, at_least_zero)
    ∷ (p.flow_rate, at_least_zero)
    ∷ (p.nitrogen, at_least_zero)
    ∷ (p.phosphorus, at_least_zero)
    ∷ (p.temperature, record { lowest = negsuc 49999; highest = some (pos 100000) })
    ∷ []

abbrev pub exceeds : ℤ → Option ℤ → Bool
exceeds v none = false
exceeds v (some highest) = ltb_ℤ highest v

abbrev pub out_of_range : Option ℤ → ParameterRange → Bool
out_of_range none range = false
out_of_range (some v) range = ltb_ℤ v range.lowest || exceeds v range.highest

-- The loop throws at the first value out of its range.
unfoldable pub validate_entries : List (Option ℤ × ParameterRange) → Result (Unit {0})
validate_entries [] = ok tt
validate_entries ((v, range) ∷ rest) =
    if out_of_range v range then err bad_request else validate_entries rest

unfoldable pub validate_parameters : Parameters → Result (Unit {0})
unfolding validate_entries
validate_parameters p = validate_entries (ranged p)

-- What the service uses of JavaScript and of the Stellar SDK: the decimal text of a number, and the
-- check of a signature by a public key, where `none` is an exception.
pub record Signing : Type 0 where
  pub number_text : ℤ → String
  pub verify : String → String → String → Option Bool

abbrev pub value_text : Signing → Option ℤ → String
value_text s none = ""
value_text s (some v) = s.number_text v

unfoldable pub join : List String → String
join [] = ""
join (x ∷ []) = x
join (x ∷ y ∷ rest) = String.◌++◌ x (String.◌++◌ "|" (join (y ∷ rest)))

unfoldable pub build_reading_payload : Signing → String → String → Parameters → String
unfolding join
build_reading_payload s device_id timestamp p = join (
    device_id
    ∷ timestamp
    ∷ value_text s p.ph
    ∷ value_text s p.turbidity
    ∷ value_text s p.dissolved_oxygen
    ∷ value_text s p.flow_rate
    ∷ value_text s p.nitrogen
    ∷ value_text s p.phosphorus
    ∷ value_text s p.temperature
    ∷ [])

-- verifySignature: an exception counts as a wrong signature.
unfoldable pub verify_signature : Signing → String → String → String → Bool
verify_signature s payload signature public_key =
    or_else (s.verify public_key payload signature) false

-- The accepted window around `now`: its ends included.
pub validate_timestamp_iff :
    (limits : TimeLimits) (now timestamp : ℕ)
    → (validate_timestamp limits now timestamp ≡ ok tt) ↔ (
        (now ≤ timestamp + max_age limits * 1000) × (timestamp ≤ now + future_offset limits * 1000))
unfolding validate_timestamp
validate_timestamp_iff limits now timestamp = ground arith

-- Each parameter is absent or in its range.
abbrev pub InRange : Option ℤ → ℤ → Option ℤ → Type 0
InRange none lowest highest = Unit
InRange (some v) lowest none = lowest ≤ℤ v
InRange (some v) lowest (some highest) = (lowest ≤ℤ v) × (v ≤ℤ highest)

out_of_range_iff :
    (v : Option ℤ) (r : ParameterRange) → (out_of_range v r ≡ false) ↔ InRange v r.lowest r.highest
out_of_range_iff none r = (λ h. tt, λ h. refl)
out_of_range_iff (some v) r = elim (Option-cases r.highest) [
  | inl unbounded ↦ rw unbounded (ground arith)
  | inr (top, bounded) ↦ rw bounded (ground arith)
]

validate_entries_iff :
    (entries : List (Option ℤ × ParameterRange))
    → (validate_entries entries ≡ ok tt) ↔ All (λ e. InRange e.0 e.1.lowest e.1.highest) entries
unfolding validate_entries
validate_entries_iff [] = (λ h. tt, λ h. refl)
validate_entries_iff ((v, r) ∷ rest) = elim (Bool-cases (out_of_range v r)) [
  | inl out ↦ (λ h. cc (rw out at h), λ (inside, _). cc (out, (out_of_range_iff v r).1 inside))
  | inr fine ↦ rw fine (
    λ h. ((out_of_range_iff v r).0 fine, (validate_entries_iff rest).0 h),
    λ h. (validate_entries_iff rest).1 h.1,
  )
]

-- A reading passes exactly if its pH is in [0, 14], its temperature in [-50, 100], and the other
-- five values are not negative; absent values pass.
pub validate_parameters_iff :
    (p : Parameters)
    → (validate_parameters p ≡ ok tt) ↔ (
        InRange p.ph (pos 0) (some (pos 14000))
        × InRange p.turbidity (pos 0) none
        × InRange p.dissolved_oxygen (pos 0) none
        × InRange p.flow_rate (pos 0) none
        × InRange p.nitrogen (pos 0) none
        × InRange p.phosphorus (pos 0) none
        × InRange p.temperature (negsuc 49999) (some (pos 100000)))
unfolding validate_parameters
validate_parameters_iff p =
    let iff = validate_entries_iff (ranged p) in
    (
      λ passed. let (a, (b, (c, (d, (e, (f, (g, _))))))) = iff.0 passed in (a, b, c, d, e, f, g),
      λ (a, b, c, d, e, f, g). iff.1 (a, (b, (c, (d, (e, (f, (g, tt))))))),
    )
