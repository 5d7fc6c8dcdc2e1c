-- ===== src/Pagination/Tests/Unary.antt =====
-- A simple encoding of cursors, for the tests.
use Prim.Native.String.{String, [], ◌∷◌}
use Prim.Native.Char.{code, nul}
use package.text.Mathlib.Text.{◌==◌ as str_eq}
use package.text.Mathlib.TextEquality.{eq_iff}
use water_credits_backend.Prelude.{
  ℕ, zero, suc, ◌≡◌, refl, ap, false, inl, inr, Bool-cases, Option, none, some, ◌==◌, arith,
  if◌then◌else◌,
}
use water_credits_backend.Pagination.{CursorPayload, Codec}
use water_credits_backend.Pagination.Pages.{IsLossless}

abbrev marks : ℕ → String
marks zero = []
marks (suc n) = nul ∷ marks n

abbrev unary : ℕ → ℕ → String
unary zero id = "x" ∷ marks id
unary (suc v) id = nul ∷ unary v id

abbrev count : String → ℕ
count [] = 0
count (c ∷ s) = suc (count s)

abbrev next_value : Option CursorPayload → Option CursorPayload
next_value none = none
next_value (some c) = some (record c { v = suc c.v })

abbrev read : String → Option CursorPayload
read [] = none
read (c ∷ s) = if code c == 0 then next_value (read s) else some (record { v = 0; id = count s })

abbrev pub codec : Codec
codec = record { encode_cursor = λ c. unary c.v c.id; decode_cursor = read }

count-marks : (n : ℕ) → count (marks n) ≡ n
count-marks zero = refl
count-marks (suc n) = ap suc (count-marks n)

read-unary : (v id : ℕ) → read (unary v id) ≡ some (record { v = v; id = id })
read-unary zero id = rw (count-marks id) refl
read-unary (suc v) id = ap next_value (read-unary v id)

unary-filled : (v id : ℕ) → str_eq (unary v id) "" ≡ false
unary-filled v id = elim (Bool-cases (str_eq (unary v id) "")) [
  | inr filled ↦ filled
  | inl blank ↦ absurd (count-unary v id (ap count ((eq_iff (unary v id) "").0 blank)))
]
  where
    count-unary : (v id : ℕ) → ¬ (count (unary v id) ≡ 0)
    count-unary zero id h = omega arith
    count-unary (suc v) id h = omega arith

pub codec-IsLossless : IsLossless codec
codec-IsLossless = record {
  decoded = λ c. read-unary c.v c.id;
  filled = λ c. unary-filled c.v c.id;
}
