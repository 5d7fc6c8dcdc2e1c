-- ===== src/Pagination/Pages.antt =====
-- A client that follows the cursors.
use Prim.Native.String.{String}
use package.text.Mathlib.Text.{◌==◌ as str_eq}
use mathlib.Core.Option
use mathlib.Core.List.{append_assoc}
use water_credits_backend.Prelude.{
  ℕ, zero, suc, ◌+◌, ◌≤◌, ◌<◌, ◌≡◌, refl, sym, ap, ◌∙◌, true, false, Option, none, some, List, [],
  ◌∷◌, ◌++◌, ltb, arith, Bool-cases, inl, inr, select, length, take, drop, ok, err,
}
use water_credits_backend.Pagination.{
  SortDirection, CursorPayload, Codec, last, PaginatedList, apply_ordering, is_after, keyset_page,
  paginate_keyset,
}
use water_credits_backend.Pagination.Order.{
  HasDistinctIds, apply_ordering-IsSorted, apply_ordering-select, select-is_after,
  length-apply_ordering,
}

module _ {A : Type 0} where
  length-take_more : (n : ℕ) (rows : List A) → n < length rows → length (take (suc n) rows) ≡ n + 1
  length-take_more zero [] h = absurd (omega (arith, h))
  length-take_more zero (x ∷ xs) h = refl
  length-take_more (suc n) [] h = absurd (omega (arith, h))
  length-take_more (suc n) (x ∷ xs) h = ground (arith, length-take_more n xs)

  take_all : (n : ℕ) (rows : List A) → length rows ≤ n → take n rows ≡ rows
  take_all zero [] h = refl
  take_all zero (x ∷ xs) h = absurd (omega (arith, h))
  take_all (suc n) [] h = refl
  take_all (suc n) (x ∷ xs) h = ap (λ ys. x ∷ ys) (take_all n xs (omega (arith, h)))

  take-take_more : (n : ℕ) (rows : List A) → take n (take (suc n) rows) ≡ take n rows
  take-take_more zero rows = refl
  take-take_more (suc n) [] = refl
  take-take_more (suc n) (x ∷ xs) = ap (λ ys. x ∷ ys) (take-take_more n xs)

  length-drop : (n : ℕ) (rows : List A) → n ≤ length rows → length (drop n rows) + n ≡ length rows
  length-drop zero rows h = omega arith
  length-drop (suc n) [] h = absurd (omega (arith, h))
  length-drop (suc n) (x ∷ xs) h = ground (arith, length-drop n xs)

  take-drop : (n : ℕ) (rows : List A) → take n rows ++ drop n rows ≡ rows
  take-drop zero rows = refl
  take-drop (suc n) [] = refl
  take-drop (suc n) (x ∷ xs) = ap (λ ys. x ∷ ys) (take-drop n xs)

  -- The last of the first rows, with what stands before and behind it.
  pub record IsSplit (n : ℕ) (rows : List A) : Type 0 where
    pub before : List A
    pub edge : A
    pub is_last : last (take n rows) ≡ some edge
    pub whole : rows ≡ before ++ edge ∷ drop n rows

  split : (n : ℕ) (rows : List A) → n < length rows → IsSplit (suc n) rows
  split n [] h = absurd (omega (arith, h))
  split zero (x ∷ xs) h = record { before = []; edge = x; is_last = refl; whole = refl }
  split (suc n) (x ∷ xs) h =
      let rest = split n xs (omega (arith, h)) in
      record {
        before = x ∷ rest.before;
        edge = rest.edge;
        is_last = rw rest.is_last refl;
        whole = ap (λ ys. x ∷ ys) rest.whole;
      }

  IsSplit-take : (n : ℕ) (rows : List A) → 0 < n → n < length rows → IsSplit n rows
  IsSplit-take zero rows positive h = absurd (omega (arith, positive))
  IsSplit-take (suc n) rows positive h = split n rows (omega (arith, h))

-- Decoding gives back what was encoded, into a text that is not empty.
pub record IsLossless (codec : Codec) : Type 0 where
  pub decoded : (c : CursorPayload) → codec.decode_cursor (codec.encode_cursor c) ≡ some c
  pub filled : (c : CursorPayload) → str_eq (codec.encode_cursor c) "" ≡ false

module _ {A : Type 0} (codec : Codec) (d : SortDirection) (key : A → CursorPayload) where
  -- The pages from a cursor on, one after the other, until one has no next cursor. `none` means that
  -- a page was refused or that there are more pages than the fuel.
  abbrev pub follow : ℕ → Option String → ℕ → List A → Option (List A)
  follow zero cursor limit rows = none
  follow (suc fuel) cursor limit rows = elim (paginate_keyset codec d key cursor limit rows) [
    | err e ↦ none
    | ok page ↦ elim page.next_cursor [
      | none ↦ some page.page_data
      | some next ↦ Option.map (λ rest. page.page_data ++ rest) (follow fuel (some next) limit rows)
    ]
  ]

  module _ (limit : ℕ) (rest : List A) where
    abbrev page : PaginatedList A
    page = keyset_page codec d key limit (take (suc limit) rest)

    last_page : length rest ≤ limit → (page.page_data ≡ rest) × (page.next_cursor ≡ none)
    last_page few =
        let all : take (suc limit) rest ≡ rest = take_all (suc limit) rest (omega arith) in
        let no_more : ltb limit (length rest) ≡ false = ground arith in
        (rw (all, no_more) refl, rw (all, no_more) refl)

    full_page :
        limit < length rest
        → (edge : A) → last (take limit rest) ≡ some edge
        → (page.page_data ≡ take limit rest)
          × (page.next_cursor ≡ some (codec.encode_cursor (key edge)))
    full_page many edge is_last =
        let more : ltb limit (length (take (suc limit) rest)) ≡ true =
          ground (arith, length-take_more limit rest many) in
        (
          rw (more, take-take_more limit rest) refl,
          rw (more, take-take_more limit rest)
              (ap
                (λ (o : Option A). elim o [
                  | none ↦ none
                  | some x ↦ some (codec.encode_cursor (key x))
                ])
                is_last),
        )

  module _ (limit : ℕ) (rows : List A) (distinct : HasDistinctIds codec d key rows)
      (lossless : IsLossless codec) where
    abbrev sorted : List A
    sorted = apply_ordering codec d key rows

    -- A cursor stands before the rows that are left.
    record IsAt (cursor : Option String) (rest : List A) : Type 0 where
      pub passed : List A
      pub whole : sorted ≡ passed ++ rest
      pub answer :
          paginate_keyset codec d key cursor limit rows
          ≡ ok (keyset_page codec d key limit (take (suc limit) rest))

    start-IsAt : IsAt none sorted
    unfolding paginate_keyset
    start-IsAt = record { passed = []; whole = refl; answer = refl }

    after-IsAt :
        (passed : List A) (edge : A) (rest : List A)
        → sorted ≡ passed ++ edge ∷ rest
        → IsAt (some (codec.encode_cursor (key edge))) rest
    unfolding paginate_keyset
    after-IsAt passed edge rest whole = record {
      passed = passed ++ edge ∷ [];
      whole = whole ∙ sym (append_assoc passed (edge ∷ []) rest);
      answer =
          rw (lossless.filled (key edge), lossless.decoded (key edge))
            (ap (λ xs. ok (keyset_page codec d key limit (take (suc limit) xs)))
              (apply_ordering-select codec d key (is_after codec d key (key edge)) rows distinct
                ∙ ap (select (is_after codec d key (key edge))) whole
                ∙ select-is_after codec d key passed edge rest
                    (rw whole at (apply_ordering-IsSorted codec d key rows distinct))));
    }

    -- A page that is answered, without a next cursor or with one.
    follow-end :
        (fuel : ℕ) (cursor : Option String) (answer : PaginatedList A)
        → paginate_keyset codec d key cursor limit rows ≡ ok answer
        → answer.next_cursor ≡ none
        → follow (suc fuel) cursor limit rows ≡ some answer.page_data
    follow-end fuel cursor answer here no_next = ground (arith, here, no_next)

    follow-next :
        (fuel : ℕ) (cursor : Option String) (answer : PaginatedList A) (next : String)
        → paginate_keyset codec d key cursor limit rows ≡ ok answer
        → answer.next_cursor ≡ some next
        → (rest : List A) → follow fuel (some next) limit rows ≡ some rest
        → follow (suc fuel) cursor limit rows ≡ some (answer.page_data ++ rest)
    follow-next fuel cursor answer next here more rest later = ground (arith, here, more, later)

    follow-IsAt :
        0 < limit
        → (fuel : ℕ) (cursor : Option String) (rest : List A) → IsAt cursor rest
        → length rest < fuel
        → follow fuel cursor limit rows ≡ some rest
    follow-IsAt positive zero cursor rest at_rest enough = absurd (omega (arith, enough))
    follow-IsAt positive (suc fuel) cursor rest at_rest enough =
        elim (Bool-cases (ltb limit (length rest))) [
          | inr few ↦
              let (items, no_next) = last_page limit rest (ground arith) in
              follow-end fuel cursor (page limit rest) at_rest.answer no_next ∙ ap some items
          | inl more ↦
              let many : limit < length rest = ground arith in
              let cut = IsSplit-take limit rest positive many in
              let (items, has_next) = full_page limit rest many cut.edge cut.is_last in
              let next = codec.encode_cursor (key cut.edge) in
              let left = length-drop limit rest (omega (arith, many)) in
              let behind = after-IsAt (at_rest.passed ++ cut.before) cut.edge (drop limit rest) (
                at_rest.whole
                ∙ ap (λ l. at_rest.passed ++ l) cut.whole
                ∙ sym (append_assoc at_rest.passed cut.before (cut.edge ∷ drop limit rest))) in
              follow-next fuel cursor (page limit rest) next at_rest.answer has_next
                (drop limit rest)
                (follow-IsAt positive fuel (some next) (drop limit rest) behind
                  (omega (arith, left, enough, positive)))
              ∙ ap some (ap (λ l. l ++ drop limit rest) items ∙ take-drop limit rest)
        ]

-- Where ids are distinct, the limit is positive and cursors survive their encoding, a client that
-- follows the cursors ends within one page more than there are rows, and has got every row once, in
-- the order of the list.
pub follow-apply_ordering :
    {A : Type 0} (codec : Codec) (d : SortDirection) (key : A → CursorPayload) (limit : ℕ)
    (rows : List A)
    → HasDistinctIds codec d key rows
    → IsLossless codec
    → 0 < limit
    → follow codec d key (length rows + 1) none limit rows ≡ some (apply_ordering codec d key rows)
follow-apply_ordering codec d key limit rows distinct lossless positive =
    follow-IsAt codec d key limit rows distinct lossless positive (length rows + 1) none
      (apply_ordering codec d key rows) (start-IsAt codec d key limit rows distinct lossless)
      (omega (arith, length-apply_ordering codec d key rows))
