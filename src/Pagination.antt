-- ===== src/Pagination.antt =====
-- src/common/pagination/keyset-paginator.ts: pages of a list by a cursor or by an offset. A sort value
-- and an id are numbers, as far as the database orders them.
pub mod Order
pub mod Pages
mod Tests
use Prim.Native.String.{String}
use text.Mathlib.Text.{◌==◌ as str_eq}
use water_credits_backend.Prelude.{
  ℕ, zero, suc, ◌+◌, ◌-◌, ◌*◌, Bool, true, false, ◌&&◌, ◌||◌, Option, none, some, List, [], ◌∷◌,
  ltb, ◌==◌, if◌then◌else◌, select, length, take, drop, Result, ok, err, bad_request, or_else,
}

pub data SortDirection : Type 0 where
  asc desc : SortDirection

-- CursorPayload
pub record CursorPayload : Type 0 where
  pub v : ℕ
  pub id : ℕ

-- encodeCursor and decodeCursor, which stand on Buffer and JSON; `none` is InvalidCursorException.
pub record Codec : Type 0 where
  pub encode_cursor : CursorPayload → String
  pub decode_cursor : String → Option CursorPayload

abbrev pub is_less : CursorPayload → CursorPayload → Bool
is_less a b = ltb a.v b.v || (a.v == b.v && ltb a.id b.id)

-- `a` stands before `b` in the list.
abbrev pub precedes : SortDirection → CursorPayload → CursorPayload → Bool
precedes asc a b = is_less a b
precedes desc a b = is_less b a

abbrev pub last {ℓ} : {A : Type ℓ} → List A → Option A
last [] = none
last (x ∷ xs) = some (or_else (last xs) x)

-- PaginatedList; `total` and `page` are of offset mode, the others of cursor mode.
pub record PaginatedList (A : Type 0) : Type 0 where
  pub page_data : List A
  pub limit : ℕ
  pub total : Option ℕ
  pub page : Option ℕ
  pub next_cursor : Option String
  pub has_more : Option Bool

pub record PaginationParams : Type 0 where
  pub cursor : Option String
  pub page : Option ℕ
  pub limit : Option ℕ

module _ {A : Type 0} (codec : Codec) (direction : SortDirection) (key : A → CursorPayload) where
  -- ORDER BY sort, id
  abbrev pub insert_row : A → List A → List A
  insert_row x [] = x ∷ []
  insert_row x (y ∷ ys) =
      if precedes direction (key x) (key y) then x ∷ y ∷ ys else y ∷ insert_row x ys

  abbrev pub apply_ordering : List A → List A
  apply_ordering [] = []
  apply_ordering (x ∷ xs) = insert_row x (apply_ordering xs)

  -- The keyset predicate of a cursor.
  abbrev pub is_after : CursorPayload → A → Bool
  is_after c x = precedes direction c (key x)

  abbrev pub next_cursor_of : List A → Option String
  next_cursor_of page = elim (last page) [
    | none ↦ none
    | some x ↦ some (codec.encode_cursor (key x))
  ]

  -- The rows are in order, and one more than the limit was asked for.
  abbrev pub keyset_page : ℕ → List A → PaginatedList A
  keyset_page limit found =
      let more = ltb limit (length found) in
      let page = if more then take limit found else found in
      record {
        page_data = page;
        limit = limit;
        total = none;
        page = none;
        next_cursor = if more then next_cursor_of page else none;
        has_more = some more;
      }

  unfoldable pub paginate_keyset : Option String → ℕ → List A → Result (PaginatedList A)
  paginate_keyset none limit rows = ok (keyset_page limit (take (suc limit) (apply_ordering rows)))
  paginate_keyset (some cursor) limit rows =
      if str_eq cursor ""
      then ok (keyset_page limit (take (suc limit) (apply_ordering rows)))
      else elim (codec.decode_cursor cursor) [
        | none ↦ err bad_request
        | some c ↦
            ok (keyset_page limit (take (suc limit) (apply_ordering (select (is_after c) rows))))
      ]

  -- OFFSET (page - 1) * limit; the DTO's page is at least 1.
  unfoldable pub paginate_offset : ℕ → ℕ → List A → PaginatedList A
  paginate_offset page limit rows = record {
    page_data = take limit (drop ((page - 1) * limit) (apply_ordering rows));
    limit = limit;
    total = some (length rows);
    page = some page;
    next_cursor = none;
    has_more = none;
  }

  abbrev pub is_filled : Option String → Bool
  is_filled none = false
  is_filled (some cursor) = if str_eq cursor "" then false else true

  unfoldable pub paginate : PaginationParams → List A → Result (PaginatedList A)
  unfolding paginate_keyset paginate_offset
  paginate params rows =
      let limit = or_else params.limit 20 in
      if is_filled params.cursor
      then paginate_keyset params.cursor limit rows
      else ok (paginate_offset (or_else params.page 1) limit rows)
