-- ===== src/Pagination/Tests.antt =====
-- Runs of the paginator, and its theorem at a concrete list.
mod Unary
use mathlib.Core.Option
use water_credits_backend.Prelude.{
  ℕ, ◌≡◌, refl, none, some, Option, List, [], ◌∷◌, ok, err, bad_request, length, arith,
}
use water_credits_backend.Pagination.{desc, CursorPayload, PaginatedList, paginate}
use water_credits_backend.Pagination.Pages.{follow, follow-apply_ordering}
use water_credits_backend.Pagination.Tests.Unary.{codec, codec-IsLossless}

abbrev row : ℕ → ℕ → CursorPayload
row v id = record { v = v; id = id }

abbrev key : CursorPayload → CursorPayload
key x = x

abbrev rows : List CursorPayload
rows = row 3 1 ∷ row 5 2 ∷ row 3 4 ∷ row 1 3 ∷ row 5 5 ∷ []

abbrev newest_first : List CursorPayload
newest_first = row 5 5 ∷ row 5 2 ∷ row 3 4 ∷ row 3 1 ∷ row 1 3 ∷ []

-- Two pages of two, and one of one.
follow-apply_ordering_example : follow codec desc key 6 none 2 rows ≡ some newest_first
follow-apply_ordering_example =
    follow-apply_ordering codec desc key 2 rows
      (
        (refl, (refl, (refl, (refl, tt)))),
        ((refl, (refl, (refl, tt))), ((refl, (refl, tt)), ((refl, tt), (tt, tt)))),
      )
      codec-IsLossless (omega arith)

-- Without a cursor, there is no next one.
first_page :
    paginate codec desc key (record { cursor = none; page = none; limit = some 2 }) rows
    ≡ ok (record {
      page_data = row 5 5 ∷ row 5 2 ∷ [];
      limit = 2;
      total = some 5;
      page = some 1;
      next_cursor = none;
      has_more = none;
    })
unfolding paginate
first_page = refl
