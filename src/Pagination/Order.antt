-- ===== src/Pagination/Order.antt =====
-- The order of a list: strict, and kept by a WHERE.
use water_credits_backend.Prelude.{
  ◌+◌, ◌≡◌, refl, ap, Bool, true, false, List, [], ◌∷◌, ◌++◌, ◌==◌, arith, Bool-cases, inl, inr,
  if◌then◌else◌, select, length, All, All-weaken,
}
use water_credits_backend.Pagination.{
  SortDirection, asc, desc, CursorPayload, Codec, precedes, insert_row, apply_ordering, is_after,
}

precedes_trans :
    (d : SortDirection) (a b c : CursorPayload)
    → precedes d a b ≡ true
    → precedes d b c ≡ true
    → precedes d a c ≡ true
precedes_trans asc a b c h k = ground arith
precedes_trans desc a b c h k = ground arith

precedes_irrefl : (d : SortDirection) (a : CursorPayload) → precedes d a a ≡ false
precedes_irrefl asc a = ground arith
precedes_irrefl desc a = ground arith

precedes_total :
    (d : SortDirection) (a b : CursorPayload)
    → (a.id == b.id) ≡ false
    → precedes d a b ≡ false
    → precedes d b a ≡ true
precedes_total asc a b different h = ground arith
precedes_total desc a b different h = ground arith

precedes_asym :
    (d : SortDirection) (a b : CursorPayload) → precedes d a b ≡ true → precedes d b a ≡ false
precedes_asym asc a b h = ground arith
precedes_asym desc a b h = ground arith

module _ {A : Type 0} (codec : Codec) (d : SortDirection) (key : A → CursorPayload) where
  abbrev pub IsFirst : A → List A → Type 0
  IsFirst x rows = All (λ y. precedes d (key x) (key y) ≡ true) rows

  abbrev pub IsSorted : List A → Type 0
  IsSorted [] = Unit
  IsSorted (x ∷ xs) = IsFirst x xs × IsSorted xs

  -- A primary key.
  abbrev pub HasDistinctIds : List A → Type 0
  HasDistinctIds [] = Unit
  HasDistinctIds (x ∷ xs) = All (λ y. ((key x).id == (key y).id) ≡ false) xs × HasDistinctIds xs

  All-insert_row :
      (P : A → Type 0) (x : A) (rows : List A)
      → P x
      → All P rows
      → All P (insert_row codec d key x rows)
  All-insert_row P x [] px h = (px, tt)
  All-insert_row P x (y ∷ ys) px h = elim (Bool-cases (precedes d (key x) (key y))) [
    | inl before ↦ rw before (px, h)
    | inr later ↦ rw later (h.0, All-insert_row P x ys px h.1)
  ]

  All-apply_ordering :
      (P : A → Type 0) (rows : List A) → All P rows → All P (apply_ordering codec d key rows)
  All-apply_ordering P [] h = tt
  All-apply_ordering P (x ∷ xs) h =
      All-insert_row P x (apply_ordering codec d key xs) h.0 (All-apply_ordering P xs h.1)

  IsFirst-earlier :
      (x y : A) (rows : List A)
      → precedes d (key x) (key y) ≡ true
      → IsFirst y rows
      → IsFirst x rows
  IsFirst-earlier x y rows before h =
      All-weaken (λ z. precedes d (key y) (key z) ≡ true) (λ z. precedes d (key x) (key z) ≡ true)
        rows (λ z k. precedes_trans d (key x) (key y) (key z) before k) h

  insert_row-IsSorted :
      (x : A) (rows : List A)
      → All (λ y. ((key x).id == (key y).id) ≡ false) rows
      → IsSorted rows
      → IsSorted (insert_row codec d key x rows)
  insert_row-IsSorted x [] new h = (tt, tt)
  insert_row-IsSorted x (y ∷ ys) new h = elim (Bool-cases (precedes d (key x) (key y))) [
    | inl before ↦ rw before ((before, IsFirst-earlier x y ys before h.0), h)
    | inr later ↦ rw later (
      All-insert_row (λ z. precedes d (key y) (key z) ≡ true) x ys
          (precedes_total d (key x) (key y) new.0 later) h.0,
      insert_row-IsSorted x ys new.1 h.1,
    )
  ]

  pub apply_ordering-IsSorted :
      (rows : List A) → HasDistinctIds rows → IsSorted (apply_ordering codec d key rows)
  apply_ordering-IsSorted [] h = tt
  apply_ordering-IsSorted (x ∷ xs) h =
      insert_row-IsSorted x (apply_ordering codec d key xs)
        (All-apply_ordering (λ y. ((key x).id == (key y).id) ≡ false) xs h.0)
        (apply_ordering-IsSorted xs h.1)

  -- Rows that all pass, or all fail.
  select-All : (p : A → Bool) (rows : List A) → All (λ x. p x ≡ true) rows → select p rows ≡ rows
  select-All p [] h = refl
  select-All p (x ∷ xs) h = rw h.0 (ap (λ ys. x ∷ ys) (select-All p xs h.1))

  -- A row before the first one is inserted there.
  insert_row-first :
      (x : A) (rows : List A) → IsFirst x rows → insert_row codec d key x rows ≡ x ∷ rows
  insert_row-first x [] h = refl
  insert_row-first x (y ∷ ys) h = rw h.0 refl

  All-select : (P : A → Type 0) (p : A → Bool) (rows : List A) → All P rows → All P (select p rows)
  All-select P p [] h = tt
  All-select P p (x ∷ xs) h = elim (Bool-cases (p x)) [
    | inl kept ↦ rw kept (h.0, All-select P p xs h.1)
    | inr dropped ↦ rw dropped (All-select P p xs h.1)
  ]

  -- WHERE before ORDER BY: an insertion into sorted rows, then the rows that pass.
  select-insert_row :
      (p : A → Bool) (x : A) (rows : List A)
      → IsSorted rows
      → select p (insert_row codec d key x rows)
        ≡ (if p x then insert_row codec d key x (select p rows) else select p rows)
  select-insert_row p x [] h = ground arith
  select-insert_row p x (y ∷ ys) h = elim (Bool-cases (precedes d (key x) (key y))) [
    | inl before ↦ elim (Bool-cases (p x)) [
      | inr dropped ↦ ground (arith, before, dropped)
      | inl kept ↦ ground (
        arith,
        before,
        kept,
        insert_row-first x (select p (y ∷ ys)) (
            All-select (λ z. precedes d (key x) (key z) ≡ true) p (y ∷ ys)
              (before, IsFirst-earlier x y ys before h.0)),
      )
    ]
    | inr later ↦ ground (arith, later, select-insert_row p x ys h.1)
  ]

  pub apply_ordering-select :
      (p : A → Bool) (rows : List A)
      → HasDistinctIds rows
      → apply_ordering codec d key (select p rows) ≡ select p (apply_ordering codec d key rows)
  apply_ordering-select p [] h = refl
  apply_ordering-select p (x ∷ xs) h = elim (Bool-cases (p x)) [
    | inl kept ↦ ground (
      arith,
      kept,
      apply_ordering-select p xs h.1,
      select-insert_row p x (apply_ordering codec d key xs) (apply_ordering-IsSorted xs h.1),
    )
    | inr dropped ↦ ground (
      arith,
      dropped,
      apply_ordering-select p xs h.1,
      select-insert_row p x (apply_ordering codec d key xs) (apply_ordering-IsSorted xs h.1),
    )
  ]

  -- In sorted rows, the rows after one of them are those that stand behind it.
  pub select-is_after :
      (before : List A) (x : A) (behind : List A)
      → IsSorted (before ++ x ∷ behind)
      → select (is_after codec d key (key x)) (before ++ x ∷ behind) ≡ behind
  select-is_after [] x behind h =
      rw (precedes_irrefl d (key x)) (select-All (is_after codec d key (key x)) behind h.0)
  select-is_after (y ∷ ys) x behind h =
      rw (precedes_asym d (key y) (key x) (All-middle ys x behind h.0))
        (select-is_after ys x behind h.1)
    where
      All-middle :
          (ys : List A) (x : A) (behind : List A)
          → IsFirst y (ys ++ x ∷ behind)
          → precedes d (key y) (key x) ≡ true
      All-middle [] x behind k = k.0
      All-middle (z ∷ zs) x behind k = All-middle zs x behind k.1

  length-insert_row :
      (x : A) (rows : List A) → length (insert_row codec d key x rows) ≡ length rows + 1
  length-insert_row x [] = omega arith
  length-insert_row x (y ∷ ys) = elim (Bool-cases (precedes d (key x) (key y))) [
    | inl before ↦ rw before (omega arith)
    | inr later ↦ rw later (omega (arith, length-insert_row x ys))
  ]

  pub length-apply_ordering :
      (rows : List A) → length (apply_ordering codec d key rows) ≡ length rows
  length-apply_ordering [] = refl
  length-apply_ordering (x ∷ xs) =
      omega (arith, length-insert_row x (apply_ordering codec d key xs), length-apply_ordering xs)
