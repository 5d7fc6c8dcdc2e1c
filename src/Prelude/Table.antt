-- ===== src/Prelude/Table.antt =====
-- Database tables as lists of rows, and the queries that the services make: a row by its primary
-- key, the rows that pass a WHERE, an UPDATE … WHERE, the saving of an entity, and ORDER BY.
use Prim.Native.Nat.{ℕ}
use mathlib.Core.Path.{◌≡◌, refl, subst, ap}
use mathlib.Core.Logic.{◌≢◌, inl, inr}
use mathlib.Core.Bool.{Bool, true, false, ◌||◌}
use mathlib.Core.Option
use mathlib.Core.Option.{Option, none, some, some_inj}
use mathlib.Core.List.{List, [], ◌∷◌, ◌++◌}
use native.Mathlib.Omega.{arith}
use package.water_credits_backend.Prelude.Lists.{All}
use package.water_credits_backend.Prelude.Tests.{
  Bool-cases, ==_iff, ==_refl, ◌==◌, leb, if◌then◌else◌,
}

-- A row type with its primary key. UUIDs are only compared, so they are numbers.
pub record Entity (A : Type 0) : Type 0 where
  pub id_of : A → ℕ

module _ {A : Type 0} where
  -- The first row that passes.
  abbrev pub find : (A → Bool) → List A → Option A
  find p [] = none
  find p (x ∷ xs) = if p x then some x else find p xs

  -- SELECT … WHERE
  abbrev pub select : (A → Bool) → List A → List A
  select p [] = []
  select p (x ∷ xs) = if p x then x ∷ select p xs else select p xs

  -- UPDATE … SET … WHERE
  abbrev pub update_where : (A → Bool) → (A → A) → List A → List A
  update_where p f [] = []
  update_where p f (x ∷ xs) = (if p x then f x else x) ∷ update_where p f xs

  -- ORDER BY key ASC; rows with equal keys keep their order.
  abbrev pub insert_by : (A → ℕ) → A → List A → List A
  insert_by key x [] = x ∷ []
  insert_by key x (y ∷ ys) = if leb (key x) (key y) then x ∷ y ∷ ys else y ∷ insert_by key x ys

  abbrev pub order_by : (A → ℕ) → List A → List A
  order_by key [] = []
  order_by key (x ∷ xs) = insert_by key x (order_by key xs)

module _ {A : Type 0} ⦃e : Entity A⦄ where
  open e use {id_of}

  abbrev pub has_id : ℕ → A → Bool
  has_id i x = id_of x == i

  -- findOne({ where: { id } })
  abbrev pub find_id : ℕ → List A → Option A
  find_id i [] = none
  find_id i (x ∷ xs) = if has_id i x then some x else find_id i xs

  -- UPDATE … WHERE id = i
  abbrev pub update_id : ℕ → (A → A) → List A → List A
  update_id i f [] = []
  update_id i f (x ∷ xs) = (if has_id i x then f x else x) ∷ update_id i f xs

  -- repository.save: the row of that id is written, and a new row is added where there is none.
  abbrev pub save : A → List A → List A
  save r [] = r ∷ []
  save r (x ∷ xs) = if has_id (id_of r) x then r ∷ xs else x ∷ save r xs

module _ {A : Type 0} ⦃e : Entity A⦄ where
  open e use {id_of}

  pub find_id-save_self : (r : A) (rows : List A) → find_id (id_of r) (save r rows) ≡ some r
  find_id-save_self r [] = ground arith
  find_id-save_self r (x ∷ xs) = ground (arith, find_id-save_self r xs)

  pub find_id-save_ne :
      (i : ℕ) (r : A) (rows : List A) → i ≢ id_of r → find_id i (save r rows) ≡ find_id i rows
  find_id-save_ne i r [] h = ground arith
  find_id-save_ne i r (x ∷ xs) h = ground (arith, find_id-save_ne i r xs h)

  -- A row that is found has the id that was asked for.
  pub id_of-find_id : (i : ℕ) (rows : List A) {r : A} → find_id i rows ≡ some r → id_of r ≡ i
  id_of-find_id i [] h = cc
  id_of-find_id i (x ∷ xs) {r} h = ground (arith, id_of-find_id i xs {r = r})

  -- A primary key: no id stands twice.
  abbrev pub HasUniqueIds : List A → Type 0
  HasUniqueIds [] = Unit
  HasUniqueIds (x ∷ xs) = (find_id (id_of x) xs ≡ none) × HasUniqueIds xs

  pub save-HasUniqueIds : (r : A) (rows : List A) → HasUniqueIds rows → HasUniqueIds (save r rows)
  save-HasUniqueIds r [] h = (refl, tt)
  save-HasUniqueIds r (x ∷ xs) h =
      ground (arith, save-HasUniqueIds r xs h.1, find_id-save_ne (id_of x) r xs)

  pub All-save {κ} :
      (P : A → Type κ) (r : A) (rows : List A) → All P rows → P r → All P (save r rows)
  All-save P r [] h k = (k, tt)
  All-save P r (x ∷ xs) h k = elim (Bool-cases (has_id (id_of r) x)) [
    | inl same ↦ rw same (k, h.1)
    | inr other ↦ rw other (h.0, All-save P r xs h.1 k)
  ]

  pub All-find_id {κ} :
      (P : A → Type κ) (i : ℕ) (rows : List A) {r : A} → All P rows → find_id i rows ≡ some r → P r
  All-find_id P i [] h k = cc
  All-find_id P i (x ∷ xs) h k = elim (Bool-cases (has_id i x)) [
    | inl same ↦ subst P (some_inj.0 (rw same at k)) h.0
    | inr other ↦ All-find_id P i xs h.1 (rw other at k)
  ]

module _ {A : Type 0} ⦃e : Entity A⦄ where
  open e use {id_of}

  -- Whether some row has the id.
  abbrev pub mem_id : ℕ → List A → Bool
  mem_id i [] = false
  mem_id i (x ∷ xs) = has_id i x || mem_id i xs

  mem_id-insert_by :
      (i : ℕ) (key : A → ℕ) (x : A) (rows : List A)
      → mem_id i (insert_by key x rows) ≡ has_id i x || mem_id i rows
  mem_id-insert_by i key x [] = refl
  mem_id-insert_by i key x (y ∷ ys) = ground (arith, mem_id-insert_by i key x ys)

  pub mem_id-order_by :
      (i : ℕ) (key : A → ℕ) (rows : List A) → mem_id i (order_by key rows) ≡ mem_id i rows
  mem_id-order_by i key [] = refl
  mem_id-order_by i key (x ∷ xs) =
      rw (mem_id-insert_by i key x (order_by key xs), mem_id-order_by i key xs)

  pub mem_id-select-none :
      (i : ℕ) (p : A → Bool) (rows : List A)
      → find_id i rows ≡ none
      → mem_id i (select p rows) ≡ false
  mem_id-select-none i p [] h = refl
  mem_id-select-none i p (x ∷ xs) h = ground (arith, mem_id-select-none i p xs)

  -- With unique ids, a row is among the selected ones exactly if it passes.
  pub mem_id-select :
      (i : ℕ) (p : A → Bool) (rows : List A) (c : A)
      → HasUniqueIds rows
      → find_id i rows ≡ some c
      → mem_id i (select p rows) ≡ p c
  mem_id-select i p [] c u h = cc
  mem_id-select i p (x ∷ xs) c u h =
      ground (arith, mem_id-select i p xs c u.1, mem_id-select-none i p xs)

module _ {A : Type 0} ⦃e : Entity A⦄ where
  open e use {id_of}

  -- Where ids are unique, what holds of each row that can be found holds of every row.
  pub All-of_find_id {κ} :
      (P : A → Type κ) (rows : List A)
      → HasUniqueIds rows
      → ((i : ℕ) (c : A) → find_id i rows ≡ some c → P c)
      → All P rows
  All-of_find_id P [] u k = tt
  All-of_find_id P (x ∷ xs) u k =
      (k (id_of x) x (rw ==_refl), All-of_find_id P xs u.1 (λ i c h. k i c (find_id-cons i c h)))
    where
      find_id-cons : (i : ℕ) (c : A) → find_id i xs ≡ some c → find_id i (x ∷ xs) ≡ some c
      find_id-cons i c h =
          ground (arith, h, u.0, ap (λ (j : ℕ). find_id j xs) {x = i} {y = id_of x})

  -- INSERT of a row with a new id.
  pub find_id-save_new :
      (i : ℕ) (r : A) (rows : List A) {c : A}
      → find_id (id_of r) rows ≡ none
      → find_id i rows ≡ some c
      → find_id i (save r rows) ≡ some c
  find_id-save_new i r rows {c} new h = elim (Bool-cases (i == id_of r)) [
    | inl same ↦ ground (arith, ap (λ (j : ℕ). find_id j rows) {x = i} {y = id_of r})
    | inr other ↦ ground (arith, find_id-save_ne i r rows)
  ]

module _ {A : Type 0} ⦃e : Entity A⦄ where
  open e use {id_of}

  pub find_id-update_id :
      (i j : ℕ) (f : A → A) (rows : List A)
      → ((x : A) → id_of (f x) ≡ id_of x)
      → find_id j (update_id i f rows)
        ≡ (if j == i then Option.map f (find_id j rows) else find_id j rows)
  find_id-update_id i j f [] k = ground arith
  find_id-update_id i j f (x ∷ xs) k = ground (arith, k x, find_id-update_id i j f xs k)

  pub update_id-HasUniqueIds :
      (i : ℕ) (f : A → A) (rows : List A)
      → ((x : A) → id_of (f x) ≡ id_of x)
      → HasUniqueIds rows
      → HasUniqueIds (update_id i f rows)
  update_id-HasUniqueIds i f [] k u = tt
  update_id-HasUniqueIds i f (x ∷ xs) k u =
      ground (arith, k x, find_id-update_id i (id_of x) f xs k, update_id-HasUniqueIds i f xs k u.1)

  pub All-update_id {κ} :
      (P : A → Type κ) (i : ℕ) (f : A → A) (rows : List A)
      → ((x : A) → id_of x ≡ i → P x → P (f x))
      → All P rows
      → All P (update_id i f rows)
  All-update_id P i f [] k h = tt
  All-update_id P i f (x ∷ xs) k h = elim (Bool-cases (has_id i x)) [
    | inl same ↦ rw same (k x ((==_iff (id_of x) i).0 same) h.0, All-update_id P i f xs k h.1)
    | inr other ↦ rw other (h.0, All-update_id P i f xs k h.1)
  ]

module _ {A : Type 0} where
  pub find-append_new :
      (p : A → Bool) (xs : List A) (x : A)
      → find p xs ≡ none
      → p x ≡ true
      → find p (xs ++ x ∷ []) ≡ some x
  find-append_new p [] x h k = rw k
  find-append_new p (y ∷ ys) x h k = ground (arith, find-append_new p ys x, h, k)

  pub find_found : (p : A → Bool) (xs : List A) (x : A) → find p xs ≡ some x → p x ≡ true
  find_found p [] x h = cc
  find_found p (y ∷ ys) x h = ground (arith, find_found p ys x, ap p {x = y} {y = x})

module _ {A : Type 0} ⦃e : Entity A⦄ where
  open e use {id_of}

  -- A search by a column that an update leaves alone finds the same row.
  pub find-update_id_back :
      (p : A → Bool) (i : ℕ) (f : A → A) (rows : List A) (c : A)
      → ((x : A) → p (f x) ≡ p x)
      → ((x : A) → id_of (f x) ≡ id_of x)
      → find p (update_id i f rows) ≡ some c
      → (b : A) × (find p rows ≡ some b) × (id_of c ≡ id_of b)
  find-update_id_back p i f [] c hp hi h = cc
  find-update_id_back p i f (x ∷ xs) c hp hi h = elim (Bool-cases (p x)) [
    | inl pass ↦ (x, rw pass, ground (arith, hp x, hi x))
    | inr fail ↦
        let (b, found, same) = find-update_id_back p i f xs c hp hi (ground (arith, hp x)) in
        (b, rw fail found, same)
  ]
