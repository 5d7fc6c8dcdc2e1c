-- ===== src/Prelude/Updates.antt =====
-- Conditional updates, UPDATE … SET … WHERE, seen through the primary key.
use Prim.Native.Nat.{ℕ}
use mathlib.Core.Path.{◌≡◌, refl, ap}
use mathlib.Core.Bool.{Bool, true, false}
use mathlib.Core.Option
use mathlib.Core.Option.{Option, none, some}
use mathlib.Core.List.{List, [], ◌∷◌}
use native.Mathlib.Omega.{arith}
use package.water_credits_backend.Prelude.Tests.{if◌then◌else◌}
use package.water_credits_backend.Prelude.Table.{
  Entity, find_id, find, update_where, HasUniqueIds, has_id, save, update_id,
}

module _ {A : Type 0} ⦃e : Entity A⦄ (p : A → Bool) (f : A → A) where
  open e use {id_of}

  pub find_id-update_where :
      (i : ℕ) (rows : List A)
      → ((x : A) → id_of (f x) ≡ id_of x)
      → find_id i (update_where p f rows)
        ≡ Option.map (λ x. if p x then f x else x) (find_id i rows)
  find_id-update_where i [] k = refl
  find_id-update_where i (x ∷ xs) k = ground (arith, k x, find_id-update_where i xs k)

  pub update_where-HasUniqueIds :
      (rows : List A)
      → ((x : A) → id_of (f x) ≡ id_of x)
      → HasUniqueIds rows
      → HasUniqueIds (update_where p f rows)
  update_where-HasUniqueIds [] k u = tt
  update_where-HasUniqueIds (x ∷ xs) k u =
      ground (arith, k x, find_id-update_where (id_of x) xs k, update_where-HasUniqueIds xs k u.1)

module _ {A : Type 0} where
  -- A second update finds no row that passes, if the first makes its rows fail.
  pub update_where-update_where :
      (p : A → Bool) (f g : A → A) (rows : List A)
      → ((x : A) → p x ≡ true → p (f x) ≡ false)
      → update_where p g (update_where p f rows) ≡ update_where p f rows
  update_where-update_where p f g [] k = refl
  update_where-update_where p f g (x ∷ xs) k =
      ground (arith, k x, update_where-update_where p f g xs k)

module _ {A : Type 0} ⦃e : Entity A⦄ where
  open e use {id_of}

  -- A search by other columns after the row that it found is saved, still passing.
  pub find-save_found :
      (p : A → Bool) (r old : A) (rows : List A)
      → find p rows ≡ some old
      → id_of r ≡ id_of old
      → p r ≡ true
      → find p (save r rows) ≡ some r
  find-save_found p r old [] found same passes = cc
  find-save_found p r old (x ∷ xs) found same passes =
      ground (arith, find-save_found p r old xs, passes, same, ap id_of {x = x} {y = old})

  -- A search that found nothing, after a row that passes is saved.
  pub find-save_first :
      (p : A → Bool) (r : A) (rows : List A)
      → find p rows ≡ none
      → p r ≡ true
      → find p (save r rows) ≡ some r
  find-save_first p r [] missing passes = ground (arith, passes)
  find-save_first p r (x ∷ xs) missing passes = ground (arith, find-save_first p r xs, passes)

  -- A search by columns that an update leaves alone.
  pub find-update_id :
      (p : A → Bool) (i : ℕ) (f : A → A) (rows : List A)
      → ((x : A) → p (f x) ≡ p x)
      → find p (update_id i f rows) ≡ Option.map (λ x. if has_id i x then f x else x) (find p rows)
  find-update_id p i f [] k = refl
  find-update_id p i f (x ∷ xs) k = ground (arith, k x, find-update_id p i f xs k)
