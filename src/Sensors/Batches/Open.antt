-- ===== src/Sensors/Batches/Open.antt =====
-- Every project has one open batch at most, and resolveBatch hands out the one that is still inside
-- its collection window.
use mathlib.Core.List.{append-nil}
use water_credits_backend.Prelude.{
  ℕ, ◌+◌, ◌≤◌, ◌≡◌, ◌≢◌, refl, Bool, true, false, ◌&&◌, some, List, [], ◌∷◌, ◌++◌, ◌==◌, is_some,
  find, arith, All, All-append, Bool-cases, Option-cases, inl, inr, select, count_where,
  count_where-append, ok, ap, ◌∙◌,
}
use water_credits_backend.Sensors.Entities.{ReadingBatch, batch_window_ms, Db}
use water_credits_backend.Sensors.Batches.{
  is_open_batch, is_stale, close_stale, new_batch, insert_pending, resolve_batch,
}

-- The partial unique index of migration 012.
abbrev pub HasOneOpen : List ReadingBatch → Type 0
HasOneOpen batches = (project_id : ℕ) → count_where (is_open_batch project_id) batches ≤ 1

abbrev pub open_and_stale : ℕ → ℕ → ReadingBatch → Bool
open_and_stale now project_id b = is_open_batch project_id b && is_stale now b

close_stale-count :
    (now p q : ℕ) (batches : List ReadingBatch)
    → count_where (is_open_batch q) (close_stale now p batches)
      ≤ count_where (is_open_batch q) batches
unfolding close_stale
close_stale-count now p q [] = omega arith
close_stale-count now p q (b ∷ batches) = ground (arith, close_stale-count now p q batches)

-- After the UPDATE no open batch of the project is stale.
close_stale-fresh :
    (now p : ℕ) (batches : List ReadingBatch)
    → All (λ b. open_and_stale now p b ≡ false) (close_stale now p batches)
unfolding close_stale
close_stale-fresh now p [] = tt
close_stale-fresh now p (b ∷ batches) = (ground arith, close_stale-fresh now p batches)

close_stale-others :
    (now p q : ℕ) (batches : List ReadingBatch)
    → q ≢ p
    → select (λ b. b.project_id == q) (close_stale now p batches)
      ≡ select (λ b. b.project_id == q) batches
unfolding close_stale
close_stale-others now p q [] h = refl
close_stale-others now p q (b ∷ batches) h = ground (arith, close_stale-others now p q batches h)

not-found-count :
    (p : ℕ) (batches : List ReadingBatch)
    → is_some (find (is_open_batch p) batches) ≡ false
    → count_where (is_open_batch p) batches ≡ 0
not-found-count p [] h = refl
not-found-count p (b ∷ batches) h = ground (arith, not-found-count p batches)

insert_pending-count :
    (id now p q : ℕ) (batches : List ReadingBatch)
    → count_where (is_open_batch q) batches ≤ 1
    → count_where (is_open_batch q) (insert_pending id now p batches) ≤ 1
unfolding insert_pending
insert_pending-count id now p q batches h = ground (
  arith,
  not-found-count p batches,
  count_where-append (is_open_batch q) batches (new_batch id now p ∷ []),
  ap (λ (k : ℕ). count_where (is_open_batch k) batches) {x = q} {y = p},
)

insert_pending-fresh :
    (id now p : ℕ) (batches : List ReadingBatch)
    → All (λ b. open_and_stale now p b ≡ false) batches
    → All (λ b. open_and_stale now p b ≡ false) (insert_pending id now p batches)
unfolding insert_pending
insert_pending-fresh id now p batches h =
    elim (Bool-cases (is_some (find (is_open_batch p) batches))) [
      | inl there ↦ rw there h
      | inr missing ↦ rw missing (
          All-append (λ b. open_and_stale now p b ≡ false) batches (new_batch id now p ∷ []) h
            (ground arith, tt))
    ]

select-append :
    (f : ReadingBatch → Bool) (xs ys : List ReadingBatch)
    → select f (xs ++ ys) ≡ select f xs ++ select f ys
select-append f [] ys = refl
select-append f (x ∷ xs) ys = ground (arith, select-append f xs ys)

insert_pending-others :
    (id now p q : ℕ) (batches : List ReadingBatch)
    → q ≢ p
    → select (λ b. b.project_id == q) (insert_pending id now p batches)
      ≡ select (λ b. b.project_id == q) batches
unfolding insert_pending
insert_pending-others id now p q batches h = ground (
  arith,
  select-append (λ b. b.project_id == q) batches (new_batch id now p ∷ []),
  append-nil (select (λ b. b.project_id == q) batches),
)

find-open :
    (p : ℕ) (batches : List ReadingBatch) (b : ReadingBatch)
    → find (is_open_batch p) batches ≡ some b
    → is_open_batch p b ≡ true
find-open p [] b h = cc
find-open p (x ∷ batches) b h = ground (arith, find-open p batches b)

find-fresh :
    (now p : ℕ) (batches : List ReadingBatch) (b : ReadingBatch)
    → All (λ x. open_and_stale now p x ≡ false) batches
    → find (is_open_batch p) batches ≡ some b
    → is_stale now b ≡ false
find-fresh now p [] b h found = cc
find-fresh now p (x ∷ batches) b h found = ground (arith, find-fresh now p batches b h.1)

find-append_open :
    (id now p : ℕ) (batches : List ReadingBatch)
    → is_some (find (is_open_batch p) batches) ≡ false
    → find (is_open_batch p) (batches ++ new_batch id now p ∷ []) ≡ some (new_batch id now p)
find-append_open id now p [] h = ground arith
find-append_open id now p (b ∷ batches) h = ground (arith, find-append_open id now p batches)

insert_pending-found :
    (id now p : ℕ) (batches : List ReadingBatch)
    → is_some (find (is_open_batch p) (insert_pending id now p batches)) ≡ true
unfolding insert_pending
insert_pending-found id now p batches = ground (arith, find-append_open id now p batches)

module _ (id now p : ℕ) (db : Db) where
  abbrev pub resolved : List ReadingBatch
  resolved = insert_pending id now p (close_stale now p db.batches)

  pub resolve_batch-batches : (resolve_batch id now p db).1.batches ≡ resolved
  unfolding resolve_batch
  resolve_batch-batches = ground arith

  pub resolve_batch-fresh :
      All (λ b. open_and_stale now p b ≡ false) (resolve_batch id now p db).1.batches
  resolve_batch-fresh = rw resolve_batch-batches (
      insert_pending-fresh id now p (close_stale now p db.batches)
        (close_stale-fresh now p db.batches))

  -- resolveBatch always returns a batch: one of the project that is pending and whose 15-minute
  -- window is not over, and it is stored.
  pub resolve_batch_total :
      (b : ReadingBatch) × ((resolve_batch id now p db).0 ≡ ok b)
      × (find (is_open_batch p) (resolve_batch id now p db).1.batches ≡ some b)
      × (is_open_batch p b ≡ true)
      × (now ≤ b.created_at + batch_window_ms)
  unfolding resolve_batch
  resolve_batch_total = elim (Option-cases (find (is_open_batch p) resolved)) [
    | inl missing ↦
        absurd (ground (arith, insert_pending-found id now p (close_stale now p db.batches)))
    | inr (b, found) ↦ (
      b,
      ground arith,
      ground arith,
      find-open p resolved b found,
      ground (
        arith,
        find-fresh now p resolved b
            (insert_pending-fresh id now p (close_stale now p db.batches)
              (close_stale-fresh now p db.batches))
            found,
      ),
    )
  ]

  -- It keeps the rule that no project has two pending batches, and touches no batch of another
  -- project.
  pub resolve_batch-HasOneOpen :
      HasOneOpen db.batches
      → HasOneOpen (resolve_batch id now p db).1.batches
        × ((q : ℕ)
            → q ≢ p
            → select (λ b. b.project_id == q) (resolve_batch id now p db).1.batches
              ≡ select (λ b. b.project_id == q) db.batches)
  resolve_batch-HasOneOpen h = (
    λ q. rw resolve_batch-batches (
        insert_pending-count id now p q (close_stale now p db.batches)
          (ground (arith, close_stale-count now p q db.batches, h q))),
    λ q ne. rw resolve_batch-batches (
        insert_pending-others id now p q (close_stale now p db.batches) ne
        ∙ close_stale-others now p q db.batches ne),
  )
