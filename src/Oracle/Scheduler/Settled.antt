-- ===== src/Oracle/Scheduler/Settled.antt =====
-- What a cycle over a project leaves of each batch, in steady surroundings.
use mathlib.Core.Option
use mathlib.Core.Path.{subst}
use water_credits_backend.Prelude.{
  ℕ, ◌≡◌, refl, Bool, true, false, List, [], ◌∷◌, ◌==◌, arith, Bool-cases, Option-cases,
  Result-cases, ok, inl, inr, select, if◌then◌else◌, count_where, find_id, HasUniqueIds, mem_id,
  mem_id-order_by, order_by, mem_id-select, id_of-find_id, ap, ◌∙◌,
}
use water_credits_backend.Sensors.Entities.{
  ReadingBatch, ReadingBatch-entity, SensorReading, is_pending,
}
use water_credits_backend.Oracle.Entities.{OracleSubmission, Env, SubmitJob, Db}
use water_credits_backend.Oracle.Scheduler.{
  is_eligible, is_claimable, claim, release, submit_batch, submit_all, CycleCount, no_counts,
  submit_claimed, submit_project_batches, find_eligible_batches,
}
use water_credits_backend.Oracle.Scheduler.Attempts.{
  IsSteady, is_accepted, attempted, attempted_if_pending, claimable_once, submit_claimed-accepted,
  submit_claimed-refused, claimed_rows-find_id, released_rows-find_id, claimed_rows-HasUniqueIds,
  released_rows-HasUniqueIds,
}

module _ (env : Env) (project_id oracle_address : ℕ) (steady : IsSteady env) where
  abbrev settle : Db → ReadingBatch → ReadingBatch
  settle db = attempted_if_pending env project_id oracle_address steady db.readings

  abbrev accepts : List SensorReading → ℕ → Bool
  accepts = is_accepted env project_id oracle_address steady

  -- What an attempt leaves of the tables.
  record IsSettled (marked : ℕ → Bool) (db db' : Db) : Type 0 where
    unique : HasUniqueIds db'.batches
    readings : db'.readings ≡ db.readings
    rows :
        (i : ℕ)
        → find_id i db'.batches ≡ (
            if marked i
            then Option.map (settle db) (find_id i db.batches)
            else find_id i db.batches)

  module _ (b : ReadingBatch) (db : Db) (u : HasUniqueIds db.batches) where
    submit_batch-skips :
        (count_where (is_claimable b.id) db.batches == 1) ≡ false
        → (submit_batch env project_id oracle_address b db).1 ≡ db
    unfolding submit_batch
    submit_batch-skips h = ground (arith, steady.claims b.id)

    submit_batch-refused :
        (count_where (is_claimable b.id) db.batches == 1) ≡ true
        → accepts db.readings b.id ≡ false
        → (subs : List OracleSubmission) × ((submit_batch env project_id oracle_address b db).1
            ≡ release b.id (record (claim env.now b.id db) { submissions = subs }))
    unfolding submit_batch claim
    submit_batch-refused once refused =
        let (e, subs, fails) =
          submit_claimed-refused env project_id oracle_address steady b.id (claim env.now b.id db)
            refused in
        (subs, ground (arith, steady.claims b.id, once, fails, steady.releases b.id))

    submit_batch-accepted :
        (count_where (is_claimable b.id) db.batches == 1) ≡ true
        → accepts db.readings b.id ≡ true
        → (subs : List OracleSubmission) × (queue : List SubmitJob) × ((submit_batch env project_id
              oracle_address b db).1
            ≡ record (claim env.now b.id db) { submissions = subs; queue = queue })
    unfolding submit_batch claim
    submit_batch-accepted once accepted =
        let (s, subs, queue, submits) =
          submit_claimed-accepted env project_id oracle_address steady b.id (claim env.now b.id db)
            accepted in
        (subs, queue, ground (arith, steady.claims b.id, once, submits))

    submit_batch-IsSettled :
        IsSettled (λ i. i == b.id) db (submit_batch env project_id oracle_address b db).1
    unfolding claim release
    submit_batch-IsSettled = elim (Option-cases (find_id b.id db.batches)) [
      | inl missing ↦
          rw (submit_batch-skips (ground (arith, claimable_once b.id db.batches u))) (record {
            unique = u;
            readings = refl;
            rows = λ i. ground (arith, ap (λ (j : ℕ). find_id j db.batches) {x = i} {y = b.id});
          })
      | inr (c, found) ↦ elim (Bool-cases (is_pending c.status)) [
        | inr closed ↦
            rw (submit_batch-skips (ground (arith, claimable_once b.id db.batches u))) (record {
              unique = u;
              readings = refl;
              rows = λ i. ground (arith, ap (λ (j : ℕ). find_id j db.batches) {x = i} {y = b.id});
            })
        | inl open_one ↦
            let once : (count_where (is_claimable b.id) db.batches == 1) ≡ true =
              ground (arith, claimable_once b.id db.batches u) in
            elim (Bool-cases (accepts db.readings b.id)) [
              | inr refused ↦
                  let (subs, ends) = submit_batch-refused once refused in
                  rw ends (record {
                    unique = released_rows-HasUniqueIds env.now b.id db.batches c found open_one u;
                    readings = refl;
                    rows = λ i. ground (
                      arith,
                      released_rows-find_id env.now b.id db.batches c found open_one i,
                      id_of-find_id b.id db.batches found,
                      ap (λ (j : ℕ). accepts db.readings j) {x = c.id} {y = b.id},
                      ap (λ (j : ℕ). find_id j db.batches) {x = i} {y = b.id},
                    );
                  })
              | inl accepted ↦
                  let (subs, queue, submits) = submit_batch-accepted once accepted in
                  rw submits (record {
                    unique = claimed_rows-HasUniqueIds env.now b.id db.batches c found open_one u;
                    readings = refl;
                    rows = λ i. ground (
                      arith,
                      claimed_rows-find_id env.now b.id db.batches c found open_one i,
                      id_of-find_id b.id db.batches found,
                      ap (λ (j : ℕ). accepts db.readings j) {x = c.id} {y = b.id},
                      ap (λ (j : ℕ). find_id j db.batches) {x = i} {y = b.id},
                    );
                  })
            ]
      ]
    ]

    submit_batch-counts :
        (count : CycleCount) × ((submit_batch env project_id oracle_address b db).0 ≡ ok count)
    unfolding submit_batch
    submit_batch-counts = elim (Bool-cases (count_where (is_claimable b.id) db.batches == 1)) [
      | inr elsewhere ↦ (no_counts, ground (arith, steady.claims b.id, elsewhere))
      | inl once ↦
          elim (Result-cases
            (submit_claimed env project_id oracle_address b.id (claim env.now b.id db)).0) [
              | inl (e, thrown) ↦ (
                record { submitted = 0; failed = 1 },
                ground (arith, steady.claims b.id, once, thrown, steady.releases b.id),
              )
              | inr (s, stored) ↦ (
                record { submitted = 1; failed = 0 },
                ground (arith, steady.claims b.id, once, stored),
              )
            ]
    ]

    submit_all-runs :
        (rest : List ReadingBatch)
        → (submit_all env project_id oracle_address (b ∷ rest) db).1
          ≡ (submit_all env project_id oracle_address rest
              (submit_batch env project_id oracle_address b db).1).1
    unfolding submit_all
    submit_all-runs rest =
        let (count, counted) = submit_batch-counts in ground (arith, steady.runs b, counted)

  -- A second attempt changes nothing.
  attempted_again :
      (readings : List SensorReading) (b : ReadingBatch)
      → attempted_if_pending env project_id oracle_address steady readings
          (attempted_if_pending env project_id oracle_address steady readings b)
        ≡ attempted_if_pending env project_id oracle_address steady readings b
  attempted_again readings b = ground arith

  submit_all-IsSettled :
      (batches : List ReadingBatch) (db : Db)
      → HasUniqueIds db.batches
      → IsSettled (λ i. mem_id i batches) db (submit_all env project_id oracle_address batches db).1
  unfolding submit_all
  submit_all-IsSettled [] db u = record { unique = u; readings = refl; rows = λ i. refl }
  submit_all-IsSettled (b ∷ rest) db u =
      let first = submit_batch-IsSettled b db u in
      let others =
        submit_all-IsSettled rest (submit_batch env project_id oracle_address b db).1
          first.unique in
      let db' = (submit_batch env project_id oracle_address b db).1 in
      let TailOf : ℕ → List SensorReading → Type 0 = λ i readings.
        find_id i (submit_all env project_id oracle_address rest db').1.batches ≡ (
          if mem_id i rest
          then Option.map (attempted_if_pending env project_id oracle_address steady readings)
              (find_id i db'.batches)
          else find_id i db'.batches) in
      let tail : (i : ℕ) → TailOf i db.readings =
        λ i. subst (TailOf i) first.readings (others.rows i) in
      rw (submit_all-runs b db u rest) (record {
        unique = others.unique;
        readings = others.readings ∙ first.readings;
        rows = λ i. elim (Option-cases (find_id i db.batches)) [
          | inl missing ↦ ground (arith, first.rows i, tail i)
          | inr (c, found) ↦ ground (arith, first.rows i, tail i, attempted_again db.readings c)
        ];
      })

  -- Where batches have unique ids, no shutdown comes in between, no UPDATE that claims or releases a batch
  -- throws, transactions commit or not by their snapshot, and the queue takes every job or none, a cycle over a project leaves each eligible batch
  -- submitted now if it has a verified reading, its snapshot is committed and its job is taken, and
  -- pending without a submission time if not; and it leaves every other batch as it was.
  pub submit_project_batches-find_id :
      (db : Db)
      → HasUniqueIds db.batches
      → (i : ℕ)
      → find_id i (submit_project_batches env project_id oracle_address db).1.batches
        ≡ Option.map
            (λ b.
              if is_eligible env.now project_id b
              then attempted env project_id oracle_address steady db.readings b
              else b)
            (find_id i db.batches)
  unfolding submit_project_batches find_eligible_batches
  submit_project_batches-find_id db u i =
      let eligible = select (is_eligible env.now project_id) db.batches in
      let settled = submit_all-IsSettled (order_by (λ b. b.created_at) eligible) db u in
      elim (Option-cases (find_id i db.batches)) [
        | inl missing ↦ ground (arith, settled.rows i)
        | inr (b, found) ↦ ground (
          arith,
          settled.rows i,
          mem_id-order_by i (λ b. b.created_at) eligible,
          mem_id-select i (is_eligible env.now project_id) db.batches b u found,
        )
      ]
