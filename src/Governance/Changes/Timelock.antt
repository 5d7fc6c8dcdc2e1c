-- ===== src/Governance/Changes/Timelock.antt =====
-- The timelock of configuration changes: what the scheduler may and must apply.
use water_credits_backend.Prelude.{
  ℕ, ◌≡◌, refl, true, ◌&&◌, leb, Option, none, some, List, [], ◌∷◌, ◌==◌, arith, All, All-save,
  All-weaken, All-find_id, find_id, find_id-save_self, find_id-save_ne, HasUniqueIds,
  save-HasUniqueIds, id_of-find_id, Option-cases, Bool-cases, inl, inr, ◌⊎◌, if◌then◌else◌, select,
  mem_id, mem_id-order_by, mem_id-select, ap,
}
use water_credits_backend.Governance.Entities.{
  GovernanceConfig, ConfigChange, is_pending, applied, scheduler, Db, ConfigChange-entity,
}
use water_credits_backend.Governance.Config.{assign, fits_columns}
use water_credits_backend.Governance.Changes.{
  is_due, config_row, mark_applied, commit_change, apply_single_change, apply_all, due_changes,
  apply_due_config_changes,
}

-- The configuration row that every change names is there.
abbrev pub HasRow : Db → ConfigChange → Type 0
HasRow db c = (g : GovernanceConfig) × (config_row c.config_id db.config ≡ some g)

abbrev pub HasConfig : Db → Type 0
HasConfig db = All (HasRow db) db.changes

-- A change that the scheduler reaches: applied if it is still pending and its values fit.
abbrev settle : ℕ → ConfigChange → ConfigChange
settle now c =
    if is_pending c.status && fits_columns c.proposed_values then mark_applied now c else c

settled_find : ℕ → Option ConfigChange → Option ConfigChange
settled_find now none = none
settled_find now (some c) = some (settle now c)

-- Writing values keeps the row's id, so a row that was found is found again.
commit_change-HasRow :
    (now k : ℕ) (locked c : ConfigChange) (g : GovernanceConfig) (db : Db)
    → config_row k db.config ≡ some g
    → HasRow db c
    → HasRow (commit_change now locked g db) c
unfolding commit_change
commit_change-HasRow now k locked c g db row (old, found) =
    (assign g locked.proposed_values locked.proposed_by, commit_row (Option-cases db.config))
  where
    commit_row :
        (db.config ≡ none) ⊎ ((x : GovernanceConfig) × (db.config ≡ some x))
        → config_row c.config_id (some (assign g locked.proposed_values locked.proposed_by))
          ≡ some (assign g locked.proposed_values locked.proposed_by)
    commit_row (inl e) = cc (rw e at row)
    commit_row (inr (x, e)) = ground (arith, rw e at row, rw e at found)

commit_change-HasConfig :
    (now : ℕ) (locked : ConfigChange) (g : GovernanceConfig) (db : Db)
    → config_row locked.config_id db.config ≡ some g
    → HasConfig db
    → HasConfig (commit_change now locked g db)
unfolding commit_change
commit_change-HasConfig now locked g db row h =
    All-save (HasRow (commit_change now locked g db)) (mark_applied now locked) db.changes
      (All-weaken (HasRow db) (HasRow (commit_change now locked g db)) db.changes
        (λ c. commit_change-HasRow now locked.config_id locked c g db row) h)
      (commit_change-HasRow now locked.config_id locked (mark_applied now locked) g db row (g, row))

-- What one scheduler transaction does: nothing, or the commit of a row found pending.
record IsCommit (now : ℕ) (change : ConfigChange) (db : Db) : Type 0 where
  locked : ConfigChange
  config : GovernanceConfig
  found : find_id change.id db.changes ≡ some locked
  unapplied : is_pending locked.status ≡ true
  row : config_row locked.config_id db.config ≡ some config
  commits : apply_single_change now change db ≡ commit_change now locked config db

apply_single_change-cases :
    (now : ℕ) (change : ConfigChange) (db : Db)
    → (apply_single_change now change db ≡ db) ⊎ IsCommit now change db
unfolding apply_single_change
apply_single_change-cases now change db = elim (Option-cases (find_id change.id db.changes)) [
  | inl missing ↦ inl (rw (missing, apply_single_change))
  | inr (locked, found) ↦ elim (Bool-cases (is_pending locked.status)) [
    | inr closed ↦ inl (ground arith)
    | inl unapplied ↦ elim (Option-cases (config_row locked.config_id db.config)) [
      | inl missing ↦ inl (ground arith)
      | inr (config, row) ↦ elim (Bool-cases (fits_columns locked.proposed_values)) [
        | inr large ↦ inl (ground arith)
        | inl fits ↦ inr (record {
          locked = locked;
          config = config;
          found = found;
          unapplied = unapplied;
          row = row;
          commits = ground arith;
        })
      ]
    ]
  ]
]

module _ (now : ℕ) (change : ConfigChange) (db : Db) (h : HasConfig db) where
  find_id-apply_single_change :
      (i : ℕ)
      → find_id i (apply_single_change now change db).changes
        ≡ (if i == change.id then settled_find now (find_id i db.changes) else find_id i db.changes)
  unfolding apply_single_change commit_change settled_find
  find_id-apply_single_change i = elim (Option-cases (find_id change.id db.changes)) [
    | inl missing ↦ ground (arith, ap (λ (k : ℕ). find_id k db.changes) {x = i} {y = change.id})
    | inr (locked, found) ↦
        let (config, row) = All-find_id (HasRow db) change.id db.changes h found in
        ground (
          arith,
          id_of-find_id change.id db.changes found,
          find_id-save_self (mark_applied now locked) db.changes,
          find_id-save_ne i (mark_applied now locked) db.changes,
        )
  ]

  apply_single_change-HasConfig : HasConfig (apply_single_change now change db)
  apply_single_change-HasConfig = elim (apply_single_change-cases now change db) [
    | inl same ↦ rw same h
    | inr c ↦ rw c.commits (commit_change-HasConfig now c.locked c.config db c.row h)
  ]

settled_find_twice :
    (now : ℕ) (o : Option ConfigChange) → settled_find now (settled_find now o) ≡ settled_find now o
unfolding settled_find
settled_find_twice now none = refl
settled_find_twice now (some c) = ground arith

-- A whole run: the rows that it reaches are settled, the others are left alone.
find_id-apply_all :
    (i now : ℕ) (cs : List ConfigChange) (db : Db)
    → HasConfig db
    → find_id i (apply_all now cs db).changes
      ≡ (if mem_id i cs then settled_find now (find_id i db.changes) else find_id i db.changes)
unfolding apply_all
find_id-apply_all i now [] db h = refl
find_id-apply_all i now (c ∷ cs) db h = ground (
  arith,
  find_id-apply_all i now cs (apply_single_change now c db)
      (apply_single_change-HasConfig now c db h),
  find_id-apply_single_change now c db h i,
  settled_find_twice now (find_id i db.changes),
)

-- What a scheduler run does to one change.
abbrev pub applied_when_due : ℕ → ConfigChange → ConfigChange
applied_when_due now c =
    if is_pending c.status && leb c.effective_at now && fits_columns c.proposed_values
    then record c { status = applied; applied_at = some now; applied_by = some scheduler }
    else c

-- In a database with unique ids whose changes name an existing configuration row, a scheduler run
-- at time `now` gives exactly the due changes (pending, with effective_at at most `now`) whose values
-- fit the columns of the configuration the status applied, the time `now` and the scheduler's name,
-- and leaves every other change as it was: also a due one whose values do not fit, which the
-- rolled-back transaction leaves pending, without keeping the run from the other changes.
pub apply_due_config_changes-find_id :
    (i now : ℕ) (db : Db) (c : ConfigChange)
    → HasUniqueIds db.changes
    → HasConfig db
    → find_id i db.changes ≡ some c
    → find_id i (apply_due_config_changes now db).changes ≡ some (applied_when_due now c)
unfolding apply_due_config_changes settled_find
apply_due_config_changes-find_id i now db c u h found = ground (
  arith,
  find_id-apply_all i now (due_changes now db) db h,
  mem_id-order_by i (λ (x : ConfigChange). x.effective_at) (select (is_due now) db.changes),
  mem_id-select i (is_due now) db.changes c u found,
)

apply_single_change-HasUniqueIds :
    (now : ℕ) (change : ConfigChange) (db : Db)
    → HasUniqueIds db.changes
    → HasUniqueIds (apply_single_change now change db).changes
unfolding commit_change
apply_single_change-HasUniqueIds now change db u = elim (apply_single_change-cases now change db) [
  | inl same ↦ rw same u
  | inr c ↦ rw c.commits (save-HasUniqueIds (mark_applied now c.locked) db.changes u)
]

apply_all-keeps :
    (now : ℕ) (cs : List ConfigChange) (db : Db)
    → HasUniqueIds db.changes
    → HasConfig db
    → HasUniqueIds (apply_all now cs db).changes × HasConfig (apply_all now cs db)
unfolding apply_all
apply_all-keeps now [] db u h = (u, h)
apply_all-keeps now (c ∷ cs) db u h =
    apply_all-keeps now cs (apply_single_change now c db)
      (apply_single_change-HasUniqueIds now c db u) (apply_single_change-HasConfig now c db h)

module _ (now : ℕ) (db : Db) (u : HasUniqueIds db.changes) (h : HasConfig db) where
  pub apply_due_config_changes-keeps :
      HasUniqueIds (apply_due_config_changes now db).changes
      × HasConfig (apply_due_config_changes now db)
  unfolding apply_due_config_changes
  apply_due_config_changes-keeps = apply_all-keeps now (due_changes now db) db u h

  -- A row that is found after a run was there before it.
  pub apply_due_config_changes-back :
      (i : ℕ) (c : ConfigChange)
      → find_id i (apply_due_config_changes now db).changes ≡ some c
      → (b : ConfigChange) × (find_id i db.changes ≡ some b) × (c ≡ applied_when_due now b)
  unfolding apply_due_config_changes settled_find
  apply_due_config_changes-back i c after = elim (Option-cases (find_id i db.changes)) [
    | inl missing ↦ absurd (ground (arith, find_id-apply_all i now (due_changes now db) db h))
    | inr (b, found) ↦
        (b, found, ground (arith, apply_due_config_changes-find_id i now db b u h found))
  ]
