-- ===== src/Governance/Changes/Lifecycle.antt =====
-- The life of a configuration change: the invariant of the table, and what each operation may do.
use Prim.Native.String.{String}
use water_credits_backend.Prelude.{
  ◌≢◌, find_id-save_ne, if◌then◌else◌, find_id-save_self, ℕ, ◌+◌, ◌*◌, ◌≤◌, ◌<◌, ◌≡◌, refl, sym,
  true, false, Option, none, some, arith, All, All-save, ok, err, find_id, find_id-save_self,
  HasUniqueIds, save, save-HasUniqueIds, Option-cases, Bool-cases, inl, inr, ◌⊎◌, or_else,
  All-weaken, bad_request,
}
use mathlib.Core.Path.{subst}
use water_credits_backend.Governance.Entities.{
  GovernanceConfig, ConfigValues, ConfigChange, pending, applied, Db, ConfigChange-entity,
  scheduler, EventType, config_change_proposed,
}
use water_credits_backend.Governance.Config.{default_config, get_config, is_empty, fits_columns}
use water_credits_backend.Governance.Changes.{
  apply_due_config_changes, write_governance_event, propose_config_change,
}
use water_credits_backend.Governance.Changes.Timelock.{
  HasConfig, HasRow, apply_due_config_changes-find_id,
}

-- The configuration in force: the row, or the one that getConfig is about to insert.
abbrev pub config_in_force : Db → GovernanceConfig
config_in_force db = or_else db.config default_config

-- What the scheduler applied, it applied no earlier than the change's effective_at.
abbrev pub IsTimed : ConfigChange → Type 0
IsTimed c = c.applied_by ≡ some scheduler → (t : ℕ) × (c.applied_at ≡ some t) × (c.effective_at ≤ t)

pub record IsSound (db : Db) : Type 0 where
  pub unique_ids : HasUniqueIds db.changes
  pub configured : HasConfig db
  pub timed : All IsTimed db.changes

-- getConfig always answers, with the configuration in force, which it stores.
pub get_config_lem :
    (db : Db)
    → get_config db ≡ (ok (config_in_force db), record db { config = some (config_in_force db) })
unfolding get_config
get_config_lem db = elim (Option-cases db.config) [
  | inl cold ↦ ground arith
  | inr (c, warm) ↦ ground arith
]

-- The database after a change row is stored, with the configuration in force.
abbrev pub stored : ConfigChange → Db → Db
stored c db = record db { config = some (config_in_force db); changes = save c db.changes }

pub stored-IsSound :
    (c : ConfigChange) (db : Db)
    → IsSound db
    → HasRow (stored c db) c
    → IsTimed c
    → IsSound (stored c db)
stored-IsSound c db s row timed = record {
  unique_ids = save-HasUniqueIds c db.changes s.unique_ids;
  configured =
      All-save (HasRow (stored c db)) c db.changes
        (All-weaken (HasRow db) (HasRow (stored c db)) db.changes (HasRow-stored db.config refl)
          s.configured)
        row;
  timed = All-save IsTimed c db.changes s.timed timed;
}
  where
    HasRow-stored :
        (o : Option GovernanceConfig)
        → db.config ≡ o
        → (x : ConfigChange) → HasRow db x
        → HasRow (stored c db) x
    HasRow-stored none e x (g, found) = cc (rw e at found)
    HasRow-stored (some k) e x (g, found) = (g, rw e (rw e at found))

-- An audit event touches neither the changes nor the configuration.
pub write_governance_event-IsSound :
    (type : EventType) (actor id : ℕ) (values : ConfigValues) (db : Db)
    → IsSound db
    → IsSound (write_governance_event type actor id values db)
unfolding write_governance_event
write_governance_event-IsSound type actor id values db s = record {
  unique_ids = s.unique_ids;
  configured = s.configured;
  timed = s.timed;
}

module _ (id now actor : ℕ) (values : ConfigValues) (reason : Option String) (db : Db) where
  -- The change that is stored: pending, and effective a full timelock period from now.
  abbrev pub proposed : ConfigChange
  proposed = record {
    id = id;
    config_id = (config_in_force db).id;
    proposed_values = values;
    proposed_by = actor;
    effective_at = now + (config_in_force db).timelock_period * 1000;
    status = pending;
    applied_at = none;
    applied_by = none;
    cancelled_at = none;
    cancelled_by = none;
    reason = reason;
  }

  -- A proposal with no field is refused and writes nothing; any other is stored as a pending change
  -- that becomes effective a full timelock period from now, and leaves the configuration in force
  -- as it is.
  pub propose_config_change_lem :
      let (r, db') = propose_config_change id now actor values reason db in
      ((is_empty values ≡ true) × (r ≡ err bad_request) × (db' ≡ db))
      ⊎ ((is_empty values ≡ false)
          × (proposed.status ≡ pending)
          × (proposed.effective_at ≡ now + (config_in_force db).timelock_period * 1000)
          × (r ≡ ok proposed)
          × (find_id id db'.changes ≡ some proposed)
          × ((i : ℕ) → i ≢ id → find_id i db'.changes ≡ find_id i db.changes)
          × (config_in_force db' ≡ config_in_force db))
  unfolding propose_config_change
  propose_config_change_lem = elim (Bool-cases (is_empty values)) [
    | inl empty ↦ inl (empty, ground arith, ground arith)
    | inr full ↦ inr (
      full,
      refl,
      refl,
      ground (arith, get_config_lem db),
      ground (arith, get_config_lem db, find_id-save_self proposed db.changes),
      (λ i other. ground (arith, get_config_lem db, find_id-save_ne i proposed db.changes)),
      ground (arith, get_config_lem db),
    )
  ]

  pub propose_config_change-full :
      is_empty values ≡ false
      → (propose_config_change id now actor values reason db).1
        ≡ write_governance_event config_change_proposed actor id values (stored proposed db)
  unfolding propose_config_change
  propose_config_change-full full = ground (arith, get_config_lem db)

  pub propose_config_change-IsSound :
      IsSound db → IsSound (propose_config_change id now actor values reason db).1
  unfolding propose_config_change
  propose_config_change-IsSound s = elim (Bool-cases (is_empty values)) [
    | inl empty ↦ rw empty s
    | inr full ↦ subst IsSound (sym (propose_config_change-full full)) (
        write_governance_event-IsSound config_change_proposed actor id values (stored proposed db)
          (stored-IsSound proposed db s (config_in_force db, ground arith) (λ h. cc h)))
  ]

  -- A stored proposal stays pending through every scheduler run before its effective_at, which is a
  -- full timelock period after it was made. A run at or after that time gives it the status applied,
  -- the time of the run and the scheduler's name where its values fit the columns of the
  -- configuration, and leaves it pending where they do not.
  pub propose_config_change_timelocked :
      (t : ℕ)
      → IsSound db
      → is_empty values ≡ false
      → find_id id db.changes ≡ none
      → let db' = (propose_config_change id now actor values reason db).1 in
        let found = find_id id (apply_due_config_changes t db').changes in
        (t < now + (config_in_force db).timelock_period * 1000 → found ≡ some proposed)
        × (now + (config_in_force db).timelock_period * 1000 ≤ t
            → found ≡ (
                if fits_columns values
                then some (record proposed {
                  status = applied;
                  applied_at = some t;
                  applied_by = some scheduler;
                })
                else some proposed))
  propose_config_change_timelocked t s full new =
      let sound = propose_config_change-IsSound s in
      let after = (propose_config_change id now actor values reason db).1 in
      let kept : find_id id after.changes ≡ some proposed = elim propose_config_change_lem [
        | inl refused ↦ cc refused.0
        | inr (_, _, _, _, saved, _, _) ↦ saved
      ] in
      let run =
        apply_due_config_changes-find_id id t after proposed sound.unique_ids sound.configured
          kept in
      (λ early. ground arith, λ due. ground arith)
