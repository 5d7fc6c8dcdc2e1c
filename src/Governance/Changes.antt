-- ===== src/Governance/Changes.antt =====
-- The timelocked configuration changes of governance.service.ts: proposing, cancelling, the
-- emergency override and the scheduler. The proofs are in the modules below.
pub mod Timelock
pub mod Lifecycle
pub mod Closing
pub mod Applied
use Prim.Native.String.{String}
use water_credits_backend.Prelude.{
  ℕ, ◌+◌, ◌*◌, Bool, true, false, ◌&&◌, not, Option, none, some, List, [], ◌∷◌, ◌++◌, leb, ◌==◌,
  Result, HttpError, ok, err, bad_request, forbidden, not_found, internal_error, failure, Action,
  ◌>>=◌, ◌>>◌, gets, modify, require, pure, throw_if, if◌then◌else◌, select, order_by, find_id,
  save,
}
use water_credits_backend.Users.{UserRole, is_super_admin}
use water_credits_backend.Governance.Entities.{
  GovernanceConfig, ConfigValues, ConfigChange, pending, applied, cancelled, emergency, is_pending,
  scheduler, wallet, EventType, config_change_proposed, config_change_cancelled,
  config_change_applied, config_emergency_updated, GovernanceEvent, Db, ConfigChange-entity,
}
use water_credits_backend.Governance.Config.{get_config, is_empty, assign, fits_columns}

-- INSERT INTO governance_events
unfoldable pub write_governance_event : EventType → ℕ → ℕ → ConfigValues → Db → Db
write_governance_event type actor change_id values db = record db {
  events =
      db.events
      ++ record { event_type = type; actor = actor; change_id = change_id; values = values } ∷ [];
}

-- configChangeRepo.save
unfoldable pub save_change : ConfigChange → Db → Db
save_change change db = record db { changes = save change db.changes }

-- `id` is the UUID that the database generates for the new row.
abbrev pub new_change : ℕ → ℕ → GovernanceConfig → ℕ → ConfigValues → Option String → ConfigChange
new_change id now config proposed_by values reason = record {
  id = id;
  config_id = config.id;
  proposed_values = values;
  proposed_by = proposed_by;
  effective_at = now + config.timelock_period * 1000;
  status = pending;
  applied_at = none;
  applied_by = none;
  cancelled_at = none;
  cancelled_by = none;
  reason = reason;
}

unfoldable pub propose_config_change :
    ℕ → ℕ → ℕ → ConfigValues → Option String → Action Db ConfigChange
unfolding save_change write_governance_event
propose_config_change id now proposed_by values reason = do
  throw_if (is_empty values) bad_request
  config ← get_config
  let change = new_change id now config proposed_by values reason
  modify (save_change change)
  modify (write_governance_event config_change_proposed proposed_by id values)
  pure change

unfoldable pub get_pending_config_changes : Db → List ConfigChange
get_pending_config_changes db =
    order_by (λ c. c.effective_at) (select (λ c. is_pending c.status) db.changes)

unfoldable pub cancel_config_change : ℕ → ℕ → ℕ → Action Db ConfigChange
unfolding save_change write_governance_event
cancel_config_change now change_id cancelled_by = do
  found ← gets (λ db. find_id change_id db.changes)
  change ← require found not_found
  throw_if (not (is_pending change.status)) bad_request
  let saved = record change {
    status = cancelled;
    cancelled_at = some now;
    cancelled_by = some cancelled_by;
  }
  modify (save_change saved)
  modify
      (write_governance_event config_change_cancelled cancelled_by change_id saved.proposed_values)
  pure saved

abbrev pub emergency_change : ℕ → ℕ → ℕ → ℕ → ConfigValues → Option String → ConfigChange
emergency_change id now config_id actor values reason = record {
  id = id;
  config_id = config_id;
  proposed_values = values;
  proposed_by = actor;
  effective_at = now;
  status = emergency;
  applied_at = some now;
  applied_by = some (wallet actor);
  cancelled_at = none;
  cancelled_by = none;
  reason = reason;
}

-- The audit row is stored before the configuration, whose UPDATE throws where a value does not fit
-- its column.
unfoldable pub emergency_config_update :
    ℕ → ℕ → ℕ → ConfigValues → Option String → UserRole → Action Db GovernanceConfig
unfolding save_change write_governance_event
emergency_config_update id now actor values reason role = do
  throw_if (not (is_super_admin role)) forbidden
  throw_if (is_empty values) bad_request
  config ← get_config
  modify (save_change (emergency_change id now config.id actor values reason))
  throw_if (not (fits_columns values)) failure
  let updated = assign config values actor
  modify (λ db. record db { config = some updated })
  modify (write_governance_event config_emergency_updated actor id values)
  pure updated

abbrev pub is_due : ℕ → ConfigChange → Bool
is_due now c = is_pending c.status && leb c.effective_at now

-- The row of the configuration that a change names.
abbrev pub config_row : ℕ → Option GovernanceConfig → Option GovernanceConfig
config_row i none = none
config_row i (some c) = if c.id == i then some c else none

abbrev pub mark_applied : ℕ → ConfigChange → ConfigChange
mark_applied now c = record c {
  status = applied;
  applied_at = some now;
  applied_by = some scheduler;
}

-- The writes of the transaction, once the locked row and the configuration are read.
unfoldable pub commit_change : ℕ → ConfigChange → GovernanceConfig → Db → Db
unfolding assign save_change write_governance_event
commit_change now locked config db =
    write_governance_event config_change_applied locked.proposed_by locked.id locked.proposed_values
      (save_change (mark_applied now locked)
        (record db { config = some (assign config locked.proposed_values locked.proposed_by) }))

-- Where a value does not fit its column, the UPDATE of the configuration throws, and the catch rolls
-- the transaction back.
unfoldable pub apply_single_change : ℕ → ConfigChange → Db → Db
apply_single_change now change db = elim (find_id change.id db.changes) [
  | none ↦ db
  | some locked ↦
      if not (is_pending locked.status) then db else elim (config_row locked.config_id db.config) [
        | none ↦ db
        | some config ↦
            if fits_columns locked.proposed_values then commit_change now locked config db else db
      ]
]

unfoldable pub apply_all : ℕ → List ConfigChange → Db → Db
apply_all now [] db = db
apply_all now (change ∷ rest) db = apply_all now rest (apply_single_change now change db)

-- SELECT … WHERE status = 'pending' AND effective_at <= now ORDER BY effective_at
unfoldable pub due_changes : ℕ → Db → List ConfigChange
due_changes now db = order_by (λ c. c.effective_at) (select (is_due now) db.changes)

unfoldable pub apply_due_config_changes : ℕ → Db → Db
unfolding due_changes
apply_due_config_changes now db = apply_all now (due_changes now db) db
