-- ===== src/Governance/Changes/Applied.antt =====
-- What a configuration change writes over the configuration: by the scheduler, and by an emergency
-- override.
use Prim.Native.String.{String}
use water_credits_backend.Prelude.{
  ℕ, ◌+◌, ◌*◌, ◌≤◌, ◌≡◌, ◌≢◌, refl, ◌∙◌, ap, true, false, Option, none, some, List, [], ◌∷◌, arith,
  ok, err, failure, forbidden, bad_request, find_id, find_id-save_self, find_id-save_ne, save, Bool,
  Bool-cases, inl, inr, ◌⊎◌, or_else, select,
}
use water_credits_backend.Users.{UserRole, is_super_admin}
use water_credits_backend.Governance.Entities.{
  GovernanceConfig, ConfigValues, ConfigChange, is_pending, config_change_proposed, emergency,
  wallet, Db, ConfigChange-entity,
}
use water_credits_backend.Governance.Config.{assign, is_empty, fits_columns}
use water_credits_backend.Governance.Changes.{
  is_due, save_change, write_governance_event, propose_config_change, emergency_config_update,
  config_row, commit_change, apply_single_change, apply_all, due_changes, apply_due_config_changes,
}
use water_credits_backend.Governance.Changes.Lifecycle.{
  config_in_force, get_config_lem, stored, proposed, propose_config_change-full,
}

-- A nullable column: the new value, or the one that is there.
abbrev or_kept : Option ℕ → Option ℕ → Option ℕ
or_kept new old = elim new [ none ↦ old | some n ↦ some n ]

-- The configuration with values written over it by someone.
abbrev pub overwritten : GovernanceConfig → ConfigValues → ℕ → GovernanceConfig
overwritten c v actor = record c {
  protocol_fee_bps = or_else v.protocol_fee_bps c.protocol_fee_bps;
  min_oracle_confirmations = or_else v.min_oracle_confirmations c.min_oracle_confirmations;
  voting_period = or_else v.voting_period c.voting_period;
  timelock_period = or_else v.timelock_period c.timelock_period;
  quorum = or_else v.quorum c.quorum;
  quorum_basis_points = or_else v.quorum_basis_points c.quorum_basis_points;
  ph_min = or_kept v.ph_min c.ph_min;
  ph_max = or_kept v.ph_max c.ph_max;
  do_threshold = or_kept v.do_threshold c.do_threshold;
  temp_penalty_delta = or_kept v.temp_penalty_delta c.temp_penalty_delta;
  weight_volumetric = or_else v.weight_volumetric c.weight_volumetric;
  weight_nitrogen = or_else v.weight_nitrogen c.weight_nitrogen;
  weight_phosphorus = or_else v.weight_phosphorus c.weight_phosphorus;
  updated_by = some actor;
}

assign_lem :
    (c : GovernanceConfig) (v : ConfigValues) (actor : ℕ) → assign c v actor ≡ overwritten c v actor
unfolding assign
assign_lem c v actor = ground arith

-- A new row stands at the end.
select-save_new :
    (p : ConfigChange → Bool) (c : ConfigChange) (rows : List ConfigChange)
    → find_id c.id rows ≡ none
    → p c ≡ true
    → select p rows ≡ []
    → select p (save c rows) ≡ c ∷ []
select-save_new p c [] new held rest = ground (arith, held)
select-save_new p c (x ∷ xs) new held rest = ground (arith, select-save_new p c xs, new, held, rest)

apply_single_change-commits :
    (t : ℕ) (c : ConfigChange) (g : GovernanceConfig) (db : Db)
    → find_id c.id db.changes ≡ some c
    → is_pending c.status ≡ true
    → config_row c.config_id db.config ≡ some g
    → fits_columns c.proposed_values ≡ true
    → apply_single_change t c db ≡ commit_change t c g db
unfolding apply_single_change
apply_single_change-commits t c g db found open_one row fits = ground arith

commit_change-config :
    (t : ℕ) (c : ConfigChange) (g : GovernanceConfig) (db : Db)
    → (commit_change t c g db).config ≡ some (overwritten g c.proposed_values c.proposed_by)
unfolding commit_change write_governance_event save_change
commit_change-config t c g db =
    ap (λ (x : GovernanceConfig). some x) (assign_lem g c.proposed_values c.proposed_by)

module _ (id now actor : ℕ) (values : ConfigValues) (reason : Option String) (db : Db) where
  abbrev change : ConfigChange
  change = proposed id now actor values reason db

  -- Where a stored proposal is the only change that is due at a time from its effective_at on, and its
  -- values fit the columns, the scheduler's run at that time writes the values over the configuration
  -- that was in force, in the proposer's name.
  pub propose_config_change_applied :
      (t : ℕ)
      → is_empty values ≡ false
      → fits_columns values ≡ true
      → find_id id db.changes ≡ none
      → select (is_due t) db.changes ≡ []
      → now + (config_in_force db).timelock_period * 1000 ≤ t
      → let db' = (propose_config_change id now actor values reason db).1 in
        (apply_due_config_changes t db').config
        ≡ some (overwritten (config_in_force db) values actor)
  unfolding apply_due_config_changes due_changes apply_all write_governance_event
  propose_config_change_applied t full fits new others due =
      let due_one = select-save_new (is_due t) change db.changes new (ground arith) others in
      rw (propose_config_change-full id now actor values reason db full, due_one)
        (ap (λ (d : Db). d.config)
            (apply_single_change-commits t change (config_in_force db)
              (write_governance_event config_change_proposed actor id values (stored change db))
              (find_id-save_self change db.changes) refl (ground arith) fits)
          ∙ commit_change-config t change (config_in_force db)
              (write_governance_event config_change_proposed actor id values (stored change db)))

module _ (id now actor : ℕ) (values : ConfigValues) (reason : Option String) (role : UserRole)
    (db : Db) where
  -- The audit row of an emergency update.
  abbrev pub override : ConfigChange
  override = record {
    id = id;
    config_id = (config_in_force db).id;
    proposed_values = values;
    proposed_by = actor;
    effective_at = now;
    status = emergency;
    applied_at = some now;
    applied_by = some (wallet actor);
    cancelled_at = none;
    cancelled_by = none;
    reason = reason;
  }

  -- An emergency update is for super admins only and must name a field: anything else throws and
  -- writes nothing. Otherwise an audit row with the status emergency is stored, and no other change
  -- is touched. Where the values fit the columns, the configuration in force is overwritten at once
  -- and returned; where they do not, the call throws and the configuration stays, but the audit row
  -- stays too.
  pub emergency_config_update_lem :
      let (r, db') = emergency_config_update id now actor values reason role db in
      let updated = overwritten (config_in_force db) values actor in
      ((is_super_admin role ≡ false) × (r ≡ err forbidden) × (db' ≡ db))
      ⊎ ((is_super_admin role ≡ true)
          × (is_empty values ≡ true)
          × (r ≡ err bad_request)
          × (db' ≡ db))
      ⊎ ((is_super_admin role ≡ true)
          × (is_empty values ≡ false)
          × (find_id id db'.changes ≡ some override)
          × ((i : ℕ) → i ≢ id → find_id i db'.changes ≡ find_id i db.changes)
          × (((fits_columns values ≡ true) × (r ≡ ok updated) × (db'.config ≡ some updated))
              ⊎ ((fits_columns values ≡ false)
                  × (r ≡ err failure)
                  × (db'.config ≡ some (config_in_force db)))))
  unfolding emergency_config_update save_change write_governance_event
  emergency_config_update_lem = elim (Bool-cases (is_super_admin role)) [
    | inr other ↦ inl (other, ground arith, ground arith)
    | inl super ↦ inr (elim (Bool-cases (is_empty values)) [
      | inl empty ↦ inl (super, empty, ground arith, ground arith)
      | inr full ↦
          let found = find_id-save_self override db.changes in
          inr (
            super,
            full,
            ground (arith, get_config_lem db, found),
            (λ i other. ground (arith, get_config_lem db, find_id-save_ne i override db.changes)),
            elim (Bool-cases (fits_columns values)) [
              | inl fits ↦ inl (
                fits,
                ground (arith, get_config_lem db, assign_lem (config_in_force db) values actor),
                ground (arith, get_config_lem db, assign_lem (config_in_force db) values actor),
              )
              | inr large ↦
                  inr (large, ground (arith, get_config_lem db), ground (arith, get_config_lem db))
            ],
          )
    ])
  ]
