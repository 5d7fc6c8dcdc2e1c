-- ===== src/Governance/Changes/Closing.antt =====
-- The end of a configuration change: cancelled by an admin, or applied by the
-- scheduler.
use mathlib.Core.Path.{subst}
use water_credits_backend.Prelude.{
  ℕ, ◌≡◌, sym, true, false, ◌&&◌, none, some, arith, All-save, All-find_id, ok, err, find_id,
  find_id-save_self, id_of-find_id, Option-cases, Bool-cases, inl, inr, ◌⊎◌, All-of_find_id,
  save-HasUniqueIds, bad_request, not_found,
}
use water_credits_backend.Governance.Entities.{
  ConfigChange, cancelled, is_pending, Db, ConfigChange-entity, config_change_cancelled,
}
use water_credits_backend.Governance.Config.{fits_columns}
use water_credits_backend.Governance.Changes.{
  is_due, apply_due_config_changes, save_change, write_governance_event, cancel_config_change,
}
use water_credits_backend.Governance.Changes.Timelock.{
  HasRow, apply_due_config_changes-find_id, applied_when_due, apply_due_config_changes-keeps,
  apply_due_config_changes-back,
}
use water_credits_backend.Governance.Changes.Lifecycle.{
  IsTimed, IsSound, write_governance_event-IsSound,
}

abbrev pub cancelled_change : ℕ → ℕ → ConfigChange → ConfigChange
cancelled_change now actor c = record c {
  status = cancelled;
  cancelled_at = some now;
  cancelled_by = some actor;
}

-- A scheduler run keeps the invariant: in particular what it applies was due.
pub apply_due_config_changes-IsSound :
    (now : ℕ) (db : Db) → IsSound db → IsSound (apply_due_config_changes now db)
apply_due_config_changes-IsSound now db s =
    let (unique, configured) = apply_due_config_changes-keeps now db s.unique_ids s.configured in
    record {
      unique_ids = unique;
      configured = configured;
      timed = All-of_find_id IsTimed (apply_due_config_changes now db).changes unique (λ i c after.
          let (b, found, e) =
            apply_due_config_changes-back now db s.unique_ids s.configured i c after in
          subst IsTimed (sym e)
            (IsTimed-applied b (All-find_id IsTimed i db.changes s.timed found)));
    }
  where
    IsTimed-applied : (b : ConfigChange) → IsTimed b → IsTimed (applied_when_due now b)
    IsTimed-applied b h = elim (Bool-cases (is_due now b && fits_columns b.proposed_values)) [
      | inl due ↦ λ _. (now, ground arith, ground arith)
      | inr early ↦ let same : applied_when_due now b ≡ b = ground arith in rw same h
    ]

save_cancelled-IsSound :
    (now actor i : ℕ) (c : ConfigChange) (db : Db)
    → IsSound db
    → find_id i db.changes ≡ some c
    → IsSound (save_change (cancelled_change now actor c) db)
unfolding save_change
save_cancelled-IsSound now actor i c db s found = record {
  unique_ids = save-HasUniqueIds (cancelled_change now actor c) db.changes s.unique_ids;
  configured =
      All-save (HasRow db) (cancelled_change now actor c) db.changes s.configured
        (All-find_id (HasRow db) i db.changes s.configured found);
  timed =
      All-save IsTimed (cancelled_change now actor c) db.changes s.timed
        (All-find_id IsTimed i db.changes s.timed found);
}

module _ (now change_id actor : ℕ) (db : Db) where
  -- Cancelling: an unknown change is not found, one that is no longer pending is refused, and
  -- neither writes anything; a pending one is stored as cancelled. The configuration stays.
  pub cancel_config_change_lem :
      let (r, db') = cancel_config_change now change_id actor db in
      ((find_id change_id db.changes ≡ none) × (r ≡ err not_found) × (db' ≡ db))
      ⊎ ((c : ConfigChange) × (find_id change_id db.changes ≡ some c)
          × ((is_pending c.status ≡ false) × (r ≡ err bad_request) × (db' ≡ db)
              ⊎ (is_pending c.status ≡ true)
                × (r ≡ ok (cancelled_change now actor c))
                × (db'
                    ≡ write_governance_event config_change_cancelled actor change_id
                        c.proposed_values
                        (save_change (cancelled_change now actor c) db))))
  unfolding cancel_config_change
  cancel_config_change_lem = elim (Option-cases (find_id change_id db.changes)) [
    | inl missing ↦ inl (missing, ground arith, ground arith)
    | inr (c, found) ↦ inr (
      c,
      found,
      elim (Bool-cases (is_pending c.status)) [
        | inr closed ↦ inl (closed, ground arith, ground arith)
        | inl open_change ↦ inr (open_change, ground arith, ground arith)
      ],
    )
  ]

  pub cancel_config_change-IsSound :
      IsSound db → IsSound (cancel_config_change now change_id actor db).1
  cancel_config_change-IsSound s = elim cancel_config_change_lem [
    | inl (_, _, same) ↦ rw same s
    | inr (c, found, inl (_, _, same)) ↦ rw same s
    | inr (c, found, inr (_, _, after)) ↦ subst IsSound (sym after) (
        write_governance_event-IsSound config_change_cancelled actor change_id c.proposed_values
          (save_change (cancelled_change now actor c) db)
          (save_cancelled-IsSound now actor change_id c db s found))
  ]

  cancelled-found :
      (c : ConfigChange)
      → (cancel_config_change now change_id actor db).0 ≡ ok c
      → (find_id change_id (cancel_config_change now change_id actor db).1.changes ≡ some c)
        × (c.status ≡ cancelled)
  unfolding cancel_config_change
  cancelled-found c done = elim (Option-cases (find_id change_id db.changes)) [
    | inl missing ↦ absurd (ground arith)
    | inr (b, found) ↦
        let same = id_of-find_id change_id db.changes found in
        let kept = find_id-save_self (cancelled_change now actor b) db.changes in
        (ground arith, ground arith)
  ]

  -- A cancelled change is never applied: whenever a cancellation succeeds, every later scheduler
  -- run leaves the change as the cancellation stored it.
  pub cancel_config_change_final :
      (t : ℕ) (c : ConfigChange)
      → IsSound db
      → (cancel_config_change now change_id actor db).0 ≡ ok c
      → find_id change_id
          (apply_due_config_changes t (cancel_config_change now change_id actor db).1).changes
        ≡ some c
  cancel_config_change_final t c s done =
      let db' = (cancel_config_change now change_id actor db).1 in
      let sound = cancel_config_change-IsSound s in
      let (found, closed) = cancelled-found c done in
      let run =
        apply_due_config_changes-find_id change_id t db' c sound.unique_ids sound.configured
          found in
      rw run (ground arith)
