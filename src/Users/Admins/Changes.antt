-- ===== src/Users/Admins/Changes.antt =====
-- Every operation of UsersService leaves an active admin.
use water_credits_backend.Prelude.{
  ℕ, ◌≡◌, Bool, true, false, ◌&&◌, not, some, ◌==◌, arith, Bool-cases, or_else, Option-cases, inl,
  inr, count_where, find_id, id_of-find_id, ok, err, forbidden, not_found, ap,
}
use water_credits_backend.Users.{UserRole, User, User-entity}
use water_credits_backend.Users.Accounts.{
  AuditEvent, Db, UpdateUserDto, is_admin_role, save_user, write_audit_event, update_profile,
  update_kyc_status, is_remaining_admin, run_if, user_restored, role_changed, kyc_status_changed,
  kyc, roles, no_payload, assert_not_last_active_admin, update_role, restore,
}
use water_credits_backend.Users.Admins.{
  IsSound, audit-IsSound, save_user-IsSound, save_user-left, ends-IsSound,
}

module _ (id : ℕ) (dto : UpdateUserDto) (db : Db) where
  profile_of : User → User
  profile_of u = record u {
    email = or_else dto.email u.email;
    display_name = or_else dto.display_name u.display_name;
  }

  pub update_profile-IsSound : IsSound db → IsSound (update_profile id dto db).1
  unfolding update_profile profile_of
  update_profile-IsSound h = elim (Option-cases (find_id id db.users)) [
    | inl missing ↦ ends-IsSound (update_profile id dto) (err not_found) db db (ground arith) h
    | inr (u, found) ↦
        ends-IsSound (update_profile id dto) (ok (profile_of u)) db (save_user (profile_of u) db)
          (ground arith)
          (save_user-IsSound (profile_of u) u db
            (ground (arith, found, id_of-find_id id db.users found)) (λ k. k) h)
  ]

module _ (inserts : AuditEvent → Bool) (actor id : ℕ) (db : Db) where
  restored : User → User
  restored u = record u { is_active = true }

  restore_event : AuditEvent
  restore_event = record {
    event_type = user_restored;
    actor = actor;
    target = id;
    payload = no_payload;
  }

  pub restore-IsSound : IsSound db → IsSound (restore inserts actor id db).1
  unfolding restore restored restore_event
  restore-IsSound h = elim (Option-cases (find_id id db.users)) [
    | inl missing ↦ ends-IsSound (restore inserts actor id) (err not_found) db db (ground arith) h
    | inr (u, found) ↦
        ends-IsSound (restore inserts actor id) (ok (restored u)) db
          (write_audit_event inserts restore_event (save_user (restored u) db)) (ground arith)
          (audit-IsSound inserts restore_event (save_user (restored u) db) (
            save_user-IsSound (restored u) u db
              (ground (arith, found, id_of-find_id id db.users found)) (λ k. ground arith) h))
  ]

  module _ (verified : Bool) where
    verify : User → User
    verify u = record u { is_kyc_verified = verified }

    kyc_event : User → AuditEvent
    kyc_event u = record {
      event_type = kyc_status_changed;
      actor = actor;
      target = id;
      payload = kyc u.is_kyc_verified verified;
    }

    pub update_kyc_status-IsSound :
        IsSound db → IsSound (update_kyc_status inserts actor id verified db).1
    unfolding update_kyc_status verify kyc_event
    update_kyc_status-IsSound h = elim (Bool-cases (actor == id)) [
      | inl self ↦
          ends-IsSound (update_kyc_status inserts actor id verified) (err forbidden) db db
            (ground arith) h
      | inr other ↦ elim (Option-cases (find_id id db.users)) [
        | inl missing ↦
            ends-IsSound (update_kyc_status inserts actor id verified) (err not_found) db db
              (ground arith) h
        | inr (u, found) ↦
            ends-IsSound (update_kyc_status inserts actor id verified) (ok (verify u)) db
              (write_audit_event inserts (kyc_event u) (save_user (verify u) db)) (ground arith)
              (audit-IsSound inserts (kyc_event u) (save_user (verify u) db) (
                save_user-IsSound (verify u) u db
                  (ground (arith, found, id_of-find_id id db.users found)) (λ k. k) h))
      ]
    ]

  module _ (new_role : UserRole) where
    promote : User → User
    promote u = record u { role = new_role }

    role_event : User → AuditEvent
    role_event u = record {
      event_type = role_changed;
      actor = actor;
      target = id;
      payload = roles u.role new_role;
    }

    -- Once a change of role has passed its guards.
    changes-IsSound :
        (u : User)
        → IsSound (save_user (promote u) db)
        → (actor == id) ≡ false
        → find_id id db.users ≡ some u
        → run_if
            (is_admin_role u.role && not (is_admin_role new_role))
            (assert_not_last_active_admin id)
            db
          ≡ (ok tt, db)
        → IsSound (update_role inserts actor id new_role db).1
    unfolding update_role promote role_event
    changes-IsSound u h other found guard =
        ends-IsSound (update_role inserts actor id new_role) (ok (promote u)) db
          (write_audit_event inserts (role_event u) (save_user (promote u) db))
          (ground (arith, guard))
          (audit-IsSound inserts (role_event u) (save_user (promote u) db) h)

    pub update_role-IsSound : IsSound db → IsSound (update_role inserts actor id new_role db).1
    unfolding update_role assert_not_last_active_admin promote
    update_role-IsSound h = elim (Bool-cases (actor == id)) [
      | inl self ↦
          ends-IsSound (update_role inserts actor id new_role) (err forbidden) db db (ground arith)
            h
      | inr other ↦ elim (Option-cases (find_id id db.users)) [
        | inl missing ↦
            ends-IsSound (update_role inserts actor id new_role) (err not_found) db db
              (ground arith) h
        | inr (u, found) ↦
            elim (Bool-cases (is_admin_role u.role && not (is_admin_role new_role))) [
              | inl demotes ↦
                  elim (Bool-cases (count_where (is_remaining_admin id) db.users == 0)) [
                    | inl last ↦
                        ends-IsSound (update_role inserts actor id new_role) (err forbidden) db db
                          (ground (arith, demotes)) h
                    | inr left ↦
                        changes-IsSound u
                          (save_user-left (promote u) db
                            (ground (
                              arith,
                              left,
                              id_of-find_id id db.users found,
                              ap (λ (j : ℕ). count_where (is_remaining_admin j) db.users == 0)
                                  {x = u.id} {y = id},
                            ))
                            h)
                          other found (ground (arith, demotes))
                  ]
              | inr keeps ↦
                  changes-IsSound u
                    (save_user-IsSound (promote u) u db
                      (ground (arith, found, id_of-find_id id db.users found)) (λ k. ground arith)
                      h)
                    other found (ground (arith, keeps))
            ]
      ]
    ]
