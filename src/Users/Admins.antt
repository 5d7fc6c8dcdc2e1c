-- ===== src/Users/Admins.antt =====
-- The promise of UsersService that one active admin is always left.
pub mod Changes
pub mod Calls
use water_credits_backend.Prelude.{
  ℕ, ◌+◌, ◌≤◌, ◌≡◌, refl, Bool, true, false, ◌&&◌, not, Option, none, some, List, [], ◌∷◌, ◌==◌,
  arith, Bool-cases, Option-cases, inl, inr, if◌then◌else◌, count_where, find_id, save, update_id,
  id_of-find_id, HasUniqueIds, save-HasUniqueIds, update_id-HasUniqueIds, ap, Result, Action, ok,
  err, forbidden, not_found,
}
use water_credits_backend.Users.{UserRole, User, User-entity}
use water_credits_backend.Users.Accounts.{
  AuditEvent, Db, UpdateUserDto, is_admin_role, save_user, write_audit_event, update_profile,
  update_kyc_status, is_remaining_admin, run_if, user_deactivated, role,
  assert_not_last_active_admin, update_role, deactivate, soft_delete, restore,
}

abbrev pub is_active_admin : User → Bool
is_active_admin u = is_admin_role u.role && u.is_active

abbrev pub HasActiveAdmin : List User → Type 0
HasActiveAdmin users = 1 ≤ count_where is_active_admin users

-- Saving a user takes no other admin away.
save-remaining :
    (r : User) (users : List User)
    → count_where (is_remaining_admin r.id) users ≤ count_where is_active_admin (save r users)
save-remaining r [] = ground arith
save-remaining r (u ∷ users) = ground (arith, save-remaining r users, remaining_active r.id users)
  where
    remaining_active :
        (id : ℕ) (users : List User)
        → count_where (is_remaining_admin id) users ≤ count_where is_active_admin users
    remaining_active id [] = omega arith
    remaining_active id (u ∷ users) = ground (arith, remaining_active id users)

-- Saving a user that stays an active admin, if it was one, takes no admin away.
save-active :
    (r old : User) (users : List User)
    → find_id r.id users ≡ some old
    → (is_active_admin old ≡ true → is_active_admin r ≡ true)
    → count_where is_active_admin users ≤ count_where is_active_admin (save r users)
save-active r old [] found k = cc
save-active r old (u ∷ users) found k = ground (arith, save-active r old users, k)

deactivate-remaining :
    (id : ℕ) (users : List User)
    → count_where (is_remaining_admin id) users
      ≤ count_where is_active_admin (update_id id deactivate users)
deactivate-remaining id [] = omega arith
deactivate-remaining id (u ∷ users) = ground (arith, deactivate-remaining id users)

deactivate-none :
    (id : ℕ) (users : List User)
    → find_id id users ≡ none
    → count_where is_active_admin (update_id id deactivate users)
      ≡ count_where is_active_admin users
deactivate-none id [] missing = refl
deactivate-none id (u ∷ users) missing = ground (arith, deactivate-none id users)

deactivate-others :
    (id : ℕ) (old : User) (users : List User)
    → HasUniqueIds users
    → find_id id users ≡ some old
    → is_admin_role old.role ≡ false
    → count_where is_active_admin (update_id id deactivate users)
      ≡ count_where is_active_admin users
deactivate-others id old [] unique found h = cc
deactivate-others id old (u ∷ users) unique found h = ground (
  arith,
  deactivate-others id old users unique.1,
  deactivate-none id users,
  unique.0,
  ap (λ (j : ℕ). find_id j users) {x = u.id} {y = id},
)

-- The primary key, and the promise.
pub record IsSound (db : Db) : Type 0 where
  pub unique : HasUniqueIds db.users
  pub admins : HasActiveAdmin db.users

pub audit-IsSound :
    (inserts : AuditEvent → Bool) (event : AuditEvent) (db : Db)
    → IsSound db
    → IsSound (write_audit_event inserts event db)
unfolding write_audit_event
audit-IsSound inserts event db h = elim (Bool-cases (inserts event)) [
  | inl stored ↦ rw stored (record { unique = h.unique; admins = h.admins })
  | inr lost ↦ rw lost h
]

-- Saving a changed row of a user that is there, who stays an active admin or leaves another one.
pub save_user-IsSound :
    (r old : User) (db : Db)
    → find_id r.id db.users ≡ some old
    → (is_active_admin old ≡ true → is_active_admin r ≡ true)
    → IsSound db
    → IsSound (save_user r db)
unfolding save_user
save_user-IsSound r old db found k h = record {
  unique = save-HasUniqueIds r db.users h.unique;
  admins = omega (arith, h.admins, save-active r old db.users found k);
}

pub save_user-left :
    (r : User) (db : Db)
    → (count_where (is_remaining_admin r.id) db.users == 0) ≡ false
    → IsSound db
    → IsSound (save_user r db)
unfolding save_user
save_user-left r db left h = record {
  unique = save-HasUniqueIds r db.users h.unique;
  admins = ground (arith, save-remaining r db.users, left);
}

deactivated : ℕ → Db → Db
deactivated id db = record db { users = update_id id deactivate db.users }

pub ends-IsSound :
    {A : Type 0} (m : Action Db A) (r : Result A) (db db' : Db)
    → m db ≡ (r, db')
    → IsSound db'
    → IsSound (m db).1
ends-IsSound m r db db' e h = rw e h

module _ (inserts : AuditEvent → Bool) (actor id : ℕ) (db : Db) where
  delete_event : User → AuditEvent
  delete_event u = record {
    event_type = user_deactivated;
    actor = actor;
    target = id;
    payload = role u.role;
  }

  -- Once a deactivation has passed its guards.
  deletes-IsSound :
      (u : User)
      → IsSound (deactivated id db)
      → (actor == id) ≡ false
      → find_id id db.users ≡ some u
      → run_if (is_admin_role u.role) (assert_not_last_active_admin id) db ≡ (ok tt, db)
      → IsSound (soft_delete inserts actor id db).1
  unfolding soft_delete deactivated delete_event
  deletes-IsSound u h other found guard =
      elim (Bool-cases (count_where (λ x. x.id == id) db.users == 0)) [
        | inl nothing ↦
            ends-IsSound (soft_delete inserts actor id) (err not_found) db (deactivated id db)
              (ground (arith, guard, nothing)) h
        | inr something ↦
            ends-IsSound (soft_delete inserts actor id) (ok tt) db
              (write_audit_event inserts (delete_event u) (deactivated id db))
              (ground (arith, guard, something))
              (audit-IsSound inserts (delete_event u) (deactivated id db) h)
      ]

  pub soft_delete-IsSound : IsSound db → IsSound (soft_delete inserts actor id db).1
  unfolding soft_delete assert_not_last_active_admin deactivated
  soft_delete-IsSound h = elim (Bool-cases (actor == id)) [
    | inl self ↦ ends-IsSound (soft_delete inserts actor id) (err forbidden) db db (ground arith) h
    | inr other ↦ elim (Option-cases (find_id id db.users)) [
      | inl missing ↦
          ends-IsSound (soft_delete inserts actor id) (err not_found) db db (ground arith) h
      | inr (u, found) ↦ elim (Bool-cases (is_admin_role u.role)) [
        | inl admin_user ↦ elim (Bool-cases (count_where (is_remaining_admin id) db.users == 0)) [
          | inl last ↦
              ends-IsSound (soft_delete inserts actor id) (err forbidden) db db (ground arith) h
          | inr left ↦
              deletes-IsSound u
                (record {
                  unique = update_id-HasUniqueIds id deactivate db.users (λ x. refl) h.unique;
                  admins = ground (arith, deactivate-remaining id db.users, left);
                })
                other found (ground arith)
        ]
        | inr user ↦
            deletes-IsSound u
              (record {
                unique = update_id-HasUniqueIds id deactivate db.users (λ x. refl) h.unique;
                admins =
                    omega (arith, h.admins, deactivate-others id u db.users h.unique found user);
              })
              other found (ground arith)
      ]
    ]
  ]
