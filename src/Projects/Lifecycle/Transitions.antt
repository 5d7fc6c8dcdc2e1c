-- ===== src/Projects/Lifecycle/Transitions.antt =====
-- How a project's status moves, and what a removal needs.
use mathlib.Core.Path.{subst}
use mathlib.Core.Option.{some_inj}
use water_credits_backend.Prelude.{
  ℕ, ltb, ◌≡◌, refl, Bool, true, false, ◌&&◌, ◌||◌, not, Option, none, some, List, [], ◌∷◌, ◌==◌,
  arith, Bool-cases, Option-cases, inl, inr, ◌⊎◌, is_some, find_id, find_id-save_self,
  find_id-save_ne, id_of-find_id, save, select, count_where, HasUniqueIds, ap, sym, ◌∙◌, ==_iff,
  HttpError, ok, err, bad_request, forbidden, not_found, conflict, if◌then◌else◌,
}
use water_credits_backend.Users.{UserRole}
use water_credits_backend.Projects.Entities.{ProjectStatus, Project, Project-entity, find_project}
use water_credits_backend.Projects.Lifecycle.{
  Db, UpdateProjectDto, same_status, includes, valid_transitions, is_refused, is_other_owner,
  changed, save_project, update, is_admin, hard_remove, soft_remove, remove,
}

find_project-find_id :
    (id : ℕ) (projects : List Project) (p : Project)
    → HasUniqueIds projects
    → find_project id projects ≡ some p
    → find_id id projects ≡ some p
find_project-find_id id [] p u h = cc
find_project-find_id id (x ∷ rest) p u h = ground (
  arith,
  find_project-find_id id rest p u.1,
  u.0,
  ap (λ (j : ℕ). find_id j rest) {x = x.id} {y = id},
)

-- The status stays, or takes one step of VALID_TRANSITIONS.
abbrev pub IsNext : ProjectStatus → ProjectStatus → Type 0
IsNext a b = (same_status b a || includes b (valid_transitions a)) ≡ true

same_status_refl : (s : ProjectStatus) → same_status s s ≡ true
same_status_refl s = ground arith

changed-IsNext :
    (dto : UpdateProjectDto) (p : Project)
    → is_refused dto.status p.status ≡ false
    → IsNext p.status (changed dto p).status
changed-IsNext dto p h = elim (Option-cases dto.status) [
  | inl keeps ↦ ground (arith, same_status_refl p.status)
  | inr (s, moves) ↦ ground arith
]

module _ (id : ℕ) (dto : UpdateProjectDto) (user_id : Option ℕ) (db : Db) where
  pub update-cases :
      ((e : HttpError) × (update id dto user_id db ≡ (err e, db)))
      ⊎ ((p : Project) × (find_project id db.projects ≡ some p)
          × (is_other_owner user_id p ≡ false)
          × (is_refused dto.status p.status ≡ false)
          × (update id dto user_id db ≡ (ok (changed dto p), save_project (changed dto p) db)))
  unfolding update
  update-cases = elim (Option-cases (find_project id db.projects)) [
    | inl missing ↦ inl (not_found, ground (arith, missing))
    | inr (p, found) ↦ elim (Bool-cases (is_other_owner user_id p)) [
      | inl other ↦ inl (forbidden, ground (arith, found, other))
      | inr own ↦ elim (Bool-cases (is_refused dto.status p.status)) [
        | inl refused ↦ inl (bad_request, ground (arith, found, own, refused))
        | inr allowed ↦ inr (p, found, own, allowed, ground (arith, found, own, allowed))
      ]
    ]
  ]

  -- However an update ends, where ids are unique every project is still there, with its owner, and
  -- its status is as it was or one step of VALID_TRANSITIONS further.
  pub update_forward :
      HasUniqueIds db.projects
      → (i : ℕ) (p : Project) → find_id i db.projects ≡ some p
      → (q : Project) × (find_id i (update id dto user_id db).1.projects ≡ some q)
        × (q.owner_id ≡ p.owner_id)
        × IsNext p.status q.status
  unfolding save_project
  update_forward u i p there = elim update-cases [
    | inl (e, fails) ↦ (p, rw fails there, refl, ground (arith, same_status_refl p.status))
    | inr (old, found, own, allowed, saves) ↦
        let row = find_project-find_id id db.projects old u found in
        elim (Bool-cases (i == id)) [
          | inl same ↦
              let e : i ≡ id = (==_iff i id).0 same in
              let is_p : old ≡ p =
                some_inj.0 (sym row ∙ ap (λ (j : ℕ). find_id j db.projects) (sym e) ∙ there) in
              (
                changed dto old,
                rw saves (
                    ap (λ (j : ℕ). find_id j (save (changed dto old) db.projects))
                      (e ∙ sym (id_of-find_id id db.projects row))
                    ∙ find_id-save_self (changed dto old) db.projects),
                ap (λ x. x.owner_id) is_p,
                subst (λ x. IsNext x.status (changed dto old).status) is_p
                    (changed-IsNext dto old allowed),
              )
          | inr other ↦ (
            p,
            rw saves (
                find_id-save_ne i (changed dto old) db.projects
                  (ground (arith, id_of-find_id id db.projects row))
                ∙ there),
            refl,
            ground (arith, same_status_refl p.status),
          )
        ]
  ]

removed_row :
    (id : ℕ) (projects : List Project)
    → find_project id (select (λ p. not (p.id == id)) projects) ≡ none
removed_row id [] = refl
removed_row id (x ∷ rest) = ground (arith, removed_row id rest)

absent_row :
    (id : ℕ) (projects : List Project)
    → find_id id projects ≡ none
    → find_project id projects ≡ none
absent_row id [] h = refl
absent_row id (x ∷ rest) h = ground (arith, absent_row id rest)

deleted_row :
    (id : ℕ) (r : Project) (projects : List Project)
    → HasUniqueIds projects
    → r.id ≡ id
    → is_some r.deleted_at ≡ true
    → find_project id (save r projects) ≡ none
deleted_row id r [] u same gone = ground (arith, gone)
deleted_row id r (x ∷ rest) u same gone = ground (
  arith,
  gone,
  deleted_row id r rest u.1 same gone,
  absent_row id rest,
  u.0,
  ap (λ (j : ℕ). find_id j rest) {x = x.id} {y = id},
)

module _ (now id user_id : ℕ) (role : Option UserRole) (force : Bool) (db : Db) where
  removed : Project → Db
  removed p = (if force && is_admin role then hard_remove id else soft_remove now p) db

  removes :
      (p : Project)
      → find_project id db.projects ≡ some p
      → (is_admin role || p.owner_id == user_id) ≡ true
      → ltb 0 (count_where (λ r. r.project_id == id) db.retirements) ≡ false
      → remove now id user_id role force db ≡ (ok tt, removed p)
  unfolding remove removed
  removes p found may free = ground (arith, found, may, free)

  removed-gone :
      (p : Project)
      → HasUniqueIds db.projects
      → find_id id db.projects ≡ some p
      → find_project id (removed p).projects ≡ none
  unfolding removed hard_remove soft_remove save_project
  removed-gone p u row = elim (Bool-cases (force && is_admin role)) [
    | inl hard ↦ rw hard (removed_row id db.projects)
    | inr soft ↦ rw soft (
        deleted_row id (record p { is_active = false; deleted_at = some now }) db.projects u
          (id_of-find_id id db.projects row) refl)
  ]

  -- A removal throws, and then it has written nothing; or it succeeds, and then the caller was an
  -- admin or the owner, the project had no retirements, and, where ids are unique, it can no longer
  -- be found.
  pub remove_sound :
      HasUniqueIds db.projects
      → ((e : HttpError) × (remove now id user_id role force db ≡ (err e, db)))
        ⊎ ((p : Project) × (find_project id db.projects ≡ some p)
            × ((is_admin role || p.owner_id == user_id) ≡ true)
            × (count_where (λ r. r.project_id == id) db.retirements ≡ 0)
            × ((remove now id user_id role force db).0 ≡ ok tt)
            × (find_project id (remove now id user_id role force db).1.projects ≡ none))
  unfolding remove
  remove_sound u = elim (Option-cases (find_project id db.projects)) [
    | inl missing ↦ inl (not_found, ground (arith, missing))
    | inr (p, found) ↦ elim (Bool-cases (is_admin role || p.owner_id == user_id)) [
      | inr stranger ↦ inl (forbidden, ground (arith, found, stranger))
      | inl may ↦ elim (Bool-cases (ltb 0 (count_where (λ r. r.project_id == id) db.retirements))) [
        | inl kept ↦ inl (conflict, ground (arith, found, may, kept))
        | inr free ↦
            let row = find_project-find_id id db.projects p u found in
            let done = removes p found may free in
            inr (p, found, may, ground arith, rw done refl, rw done (removed-gone p u row))
      ]
    ]
  ]
