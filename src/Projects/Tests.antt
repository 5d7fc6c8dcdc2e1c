-- ===== src/Projects/Tests.antt =====
-- Runs of the operations on projects, and the theorems at concrete inputs.
use water_credits_backend.Prelude.{
  pos, ◌≡◌, ◌⊎◌, refl, true, false, ◌||◌, none, some, [], ◌∷◌, ◌==◌, ok, err, HttpError,
  bad_request, find_id, count_where,
}
use water_credits_backend.Projects.Entities.{
  ProjectStatus, draft, registered, active, Project, Project-entity, find_project,
}
use water_credits_backend.Projects.Lifecycle.{
  CreateProjectDto, UpdateProjectDto, Db, new_project, update, remove,
}
use water_credits_backend.Projects.Lifecycle.Transitions.{IsNext, update_forward, remove_sound}

abbrev dto : CreateProjectDto
dto = record {
  name = "Wetland";
  description = none;
  latitude = pos 0;
  longitude = pos 0;
  methodology = "VM0033";
  area_hectares = 1200;
  baseline_start_date = none;
  baseline_end_date = none;
}

abbrev project : Project
project = new_project 1 1000 7 dto

abbrev db : Db
db = record { projects = project ∷ []; retirements = [] }

abbrev to_status : ProjectStatus → UpdateProjectDto
to_status s = record {
  name = none;
  description = none;
  latitude = none;
  longitude = none;
  methodology = none;
  area_hectares = none;
  baseline_start_date = none;
  baseline_end_date = none;
  status = some s;
}

update_tests :
    ((update 1 (to_status active) (some 7) db).0 ≡ err bad_request)
    × ((update 1 (to_status registered) (some 7) db).0
        ≡ ok (record project { status = registered }))
unfolding update
update_tests = (refl, refl)

update_forward_example :
    (q : Project) × (find_id 1 (update 1 (to_status registered) (some 7) db).1.projects ≡ some q)
    × (q.owner_id ≡ 7)
    × IsNext draft q.status
update_forward_example =
    update_forward 1 (to_status registered) (some 7) db (refl, tt) 1 project refl

remove_sound_example :
    ((e : HttpError) × (remove 5000 1 7 none false db ≡ (err e, db)))
    ⊎ ((p : Project) × (find_project 1 db.projects ≡ some p)
        × ((false || p.owner_id == 7) ≡ true)
        × (count_where (λ r. r.project_id == 1) db.retirements ≡ 0)
        × ((remove 5000 1 7 none false db).0 ≡ ok tt)
        × (find_project 1 (remove 5000 1 7 none false db).1.projects ≡ none))
remove_sound_example = remove_sound 5000 1 7 none false db (refl, tt)
