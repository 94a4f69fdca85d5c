-- ===== src/Task/Tests.antt =====
-- The theorems on flb_task.h at a task with two routes.
use my_repo.Base.{ℕ, ◌≡◌, refl, List, [], ◌∷◌, arith}
use my_repo.Task.{
  Task, get_active_route_count, get_route_status, set_route_status, activate_route, task_set,
  task_ret, task_id, task_out,
}
use my_repo.Task.Ids.{task_set_roundtrip}
use my_repo.Task.Users.{users_decs, users_decs-destroy, users_decs-retries}
use my_repo.Task.Unordered.{
  here, active, status, assign_all, route_set, set_all, set_all-assign_all,
}
use my_repo.Task.Answers.{given, set_all-unordered}
use my_repo.Task.Routes.{get_route_status-set_route_status, get_active_route_count-activate_route}

abbrev task : Task
task = record {
  id = 1;
  ref_id = 7;
  status = 0;
  users = 2;
  event_chunk = 100;
  ic = 200;
  records = 5;
  routes = record { status = 1; out = 300 } ∷ record { status = 0; out = 400 } ∷ [];
  retries = [];
  i_ins = 500;
  config = 600;
}

task_set_roundtrip_example :
    (task_ret (task_set 2 9000 77) ≡ 2)
    × (task_id (task_set 2 9000 77) ≡ 9000)
    × (task_out (task_set 2 9000 77) ≡ 77)
task_set_roundtrip_example = task_set_roundtrip 2 9000 77 (omega arith) (omega arith) (omega arith)

abbrev log_destroyed : Task → List ℕ → List ℕ
log_destroyed t w = t.id ∷ w

users_decs-destroy_example :
    users_decs log_destroyed 2 task [] ≡ (record task { users = 0 }, 1 ∷ [])
users_decs-destroy_example = users_decs-destroy log_destroyed 1 task [] refl (omega arith) refl

get_route_status-set_route_status_example : get_route_status (set_route_status task 400 2) 400 ≡ 2
get_route_status-set_route_status_example = get_route_status-set_route_status task 400 400 2

get_active_route_count-activate_route_example : get_active_route_count (activate_route task 400) ≡ 2
unfolding get_active_route_count get_route_status
get_active_route_count-activate_route_example = get_active_route_count-activate_route task 400

users_decs-retries_example :
    (users_decs log_destroyed 2
      (record task { retries = record { attempts = 1; o_ins = 300; parent = 1 } ∷ [] })
      []).1
    ≡ []
users_decs-retries_example =
    users_decs-retries log_destroyed 2
      (record task { retries = record { attempts = 1; o_ins = 300; parent = 1 } ∷ [] }) []
      (record { attempts = 1; o_ins = 300; parent = 1 }) [] refl

abbrev changes : List (ℕ × ℕ)
changes = (400, 1) ∷ (300, 2) ∷ []

set_all-assign_all_example :
    (get_route_status (set_all changes task) 300
      ≡ status 300 (assign_all changes (route_set task (refl, (refl, tt)))))
    × (get_active_route_count (set_all changes task)
        ≡ active (assign_all changes (route_set task (refl, (refl, tt)))))
set_all-assign_all_example = set_all-assign_all changes task (refl, (refl, tt)) 300

abbrev moved : Task
moved = record task {
  routes = record { status = 0; out = 400 } ∷ record { status = 1; out = 300 } ∷ [];
}

set_all-unordered_example :
    (get_route_status (set_all changes task) 300 ≡ given changes 300 (get_route_status task 300))
    × (get_route_status (set_all changes moved) 300 ≡ given changes 300 (get_route_status task 300))
    × (get_active_route_count (set_all changes task) ≡ 1)
    × (get_active_route_count (set_all changes moved) ≡ 1)
set_all-unordered_example =
    set_all-unordered changes task moved.routes 300 (refl, (refl, tt)) (refl, (refl, tt)) here refl
