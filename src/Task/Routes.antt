-- ===== src/Task/Routes.antt =====
-- The status of a task's routes: what a change of one shows of itself and of the others.
use my_repo.Base.{
  ℕ, ◌+◌, ◌≡◌, refl, Bool, false, ◌&&◌, ◌||◌, not, List, [], ◌∷◌, arith, ◌==◌, if◌then◌else◌,
}
use my_repo.Task.{
  Task, TaskRoute, route_active, count_active, status_of, set_status, get_active_route_count,
  get_route_status, set_route_status, activate_route,
}

-- The task has a route to the output.
abbrev pub routed : List TaskRoute → ℕ → Bool
routed [] o = false
routed (r ∷ rs) o = (r.out == o) || routed rs o

pub routed-set_status :
    (rs : List TaskRoute) (o s p : ℕ) → routed (set_status rs o s) p ≡ routed rs p
unfolding set_status
routed-set_status [] o s p = refl
routed-set_status (r ∷ rs) o s p = ground (arith, routed-set_status rs o s p)

status_of-set_status :
    (rs : List TaskRoute) (o p s : ℕ)
    → status_of (set_status rs o s) p ≡ (if (p == o) && routed rs o then s else status_of rs p)
unfolding status_of set_status
status_of-set_status [] o p s = ground arith
status_of-set_status (r ∷ rs) o p s = ground (arith, status_of-set_status rs o p s)

-- After `flb_task_set_route_status` for one output, `flb_task_get_route_status` answers for any
-- output: the new status if it is that output and the task has a route to it, else as before.
pub get_route_status-set_route_status :
    (task : Task) (o p s : ℕ)
    → get_route_status (set_route_status task o s) p
      ≡ (if (p == o) && routed task.routes o then s else get_route_status task p)
unfolding get_route_status set_route_status
get_route_status-set_route_status task o p s = status_of-set_status task.routes o p s

pub count_active-add : (rs : List TaskRoute) (n : ℕ) → count_active rs n ≡ n + count_active rs 0
unfolding count_active
count_active-add [] n = omega arith
count_active-add (r ∷ rs) n =
    ground (arith, count_active-add rs (n + 1), count_active-add rs n, count_active-add rs 1)

count_active-set_status :
    (rs : List TaskRoute) (o : ℕ)
    → count_active (set_status rs o route_active) 0
      ≡ count_active rs 0 + (if routed rs o && not (status_of rs o == route_active) then 1 else 0)
unfolding count_active set_status status_of
count_active-set_status [] o = refl
count_active-set_status (r ∷ rs) o = ground (
  arith,
  count_active-add rs 1,
  count_active-add (set_status rs o route_active) 1,
  count_active-set_status rs o,
)

-- `flb_task_activate_route` raises `flb_task_get_active_route_count` by one if the task has a route
-- to the output that was not active, and leaves it otherwise.
pub get_active_route_count-activate_route :
    (task : Task) (o : ℕ)
    → get_active_route_count (activate_route task o)
      ≡ get_active_route_count task
        + (if routed task.routes o && not (get_route_status task o == route_active) then 1 else 0)
unfolding get_active_route_count activate_route set_route_status get_route_status
get_active_route_count-activate_route task o = count_active-set_status task.routes o
