-- ===== src/Task/Answers.antt =====
-- What the functions on routes of flb_task.h answer after any changes of status.
use mathlib.Core.Quot
use native.Mathlib.Decide.{ℕ_discrete}
use my_repo.Base.{
  ℕ, ◌+◌, ◌≡◌, refl, sym, ap, ◌∙◌, false, true, List, [], ◌∷◌, arith, ◌==◌, has, Distinct,
  if◌then◌else◌,
}
use my_repo.Task.{
  Task, TaskRoute, route_active, count_active, set_status, get_active_route_count, get_route_status,
  set_route_status,
}
use my_repo.Task.Routes.{
  routed, routed-set_status, count_active-add, get_route_status-set_route_status,
}
use my_repo.Task.Unordered.{
  outs, Exchange, active, status, assign_all, route_set, set_all, set_all-assign_all,
  outs-set_status,
}

-- The status that an output was given last, or `before`.
abbrev pub given : List (ℕ × ℕ) → (out before : ℕ) → ℕ
given [] out before = before
given ((o, s) ∷ changes) out before = given changes out (if out == o then s else before)

-- How many routes are active if each has the status that its output was given last.
abbrev pub n_active : List (ℕ × ℕ) → List TaskRoute → ℕ
n_active changes [] = 0
n_active changes (r ∷ rs) =
    (if given changes r.out r.status == route_active then 1 else 0) + n_active changes rs

get_route_status-set_all :
    (changes : List (ℕ × ℕ)) (task : Task) (p : ℕ)
    → routed task.routes p ≡ true
    → get_route_status (set_all changes task) p ≡ given changes p (get_route_status task p)
unfolding set_route_status set_status
get_route_status-set_all [] task p r = refl
get_route_status-set_all ((o, s) ∷ changes) task p r =
    get_route_status-set_all changes (set_route_status task o s) p
      (routed-set_status task.routes o s p ∙ r)
    ∙ ap (given changes p) (get_route_status-set_route_status task o p s ∙ ground arith)

n_active-start : (rs : List TaskRoute) → count_active rs 0 ≡ n_active [] rs
unfolding count_active
n_active-start [] = refl
n_active-start (r ∷ rs) = ground (arith, count_active-add rs 1, n_active-start rs)

-- An output that no route leads to.
n_active-apart :
    (changes : List (ℕ × ℕ)) (rs : List TaskRoute) (o s : ℕ)
    → has o (outs rs) ≡ false
    → n_active ((o, s) ∷ changes) rs ≡ n_active changes rs
n_active-apart changes [] o s d = refl
n_active-apart changes (r ∷ rs) o s d =
    let other : (r.out == o) ≡ false = ground arith in
    rw (other, n_active-apart changes rs o s (ground arith)) refl

n_active-set_status :
    (changes : List (ℕ × ℕ)) (rs : List TaskRoute) (o s : ℕ)
    → Distinct (outs rs)
    → n_active changes (set_status rs o s) ≡ n_active ((o, s) ∷ changes) rs
unfolding set_status
n_active-set_status changes [] o s d = refl
n_active-set_status changes (r ∷ rs) o s d = elim (ℕ_discrete r.out o) [
  | yes e ↦
      let hit : (r.out == o) ≡ true = ground arith in
      rw (hit, n_active-apart changes rs o s (ground (arith, d.0))) refl
  | no ne ↦
      let miss : (r.out == o) ≡ false = ground arith in
      rw (miss, n_active-set_status changes rs o s d.1) refl
]

get_active_route_count-set_all :
    (changes : List (ℕ × ℕ)) (task : Task)
    → Distinct (outs task.routes)
    → get_active_route_count (set_all changes task) ≡ n_active changes task.routes
unfolding get_active_route_count set_route_status
get_active_route_count-set_all [] task d = n_active-start task.routes
get_active_route_count-set_all ((o, s) ∷ changes) task d =
    get_active_route_count-set_all changes (set_route_status task o s)
      (rw (outs-set_status task.routes o s) d)
    ∙ n_active-set_status changes task.routes o s d

-- For a task with routes to different outputs, after any calls of `flb_task_set_route_status`,
-- `flb_task_get_route_status` answers for an output with a route what that output was given last, or
-- its first status, and `flb_task_get_active_route_count` how many routes are active by that; and if
-- two neighbours of the routes change places beforehand, both answers are the same.
pub set_all-unordered :
    (changes : List (ℕ × ℕ)) (task : Task) (routes : List TaskRoute) (p : ℕ)
    → Distinct (outs task.routes)
    → Distinct (outs routes)
    → Exchange task.routes routes
    → routed task.routes p ≡ true
    → let moved = record task { routes = routes } in
      (get_route_status (set_all changes task) p ≡ given changes p (get_route_status task p))
      × (get_route_status (set_all changes moved) p ≡ given changes p (get_route_status task p))
      × (get_active_route_count (set_all changes task) ≡ n_active changes task.routes)
      × (get_active_route_count (set_all changes moved) ≡ n_active changes task.routes)
set_all-unordered changes task routes p d d' e r =
    let moved = record task { routes = routes } in
    let (s, a) = set_all-assign_all changes task d p in
    let (s', a') = set_all-assign_all changes moved d' p in
    let view : route_set task d ≡ route_set moved d' = Quot.sound e in
    let answer = get_route_status-set_all changes task p r in
    let count = get_active_route_count-set_all changes task d in
    (
      answer,
      s' ∙ ap (λ q. status p (assign_all changes q)) (sym view) ∙ sym s ∙ answer,
      count,
      a' ∙ ap (λ q. active (assign_all changes q)) (sym view) ∙ sym a ∙ count,
    )
