-- ===== src/Task/Unordered.antt =====
-- The routes of a task as a set: the quotient that forgets the order in which the outputs were
-- linked, and the functions on routes of flb_task.h over it.
use mathlib.Core.Quot
use mathlib.Core.Quot.{Quot, Quot-set}
use native.Mathlib.Decide.{ℕ_discrete}
use native.Mathlib.Nat.{ℕ_set}
use my_repo.Base.{ℕ, ◌+◌, ◌≡◌, refl, false, true, List, [], ◌∷◌, arith, ◌==◌, Distinct}
use my_repo.Task.{
  Task, TaskRoute, count_active, status_of, set_status, get_active_route_count, get_route_status,
  set_route_status,
}

abbrev pub outs : List TaskRoute → List ℕ
outs [] = []
outs (r ∷ rs) = r.out ∷ outs rs

-- Two neighbours are exchanged somewhere in the list.
pub data Exchange : List TaskRoute → List TaskRoute → Type 0 where
  here : {q r : TaskRoute} {rs : List TaskRoute} → Exchange (q ∷ r ∷ rs) (r ∷ q ∷ rs)
  below : {r : TaskRoute} {rs ss : List TaskRoute} → Exchange rs ss → Exchange (r ∷ rs) (r ∷ ss)

-- Routes to different outputs, and these up to their order.
abbrev pub Routing : Type 0
Routing = (rs : List TaskRoute) × Distinct (outs rs)

abbrev pub RouteSet : Type 0
RouteSet = Quot {α = Routing} (λ a b. Exchange a.0 b.0)

count_active-Exchange :
    {rs ss : List TaskRoute} → Exchange rs ss → (n : ℕ) → count_active rs n ≡ count_active ss n
unfolding count_active
count_active-Exchange here n = ground arith
count_active-Exchange (below e) n =
    ground (arith, count_active-Exchange e n, count_active-Exchange e (n + 1))

status_of-Exchange :
    {rs ss : List TaskRoute}
    → Exchange rs ss
    → Distinct (outs rs)
    → (o : ℕ) → status_of rs o ≡ status_of ss o
unfolding status_of
status_of-Exchange here d o = ground arith
status_of-Exchange (below e) d o = ground (arith, status_of-Exchange e d.1 o)

pub outs-set_status : (rs : List TaskRoute) (o s : ℕ) → outs (set_status rs o s) ≡ outs rs
unfolding set_status
outs-set_status [] o s = refl
outs-set_status (r ∷ rs) o s = ground (arith, outs-set_status rs o s)

set_status-Exchange :
    {rs ss : List TaskRoute}
    → Exchange rs ss
    → Distinct (outs rs)
    → (o s : ℕ) → Exchange (set_status rs o s) (set_status ss o s)
unfolding set_status
set_status-Exchange (here {q = q} {r = r}) d o s = elim (ℕ_discrete q.out o) [
  | yes e ↦
      let hit : (q.out == o) ≡ true = ground arith in
      let miss : (r.out == o) ≡ false = ground (arith, d) in rw (hit, miss) here
  | no ne ↦ elim (ℕ_discrete r.out o) [
    | yes e ↦
        let hit : (r.out == o) ≡ true = ground arith in
        let miss : (q.out == o) ≡ false = ground arith in rw (miss, hit) here
    | no ne' ↦
        let miss : (q.out == o) ≡ false = ground arith in
        let miss' : (r.out == o) ≡ false = ground arith in rw (miss, miss') here
  ]
]
set_status-Exchange (below {r = r} e) d o s = elim (ℕ_discrete r.out o) [
  | yes h ↦ let hit : (r.out == o) ≡ true = ground arith in rw hit (below e)
  | no ne ↦
      let miss : (r.out == o) ≡ false = ground arith in
      rw miss (below (set_status-Exchange e d.1 o s))
]

pub active : RouteSet → ℕ
active = Quot.lift ℕ_set (λ a. count_active a.0 0) (λ a b e. count_active-Exchange e 0)

pub status : ℕ → RouteSet → ℕ
status o = Quot.lift ℕ_set (λ a. status_of a.0 o) (λ a b e. status_of-Exchange e a.1 o)

assign_list : ℕ → ℕ → Routing → Routing
assign_list o s a = (set_status a.0 o s, rw (outs-set_status a.0 o s) (a.1))

pub assign : ℕ → ℕ → RouteSet → RouteSet
unfolding assign_list
assign o s =
    Quot.lift Quot-set (λ a. Quot.mk (assign_list o s a))
      (λ a b e. Quot.sound (set_status-Exchange e a.1 o s))

-- Statuses for outputs, given one after the other.
abbrev pub set_all : List (ℕ × ℕ) → Task → Task
set_all [] task = task
set_all ((o, s) ∷ changes) task = set_all changes (set_route_status task o s)

abbrev pub assign_all : List (ℕ × ℕ) → RouteSet → RouteSet
assign_all [] q = q
assign_all ((o, s) ∷ changes) q = assign_all changes (assign o s q)

abbrev pub route_set : (task : Task) → Distinct (outs task.routes) → RouteSet
route_set task d = Quot.mk (task.routes, d)

-- For a task with routes to different outputs, `flb_task_get_route_status` and
-- `flb_task_get_active_route_count` after any calls of `flb_task_set_route_status` answer what the
-- set of its routes does after the same assignments.
pub set_all-assign_all :
    (changes : List (ℕ × ℕ)) (task : Task) (d : Distinct (outs task.routes)) (p : ℕ)
    → (get_route_status (set_all changes task) p ≡ status p (assign_all changes (route_set task d)))
      × (get_active_route_count (set_all changes task)
          ≡ active (assign_all changes (route_set task d)))
unfolding get_route_status get_active_route_count set_route_status status active assign assign_list
set_all-assign_all [] task d p = (refl, refl)
set_all-assign_all ((o, s) ∷ changes) task d p =
    set_all-assign_all changes (set_route_status task o s) (rw (outs-set_status task.routes o s) d)
      p
