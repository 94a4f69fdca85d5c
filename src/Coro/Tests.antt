-- ===== src/Coro/Tests.antt =====
-- The theorems on coroutines at two nested ones, and a sleep of the outer one.
use my_repo.Base.{◌+◌, ◌≡◌, refl, true, none, some, [], ◌∷◌, ◌==◌, if◌then◌else◌}
use my_repo.Coro.{World, output_return_do, coro_resume, coro_yield, time_sleep, time_wakeup}
use my_repo.Coro.Switch.{
  Reach, start, resumed, yielded, Nested, Reach-Nested, active-Reach, output_return_do-coro_resume,
  time_wakeup-time_sleep,
}

-- The coroutines 1 and 2 with the contexts 11 and 12; the main context 9 is active.
abbrev main : World
main = record {
  caller = λ c. 0;
  callee = λ c. if c == 1 then 11 else 12;
  active = 9;
  current = none;
  timers = [];
}

nested : Reach main (coro_resume 2 (coro_resume 1 main)) (2 ∷ 1 ∷ [])
nested = resumed 2 (resumed 1 start refl) refl

Reach-Nested_example :
    Nested
      (coro_resume 2 (coro_resume 1 main))
      9
      (2 ∷ 1 ∷ [])
      (coro_resume 2 (coro_resume 1 main)).active
Reach-Nested_example = Reach-Nested nested

active-Reach_example : (coro_yield 1 (coro_yield 2 (coro_resume 2 (coro_resume 1 main)))).active ≡ 9
active-Reach_example = active-Reach (yielded 1 (yielded 2 nested))

abbrev sleeper : World
sleeper = record main { active = 11; current = some 1 }

time_wakeup-time_sleep_example :
    (time_sleep 5 true sleeper ≡ record sleeper { active = 0; timers = (5, 1) ∷ [] })
    × ((time_wakeup 1 main).active ≡ 11)
    × ((time_wakeup 1 main).caller 1 ≡ 9)
time_wakeup-time_sleep_example = time_wakeup-time_sleep 5 1 sleeper main refl

-- The coroutine 1 resumes the coroutine 2, which yields; when 1 then sleeps, the timer is for 2, and
-- 1 goes on running.
sleep_after_nested :
    let w = time_sleep 5 true (coro_yield 2 (coro_resume 2 (coro_resume 1 main))) in
    (w.active ≡ 11) × (w.timers ≡ (5, 2) ∷ [])
unfolding time_sleep coro_resume coro_yield
sleep_after_nested = (refl, refl)

output_return_do-coro_resume_example :
    (w' : World) × (output_return_do (λ x coro. x + coro) 3 (coro_resume 1 main) ≡ some (4, w'))
    × (w'.active ≡ 9)
output_return_do-coro_resume_example = output_return_do-coro_resume (λ x coro. x + coro) 3 1 main
