-- ===== src/Coro/Switch.antt =====
-- Control comes back to where a coroutine was resumed.
use my_repo.Base.{
  ℕ, ◌≡◌, refl, true, false, some, List, [], ◌∷◌, arith, ◌==◌, has, ==_self, sym, subst,
}
use my_repo.Coro.{World, output_return_do, coro_resume, coro_yield, time_sleep, time_wakeup}

-- What may happen from `w` on: code resumes a coroutine that is not running, or the coroutine that
-- was resumed last yields. The list has the coroutines that are running, the last one first.
pub data Reach (w : World) : World → List ℕ → Type 0 where
  start : Reach w w []
  resumed :
      {u : World} {running : List ℕ} (c : ℕ)
      → Reach w u running
      → has c running ≡ false
      → Reach w (coro_resume c u) (c ∷ running)
  yielded :
      {u : World} {running : List ℕ} (c : ℕ)
      → Reach w u (c ∷ running)
      → Reach w (coro_yield c u) running

-- The context `t` is that of the first coroutine, whose caller is that of the second, and so on to
-- the context `base`.
abbrev pub Nested : World → (base : ℕ) → List ℕ → (t : ℕ) → Type 0
Nested w base [] t = t ≡ base
Nested w base (c ∷ running) t = (t ≡ w.callee c) × Nested w base running (w.caller c)

-- A resumption does not change the coroutines that are running.
Nested-resume :
    (w : World) (base c : ℕ) (running : List ℕ) (t : ℕ)
    → has c running ≡ false
    → Nested w base running t
    → Nested (coro_resume c w) base running t
unfolding coro_resume
Nested-resume w base c [] t out n = n
Nested-resume w base c (d ∷ running) t out (e, n) =
    let ne : (d == c) ≡ false = ground arith in
    (e, rw ne (Nested-resume w base c running (w.caller d) (ground arith) n))

Nested-yield :
    (w : World) (base c : ℕ) (running : List ℕ) (t : ℕ)
    → Nested w base running t
    → Nested (coro_yield c w) base running t
unfolding coro_yield
Nested-yield w base c [] t n = n
Nested-yield w base c (d ∷ running) t (e, n) = (e, Nested-yield w base c running (w.caller d) n)

caller-resume : (w : World) (c : ℕ) → (coro_resume c w).caller c ≡ w.active
unfolding coro_resume
caller-resume w c = rw (==_self c) refl

active-resume : (w : World) (c : ℕ) → (coro_resume c w).active ≡ (coro_resume c w).callee c
unfolding coro_resume
active-resume w c = refl

active-yield : (w : World) (c : ℕ) → (coro_yield c w).active ≡ w.caller c
unfolding coro_yield
active-yield w c = refl

-- In every state reached by resumptions of coroutines that are not running and by yields of the
-- coroutine that runs and was resumed last, the active context is that of this coroutine, the caller
-- of each running coroutine is the context of the one resumed before it, and the caller of the first
-- is the context at the start, which is active if none runs.
pub Reach-Nested :
    {w u : World} {running : List ℕ} → Reach w u running → Nested u w.active running u.active
Reach-Nested start = refl
Reach-Nested {w} (resumed {u} {running} c r out) = (
  active-resume u c,
  subst (Nested (coro_resume c u) w.active running) (sym (caller-resume u c))
      (Nested-resume u w.active c running u.active out (Reach-Nested r)),
)
Reach-Nested {w} (yielded {u} {running} c r) =
    subst (Nested (coro_yield c u) w.active running) (sym (active-yield u c))
      (Nested-yield u w.active c running (u.caller c) (Reach-Nested r).1)

-- Once every coroutine that was resumed has yielded, the context that was active at the start is
-- active again.
pub active-Reach : {w u : World} → Reach w u [] → u.active ≡ w.active
active-Reach r = Reach-Nested r

-- If the coroutine that was set last sleeps and its timer is created, control goes to its caller,
-- with the timer waiting; when the timer then wakes it up, its context is active again and its caller
-- is the context that was active before.
pub time_wakeup-time_sleep :
    (ms c : ℕ) (w between : World)
    → w.current ≡ some c
    → (time_sleep ms true w ≡ record w { active = w.caller c; timers = (ms, c) ∷ w.timers })
      × ((time_wakeup c between).active ≡ between.callee c)
      × ((time_wakeup c between).caller c ≡ between.active)
unfolding time_sleep time_wakeup coro_yield
time_wakeup-time_sleep ms c w between e =
    (rw e refl, active-resume between c, caller-resume between c)

-- If a coroutine is resumed and returns through `flb_output_return_do` before it resumes another one,
-- what `flb_output_return` does is done for that coroutine and its answer, and the context that
-- resumed it is active again.
pub output_return_do-coro_resume :
    {A : Type 0} (output_return : ℕ → ℕ → A) (x c : ℕ) (w : World)
    → (w' : World) × (output_return_do output_return x (coro_resume c w)
        ≡ some (output_return x c, w'))
      × (w'.active ≡ w.active)
unfolding output_return_do coro_resume coro_yield
output_return_do-coro_resume output_return x c w =
    (coro_yield c (coro_resume c w), refl, rw (==_self c) refl)
