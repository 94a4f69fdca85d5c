-- ===== src/Coro.antt =====
-- The coroutines of fluent-bit/flb_coro.h, over libco: a context is a number, and `co_switch` makes
-- another one active. With them the sleep of fluent-bit/flb_time_utils.h.
pub mod Switch
mod Tests
use my_repo.Base.{ℕ, Bool, true, false, not, Option, none, some, List, [], ◌∷◌, ◌==◌, if◌then◌else◌}

-- The contexts `caller` and `callee` of every `struct flb_coro`, by its address; the active context;
-- the coroutine that `flb_coro_set` set; the one-shot timers that wait, with what they are to resume.
pub record World : Type 0 where
  pub caller : ℕ → ℕ
  pub callee : ℕ → ℕ
  pub active : ℕ
  pub current : Option ℕ
  pub timers : List (ℕ × ℕ)

abbrev pub co_switch : ℕ → World → World
co_switch t w = record w { active = t }

unfoldable pub coro_resume : (coro : ℕ) → World → World
coro_resume coro w =
    co_switch (w.callee coro)
      (record w { current = some coro; caller = λ c. if c == coro then w.active else w.caller c })

unfoldable pub coro_yield : (coro : ℕ) → World → World
coro_yield coro w = co_switch (w.caller coro) w

-- `flb_time_thread_wakeup`
unfoldable pub time_wakeup : (coro : ℕ) → World → World
unfolding coro_resume
time_wakeup coro w = coro_resume coro w

-- `flb_time_sleep`, with whether `flb_sched_timer_cb_create` creates the timer.
unfoldable pub time_sleep : (ms : ℕ) (created : Bool) → World → World
unfolding coro_yield
time_sleep ms created w = elim w.current [
  | none ↦ w
  | some coro ↦ if created then coro_yield coro (record w { timers = (ms, coro) ∷ w.timers }) else w
]

-- The result of `flb_calloc` is an argument; the contexts of a new coroutine are NULL.
unfoldable pub coro_create : (calloc : Option ℕ) (data' : ℕ) → World → Option (ℕ × ℕ) × World
coro_create none data' w = (none, w)
coro_create (some coro) data' w = (
  some (coro, data'),
  record w {
    caller = λ c. if c == coro then 0 else w.caller c;
    callee = λ c. if c == coro then 0 else w.callee c;
  },
)

-- The context that `co_delete` is called with, if it is, and the struct that is given back.
unfoldable pub coro_destroy : (coro : ℕ) → World → Option ℕ × ℕ
coro_destroy coro w = (if not (w.callee coro == 0) then some (w.callee coro) else none, coro)

-- `flb_input_coro_resume`, for the coroutine of the struct.
unfoldable pub input_coro_resume : (coro : ℕ) → World → World
unfolding coro_resume
input_coro_resume coro w = coro_resume coro w

-- `flb_input_return_do`, where `input_return` gives what `flb_input_return` does for a coroutine;
-- `none` is the use of a coroutine that is NULL.
unfoldable pub input_return_do : {A : Type 0} → (input_return : ℕ → A) → World → Option (A × World)
unfolding coro_yield
input_return_do input_return w = elim w.current [
  | none ↦ none
  | some coro ↦ some (input_return coro, coro_yield coro w)
]

-- `flb_output_return_do`, likewise, with the plugin's answer.
unfoldable pub output_return_do :
    {A : Type 0} → (output_return : ℕ → ℕ → A) → (x : ℕ) → World → Option (A × World)
unfolding coro_yield
output_return_do output_return x w = elim w.current [
  | none ↦ none
  | some coro ↦ some (output_return x coro, coro_yield coro w)
]
