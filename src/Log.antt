-- ===== src/Log.antt =====
-- Which messages are logged: the inline tests of fluent-bit/flb_log.h. A level is the number of its
-- macro; `none` is no worker.
pub mod Levels
pub mod Plugins
pub mod Macros
mod Tests
use my_repo.Base.{
  ℕ, ◌+◌, ◌-◌, ◌^◌, Bool, true, false, not, ◌&&◌, ◌||◌, Option, none, some, List, ◌==◌, ltb, leb,
  if◌then◌else◌, to_size,
}

abbrev pub log_off : ℕ
log_off = 0

abbrev pub log_info : ℕ
log_info = 3

abbrev pub log_trace : ℕ
log_trace = 5

unfoldable pub log_check_level : (level_set msg_level : ℕ) → Bool
log_check_level level_set msg_level = if leb msg_level level_set then true else false

-- The argument is `flb_worker_log_level` of the worker.
unfoldable pub log_check : (worker : Option ℕ) → (l : ℕ) → Bool
log_check none l = if leb l 3 then true else false
log_check (some level) l = if ltb level l then false else true

abbrev pub buf_size : ℕ
buf_size = 4096

-- The answer, and the text and the size that `flb_log_cache_check_suppress` was called with, if it
-- was. The interval and the results of calls are bit patterns of `int`; `vsnprintf` answers, for the
-- size of its buffer, what it returns and what it leaves in the buffer.
unfoldable pub log_suppress_check :
    (log_suppress_interval : ℕ) (vsnprintf : ℕ → ℕ × List ℕ) (worker : Option ℕ)
    (check_suppress : List ℕ → ℕ → ℕ)
    → ℕ × Option (List ℕ × ℕ)
log_suppress_check log_suppress_interval vsnprintf worker check_suppress =
    let (returned, buf) = vsnprintf (buf_size - 1) in
    let size = to_size returned in
    if log_suppress_interval == 0 || leb (2 ^ 31) log_suppress_interval
    then (0, none)
    else if size == 2 ^ 64 - 1
    then (0, none)
    else elim worker [ none ↦ (0, none) | some _ ↦ (check_suppress buf size, some (buf, size)) ]
