-- ===== src/Output/Return.antt =====
-- The start of a flush and its return: what the plugin is called with, what the engine is told.
use my_repo.Base.{
  ℕ, ◌+◌, ◌^◌, ◌<◌, ◌≡◌, ◌⊎◌, inl, inr, refl, ◌∙◌, ap, Bool, true, false, Option, none, some, List,
  [], ◌∷◌, arith, ◌==◌, if◌then◌else◌, ◌>>=◌, Bool-cases,
}
use my_repo.Task.{
  Task, route_active, route_inactive, route_dropped, task_ret, task_id, task_out, task_set,
  bits_u64_high, bits_u64_low, bits_u64_set, get_route_status, activate_route, deactivate_route,
}
use my_repo.Task.Ids.{task_set_roundtrip, task_set_bound, bits_u64_set_roundtrip}
use my_repo.Task.Routes.{routed, get_route_status-set_route_status}
use my_repo.Output.{EventChunk, OutputFlush, Ledger, put, context, ret_error}
use my_repo.Output.Process.{holding, Fits, give_logs_own, buffer_back, chunk_back}
use my_repo.Output.Calls.{
  FlushChunk, processed_chunk, task_chunk, OutFlushParams, Thread, persisted, returned, called,
  Signal, engine_task, output_params_set, output_pre_cb_flush, output_pre_cb_flush_resumed,
  output_return,
}

activated :
    (t : Task) (o : ℕ)
    → routed t.routes o ≡ true
    → get_route_status (activate_route t o) o ≡ route_active
unfolding activate_route
activated t o r = get_route_status-set_route_status t o o route_active ∙ ground arith

deactivated :
    (t : Task) (o : ℕ)
    → routed t.routes o ≡ true
    → get_route_status (deactivate_route t o) o ≡ route_inactive
unfolding deactivate_route
deactivated t o r = get_route_status-set_route_status t o o route_inactive ∙ ground arith

-- A call of `output_params_set`.
pub record Start : Type 0 where
  pub malloc : Bool
  pub out_flush : OutputFlush
  pub co : ℕ
  pub task : Task
  pub out_plugin : ℕ
  pub out_context : ℕ
  pub config : ℕ

abbrev pub begin : Start → Thread → Thread
begin s thread =
    output_params_set s.malloc s.out_flush s.co s.task s.out_plugin s.out_context s.config thread

-- Further calls, one after the other.
abbrev pub begin_all : List Start → Thread → Thread
begin_all [] thread = thread
begin_all (s ∷ starts) thread = begin_all starts (begin s thread)

-- None of the calls is for the coroutine.
abbrev pub Others : (co : ℕ) → List Start → Type 0
Others co [] = Unit {0}
Others co (s ∷ starts) = ((s.co == co) ≡ false) × Others co starts

abbrev pub chosen_chunk : Option EventChunk → (own : ℕ) → FlushChunk
chosen_chunk none own = task_chunk own
chosen_chunk (some c) own = processed_chunk c

abbrev pub passed : Start → OutFlushParams
passed s = record {
  event_chunk = chosen_chunk s.out_flush.processed s.task.event_chunk;
  out_flush = s.out_flush;
  i_ins = s.task.i_ins;
  out_plugin = s.out_plugin;
  out_context = s.out_context;
  config = s.config;
  co = s.co;
}

persisted-begin :
    (s : Start) (thread : Thread)
    → (thread.out_flush_params ≡ none → s.malloc ≡ true)
    → persisted (begin s thread).waiting s.co ≡ some (passed s)
unfolding persisted output_params_set output_pre_cb_flush
persisted-begin s thread m = ground (arith, m)

persisted-other :
    (s : Start) (thread : Thread) (co : ℕ)
    → (s.co == co) ≡ false
    → persisted (begin s thread).waiting co ≡ persisted thread.waiting co
unfolding persisted output_params_set output_pre_cb_flush
persisted-other s thread co ne = ground arith

persisted-begin_all :
    (starts : List Start) (thread : Thread) (co : ℕ)
    → Others co starts
    → persisted (begin_all starts thread).waiting co ≡ persisted thread.waiting co
persisted-begin_all [] thread co o = refl
persisted-begin_all (s ∷ starts) thread co (ne, o) =
    persisted-begin_all starts (begin s thread) co o ∙ persisted-other s thread co ne

resumed_run :
    (thread : Thread) (co : ℕ) (now : Task) (params : OutFlushParams)
    → persisted thread.waiting co ≡ some params
    → output_pre_cb_flush_resumed thread co now ≡ (
        if get_route_status now params.out_flush.o_ins == route_dropped
        then returned ret_error
        else called (activate_route now params.out_flush.o_ins) params)
unfolding output_pre_cb_flush_resumed
resumed_run thread co now params e = rw (output_pre_cb_flush_resumed, e) refl

-- Let `output_params_set` start a flush, in a thread that has its parameters or is given memory for
-- them, and then start any flushes in other coroutines of the same thread. When the coroutine of the
-- first flush is resumed and its task has a route to the output, `output_pre_cb_flush` returns
-- FLB_ERROR without a call of the plugin if the route was dropped; otherwise it calls the plugin with
-- the parameters of this flush, the chunk being the processed one if there is one and the task's own
-- if not, and with the route active.
pub output_pre_cb_flush-output_params_set :
    (s : Start) (starts : List Start) (thread : Thread) (now : Task)
    → (thread.out_flush_params ≡ none → s.malloc ≡ true)
    → Others s.co starts
    → routed now.routes s.out_flush.o_ins ≡ true
    → let run = output_pre_cb_flush_resumed (begin_all starts (begin s thread)) s.co now in
      ((get_route_status now s.out_flush.o_ins ≡ route_dropped) × (run ≡ returned ret_error))
      ⊎ ((t : Task) × (run ≡ called t (passed s))
          × (¬ (get_route_status now s.out_flush.o_ins ≡ route_dropped))
          × (get_route_status t s.out_flush.o_ins ≡ route_active))
output_pre_cb_flush-output_params_set s starts thread now m o r =
    let here : persisted (begin_all starts (begin s thread)).waiting s.co ≡ some (passed s) =
      persisted-begin_all starts (begin s thread) s.co o ∙ persisted-begin s thread m in
    let run = resumed_run (begin_all starts (begin s thread)) s.co now (passed s) here in
    elim (Bool-cases (get_route_status now s.out_flush.o_ins == route_dropped)) [
      | inl d ↦ inl (ground arith, run ∙ rw d refl)
      | inr d ↦ inr (
        activate_route now s.out_flush.o_ins,
        run ∙ rw d refl,
        (λ e. ground arith),
        activated now s.out_flush.o_ins r,
      )
    ]

returned_chunk :
    (ret : ℕ) (f : OutputFlush) (task : Task) (ins_id : ℕ) (threaded : Bool)
    (thread_pipe ins_pipe n : ℕ) (p : Option EventChunk) (h : Ledger)
    → f.processed ≡ p
    → Fits p
    → output_return ret f task ins_id threaded thread_pipe ins_pipe (holding p n h)
      ≡ some (
        (
          deactivate_route task f.o_ins,
          record f { processed = none },
          record {
            pipe_fd = if threaded then thread_pipe else ins_pipe;
            val = bits_u64_set engine_task (task_set ret task.id ins_id);
          },
        ),
        put context n h,
      )
unfolding output_return
returned_chunk ret f task ins_id threaded thread_pipe ins_pipe n none h e fit = rw e refl
returned_chunk ret f task ins_id threaded thread_pipe ins_pipe n (some c) h e (own, fits) =
    rw
      (
        e,
        ◌>>=◌,
        own,
        give_logs_own,
        buffer_back (record h { chunks = h.chunks + 1; contexts = n }),
        chunk_back (put context n h),
      )
      refl

-- For a flush whose processed chunk, if any, has data of its own that fits it, of a task with a
-- route to the output, with a result below 16 and numbers of the task and the output below 2 ^ 14,
-- `flb_output_return` writes to the pipe of the output, or of its thread, that a task event came,
-- with the result, the task and the output; it leaves the route inactive, and gives back the
-- processed chunk and its data.
pub output_return_lem :
    (ret : ℕ) (f : OutputFlush) (task : Task) (ins_id : ℕ) (threaded : Bool)
    (thread_pipe ins_pipe n : ℕ) (h : Ledger)
    → ret < 2 ^ 4
    → task.id < 2 ^ 14
    → ins_id < 2 ^ 14
    → routed task.routes f.o_ins ≡ true
    → Fits f.processed
    → (task' : Task) × (sent : Signal) × (output_return ret f task ins_id threaded thread_pipe
          ins_pipe
          (holding f.processed n h)
        ≡ some ((task', record f { processed = none }, sent), put context n h))
      × (get_route_status task' f.o_ins ≡ route_inactive)
      × (sent.pipe_fd ≡ (if threaded then thread_pipe else ins_pipe))
      × (bits_u64_high sent.val ≡ engine_task)
      × (task_ret (bits_u64_low sent.val) ≡ ret)
      × (task_id (bits_u64_low sent.val) ≡ task.id)
      × (task_out (bits_u64_low sent.val) ≡ ins_id)
output_return_lem ret f task ins_id threaded thread_pipe ins_pipe n h lr li lo r fit =
    let set = task_set_bound ret task.id ins_id lr li lo in
    let (high, low) =
      bits_u64_set_roundtrip engine_task (task_set ret task.id ins_id) (omega arith) set in
    let (a, b, c) = task_set_roundtrip ret task.id ins_id lr li lo in
    (
      deactivate_route task f.o_ins,
      record {
        pipe_fd = if threaded then thread_pipe else ins_pipe;
        val = bits_u64_set engine_task (task_set ret task.id ins_id);
      },
      returned_chunk ret f task ins_id threaded thread_pipe ins_pipe n f.processed h refl fit,
      deactivated task f.o_ins r,
      refl,
      high,
      ap task_ret low ∙ a,
      ap task_id low ∙ b,
      ap task_out low ∙ c,
    )
