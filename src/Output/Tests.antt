-- ===== src/Output/Tests.antt =====
-- The theorems on flb_output.h at a chunk of three contexts, of which the processor refuses one.
use my_repo.Base.{ℕ, ◌+◌, ◌≤◌, ◌≡◌, ◌⊎◌, refl, true, false, none, some, List, [], ◌∷◌, arith}
use my_repo.Task.{
  Task, route_active, route_inactive, route_dropped, task_ret, task_id, task_out, bits_u64_high,
  bits_u64_low, get_route_status, activate_route,
}
use my_repo.Output.{
  Answers, EventChunk, OutputFlush, Context, Buffer, Ledger, serialize, flush_create, put, context,
  traces, ret_error,
}
use my_repo.Output.Serialize.{Serialized, serialize_lem}
use my_repo.Output.Process.{Fits, holding}
use my_repo.Output.Create.{started, flush_create_lem}
use my_repo.Output.Calls.{
  Thread, Signal, engine_task, returned, called, output_pre_cb_flush_resumed, output_params_set,
  output_pre_cb_flush, output_return,
}
use my_repo.Output.Return.{
  Start, begin, begin_all, passed, output_pre_cb_flush-output_params_set, output_return_lem,
}

abbrev task : Task
task = record {
  id = 1;
  ref_id = 7;
  status = 0;
  users = 1;
  event_chunk = 100;
  ic = 200;
  records = 5;
  routes = record { status = 0; out = 300 } ∷ [];
  retries = [];
  i_ins = 500;
  config = 600;
}

abbrev contexts : List Context
contexts =
    record { run_ok = true; encodes = true; bytes = 1 ∷ 2 ∷ []; grows = true }
    ∷ record { run_ok = false; encodes = true; bytes = 9 ∷ []; grows = true }
    ∷ record { run_ok = true; encodes = true; bytes = 3 ∷ 4 ∷ []; grows = true }
    ∷ []

abbrev answers : Answers
answers = record {
  calloc_flush = true;
  coro_create = true;
  flush_id = 0;
  processor_is_active = true;
  run_failed = false;
  run_buffer = [];
  run_borrowed = false;
  mp_count = 0;
  calloc_buffer = true;
  decoded = contexts;
  chunk_create = true;
  co_create = true;
}

-- Nothing is held but the flush, its coroutine and a buffer.
abbrev ledger : Ledger
ledger = record {
  flushes = 1;
  coros = 1;
  callees = 0;
  buffers = 1;
  chunks = 0;
  contexts = 0;
  serials = 0;
  task_data = 1;
}

abbrev chunk_of_traces : EventChunk
chunk_of_traces = record {
  type = traces;
  records = 0;
  size = 5;
  bytes = 1 ∷ 2 ∷ 3 ∷ 4 ∷ [];
  borrowed = false;
}

abbrev out_flush : OutputFlush
out_flush = record { id = 0; task = task; o_ins = 300; processed = some chunk_of_traces }

serialize_lem_example : Serialized contexts (record { content = []; p_size = 3 }) ledger
serialize_lem_example =
    serialize_lem contexts (record { content = []; p_size = 3 }) ledger (omega arith) (omega arith)
      (omega arith) (omega arith)

-- The chunk has the two encodings, and one byte more than them.
chunk_run :
    serialize contexts (record { content = []; p_size = 3 }) ledger
    ≡ some (some (record { content = 1 ∷ 2 ∷ 3 ∷ 4 ∷ []; p_size = 5 }), put context 1 ledger)
unfolding serialize my_repo.Output.give
chunk_run = refl

flush_create_lem_example :
    (n : ℕ) × (n ≤ 1)
    × ((flush_create answers task traces 3 300 [] ledger
          ≡ some ((none, []), put context (0 + n) ledger))
        ⊎ ((f : OutputFlush) × (flush_create answers task traces 3 300 [] ledger
              ≡ some ((some f, f ∷ []), started f.processed (0 + n) ledger))
            × (f.task ≡ task)
            × (f.o_ins ≡ 300)
            × Fits f.processed))
flush_create_lem_example = flush_create_lem answers task traces 3 300 [] ledger refl

-- The flush of the processed chunk starts in the coroutine 900; then the same thread starts one of the
-- task's own chunk in the coroutine 901.
abbrev first_start : Start
first_start = record {
  malloc = true;
  out_flush = out_flush;
  co = 900;
  task = task;
  out_plugin = 910;
  out_context = 920;
  config = 600;
}

abbrev second_start : Start
second_start = record first_start { out_flush = record out_flush { processed = none }; co = 901 }

abbrev fresh_thread : Thread
fresh_thread = record { out_flush_params = none; waiting = [] }

output_pre_cb_flush-output_params_set_example :
    let run =
      output_pre_cb_flush_resumed
        (begin_all (second_start ∷ []) (begin first_start fresh_thread))
        900
        task in
    ((get_route_status task 300 ≡ route_dropped) × (run ≡ returned ret_error))
    ⊎ ((t : Task) × (run ≡ called t (passed first_start))
        × (¬ (get_route_status task 300 ≡ route_dropped))
        × (get_route_status t 300 ≡ route_active))
output_pre_cb_flush-output_params_set_example =
    output_pre_cb_flush-output_params_set first_start (second_start ∷ []) fresh_thread task
      (λ e. refl) (refl, tt) refl

-- Each of the two calls gets its own chunk.
two_starts_run :
    let thread = begin_all (second_start ∷ []) (begin first_start fresh_thread) in
    (output_pre_cb_flush_resumed thread 900 task
      ≡ called (activate_route task 300) (passed first_start))
    × (output_pre_cb_flush_resumed thread 901 task
        ≡ called (activate_route task 300) (passed second_start))
unfolding output_pre_cb_flush_resumed output_params_set output_pre_cb_flush get_route_status
two_starts_run = (refl, refl)

output_return_lem_example :
    (task' : Task) × (sent : Signal) × (output_return 2 out_flush task 77 true 40 50
        (holding out_flush.processed 0 ledger)
      ≡ some ((task', record out_flush { processed = none }, sent), put context 0 ledger))
    × (get_route_status task' 300 ≡ route_inactive)
    × (sent.pipe_fd ≡ 40)
    × (bits_u64_high sent.val ≡ engine_task)
    × (task_ret (bits_u64_low sent.val) ≡ 2)
    × (task_id (bits_u64_low sent.val) ≡ 1)
    × (task_out (bits_u64_low sent.val) ≡ 77)
output_return_lem_example =
    output_return_lem 2 out_flush task 77 true 40 50 0 ledger (omega arith) (omega arith)
      (omega arith) refl (refl, omega arith)
