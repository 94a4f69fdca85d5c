-- ===== src/Output/Calls.antt =====
-- The calls around a flush of fluent-bit/flb_output.h: its parameters, the start of the plugin's
-- callback, the return of its result, and the settings of an output.
use my_repo.Base.{
  ℕ, Bool, true, false, Option, none, some, List, [], ◌∷◌, ◌==◌, if◌then◌else◌, State, pure, ◌>>◌,
  length,
}
use my_repo.Task.{
  Task, route_dropped, task_set, get_route_status, activate_route, deactivate_route, bits_u64_set,
}
use my_repo.Output.{
  EventChunk, OutputFlush, Ledger, give, give_logs, chunk, flush, coro, callee, ret_error,
}

-- An event chunk: one that a processor made, or the task's own, by its address.
pub data FlushChunk : Type 0 where
  processed_chunk : EventChunk → FlushChunk
  task_chunk : (event_chunk : ℕ) → FlushChunk

pub record OutFlushParams : Type 0 where
  pub event_chunk : FlushChunk
  pub out_flush : OutputFlush
  pub i_ins : ℕ
  pub out_plugin : ℕ
  pub out_context : ℕ
  pub config : ℕ
  pub co : ℕ

-- A thread: its parameters, one struct for all flushes, and `persisted_params` of each coroutine that
-- waits in `output_pre_cb_flush`, under its address.
pub record Thread : Type 0 where
  pub out_flush_params : Option OutFlushParams
  pub waiting : List (ℕ × OutFlushParams)

-- `output_pre_cb_flush` up to its `co_switch`.
unfoldable pub output_pre_cb_flush : Thread → Thread
output_pre_cb_flush thread = elim thread.out_flush_params [
  | none ↦ thread
  | some params ↦ record thread { waiting = (params.co, params) ∷ thread.waiting }
]

-- With the answer of `flb_malloc`. `co_switch` enters the coroutine, which is a new one.
unfoldable pub output_params_set :
    (malloc : Bool)
    → OutputFlush
    → (co : ℕ) → Task
    → (out_plugin out_context config : ℕ) → Thread
    → Thread
unfolding output_pre_cb_flush
output_params_set malloc out_flush co task out_plugin out_context config thread =
    let params : OutFlushParams = record {
      event_chunk = elim out_flush.processed [
        | some processed ↦ processed_chunk processed
        | none ↦ task_chunk task.event_chunk
      ];
      out_flush = out_flush;
      i_ins = task.i_ins;
      out_plugin = out_plugin;
      out_context = out_context;
      config = config;
      co = co;
    } in
    let entered = output_pre_cb_flush (record thread { out_flush_params = some params }) in
    elim thread.out_flush_params [ some _ ↦ entered | none ↦ if malloc then entered else thread ]

-- What `output_pre_cb_flush` does once the engine resumes it: nothing if it does not wait, the return
-- of a result, or the call of the plugin with the task as it is then.
pub data Resumed : Type 0 where
  nothing : Resumed
  returned : (ret : ℕ) → Resumed
  called : (task : Task) (params : OutFlushParams) → Resumed

unfoldable pub persisted : List (ℕ × OutFlushParams) → (co : ℕ) → Option OutFlushParams
persisted [] co = none
persisted ((c, params) ∷ waiting) co = if c == co then some params else persisted waiting co

-- `output_pre_cb_flush` from its `co_switch` on.
unfoldable pub output_pre_cb_flush_resumed : Thread → (co : ℕ) → Task → Resumed
unfolding persisted
output_pre_cb_flush_resumed thread co task = elim (persisted thread.waiting co) [
  | none ↦ nothing
  | some params ↦
      let route_status = get_route_status task params.out_flush.o_ins in
      if route_status == route_dropped
      then returned ret_error
      else called (activate_route task params.out_flush.o_ins) params
]

-- `FLB_ENGINE_TASK`
abbrev pub engine_task : ℕ
engine_task = 2

-- The pipe that is written, and the value.
pub record Signal : Type 0 where
  pub pipe_fd : ℕ
  pub val : ℕ

-- Up to the call of `flb_output_flush_prepare_destroy`. `ins_id` is the number of the output.
unfoldable pub output_return :
    (ret : ℕ)
    → OutputFlush
    → Task
    → (ins_id : ℕ) (is_threaded : Bool) (thread_pipe ins_pipe : ℕ)
    → State Ledger (Task × OutputFlush × Signal)
unfolding give give_logs
output_return ret out_flush task ins_id is_threaded thread_pipe ins_pipe =
    let task' = deactivate_route task out_flush.o_ins in
    let signal : Signal = record {
      pipe_fd = if is_threaded then thread_pipe else ins_pipe;
      val = bits_u64_set engine_task (task_set ret task.id ins_id);
    } in
    elim out_flush.processed [
      | none ↦ pure (task', out_flush, signal)
      | some e ↦ do
        if e.borrowed then pure tt else give_logs false
        give chunk
        pure (task', record out_flush { processed = none }, signal)
    ]

-- `flb_output_flush_destroy`, on the flushes of the list by their place in it.
unfoldable pub remove_flush : List OutputFlush → (id : ℕ) → List OutputFlush
remove_flush [] id = []
remove_flush (f ∷ fs) id = if f.id == id then fs else f ∷ remove_flush fs id

unfoldable pub output_flush_destroy : List OutputFlush → (id : ℕ) → State Ledger (List OutputFlush)
unfolding give remove_flush
output_flush_destroy flush_list id = do
  give callee
  give coro
  give flush
  pure (remove_flush flush_list id)

-- `pool_size` is the answer of `flb_output_thread_pool_coros_size`.
unfoldable pub output_coros_size : (is_threaded : Bool) (pool_size : ℕ) → List OutputFlush → ℕ
output_coros_size is_threaded pool_size flush_list =
    if is_threaded then pool_size else length flush_list

-- A configuration map, if there is one, is what `flb_config_map_set` answers for it: whether it
-- fails, and the context that it leaves.
abbrev pub ConfigMap : Type 0 → Type 0
ConfigMap S = Option (S → Bool × S)

abbrev pub apply : {S : Type 0} → ConfigMap S → S → Bool × S
apply none s = (true, s)
apply (some set) s = set s

-- `true` for 0, `false` for -1.
unfoldable pub output_config_map_set :
    {S : Type 0} → (config_map net_config_map : ConfigMap S) → S → Bool × S
output_config_map_set config_map net_config_map s =
    let (ok, s') = apply config_map s in if ok then apply net_config_map s' else (false, s')
