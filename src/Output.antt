-- ===== src/Output.antt =====
-- The flush of a chunk by an output plugin, as in fluent-bit/flb_output.h: how its context is made,
-- started and left. What the function holds is counted in a ledger; giving back what is not held is
-- `none`. The lists of flushes are the lists of their entries, `mk_list_add` puts one last.
pub mod Serialize
pub mod Process
pub mod Create
pub mod Calls
pub mod Return
mod Tests
use my_repo.Base.{
  ℕ, zero, suc, ◌+◌, ◌-◌, ◌*◌, ◌/◌, ◌%◌, ◌^◌, Bool, true, false, not, ◌&&◌, ◌||◌, Option, none,
  some, List, [], ◌∷◌, ◌++◌, bit_or, ◌==◌, ltb, if◌then◌else◌, length, State, pure, ◌>>=◌, ◌>>◌,
}
use my_repo.Task.{
  Task, TaskRoute, route_dropped, task_set, get_route_status, activate_route, deactivate_route,
}

abbrev pub ret_error : ℕ
ret_error = 0

abbrev pub ret_ok : ℕ
ret_ok = 1

abbrev pub ret_retry : ℕ
ret_retry = 2

pub data EventType : Type 0 where
  logs metrics traces other : EventType

-- `bytes` is what was written of the `size` bytes; `borrowed`: the bytes are the task's own.
pub record EventChunk : Type 0 where
  pub type : EventType
  pub records : ℕ
  pub size : ℕ
  pub bytes : List ℕ
  pub borrowed : Bool

-- How many of each the code holds: flush contexts, coroutines and their stacks, buffers, chunks,
-- decoded contexts, serialized contexts, and the data of the task's own chunk.
pub record Ledger : Type 0 where
  pub flushes : ℕ
  pub coros : ℕ
  pub callees : ℕ
  pub buffers : ℕ
  pub chunks : ℕ
  pub contexts : ℕ
  pub serials : ℕ
  pub task_data : ℕ

pub data Kind : Type 0 where
  flush coro callee buffer chunk context serial task_data : Kind

abbrev pub count : Kind → Ledger → ℕ
count flush h = h.flushes
count coro h = h.coros
count callee h = h.callees
count buffer h = h.buffers
count chunk h = h.chunks
count context h = h.contexts
count serial h = h.serials
count task_data h = h.task_data

abbrev pub put : Kind → ℕ → Ledger → Ledger
put flush n h = record h { flushes = n }
put coro n h = record h { coros = n }
put callee n h = record h { callees = n }
put buffer n h = record h { buffers = n }
put chunk n h = record h { chunks = n }
put context n h = record h { contexts = n }
put serial n h = record h { serials = n }
put task_data n h = record h { task_data = n }

abbrev pub take : Kind → State Ledger (Unit {0})
take k h = some (tt, put k (count k h + 1) h)

unfoldable pub give : Kind → State Ledger (Unit {0})
give k h = if count k h == 0 then none else some (tt, put k (count k h - 1) h)

-- One context that the decoder finds: the processor's answer, whether it can be encoded, the bytes of
-- the encoding, and the answer of `flb_realloc` if it is asked.
pub record Context : Type 0 where
  pub run_ok : Bool
  pub encodes : Bool
  pub bytes : List ℕ
  pub grows : Bool

-- The buffer with its `serialization_buffer_offset` first bytes, and `p_size`.
pub record Buffer : Type 0 where
  pub content : List ℕ
  pub p_size : ℕ

-- `flb_coro_destroy` before there is a stack, and `flb_free` of the flush.
unfoldable pub abandon : State Ledger (Unit {0})
unfolding give
abandon = do give coro; give flush

-- The loop over the metrics of a chunk, and the one over its traces. `none` after a failure, which
-- ends the function.
unfoldable pub serialize : List Context → Buffer → State Ledger (Option Buffer)
unfolding abandon give
serialize [] b = pure (some b)
serialize (c ∷ cs) b =
    let rest = serialize cs in
    let next : Buffer = record b { content = b.content ++ c.bytes } in
    let grown : Buffer = record next { p_size = b.p_size + length c.bytes } in
    do
      take context
      if not c.run_ok then rest b else do
        give context
        if not c.encodes then (do abandon; give buffer; pure none) else do
          take serial
          if ltb b.p_size (length b.content + length c.bytes)
              then (if c.grows
                  then (do give serial; rest grown)
                  else (do give serial; abandon; give buffer; pure none))
              else (do give serial; rest next)

-- The answers of the code outside the headers: memory, the processor, the decoders, coroutines.
pub record Answers : Type 0 where
  pub calloc_flush : Bool
  pub coro_create : Bool
  pub flush_id : ℕ
  pub processor_is_active : Bool
  pub run_failed : Bool
  pub run_buffer : List ℕ
  pub run_borrowed : Bool
  pub mp_count : ℕ
  pub calloc_buffer : Bool
  pub decoded : List Context
  pub chunk_create : Bool
  pub co_create : Bool

-- Its buffer is the task's data, its configuration the environment's; its coroutine is counted in
-- the ledger.
pub record OutputFlush : Type 0 where
  pub id : ℕ
  pub task : Task
  pub o_ins : ℕ
  pub processed : Option EventChunk

-- `flb_free(p_buf)` for the logs.
unfoldable pub give_logs : Bool → State Ledger (Unit {0})
unfolding give
give_logs borrowed = give (if borrowed then task_data else buffer)

unfoldable pub process_logs : Answers → State Ledger (Option EventChunk)
unfolding abandon give give_logs
process_logs a = if a.run_failed || (length a.run_buffer == 0) then (do abandon; pure none) else (do
  if a.run_borrowed then pure tt else take buffer
  if a.mp_count == 0
      then (do abandon; give_logs a.run_borrowed; pure none)
      else if a.chunk_create
      then (do
        take chunk
        pure (
            some (record {
              type = logs;
              records = a.mp_count;
              size = length a.run_buffer;
              bytes = a.run_buffer;
              borrowed = a.run_borrowed;
            })))
      else (do abandon; give_logs a.run_borrowed; pure none))

-- The branches for metrics and for traces.
unfoldable pub process_contexts : Answers → EventType → ℕ → State Ledger (Option EventChunk)
unfolding abandon serialize give
process_contexts a type size = if not a.calloc_buffer then (do abandon; pure none) else (do
  take buffer
  done ← serialize a.decoded (record { content = []; p_size = size })
  elim done [
    | none ↦ pure none
    | some b ↦
        if length b.content == 0
        then (do abandon; give buffer; pure none)
        else if a.chunk_create
        then (do
          take chunk
          pure (
              some (record {
                type = type;
                records = 0;
                size = b.p_size;
                bytes = b.content;
                borrowed = false;
              })))
        else (do abandon; give buffer; pure none)
  ])

abbrev pub process_metrics : Answers → ℕ → State Ledger (Option EventChunk)
process_metrics a size = process_contexts a metrics size

abbrev pub process_traces : Answers → ℕ → State Ledger (Option EventChunk)
process_traces a size = process_contexts a traces size

-- Inside, `none` is the end of the function with NULL, and `some none` no processed chunk.
unfoldable pub process : Answers → EventType → ℕ → State Ledger (Option (Option EventChunk))
unfolding process_logs process_contexts
process a type size = if not a.processor_is_active then pure (some none) else (elim type [
  | logs ↦ do c ← process_logs a; pure (elim c [ none ↦ none | some e ↦ some (some e) ])
  | metrics ↦ do c ← process_metrics a size; pure (elim c [ none ↦ none | some e ↦ some (some e) ])
  | traces ↦ do c ← process_traces a size; pure (elim c [ none ↦ none | some e ↦ some (some e) ])
  | other ↦ pure (some none)
])

-- After a failure of `co_create`.
unfoldable pub discard : Option EventChunk → State Ledger (Unit {0})
unfolding give give_logs
discard none = give flush
discard (some e) = do give_logs e.borrowed; give chunk; give flush

-- Up to the two ends: NULL, or the new flush, which `flb_output_flush_create` then puts last in the
-- list of the output's flushes, or of those of its thread.
unfoldable pub flush_create :
    Answers
    → Task
    → (type : EventType) (size : ℕ) (o_ins : ℕ) (flush_list : List OutputFlush)
    → State Ledger (Option OutputFlush × List OutputFlush)
unfolding process discard give
flush_create a task type size o_ins flush_list =
    if not a.calloc_flush then pure (none, flush_list) else (do
      take flush
      if not a.coro_create then (do give flush; pure (none, flush_list)) else (do
        take coro
        p ← process a type size
        elim p [
          | none ↦ pure (none, flush_list)
          | some processed ↦
              if not a.co_create
              then (do give coro; discard processed; pure (none, flush_list))
              else (do
                take callee
                let f : OutputFlush = record {
                  id = a.flush_id;
                  task = task;
                  o_ins = o_ins;
                  processed = processed;
                }
                pure (some f, flush_list ++ f ∷ []))
        ]))
