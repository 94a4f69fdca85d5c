-- ===== src/Output/Create.antt =====
-- `flb_output_flush_create`: what it holds at its two ends.
use my_repo.Base.{
  ℕ, ◌+◌, ◌-◌, ◌≤◌, ◌≡◌, refl, ap, ◌⊎◌, inl, inr, true, false, Option, none, some, List, [], ◌∷◌,
  ◌++◌, arith, Bool-cases, ◌>>=◌,
}
use mathlib.Core.Path.{ap₂}
use my_repo.Task.{Task}
use my_repo.Output.{
  Answers, EventType, EventChunk, OutputFlush, Ledger, put, flush, coro, context, process,
  flush_create,
}
use my_repo.Output.Serialize.{give_lem, refused}
use my_repo.Output.Process.{gone, holding, Fits, process_lem, discard_lem}

-- The ledger after a start: the flush, its coroutine and the stack, and what was processed.
abbrev pub started : Option EventChunk → ℕ → Ledger → Ledger
started p n h = record (holding p n h) {
  flushes = h.flushes + 1;
  coros = h.coros + 1;
  callees = h.callees + 1;
}

module _ (a : Answers) (task : Task) (type : EventType) (size o_ins : ℕ)
    (flush_list : List OutputFlush) (h : Ledger) where
  abbrev both : Ledger
  both = record h { flushes = h.flushes + 1; coros = h.coros + 1 }

  no_flush :
      a.calloc_flush ≡ false
      → flush_create a task type size o_ins flush_list h
        ≡ some ((none, flush_list), put context (h.contexts + 0) h)
  unfolding flush_create
  no_flush b = rw b (ap (λ n. some ((none, flush_list), put context n h)) (omega arith))

  no_coro :
      a.calloc_flush ≡ true
      → a.coro_create ≡ false
      → flush_create a task type size o_ins flush_list h
        ≡ some ((none, flush_list), put context (h.contexts + 0) h)
  unfolding flush_create
  no_coro b c =
      rw (◌>>=◌, b, c, give_lem flush (record h { flushes = h.flushes + 1 }) (omega arith))
        (ap (λ k. some ((none, flush_list), k))
          (ap₂ (λ x y. record h { flushes = x; contexts = y }) (omega arith) (omega arith)))

  settled : (c : ℕ) → gone c both ≡ put context c h
  settled c =
      ap₂ (λ x y. record h { flushes = x; coros = y; contexts = c }) (omega arith) (omega arith)

  no_chunk :
      (n : ℕ)
      → a.calloc_flush ≡ true
      → a.coro_create ≡ true
      → process a type size both ≡ some (none, gone n both)
      → flush_create a task type size o_ins flush_list h
        ≡ some ((none, flush_list), put context n h)
  unfolding flush_create
  no_chunk n b c run = rw (◌>>=◌, b, c, run) (ap (λ k. some ((none, flush_list), k)) (settled n))

  no_stack :
      (n : ℕ) (p : Option EventChunk)
      → a.calloc_flush ≡ true
      → a.coro_create ≡ true
      → process a type size both ≡ some (some p, holding p n both)
      → Fits p
      → a.co_create ≡ false
      → flush_create a task type size o_ins flush_list h
        ≡ some ((none, flush_list), put context n h)
  unfolding flush_create
  no_stack n none b c run fit d =
      rw
        (
          ◌>>=◌,
          b,
          c,
          run,
          d,
          give_lem coro (put context n both) (omega arith),
          discard_lem none (record h { flushes = h.flushes + 1; coros = h.coros + 1 - 1 }) n
              (omega arith) fit,
        )
        (ap (λ k. some ((none, flush_list), k)) (settled n))
  no_stack n (some e) b c run fit d =
      rw
        (
          ◌>>=◌,
          b,
          c,
          run,
          d,
          give_lem coro (holding (some e) n both) (omega arith),
          discard_lem (some e) (record h { flushes = h.flushes + 1; coros = h.coros + 1 - 1 }) n
              (omega arith) fit,
        )
        (ap (λ k. some ((none, flush_list), k)) (settled n))

  start :
      (n : ℕ) (p : Option EventChunk)
      → a.calloc_flush ≡ true
      → a.coro_create ≡ true
      → process a type size both ≡ some (some p, holding p n both)
      → a.co_create ≡ true
      → let f : OutputFlush = record {
        id = a.flush_id;
        task = task;
        o_ins = o_ins;
        processed = p;
      } in
        flush_create a task type size o_ins flush_list h
        ≡ some ((some f, flush_list ++ f ∷ []), started p n h)
  unfolding flush_create
  start n none b c run d = rw (◌>>=◌, b, c, run, d) refl
  start n (some e) b c run d = rw (◌>>=◌, b, c, run, d) refl

-- If the processor does not hand out the task's own data for the logs, `flb_output_flush_create`
-- returns, either with NULL, the list of flushes as it was and everything given back, or with a
-- flush for this task and output that is last in the list, and that holds its coroutine, a stack,
-- and a processed chunk, if any, whose content fits its size. In both cases some decoded contexts
-- stay behind, at most as many as the processor refused.
pub flush_create_lem :
    (a : Answers) (task : Task) (type : EventType) (size o_ins : ℕ) (flush_list : List OutputFlush)
    (h : Ledger)
    → a.run_borrowed ≡ false
    → (n : ℕ) × (n ≤ refused a.decoded)
      × ((flush_create a task type size o_ins flush_list h
            ≡ some ((none, flush_list), put context (h.contexts + n) h))
          ⊎ ((f : OutputFlush) × (flush_create a task type size o_ins flush_list h
                ≡ some ((some f, flush_list ++ f ∷ []), started f.processed (h.contexts + n) h))
              × (f.task ≡ task)
              × (f.o_ins ≡ o_ins)
              × Fits f.processed))
flush_create_lem a task type size o_ins flush_list h own = elim (Bool-cases a.calloc_flush) [
  | inr b ↦ (0, omega arith, inl (no_flush a task type size o_ins flush_list h b))
  | inl b ↦ elim (Bool-cases a.coro_create) [
    | inr c ↦ (0, omega arith, inl (no_coro a task type size o_ins flush_list h b c))
    | inl c ↦
        let (n, l, done) =
          process_lem a (both a task type size o_ins flush_list h) (omega arith) (omega arith) own
            type size in
        elim done [
          | inl run ↦
              (n, l, inl (no_chunk a task type size o_ins flush_list h (h.contexts + n) b c run))
          | inr (p, run, fit) ↦ elim (Bool-cases a.co_create) [
            | inl d ↦ (
              n,
              l,
              inr (
                record { id = a.flush_id; task = task; o_ins = o_ins; processed = p },
                start a task type size o_ins flush_list h (h.contexts + n) p b c run d,
                refl,
                refl,
                fit,
              ),
            )
            | inr d ↦ (
              n,
              l,
              inl (no_stack a task type size o_ins flush_list h (h.contexts + n) p b c run fit d),
            )
          ]
        ]
  ]
]
