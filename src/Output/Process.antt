-- ===== src/Output/Process.antt =====
-- The processing of a chunk by `flb_output_flush_create`: what it holds afterwards.
use my_repo.Base.{
  ℕ, ◌+◌, ◌-◌, ◌≤◌, ◌<◌, ◌≡◌, refl, ◌∙◌, ap, ◌⊎◌, inl, inr, true, false, ◌||◌, Option, none, some,
  [], arith, ◌==◌, length, Bool-cases, ◌>>=◌, pure,
}
use my_repo.Output.{
  Answers, EventType, EventChunk, Ledger, put, abandon, give, give_logs, flush, buffer, chunk,
  context, process_logs, process_contexts, process, discard, logs, metrics, traces, other,
}
use my_repo.Output.Serialize.{abandon_lem, give_lem, serialize_lem, encodings, refused}

-- Without the flush and its coroutine, and with `n` decoded contexts.
abbrev pub gone : ℕ → Ledger → Ledger
gone n h = record h { flushes = h.flushes - 1; coros = h.coros - 1; contexts = n }

-- With a processed chunk and its buffer, if there is one, and with `n` decoded contexts.
abbrev pub holding : Option EventChunk → ℕ → Ledger → Ledger
holding none n h = put context n h
holding (some e) n h = record h { buffers = h.buffers + 1; chunks = h.chunks + 1; contexts = n }

pub buffer_back : (h : Ledger) → give buffer (put buffer (h.buffers + 1) h) ≡ some (tt, h)
buffer_back h =
    give_lem buffer (put buffer (h.buffers + 1) h) (omega arith)
    ∙ ap (λ m. some (tt, put buffer m h)) (omega arith)

pub chunk_back : (h : Ledger) → give chunk (put chunk (h.chunks + 1) h) ≡ some (tt, h)
chunk_back h =
    give_lem chunk (put chunk (h.chunks + 1) h) (omega arith)
    ∙ ap (λ m. some (tt, put chunk m h)) (omega arith)

pub give_logs_own : (h : Ledger) → give_logs false h ≡ give buffer h
unfolding give_logs
give_logs_own h = refl

leave :
    (h : Ledger)
    → 0 < h.flushes
    → 0 < h.coros
    → abandon (put buffer (h.buffers + 1) h)
      ≡ some (tt, put buffer (h.buffers + 1) (gone h.contexts h))
leave h lf lc = abandon_lem (put buffer (h.buffers + 1) h) lf lc

module _ (a : Answers) (h : Ledger) (lf : 0 < h.flushes) (lc : 0 < h.coros) where
  -- The logs leave with a chunk of the processor's buffer, or without the flush.
  logs_lem :
      a.run_borrowed ≡ false
      → (process_logs a h ≡ some (none, gone h.contexts h))
        ⊎ ((e : EventChunk) × (process_logs a h ≡ some (some e, holding (some e) h.contexts h))
            × (e.borrowed ≡ false)
            × (e.size ≡ length e.bytes))
  unfolding process_logs
  logs_lem own = elim (Bool-cases (a.run_failed || (length a.run_buffer == 0))) [
    | inl f ↦ inl (rw (f, ◌>>=◌, abandon_lem h lf lc) refl)
    | inr f ↦ elim (Bool-cases (a.mp_count == 0)) [
      | inl z ↦ inl (
          rw (◌>>=◌, f, own, z, leave h lf lc, own, give_logs_own, buffer_back (gone h.contexts h))
            refl)
      | inr z ↦ elim (Bool-cases a.chunk_create) [
        | inl c ↦ inr (
          record {
            type = logs;
            records = a.mp_count;
            size = length a.run_buffer;
            bytes = a.run_buffer;
            borrowed = false;
          },
          rw (◌>>=◌, f, own, z, c, own) refl,
          refl,
          refl,
        )
        | inr c ↦ inl (
            rw
              (
                ◌>>=◌,
                f,
                own,
                z,
                c,
                leave h lf lc,
                own,
                give_logs_own,
                buffer_back (gone h.contexts h),
              )
              refl)
      ]
    ]
  ]

  -- The contexts leave with a chunk of their encodings, or without the flush.
  contexts_lem :
      (type : EventType) (size : ℕ)
      → ((n : ℕ) × (process_contexts a type size h ≡ some (none, gone (h.contexts + n) h))
          × (n ≤ refused a.decoded))
        ⊎ ((e : EventChunk) × (process_contexts a type size h
              ≡ some (some e, holding (some e) (h.contexts + refused a.decoded) h))
            × (e.borrowed ≡ false)
            × (e.bytes ≡ encodings a.decoded)
            × (length e.bytes ≤ e.size))
  unfolding process_contexts
  contexts_lem type size = elim (Bool-cases a.calloc_buffer) [
    | inr b ↦ inl (
      0,
      rw (◌>>=◌, b, abandon_lem h lf lc) (ap (λ n. some (none, gone n h)) (omega arith)),
      omega arith,
    )
    | inl b ↦
        elim (serialize_lem a.decoded (record { content = []; p_size = size })
          (put buffer (h.buffers + 1) h) lf lc (omega arith) (omega arith)) [
            | inl (d, run, e, fit) ↦ elim (Bool-cases (length d.content == 0)) [
              | inl z ↦ inl (
                refused a.decoded,
                rw (◌>>=◌, b, run, z, leave (put context m h) lf lc, buffer_back (gone m h)) refl,
                omega arith,
              )
              | inr z ↦ elim (Bool-cases a.chunk_create) [
                | inl c ↦ inr (
                  record {
                    type = type;
                    records = 0;
                    size = d.p_size;
                    bytes = d.content;
                    borrowed = false;
                  },
                  rw (◌>>=◌, b, run, z, c) refl,
                  refl,
                  e,
                  fit,
                )
                | inr c ↦ inl (
                  refused a.decoded,
                  rw (◌>>=◌, b, run, z, c, leave (put context m h) lf lc, buffer_back (gone m h))
                      refl,
                  omega arith,
                )
              ]
            ]
            | inr (n, run, l) ↦ inl (
              n,
              rw (◌>>=◌, b, run)
                  (ap (λ k. some (none, put buffer k (gone (h.contexts + n) h))) (omega arith)),
              l,
            )
          ]
  ]
    where
      m : ℕ
      m = h.contexts + refused a.decoded

-- A chunk that the flush owns, and whose content fits its size.
abbrev pub Fits : Option EventChunk → Type 0
Fits none = Unit {0}
Fits (some e) = (e.borrowed ≡ false) × (length e.bytes ≤ e.size)

module _ (a : Answers) (h : Ledger) (lf : 0 < h.flushes) (lc : 0 < h.coros)
    (own : a.run_borrowed ≡ false) where
  abbrev pub Processed : EventType → ℕ → Type 0
  Processed type size =
      (n : ℕ) × (n ≤ refused a.decoded)
      × ((process a type size h ≡ some (none, gone (h.contexts + n) h))
          ⊎ ((p : Option EventChunk) × (process a type size h
                ≡ some (some p, holding p (h.contexts + n) h))
              × Fits p))

  none_new : (f : ℕ → Ledger) → f h.contexts ≡ f (h.contexts + 0)
  none_new f = ap f (omega arith)

  of_contexts :
      (type : EventType) (size : ℕ)
      → a.processor_is_active ≡ true
      → (process a type size h
          ≡ (do
            c ← process_contexts a type size
            pure (elim c [ none ↦ none | some e ↦ some (some e) ]))
              h)
      → Processed type size
  of_contexts type size act run = elim (contexts_lem a h lf lc type size) [
    | inl (n, r, l) ↦ (n, l, inl (run ∙ rw (◌>>=◌, r) refl))
    | inr (e, r, b, _, fit) ↦
        (refused a.decoded, omega arith, inr (some e, run ∙ rw (◌>>=◌, r) refl, (b, fit)))
  ]

  pub process_lem : (type : EventType) (size : ℕ) → Processed type size
  unfolding process
  process_lem type size = elim (Bool-cases a.processor_is_active) [
    | inr i ↦ (
      0,
      omega arith,
      inr (none, rw i (ap (λ k. some (some none, k)) (none_new (λ n. put context n h))), tt),
    )
    | inl act ↦ elim type as (λ t. Processed t size) [
      | logs ↦ elim (logs_lem a h lf lc own) [
        | inl r ↦ (
          0,
          omega arith,
          inl (rw (◌>>=◌, act, r) (ap (λ k. some (none, k)) (none_new (λ n. gone n h)))),
        )
        | inr (e, r, b, fit) ↦ (
          0,
          omega arith,
          inr (
            some e,
            rw (◌>>=◌, act, r)
                (ap (λ k. some (some (some e), k)) (none_new (λ n. holding (some e) n h))),
            (b, omega (arith, fit)),
          ),
        )
      ]
      | metrics ↦ of_contexts metrics size act (rw act refl)
      | traces ↦ of_contexts traces size act (rw act refl)
      | other ↦ (
        0,
        omega arith,
        inr (none, rw act (ap (λ k. some (some none, k)) (none_new (λ n. put context n h))), tt),
      )
    ]
  ]

pub discard_lem :
    (p : Option EventChunk) (k : Ledger) (c : ℕ)
    → 0 < k.flushes
    → Fits p
    → discard p (holding p c k) ≡ some (tt, record k { flushes = k.flushes - 1; contexts = c })
unfolding discard
discard_lem none k c lf fit = give_lem flush (put context c k) lf
discard_lem (some e) k c lf (b, fit) =
    rw
      (
        ◌>>=◌,
        b,
        give_logs_own,
        buffer_back (record k { chunks = k.chunks + 1; contexts = c }),
        chunk_back (put context c k),
        give_lem flush (put context c k) lf,
      )
      refl
