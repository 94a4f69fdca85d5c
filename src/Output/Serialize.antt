-- ===== src/Output/Serialize.antt =====
-- The loop that runs the processor over the contexts of a chunk and collects their encodings.
use my_repo.Base.{
  ℕ, ◌+◌, ◌-◌, ◌≤◌, ◌<◌, ◌≡◌, refl, sym, ◌∙◌, ap, ◌⊎◌, inl, inr, true, false, none, some, List, [],
  ◌∷◌, ◌++◌, append_assoc, append-nil, arith, ◌==◌, ltb, if◌then◌else◌, length, length-append,
  Bool-cases, ◌>>=◌,
}
use my_repo.Output.{
  Context, Buffer, Ledger, Kind, count, put, serialize, abandon, context, serial, buffer, flush,
  coro, give,
}

-- The encodings of the contexts that the processor accepts.
abbrev pub encodings : List Context → List ℕ
encodings [] = []
encodings (c ∷ cs) = if c.run_ok then c.bytes ++ encodings cs else encodings cs

-- How many contexts the processor does not accept.
abbrev pub refused : List Context → ℕ
refused [] = 0
refused (c ∷ cs) = if c.run_ok then refused cs else 1 + refused cs

pub give_lem :
    (k : Kind) (h : Ledger) → 0 < count k h → give k h ≡ some (tt, put k (count k h - 1) h)
unfolding give
give_lem k h l = let some_left : (count k h == 0) ≡ false = ground arith in rw some_left refl

context_back : (h : Ledger) → give context (put context (h.contexts + 1) h) ≡ some (tt, h)
context_back h =
    give_lem context (put context (h.contexts + 1) h) (omega arith)
    ∙ ap (λ n. some (tt, put context n h)) (omega arith)

serial_back : (h : Ledger) → give serial (put serial (h.serials + 1) h) ≡ some (tt, h)
serial_back h =
    give_lem serial (put serial (h.serials + 1) h) (omega arith)
    ∙ ap (λ n. some (tt, put serial n h)) (omega arith)

module _ (c : Context) (cs : List Context) (b : Buffer) (h : Ledger) where
  step_refused :
      c.run_ok ≡ false → serialize (c ∷ cs) b h ≡ serialize cs b (put context (h.contexts + 1) h)
  unfolding serialize
  step_refused r = ground arith

  step_next :
      c.run_ok ≡ true
      → c.encodes ≡ true
      → length b.content + length c.bytes ≤ b.p_size
      → serialize (c ∷ cs) b h ≡ serialize cs (record b { content = b.content ++ c.bytes }) h
  unfolding serialize
  step_next r e l =
      let within : ltb b.p_size (length b.content + length c.bytes) ≡ false = ground arith in
      rw (◌>>=◌, r, context_back h, e, within, serial_back h) refl

  step_grown :
      c.run_ok ≡ true
      → c.encodes ≡ true
      → b.p_size < length b.content + length c.bytes
      → c.grows ≡ true
      → serialize (c ∷ cs) b h
        ≡ serialize cs
            (record { content = b.content ++ c.bytes; p_size = b.p_size + length c.bytes })
            h
  unfolding serialize
  step_grown r e l g =
      let over : ltb b.p_size (length b.content + length c.bytes) ≡ true = ground arith in
      rw (◌>>=◌, r, context_back h, e, over, g, serial_back h) refl

-- The function ends without the flush, its coroutine and the buffer.
abbrev pub abrupt : Ledger → Ledger
abrupt h = record h { flushes = h.flushes - 1; coros = h.coros - 1; buffers = h.buffers - 1 }

pub abandon_lem :
    (h : Ledger)
    → 0 < h.flushes
    → 0 < h.coros
    → abandon h ≡ some (tt, record h { flushes = h.flushes - 1; coros = h.coros - 1 })
unfolding abandon
abandon_lem h lf lc =
    rw (◌>>=◌, give_lem coro h lc, give_lem flush (record h { coros = h.coros - 1 }) lf) refl

module _ (c : Context) (cs : List Context) (b : Buffer) (h : Ledger) (lf : 0 < h.flushes)
    (lc : 0 < h.coros) (lb : 0 < h.buffers) where
  stop_encode : c.run_ok ≡ true → c.encodes ≡ false → serialize (c ∷ cs) b h ≡ some (none, abrupt h)
  unfolding serialize
  stop_encode r e =
      rw
        (
          ◌>>=◌,
          r,
          context_back h,
          e,
          abandon_lem h lf lc,
          give_lem buffer (record h { flushes = h.flushes - 1; coros = h.coros - 1 }) lb,
        )
        refl

  stop_realloc :
      c.run_ok ≡ true
      → c.encodes ≡ true
      → b.p_size < length b.content + length c.bytes
      → c.grows ≡ false
      → serialize (c ∷ cs) b h ≡ some (none, abrupt h)
  unfolding serialize
  stop_realloc r e l g =
      let over : ltb b.p_size (length b.content + length c.bytes) ≡ true = ground arith in
      rw
        (
          ◌>>=◌,
          r,
          context_back h,
          e,
          over,
          g,
          serial_back h,
          abandon_lem h lf lc,
          give_lem buffer (record h { flushes = h.flushes - 1; coros = h.coros - 1 }) lb,
        )
        refl

-- The loop ended with every encoding in the buffer, within `p_size`, or the function ended.
abbrev pub Serialized : (cs : List Context) (b : Buffer) (h : Ledger) → Type 0
Serialized cs b h =
    ((b' : Buffer) × (serialize cs b h ≡ some (some b', put context (h.contexts + refused cs) h))
      × (b'.content ≡ b.content ++ encodings cs)
      × (length b'.content ≤ b'.p_size))
    ⊎ ((n : ℕ) × (serialize cs b h ≡ some (none, abrupt (put context (h.contexts + n) h)))
        × (n ≤ refused cs))

refused_one :
    (c : Context) (cs : List Context) (b : Buffer) (h : Ledger)
    → c.run_ok ≡ false
    → Serialized cs b (put context (h.contexts + 1) h)
    → Serialized (c ∷ cs) b h
refused_one c cs b h r (inl (b', run, e, fit)) = inl (
  b',
  step_refused c cs b h r ∙ run ∙ ap (λ n. some (some b', put context n h)) (ground arith),
  ground arith,
  fit,
)
refused_one c cs b h r (inr (n, run, l)) = inr (
  1 + n,
  step_refused c cs b h r ∙ run ∙ ap (λ n. some (none, abrupt (put context n h))) (omega arith),
  ground arith,
)

accepted_one :
    (c : Context) (cs : List Context) (b d : Buffer) (h : Ledger)
    → c.run_ok ≡ true
    → d.content ≡ b.content ++ c.bytes
    → serialize (c ∷ cs) b h ≡ serialize cs d h
    → Serialized cs d h
    → Serialized (c ∷ cs) b h
accepted_one c cs b d h r k step (inl (b', run, e, fit)) = inl (
  b',
  step ∙ run ∙ ap (λ n. some (some b', put context n h)) (ground arith),
  e ∙ rw (k, r) (append_assoc b.content c.bytes (encodings cs)),
  fit,
)
accepted_one c cs b d h r k step (inr (n, run, l)) = inr (n, step ∙ run, ground arith)

stopped :
    (cs : List Context) (b : Buffer) (h : Ledger)
    → serialize cs b h ≡ some (none, abrupt h)
    → Serialized cs b h
stopped cs b h run =
    inr (0, run ∙ ap (λ n. some (none, abrupt (put context n h))) (omega arith), omega arith)

-- For a buffer whose content fits, and with the flush, its coroutine and the buffer held, the loop
-- over the contexts of a chunk ends. Either the encodings of the accepted contexts are appended to
-- the content, in order and within `p_size`, and one decoded context stays behind for each that the
-- processor refused; or the flush, its coroutine and the buffer are given back, and at most as many
-- contexts stay behind as were refused. Nothing else is held or given back.
pub serialize_lem :
    (cs : List Context) (b : Buffer) (h : Ledger)
    → 0 < h.flushes
    → 0 < h.coros
    → 0 < h.buffers
    → length b.content ≤ b.p_size
    → Serialized cs b h
serialize_lem [] b h lf lc lb fit = inl (
  b,
  unfold serialize in ap (λ n. some (some b, put context n h)) (omega arith),
  sym (append-nil b.content),
  fit,
)
serialize_lem (c ∷ cs) b h lf lc lb fit = elim (Bool-cases c.run_ok) [
  | inr r ↦
      refused_one c cs b h r (serialize_lem cs b (put context (h.contexts + 1) h) lf lc lb fit)
  | inl r ↦ elim (Bool-cases c.encodes) [
    | inr e ↦ stopped (c ∷ cs) b h (stop_encode c cs b h lf lc lb r e)
    | inl e ↦ elim (Bool-cases (ltb b.p_size (length b.content + length c.bytes))) [
      | inr within ↦
          accepted_one c cs b (record b { content = b.content ++ c.bytes }) h r refl
            (step_next c cs b h r e (ground arith))
            (serialize_lem cs (record b { content = b.content ++ c.bytes }) h lf lc lb
              (ground (arith, length-append b.content c.bytes)))
      | inl over ↦ elim (Bool-cases c.grows) [
        | inr g ↦ stopped (c ∷ cs) b h (stop_realloc c cs b h lf lc lb r e (ground arith) g)
        | inl g ↦
            accepted_one c cs b
              (record { content = b.content ++ c.bytes; p_size = b.p_size + length c.bytes }) h r
              refl (step_grown c cs b h r e (ground arith) g)
              (serialize_lem cs
                (record { content = b.content ++ c.bytes; p_size = b.p_size + length c.bytes }) h lf
                lc lb (omega (arith, length-append b.content c.bytes, fit)))
      ]
    ]
  ]
]
