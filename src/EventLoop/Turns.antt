-- ===== src/EventLoop/Turns.antt =====
-- One turn of the loop: what arrives, and which event is next.
use my_repo.Base.{
  ℕ, zero, suc, ◌<◌, ◌≡◌, refl, ◌∙◌, inl, inr, Bool, true, false, Option, some, List, [], ◌∷◌,
  subst, sym, arith, ◌==◌, has, ltb, Bool-cases, length,
}
use my_repo.MkList.{Ptr, null, Heap, M, ◌>>=◌}
use my_repo.BucketQueue.{BucketQueue}
use my_repo.BucketQueue.Holds.{Buckets}
use my_repo.BucketQueue.Pop.{Pops}
use my_repo.EventLoop.{
  Event, event_none, load_event, load, load_injected, next_event, next_round, Turn, next_turn,
}
use my_repo.EventLoop.Inject.{load_all, drop, load_injected_lem}
use my_repo.EventLoop.Serve.{next_event-Pops}
use my_repo.EventLoop.Track.{Tracks, Known, Tracks-pop}
use my_repo.EventLoop.Arrive.{Arrives, none_came, Arrives-trans, AllKnown, Loads, load_event-Loads}

AllKnown-drop :
    (node : Ptr → Bool) (p n k : ℕ) (es : List Event)
    → AllKnown node p n es
    → AllKnown node p n (drop k es)
AllKnown-drop node p n zero es a = a
AllKnown-drop node p n (suc k) [] a = tt
AllKnown-drop node p n (suc k) (e ∷ es) a = AllKnown-drop node p n k es a.1

-- The items of the first `n` priorities are nodes.
abbrev pub NoNull : ℕ → Buckets → Type 0
NoNull n bs = (i : ℕ) → i < n → (c : Ptr) → has c (bs i) ≡ true → (c == null) ≡ false

-- Code that leaves the queue with the items it has, and the marked nodes that are not in it orphans.
abbrev pub Keeps : (Ptr → Bool) → M (Unit {0}) → Type 0
Keeps node code =
    (h : Heap) (q : BucketQueue) (bs : Buckets)
    → Tracks node h q bs
    → (g : Heap) × (code h ≡ some (tt, g)) × Tracks node g q bs

-- What is asked of the code between two choices: it leaves the queue as it is, and the events that it
-- makes have marked nodes and priorities from `p` to `n`.
pub record Orderly (node : Ptr → Bool) (p n : ℕ) (turn : Turn) : Type 0 where
  pub body : Keeps node turn.body
  pub after_body : AllKnown node p n turn.after_body
  pub wait : Keeps node turn.wait
  pub ready : AllKnown node p n turn.ready

-- An event is chosen among those that waited and those that arrived.
abbrev pub Chooses :
    (Ptr → Bool) → ℕ → Heap → BucketQueue → Buckets → Option ((Ptr × BucketQueue) × Heap) → Type 0
Chooses node p h q bs run =
    (item : Ptr) × (q' : BucketQueue) × (g : Heap) × (ds cs : Buckets) × (run
      ≡ some ((item, q'), g))
    × Arrives p bs ds
    × NoNull q.n_buckets ds
    × Pops ds q.n_buckets item cs
    × Tracks node g q' cs
    × (q'.n_buckets ≡ q.n_buckets)

module _ (node : Ptr → Bool) (p n : ℕ) where
  Loads-then :
      (h g : Heap) (q q' : BucketQueue) (bs cs : Buckets)
      → Arrives p bs cs
      → q'.n_buckets ≡ q.n_buckets
      → (run : Option (BucketQueue × Heap)) → Loads node p g q' cs run
      → Loads node p h q bs run
  Loads-then h g q q' bs cs a e run (g', q'', ds, r, t, a', e') =
      (g', q'', ds, r, t, Arrives-trans a a', e' ∙ e)

  load_cons :
      (h g : Heap) (q q' : BucketQueue) (e : Event) (es : List Event)
      → (e.status == event_none) ≡ false
      → load_event q e h ≡ some (q', g)
      → load q (e ∷ es) h ≡ load q' es g
  unfolding load
  load_cons h g q q' e es s run = rw (◌>>=◌, s, run) refl

  load_skip :
      (h : Heap) (q : BucketQueue) (e : Event) (es : List Event)
      → (e.status == event_none) ≡ true
      → load q (e ∷ es) h ≡ load q es h
  unfolding load
  load_skip h q e es s = rw s refl

  load-Loads :
      (es : List Event) (h : Heap) (q : BucketQueue) (bs : Buckets)
      → Tracks node h q bs
      → q.n_buckets ≡ n
      → AllKnown node p n es
      → Loads node p h q bs (load q es h)
  load-Loads [] h q bs t e a = (h, q, bs, unfold load in refl, t, none_came, refl)
  load-Loads (e ∷ es) h q bs t s (k, ks) = elim (Bool-cases (e.status == event_none)) [
    | inl d ↦ subst (Loads node p h q bs) (sym (load_skip h q e es d)) (load-Loads es h q bs t s ks)
    | inr d ↦
        let (g, q', cs, run, t', a, f) =
          load_event-Loads node p h q bs e t (subst (λ m. Known node p m e) (sym s) k) in
        subst (Loads node p h q bs) (sym (load_cons h g q q' e es d run))
          (Loads-then h g q q' bs cs a f _ (load-Loads es g q' cs t' (f ∙ s) ks))
  ]

  load_all-Loads :
      (es : List Event) (h : Heap) (q : BucketQueue) (bs : Buckets)
      → Tracks node h q bs
      → q.n_buckets ≡ n
      → AllKnown node p n es
      → Loads node p h q bs (load_all q es h)
  load_all-Loads [] h q bs t e a = (h, q, bs, refl, t, none_came, refl)
  load_all-Loads (e ∷ es) h q bs t s (k, ks) =
      let (g, q', cs, run, t', a, f) =
        load_event-Loads node p h q bs e t (subst (λ m. Known node p m e) (sym s) k) in
      let whole : load_all q (e ∷ es) h ≡ load_all q' es g = rw (◌>>=◌, run) refl in
      subst (Loads node p h q bs) (sym whole)
        (Loads-then h g q q' bs cs a f _ (load_all-Loads es g q' cs t' (f ∙ s) ks))

  load_injected-Loads :
      (es : List Event) (i : ℕ) (h : Heap) (q : BucketQueue) (bs : Buckets)
      → Tracks node h q bs
      → q.n_buckets ≡ n
      → AllKnown node p n es
      → Loads node p h q bs (load_injected q es i h)
  load_injected-Loads es i h q bs t s k = elim (Bool-cases (ltb (length es) i)) [
    | inl l ↦ (h, q, bs, load_injected_lem q es i h ∙ rw l refl, t, none_came, refl)
    | inr l ↦
        let (g, q', cs, run, t', a, f) =
          load_all-Loads (drop i es) h q bs t s (AllKnown-drop node p n i es k) in
        (g, q', cs, load_injected_lem q es i h ∙ rw l run, t', a, f)
  ]

  nodes : (h : Heap) (q : BucketQueue) (bs : Buckets) → Tracks node h q bs → NoNull q.n_buckets bs
  nodes h q bs t i l c k = ground (arith, (t.rings i l).live c)

  round_run :
      (h g g' : Heap) (q q' q'' : BucketQueue) (es : List Event) (item : Ptr)
      → load q es h ≡ some (q', g)
      → next_event q' g ≡ some ((item, q''), g')
      → next_round q es h ≡ some ((item, q''), g')
  unfolding next_round
  round_run h g g' q q' q'' es item r s = rw (◌>>=◌, r) s

  pub next_round-Chooses :
      (es : List Event) (h : Heap) (q : BucketQueue) (bs : Buckets)
      → Tracks node h q bs
      → q.n_buckets ≡ n
      → AllKnown node p n es
      → Chooses node p h q bs (next_round q es h)
  next_round-Chooses es h q bs t e k =
      let (g, q', ds, run, t', a, f) = load-Loads es h q bs t e k in
      let (item, q'', g', cs, run', held, pops, sp) = next_event-Pops g q' ds t'.holds in
      (
        item,
        q'',
        g',
        ds,
        cs,
        round_run h g g' q q' q'' es item run run',
        a,
        subst (λ m. NoNull m ds) f (nodes g q' ds t'),
        subst (λ m. Pops ds m item cs) f pops,
        Tracks-pop node g q' ds t' g' q'' item cs held pops sp,
        sp.n_buckets ∙ f,
      )

  turn_run :
      (h0 h g g' : Heap) (q q' : BucketQueue) (i : ℕ) (t : Turn)
      → t.body h0 ≡ some (tt, h)
      → load_injected q t.after_body i h ≡ some (q', g)
      → t.wait g ≡ some (tt, g')
      → next_turn q i t h0 ≡ next_round q' t.ready g'
  unfolding next_turn
  turn_run h0 h g g' q q' i t b r w = rw (◌>>=◌, b, r, w) refl

  pub next_turn-Chooses :
      (turn : Turn) (i : ℕ) (h : Heap) (q : BucketQueue) (bs : Buckets)
      → Tracks node h q bs
      → q.n_buckets ≡ n
      → Orderly node p n turn
      → Chooses node p h q bs (next_turn q i turn h)
  next_turn-Chooses turn i h q bs t e o =
      let (h1, b, t1) = o.body h q bs t in
      let (g, q', cs, run, t', a, f) =
        load_injected-Loads turn.after_body i h1 q bs t1 e o.after_body in
      let (g1, w, t2) = o.wait g q' cs t' in
      let (item, q'', g', ds, es, run', a', nn, pops, t'', f') =
        next_round-Chooses turn.ready g1 q' cs t2 (f ∙ e) o.ready in
      (
        item,
        q'',
        g',
        ds,
        es,
        turn_run h h1 g g1 q q' i turn b run w ∙ run',
        Arrives-trans a a',
        subst (λ m. NoNull m ds) f nn,
        subst (λ m. Pops ds m item es) f pops,
        t'',
        f' ∙ f,
      )
