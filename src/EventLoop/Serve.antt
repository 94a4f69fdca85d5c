-- ===== src/EventLoop/Serve.antt =====
-- The order in which the engine serves the events that wait.
use my_repo.Base.{
  ℕ, ◌<◌, ◌≡◌, refl, ◌⊎◌, inl, inr, ◌∙◌, false, some, List, [], ◌∷◌, arith, ◌==◌, has, ◌+◌, sym,
  subst,
}
use my_repo.MkList.{Ptr, null, Heap, ◌>>=◌}
use my_repo.BucketQueue
use my_repo.BucketQueue.{BucketQueue}
use my_repo.BucketQueue.Holds.{Buckets, Holds, contents}
use my_repo.BucketQueue.Pop.{Pops}
use my_repo.BucketQueue.Serve.{Spares, find_min-Pops, pop_min-Pops, contents-pop_min}
use my_repo.EventLoop.{Event, next_event, next_round}
use my_repo.EventLoop.Load.{loaded, AllReady, AllAlone, load-Holds}

next_none :
    (h : Heap) (q q' : BucketQueue)
    → BucketQueue.find_min q h ≡ some ((null, q'), h)
    → next_event q h ≡ some ((null, q'), h)
unfolding next_event
next_none h q q' run = rw (◌>>=◌, run) refl

next_some :
    (h : Heap) (q q' : BucketQueue) (item : Ptr)
    → (item == null) ≡ false
    → BucketQueue.find_min q h ≡ some ((item, q'), h)
    → next_event q h ≡ BucketQueue.pop_min q' h
unfolding next_event
next_some h q q' item e run = rw (◌>>=◌, run, e) refl

pub next_event-Pops :
    (h : Heap) (q : BucketQueue) (bs : Buckets)
    → Holds h q bs
    → (item : Ptr) × (q' : BucketQueue) × (g : Heap) × (cs : Buckets) × (next_event q h
        ≡ some ((item, q'), g))
      × Holds g q' cs
      × Pops bs q.n_buckets item cs
      × Spares h g q q' bs item
next_event-Pops h q bs v =
    let (item, q', cs, run, held, base, size, pops) = find_min-Pops h q bs v in
    elim pops [
      | inl (none_left, e, f) ↦ (
        null,
        q',
        h,
        bs,
        next_none h q q' (subst (λ i. BucketQueue.find_min q h ≡ some ((i, q'), h)) e run),
        held,
        inl (none_left, refl, refl),
        record {
          buckets = base;
          n_buckets = size;
          live = λ c. refl;
          fields = λ c o. (refl, refl);
          orphan = λ ne. cc;
        },
      )
      | inr (j, xs, l, before, e, f) ↦
          let (item', q'', g, ds, run', held', pops', sp) = pop_min-Pops h q' bs held in
          (
            item',
            q'',
            g,
            ds,
            next_some h q q' item (nonnull item j xs l e) run ∙ run',
            held',
            subst (λ n. Pops bs n item' ds) size pops',
            record {
              buckets = sp.buckets ∙ base;
              n_buckets = sp.n_buckets ∙ size;
              live = sp.live;
              fields = λ c o. sp.fields c (λ i li.
                  subst (λ b. has c ((b + i) ∷ bs i) ≡ false) (sym base)
                    (o i (omega (arith, size))));
              orphan = sp.orphan;
            },
          )
    ]
  where
    nonnull :
        (item : Ptr) (j : ℕ) (xs : List Ptr)
        → j < q.n_buckets
        → bs j ≡ item ∷ xs
        → (item == null) ≡ false
    nonnull item j xs l e = ground (arith, (v.rings j l).live item)

-- A round of `flb_event_priority_live_foreach` on a well-formed queue, for events with distinct nodes
-- that are ready for it, returns; with the items in the order of service, those that waited and the
-- registered events behind those of their priority, it takes out the first one and keeps the order of
-- the others, or finds NULL if there is none; the queue is well formed again.
pub next_round_lem :
    (h : Heap) (q : BucketQueue) (bs : Buckets) (es : List Event)
    → Holds h q bs
    → AllReady h q bs es
    → AllAlone es
    → (item : Ptr) × (q' : BucketQueue) × (g : Heap) × (cs : Buckets) × (next_round q es h
        ≡ some ((item, q'), g))
      × Holds g q' cs
      × (((contents (loaded bs es) 0 q.n_buckets ≡ [])
            × (item ≡ null)
            × (contents cs 0 q.n_buckets ≡ []))
          ⊎ (contents (loaded bs es) 0 q.n_buckets ≡ item ∷ contents cs 0 q.n_buckets))
unfolding next_round
next_round_lem h q bs es v r a =
    let (g, q1, run, held, size) = load-Holds es h q bs v r a in
    let (item, q2, g', cs, run', held', pops, _) = next_event-Pops g q1 (loaded bs es) held in
    (
      item,
      q2,
      g',
      cs,
      rw (◌>>=◌, run) run',
      held',
      contents-pop_min (loaded bs es) cs q.n_buckets item
          (subst (λ n. Pops (loaded bs es) n item cs) size pops),
    )
