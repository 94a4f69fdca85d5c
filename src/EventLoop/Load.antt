-- ===== src/EventLoop/Load.antt =====
-- Loading the events that are ready into the bucket queue.
use my_repo.Base.{
  ℕ, ◌+◌, ◌<◌, ◌≡◌, refl, ◌∙◌, inl, inr, true, false, some, List, [], ◌∷◌, arith, ◌==◌,
  if◌then◌else◌, has, has-append, Bool-cases,
}
use my_repo.MkList.{Ptr, null, Heap, ◌>>=◌, is_live, success}
use my_repo.MkList.Chain.{last, has-last}
use my_repo.MkList.Ring.{SameOutside}
use my_repo.BucketQueue
use my_repo.BucketQueue.{BucketQueue}
use my_repo.BucketQueue.Holds.{Buckets, Holds}
use my_repo.BucketQueue.Add.{add-Holds, put_last}
use my_repo.EventLoop.{Event, event_none, load_event, load}

-- The items once the registered events are put last in their priorities, one after the other.
abbrev pub loaded : Buckets → List Event → Buckets
loaded bs [] = bs
loaded bs (e ∷ es) =
    if e.status == event_none then loaded bs es else loaded (put_last bs e.priority e.node) es

-- An event that may be loaded: it is in no list and not in the queue, its priority is in range.
pub record Ready (h : Heap) (q : BucketQueue) (bs : Buckets) (e : Event) : Type 0 where
  pub live : is_live h e.node ≡ true
  pub orphan : h.prev e.node ≡ null
  pub range : e.priority < q.n_buckets
  pub fresh : (i : ℕ) → i < q.n_buckets → has e.node ((q.buckets + i) ∷ bs i) ≡ false

abbrev pub AllReady : Heap → BucketQueue → Buckets → List Event → Type 0
AllReady h q bs [] = Unit {0}
AllReady h q bs (e ∷ es) = Ready h q bs e × AllReady h q bs es

-- No other event has the node.
abbrev pub Alone : Ptr → List Event → Type 0
Alone p [] = Unit {0}
Alone p (e ∷ es) = ((e.node == p) ≡ false) × Alone p es

abbrev pub AllAlone : List Event → Type 0
AllAlone [] = Unit {0}
AllAlone (e ∷ es) = Alone e.node es × AllAlone es

module _ (h g : Heap) (q q' : BucketQueue) (bs : Buckets) (p : ℕ) (item : Ptr) (l : p < q.n_buckets)
    (same : SameOutside (item ∷ last (q.buckets + p) (bs p) ∷ (q.buckets + p) ∷ []) h g)
    (eb : q'.buckets ≡ q.buckets) (en : q'.n_buckets ≡ q.n_buckets) where
  Ready-add :
      (e : Event) → Ready h q bs e → (e.node == item) ≡ false → Ready g q' (put_last bs p item) e
  Ready-add e r other = record {
    live = ground (arith, same.live e.node, r.live);
    orphan =
        ground (arith, same.prev e.node, r.orphan, r.fresh p l, has-last (q.buckets + p) (bs p));
    range = omega (arith, r.range, en);
    fresh = λ i li.
        ground (arith, r.fresh i, r.fresh p l, en, eb, has-append e.node (bs p) (item ∷ []));
  }

  AllReady-add :
      (es : List Event) → AllReady h q bs es → Alone item es → AllReady g q' (put_last bs p item) es
  AllReady-add [] r a = tt
  AllReady-add (e ∷ es) (r, rs) (a, al) = (Ready-add e r a, AllReady-add es rs al)

load_skip :
    (h : Heap) (q : BucketQueue) (e : Event) (es : List Event)
    → (e.status == event_none) ≡ true
    → load q (e ∷ es) h ≡ load q es h
unfolding load
load_skip h q e es s = rw s refl

load_step :
    (h g : Heap) (q q' : BucketQueue) (e : Event) (es : List Event)
    → (e.status == event_none) ≡ false
    → is_live h e.node ≡ true
    → h.prev e.node ≡ null
    → BucketQueue.add q e.node e.priority h ≡ some ((success, q'), g)
    → load q (e ∷ es) h ≡ load q' es g
unfolding load load_event
load_step h g q q' e es s live orphan run = rw (◌>>=◌, s, live, orphan, run) refl

-- `flb_event_load_bucket_queue` on a well-formed queue, for events with distinct nodes that are ready
-- for it, returns, with a well-formed queue in which each registered event is put last in its
-- priority, in the order of the events, and those that are deleted are left out.
pub load-Holds :
    (es : List Event) (h : Heap) (q : BucketQueue) (bs : Buckets)
    → Holds h q bs
    → AllReady h q bs es
    → AllAlone es
    → (g : Heap) × (q' : BucketQueue) × (load q es h ≡ some (q', g))
      × Holds g q' (loaded bs es)
      × (q'.n_buckets ≡ q.n_buckets)
load-Holds [] h q bs v r a = (h, q, unfold load in refl, v, refl)
load-Holds (e ∷ es) h q bs v (r, rs) (a, al) = elim (Bool-cases (e.status == event_none)) [
  | inl s ↦
      let (g, q', run, held, size) = load-Holds es h q bs v rs al in
      (g, q', load_skip h q e es s ∙ run, rw s held, size)
  | inr s ↦
      let (g, q', run, held, eb, en, same) =
        add-Holds h q bs e.node e.priority v r.range r.live r.fresh in
      let (g', q'', run', held', size) =
        load-Holds es g q' (put_last bs e.priority e.node) held
          (AllReady-add h g q q' bs e.priority e.node r.range same eb en es rs a) al in
      (g', q'', load_step h g q q' e es s r.live r.orphan run ∙ run', rw s held', size ∙ en)
]
