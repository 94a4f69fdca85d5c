-- ===== src/BucketQueue/Serve.antt =====
-- `flb_bucket_queue_find_min`, `flb_bucket_queue_delete_min` and `flb_bucket_queue_pop_min`: items
-- leave by priority, and in the order of their arrival within one priority.
use my_repo.Base.{
  ◌==◌, has, false, ℕ, ◌≡◌, refl, inl, inr, some, List, [], ◌∷◌, ◌<◌, ◌+◌, arith, subst, ◌⊎◌,
}
use my_repo.MkList.{Ptr, null, Heap, ◌>>=◌}
use my_repo.MkList.Chain.{first, has-first}
use my_repo.MkList.Ring.{Ring, live-head, next-head}
use my_repo.BucketQueue.{BucketQueue, find_min, delete_min, pop_min, seek}
use my_repo.BucketQueue.Holds.{Buckets, Shape, Holds, update, contents, contents_empty}
use my_repo.BucketQueue.Seek.{Found-unique, at, seek-Found}
use my_repo.BucketQueue.Pop.{
  Pops, contents-Pops, find_run_empty, find_run, delete_run_empty, delete_at,
}

-- What a removal leaves alone: the array, which addresses hold nodes, and the nodes outside the
-- queue; the item that leaves is an orphan.
pub record Spares (h g : Heap) (q q' : BucketQueue) (bs : Buckets) (item : Ptr) : Type 0 where
  pub buckets : q'.buckets ≡ q.buckets
  pub n_buckets : q'.n_buckets ≡ q.n_buckets
  pub live : (c : Ptr) → g.live c ≡ h.live c
  pub fields :
      (c : Ptr)
      → ((i : ℕ) → i < q.n_buckets → has c ((q.buckets + i) ∷ bs i) ≡ false)
      → (g.next c ≡ h.next c) × (g.prev c ≡ h.prev c)
  pub orphan : (item == null) ≡ false → g.prev item ≡ null

-- Seeking finds no item at all, or the oldest item of the first priority that has one.
abbrev pub Exhausted : Heap → BucketQueue → Buckets → Type 0
Exhausted h q bs =
    (seek q h ≡ some (at q q.n_buckets, h))
    × ((i : ℕ) → i < q.n_buckets → bs i ≡ [])
    × Holds h (at q q.n_buckets) bs

abbrev pub Front : Heap → BucketQueue → Buckets → Type 0
Front h q bs =
    (j : ℕ) × (x : Ptr) × (xs : List Ptr) × (seek q h ≡ some (at q j, h))
    × (j < q.n_buckets)
    × ((i : ℕ) → i < j → bs i ≡ [])
    × (bs j ≡ x ∷ xs)
    × Holds h (at q j) bs

pop_run :
    (h g : Heap) (q s t : BucketQueue) (item : Ptr)
    → find_min q h ≡ some ((item, s), h)
    → delete_min s h ≡ some (t, g)
    → pop_min q h ≡ some ((item, t), g)
unfolding pop_min
pop_run h g q s t item f d = rw (◌>>=◌, f, d)

module _ (h : Heap) (q : BucketQueue) (bs : Buckets) (v : Holds h q bs) where
  pub sought : Exhausted h q bs ⊎ Front h q bs
  sought =
      let (j, run, found, s) = seek-Found h q bs v.shape in
      elim found.here [
        | inl e ↦ inl (
          subst (λ k. seek q h ≡ some (at q k, h)) e run,
          λ i l. found.before i (omega arith),
          record { shape = subst (λ k. Shape h (at q k) bs) e s; count = v.count },
        )
        | inr (x, xs, l, e) ↦
            inr (j, x, xs, run, l, found.before, e, record { shape = s; count = v.count })
      ]

  find_at :
      (j : ℕ) (x : Ptr) (xs : List Ptr)
      → seek q h ≡ some (at q j, h)
      → j < q.n_buckets
      → bs j ≡ x ∷ xs
      → find_min q h ≡ some ((x, at q j), h)
  find_at j x xs run l e =
      let r : Ring h (q.buckets + j) (x ∷ xs) = subst (Ring h (q.buckets + j)) e (v.rings j l) in
      find_run h q j x l run (live-head h _ (x ∷ xs) r) (next-head h _ (x ∷ xs) r)

  -- On a well-formed queue `flb_bucket_queue_find_min` returns the item to be served next, or NULL
  -- if there is none; it writes no node, and the queue stays well formed with the same items.
  pub find_min-Pops :
      (item : Ptr) × (q' : BucketQueue) × (cs : Buckets) × (find_min q h ≡ some ((item, q'), h))
      × Holds h q' bs
      × (q'.buckets ≡ q.buckets)
      × (q'.n_buckets ≡ q.n_buckets)
      × Pops bs q.n_buckets item cs
  find_min-Pops = elim sought [
    | inl (run, none_left, s) ↦ (
      null,
      at q q.n_buckets,
      bs,
      find_run_empty h q run,
      s,
      refl,
      refl,
      inl (none_left, refl, refl),
    )
    | inr (j, x, xs, run, l, before, e, s) ↦ (
      x,
      at q j,
      update bs j xs,
      find_at j x xs run l e,
      s,
      refl,
      refl,
      inr (j, xs, l, before, e, refl),
    )
  ]

-- On a well-formed queue `flb_bucket_queue_pop_min` returns, takes out the oldest item of the first
-- priority that has one and returns it, or returns NULL with the items as they were if there is
-- none; the queue is well formed again with the same buckets, no node outside it is written, and the
-- item taken out is an orphan.
pub pop_min-Pops :
    (h : Heap) (q : BucketQueue) (bs : Buckets)
    → Holds h q bs
    → (item : Ptr) × (q' : BucketQueue) × (g : Heap) × (cs : Buckets) × (pop_min q h
        ≡ some ((item, q'), g))
      × Holds g q' cs
      × Pops bs q.n_buckets item cs
      × Spares h g q q' bs item
pop_min-Pops h q bs v = elim (sought h q bs v) [
  | inl (run, none_left, s) ↦ elim (sought h (at q q.n_buckets) bs s) [
    | inl (run', _, s') ↦ (
      null,
      at q q.n_buckets,
      h,
      bs,
      pop_run h h q (at q q.n_buckets) (at q q.n_buckets) null (find_run_empty h q run)
          (delete_run_empty h (at q q.n_buckets) run'),
      s',
      inl (none_left, refl, refl),
      record {
        buckets = refl;
        n_buckets = refl;
        live = λ c. refl;
        fields = λ c o. (refl, refl);
        orphan = λ ne. cc;
      },
    )
    | inr (j, x, xs, run', l, before, e, s') ↦ absurd (cons_ne_nil (none_left j l) e)
  ]
  | inr (j, x, xs, run, l, before, e, s) ↦
      let (k, run', found, s') = seek-Found h (at q j) bs s.shape in
      let same : k ≡ j =
        Found-unique q.n_buckets bs k j found
          (record { within = omega arith; before = before; here = inr (x, xs, l, e) }) in
      let (g, t, run'', held, eb, en, orphan, same) =
        delete_at h (at q j) bs s j x xs (subst (λ i. seek (at q j) h ≡ some (at q i, h)) same run')
          l before e in
      (
        x,
        t,
        g,
        update bs j xs,
        pop_run h g q (at q j) t x (find_at h q bs v j x xs run l e) run'',
        held,
        inr (j, xs, l, before, e, refl),
        record {
          buckets = eb;
          n_buckets = en;
          live = same.live;
          fields = λ c o. let out = far c j x xs e (o j l) in (same.next c out, same.prev c out);
          orphan = λ ne. orphan;
        },
      )
]
  where
    far :
        (c : Ptr) (j : ℕ) (x : Ptr) (xs : List Ptr)
        → bs j ≡ x ∷ xs
        → has c ((q.buckets + j) ∷ bs j) ≡ false
        → has c (x ∷ (q.buckets + j) ∷ first xs (q.buckets + j) ∷ []) ≡ false
    far c j x xs e out = ground (arith, has-first xs (q.buckets + j))

    cons_ne_nil : {xs : List Ptr} {x : Ptr} {ys : List Ptr} → xs ≡ [] → xs ≡ x ∷ ys → ⊥
    cons_ne_nil a b = cc

-- In the order of service, the item that a removal takes out is the first one and the others keep
-- their order; if nothing was there, NULL comes out and nothing is there still.
pub contents-pop_min :
    (bs cs : Buckets) (n : ℕ) (item : Ptr)
    → Pops bs n item cs
    → ((contents bs 0 n ≡ []) × (item ≡ null) × (contents cs 0 n ≡ []))
      ⊎ (contents bs 0 n ≡ item ∷ contents cs 0 n)
contents-pop_min bs cs n item (inl (none_left, e, f)) =
    let empty = contents_empty bs 0 n (λ j _ u. none_left j (omega arith)) in
    inl (empty, e, rw f empty)
contents-pop_min bs cs n item (inr (j, xs, l, before, e, f)) =
    inr (rw f (contents-Pops bs cs n j item xs l before e))
