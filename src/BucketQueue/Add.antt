-- ===== src/BucketQueue/Add.antt =====
-- `flb_bucket_queue_add`: the item goes behind those of its priority, or the call is refused.
use my_repo.Base.{
  refl, ℕ, suc, ◌+◌, ◌-◌, ◌%◌, ◌≤◌, ◌<◌, ◌≡◌, true, false, some, List, [], ◌∷◌, ◌++◌, arith, has,
  has-append, ltb, leb, if◌then◌else◌, length, length-append,
}
use my_repo.MkList.{Ptr, Heap, ◌>>=◌, success, failure, is_live}
use my_repo.MkList
use my_repo.MkList.Chain.{last, has-last}
use my_repo.MkList.Add.{add-PutsIn}
use my_repo.MkList.Ring.{SameOutside}
use my_repo.BucketQueue.{BucketQueue, add, seek, size_mod}
use my_repo.BucketQueue.Holds.{
  Buckets, Holds, update, contents, contents-split, contents-update, update-rings, update-Apart,
}
use my_repo.BucketQueue.Seek.{at, seek-Found}

-- The queue after an accepted call that sought to the bucket `j`.
abbrev added : BucketQueue → (p j : ℕ) → BucketQueue
added q p j = record q {
  top = if ltb (q.buckets + p) (q.buckets + j) then q.buckets + p else q.buckets + j;
  n_items = (q.n_items + 1) % size_mod;
}

abbrev pub put_last : Buckets → ℕ → Ptr → Buckets
put_last bs p item = update bs p (bs p ++ item ∷ [])

length-put_last :
    (bs : Buckets) (n p : ℕ) (item : Ptr)
    → p < n
    → length (contents (put_last bs p item) 0 n) ≡ length (contents bs 0 n) + 1
length-put_last bs n p item l =
    rw (cut, contents-update bs p (n - p - 1) (bs p ++ item ∷ []), contents-split bs p (n - p - 1))
      (omega (
        arith,
        length-append (contents bs 0 p) ((bs p ++ item ∷ []) ++ rest),
        length-append (bs p ++ item ∷ []) rest,
        length-append (bs p) (item ∷ []),
        length-append (contents bs 0 p) (bs p ++ rest),
        length-append (bs p) rest,
      ))
  where
    rest : List Ptr
    rest = contents bs (suc p) (n - p - 1)

    cut : n ≡ p + suc (n - p - 1)
    cut = omega arith

module _ (h : Heap) (q : BucketQueue) (bs : Buckets) (item : Ptr) (p : ℕ) where
  add_run :
      (g : Heap) (j : ℕ)
      → p < q.n_buckets
      → seek q h ≡ some (at q j, h)
      → MkList.add item (q.buckets + p) h ≡ some (tt, g)
      → add q item p h ≡ some ((success, added q p j), g)
  unfolding add
  add_run g j l s a =
      let in_range : leb q.n_buckets p ≡ false = ground arith in rw (in_range, ◌>>=◌, s, a)

  -- On a well-formed queue, for a priority in range and a live node that is not in the queue,
  -- `flb_bucket_queue_add` succeeds, the item is the last of its priority, the other items are as
  -- they were, the queue is well formed again with the same buckets, and only the item and its two
  -- neighbours are written.
  pub add-Holds :
      Holds h q bs
      → p < q.n_buckets
      → is_live h item ≡ true
      → ((i : ℕ) → i < q.n_buckets → has item ((q.buckets + i) ∷ bs i) ≡ false)
      → (g : Heap) × (q' : BucketQueue) × (add q item p h ≡ some ((success, q'), g))
        × Holds g q' (put_last bs p item)
        × (q'.buckets ≡ q.buckets)
        × (q'.n_buckets ≡ q.n_buckets)
        × SameOutside (item ∷ last (q.buckets + p) (bs p) ∷ (q.buckets + p) ∷ []) h g
  add-Holds v l ln fresh =
      let (j, run, found, s) = seek-Found h q bs v.shape in
      let (g, run', ring, same) =
        add-PutsIn h item (q.buckets + p) ln (bs p) (v.rings p l) (fresh p l) in
      (
        g,
        added q p j,
        add_run g j l run run',
        record {
          shape = record {
            rings =
                update-rings q.n_buckets q.buckets p h g bs (bs p ++ item ∷ [])
                  (item ∷ last (q.buckets + p) (bs p) ∷ (q.buckets + p) ∷ []) v.rings ring same
                  (λ i li ne c o.
                    ground (
                      arith,
                      fresh i li,
                      v.apart i p li l ne c o,
                      has-last (q.buckets + p) (bs p),
                    ));
            apart =
                update-Apart q.n_buckets q.buckets p bs (bs p ++ item ∷ []) v.apart (λ i li ne c o.
                  ground
                    (arith, fresh i li, v.apart i p li l ne c o, has-append c (bs p) (item ∷ [])));
            below = λ i li b. ground (arith, found.before i);
            low = ground arith;
            high = ground (arith, found.within);
          };
          count = rw (length-put_last bs q.n_buckets p item l, v.count) (omega arith);
        },
        refl,
        refl,
        same,
      )

  -- For a priority out of range `flb_bucket_queue_add` fails and changes nothing.
  pub add_refused : q.n_buckets ≤ p → add q item p h ≡ some ((failure, q), h)
  unfolding add
  add_refused l = ground arith
