-- ===== src/BucketQueue/Pop.antt =====
-- The runs of `flb_bucket_queue_find_min` and `flb_bucket_queue_delete_min`, with and without an
-- item, and what the second leaves behind.
use my_repo.Base.{
  refl, ℕ, suc, ◌+◌, ◌-◌, ◌%◌, ◌<◌, ◌≡◌, ◌⊎◌, true, some, List, [], ◌∷◌, arith, length, ap, ==_ne,
  ==_self, subst,
}
use my_repo.MkList.{Ptr, null, Heap, ◌>>=◌, del, is_live}
use my_repo.MkList.Chain.{first, has-first}
use my_repo.MkList.Ring.{Ring, SameOutside, live-head, next-head}
use my_repo.MkList.Remove.{del_lem}
use my_repo.BucketQueue.{BucketQueue, find_min, delete_min, seek, size_mod}
use my_repo.BucketQueue.Holds.{
  Buckets, Shape, Holds, update, contents, contents_empty, contents-split, contents-update,
  update-rings, update-Apart,
}
use my_repo.BucketQueue.Seek.{at, seek-Found}

-- The queue is empty and nothing leaves it, or `item` leaves it: the oldest item of the first
-- priority that has one.
abbrev pub Pops : Buckets → ℕ → Ptr → Buckets → Type 0
Pops bs n item cs =
    (((i : ℕ) → i < n → bs i ≡ []) × (item ≡ null) × (cs ≡ bs))
    ⊎ ((j : ℕ) × (xs : List Ptr) × (j < n)
        × ((i : ℕ) → i < j → bs i ≡ [])
        × (bs j ≡ item ∷ xs)
        × (cs ≡ update bs j xs))

-- In the order of service, the item that leaves is the first one, and the rest keeps its order.
pub contents-Pops :
    (bs cs : Buckets) (n j : ℕ) (item : Ptr) (xs : List Ptr)
    → j < n
    → ((i : ℕ) → i < j → bs i ≡ [])
    → bs j ≡ item ∷ xs
    → contents bs 0 n ≡ item ∷ contents (update bs j xs) 0 n
contents-Pops bs cs n j item xs l before e = rw (
  cut,
  contents-split bs j (n - j - 1),
  contents-update bs j (n - j - 1) xs,
  e,
  contents_empty bs 0 j (λ i _ b. before i (omega arith)),
)
  where
    cut : n ≡ j + suc (n - j - 1)
    cut = omega arith

-- The queue after a removal, with `top` at the bucket `k`.
abbrev pub deleted : BucketQueue → ℕ → BucketQueue
deleted q k = record (at q k) { n_items = (q.n_items + size_mod - 1) % size_mod }

module _ (h : Heap) (q : BucketQueue) where
  pub find_run_empty :
      seek q h ≡ some (at q q.n_buckets, h) → find_min q h ≡ some ((null, at q q.n_buckets), h)
  unfolding find_min
  find_run_empty s = rw (◌>>=◌, s, ==_self (q.buckets + q.n_buckets))

  pub find_run :
      (j : ℕ) (x : Ptr)
      → j < q.n_buckets
      → seek q h ≡ some (at q j, h)
      → is_live h (q.buckets + j) ≡ true
      → h.next (q.buckets + j) ≡ x
      → find_min q h ≡ some ((x, at q j), h)
  unfolding find_min
  find_run j x l s lv nx =
      rw (◌>>=◌, s, ==_ne (q.buckets + j) (q.buckets + q.n_buckets) (omega arith), ◌>>=◌, lv, nx)

  pub delete_run_empty :
      seek q h ≡ some (at q q.n_buckets, h) → delete_min q h ≡ some (at q q.n_buckets, h)
  unfolding delete_min
  delete_run_empty s = rw (◌>>=◌, s, ==_self (q.buckets + q.n_buckets))

  delete_run :
      (g : Heap) (j k : ℕ) (x : Ptr)
      → j < q.n_buckets
      → seek q h ≡ some (at q j, h)
      → is_live h (q.buckets + j) ≡ true
      → h.next (q.buckets + j) ≡ x
      → del x h ≡ some (tt, g)
      → seek (at q j) g ≡ some (at q k, g)
      → delete_min q h ≡ some (deleted q k, g)
  unfolding delete_min
  delete_run g j k x l s lv nx d t =
      rw (
        ◌>>=◌,
        s,
        ==_ne (q.buckets + j) (q.buckets + q.n_buckets) (omega arith),
        ◌>>=◌,
        lv,
        nx,
        d,
        t,
      )

module _ (h : Heap) (q : BucketQueue) (bs : Buckets) (v : Shape h q bs) where
  -- Taking the first entry out of the bucket `j`, once it is unlinked.
  Shape-popped :
      (g : Heap) (j : ℕ) (x : Ptr) (xs : List Ptr)
      → j < q.n_buckets
      → ((i : ℕ) → i < j → bs i ≡ [])
      → bs j ≡ x ∷ xs
      → Ring g (q.buckets + j) xs
      → SameOutside (x ∷ (q.buckets + j) ∷ first xs (q.buckets + j) ∷ []) h g
      → Shape g (at q j) (update bs j xs)
  Shape-popped g j x xs l before e ring same = record {
    rings =
        update-rings q.n_buckets q.buckets j h g bs xs
          (x ∷ (q.buckets + j) ∷ first xs (q.buckets + j) ∷ []) v.rings ring same
          (λ i li ne c o. ground (arith, v.apart i j li l ne c o, has-first xs (q.buckets + j)));
    apart =
        update-Apart q.n_buckets q.buckets j bs xs v.apart
          (λ i li ne c o. ground (arith, v.apart i j li l ne c o));
    below = λ i li b. ground (arith, before i);
    low = omega arith;
    high = omega arith;
  }

Shape-count :
    (g : Heap) (q : BucketQueue) (bs : Buckets) (k : ℕ)
    → Shape g (at q k) bs
    → Shape g (deleted q k) bs
Shape-count g q bs k s = record {
  rings = s.rings;
  apart = s.apart;
  below = s.below;
  low = s.low;
  high = s.high;
}

module _ (h : Heap) (q : BucketQueue) (bs : Buckets) (v : Holds h q bs) where
  -- `flb_bucket_queue_delete_min` at the first bucket with an item.
  pub delete_at :
      (j : ℕ) (x : Ptr) (xs : List Ptr)
      → seek q h ≡ some (at q j, h)
      → j < q.n_buckets
      → ((i : ℕ) → i < j → bs i ≡ [])
      → bs j ≡ x ∷ xs
      → (g : Heap) × (q' : BucketQueue) × (delete_min q h ≡ some (q', g))
        × Holds g q' (update bs j xs)
        × (q'.buckets ≡ q.buckets)
        × (q'.n_buckets ≡ q.n_buckets)
        × (g.prev x ≡ null)
        × SameOutside (x ∷ (q.buckets + j) ∷ first xs (q.buckets + j) ∷ []) h g
  delete_at j x xs run l before e =
      let r : Ring h (q.buckets + j) (x ∷ xs) = subst (Ring h (q.buckets + j)) e (v.rings j l) in
      let (g, run', ring, nx, px, same) = del_lem h (q.buckets + j) [] x xs r in
      let (k, run'', found, s) =
        seek-Found g (at q j) (update bs j xs)
          (Shape-popped h q bs v.shape g j x xs l before e ring same) in
      (
        g,
        deleted q k,
        delete_run h q g j k x l run (live-head h (q.buckets + j) (x ∷ xs) r)
            (next-head h (q.buckets + j) (x ∷ xs) r) run' run'',
        record {
          shape = Shape-count g q (update bs j xs) k s;
          count =
              rw v.count
                (omega (arith, ap length (contents-Pops bs bs q.n_buckets j x xs l before e)));
        },
        refl,
        refl,
        px,
        same,
      )
