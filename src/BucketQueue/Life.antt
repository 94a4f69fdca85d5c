-- ===== src/BucketQueue/Life.antt =====
-- `flb_bucket_queue_create` and `flb_bucket_queue_destroy`.
use my_repo.Base.{
  ℕ, zero, suc, ◌+◌, ◌*◌, ◌/◌, ◌%◌, ◌^◌, ◌≤◌, ◌<◌, ◌≡◌, ◌≢◌, refl, ◌⊎◌, inl, inr, true, not, ◌&&◌,
  ◌||◌, Option, none, some, List, [], ◌∷◌, arith, ==_self, ==_ne,
}
use my_repo.MkList.{Ptr, null, Heap, ◌>>=◌, is_live, put, success, failure}
use my_repo.MkList
use my_repo.BucketQueue.{
  BucketQueue, create, destroy, init_buckets, in_array, sizeof_list, size_mod, seek,
}
use my_repo.BucketQueue.Holds.{Buckets, Shape, Holds, contents, contents_empty}
use my_repo.BucketQueue.Seek.{at}
use my_repo.BucketQueue.Pop.{contents-Pops}
use my_repo.BucketQueue.Serve.{sought}

-- The buckets from `i` to `i + k` are empty lists, and nothing else was written.
record Initialised (h g : Heap) (base i k : ℕ) : Type 0 where
  live : (c : Ptr) → g.live c ≡ h.live c
  next : (j : ℕ) → i ≤ j → j < i + k → g.next (base + j) ≡ base + j
  prev : (j : ℕ) → i ≤ j → j < i + k → g.prev (base + j) ≡ base + j
  next_out : (c : Ptr) → c < base + i → g.next c ≡ h.next c
  prev_out : (c : Ptr) → c < base + i → g.prev c ≡ h.prev c

abbrev selfish : Heap → Ptr → Heap
selfish h p = record h { next = put h.next p p; prev = put h.prev p p }

init_lem : (h : Heap) (p : Ptr) → is_live h p ≡ true → MkList.init p h ≡ some (tt, selfish h p)
unfolding MkList.init
init_lem h p l = ground arith

Initialised-step :
    (h g : Heap) (base i k : ℕ)
    → Initialised (selfish h (base + i)) g base (i + 1) k
    → Initialised h g base i (suc k)
Initialised-step h g base i k d = record {
  live = λ c. d.live c;
  next = λ j a b. ground (arith, d.next j, d.next_out (base + j));
  prev = λ j a b. ground (arith, d.prev j, d.prev_out (base + j));
  next_out = λ c o. ground (arith, d.next_out c);
  prev_out = λ c o. ground (arith, d.prev_out c);
}

init_buckets-Initialised :
    (k base i : ℕ) (h : Heap)
    → ((j : ℕ) → i ≤ j → j < i + k → is_live h (base + j) ≡ true)
    → (g : Heap) × (init_buckets k base i h ≡ some (tt, g)) × Initialised h g base i k
unfolding init_buckets
init_buckets-Initialised zero base i h l = (
  h,
  refl,
  record {
    live = λ c. refl;
    next = λ j a b. absurd (omega arith);
    prev = λ j a b. absurd (omega arith);
    next_out = λ c o. refl;
    prev_out = λ c o. refl;
  },
)
init_buckets-Initialised (suc k) base i h l =
    let (g, run, d) =
      init_buckets-Initialised k base (i + 1) (selfish h (base + i))
        (λ j a b. l j (omega arith) (omega arith)) in
    (
      g,
      rw (◌>>=◌, init_lem h (base + i) (l i (omega arith) (omega arith))) run,
      Initialised-step h g base i k d,
    )

-- No priority has an item.
abbrev pub no_items : Buckets
no_items i = []

abbrev fresh : Ptr → ℕ → BucketQueue
fresh base n = record { buckets = base; n_buckets = n; top = base + n; n_items = 0 }

abbrev allocated : Heap → Ptr → ℕ → Heap
allocated h base n = record h { live = λ c. in_array base n c || h.live c }

create_run :
    (h g : Heap) (queue base n : ℕ)
    → 0 < n
    → n < 2 ^ 60
    → init_buckets n base 0 (allocated h base n) ≡ some (tt, g)
    → create (some queue) (some base) n h ≡ some (some (fresh base n), g)
unfolding create
create_run h g queue base n pos small run =
    let asked : sizeof_list * n % size_mod ≢ 0 = omega arith in
    let got : sizeof_list * n % size_mod / sizeof_list ≡ n = omega arith in
    rw (==_ne (sizeof_list * n % size_mod) 0 asked, create, got, ◌>>=◌, run)

Initialised-Shape :
    (h g : Heap) (base n : ℕ)
    → base ≢ null
    → Initialised (allocated h base n) g base 0 n
    → Shape g (fresh base n) no_items
Initialised-Shape h g base n nonnull d = record {
  rings = λ i l. record {
    chain = (d.next i (omega arith) (omega arith), d.prev i (omega arith) (omega arith));
    distinct = (refl, tt);
    live = λ c o. ground (arith, d.live c);
  };
  apart = λ i j li lj ne c o. ground arith;
  below = λ i l b. refl;
  low = omega arith;
  high = omega arith;
}

-- For a number of priorities from 1 to 2 ^ 60 - 1, if both requests for memory are met with an
-- array that is not at NULL, `flb_bucket_queue_create` returns a well-formed queue with no items.
pub create-Holds :
    (h : Heap) (queue base n : ℕ)
    → 0 < n
    → n < 2 ^ 60
    → base ≢ null
    → (g : Heap) × (q : BucketQueue) × (create (some queue) (some base) n h ≡ some (some q, g))
      × (q.n_buckets ≡ n)
      × Holds g q no_items
create-Holds h queue base n pos small nonnull =
    let (g, run, d) =
      init_buckets-Initialised n base 0 (allocated h base n) (λ j a b. ground arith) in
    (
      g,
      fresh base n,
      create_run h g queue base n pos small run,
      refl,
      record {
        shape = Initialised-Shape h g base n nonnull d;
        count = rw (contents_empty no_items 0 n (λ j a b. refl)) refl;
      },
    )

-- If a request for memory is not met, or for no priorities at all, `flb_bucket_queue_create`
-- returns NULL and changes nothing.
pub create_fails :
    (h : Heap) (malloc₁ malloc₂ : Option Ptr) (n : ℕ)
    → (malloc₁ ≡ none) ⊎ ((malloc₂ ≡ none) ⊎ (n ≡ 0))
    → create malloc₁ malloc₂ n h ≡ some (none, h)
unfolding create
create_fails h malloc₁ malloc₂ n why = ground arith

destroy_run_empty :
    (h : Heap) (q : BucketQueue)
    → seek q h ≡ some (at q q.n_buckets, h)
    → destroy q h
      ≡ some (
        (success, at q q.n_buckets),
        record h { live = λ c. not (in_array q.buckets q.n_buckets c) && h.live c },
      )
unfolding destroy
destroy_run_empty h q run = rw (◌>>=◌, run, ==_self (q.buckets + q.n_buckets))

destroy_run_full :
    (h : Heap) (q : BucketQueue) (j : ℕ)
    → j < q.n_buckets
    → seek q h ≡ some (at q j, h)
    → destroy q h ≡ some ((failure, at q j), h)
unfolding destroy
destroy_run_full h q j l run =
    rw (◌>>=◌, run, ==_ne (q.buckets + j) (q.buckets + q.n_buckets) (omega arith))

-- On a well-formed queue `flb_bucket_queue_destroy` either succeeds, and then there was no item, or
-- fails, and then there was one, no node was written and the queue is well formed with the same
-- items.
pub destroy_lem :
    (h : Heap) (q : BucketQueue) (bs : Buckets)
    → Holds h q bs
    → (g : Heap) × (q' : BucketQueue) × (((destroy q h ≡ some ((success, q'), g))
          × (contents bs 0 q.n_buckets ≡ []))
        ⊎ ((destroy q h ≡ some ((failure, q'), h))
            × (contents bs 0 q.n_buckets ≢ [])
            × Holds h q' bs))
destroy_lem h q bs v = elim (sought h q bs v) [
  | inl (run, none_left, s) ↦ (
    record h { live = λ c. not (in_array q.buckets q.n_buckets c) && h.live c },
    at q q.n_buckets,
    inl (
      destroy_run_empty h q run,
      contents_empty bs 0 q.n_buckets (λ j a b. none_left j (omega arith)),
    ),
  )
  | inr (j, x, xs, run, l, before, e, s) ↦
      (h, at q j, inr (destroy_run_full h q j l run, full j x xs l before e, s))
]
  where
    full :
        (j : ℕ) (x : Ptr) (xs : List Ptr)
        → j < q.n_buckets
        → ((i : ℕ) → i < j → bs i ≡ [])
        → bs j ≡ x ∷ xs
        → contents bs 0 q.n_buckets ≢ []
    full j x xs l before e f = cc (contents-Pops bs bs q.n_buckets j x xs l before e)
