-- ===== src/BucketQueue.antt =====
-- The priority queue of fluent-bit/flb_bucket_queue.h: an array of lists of mk_list.h, one for each
-- priority, with a pointer `top` to the first list that may have an entry. The bucket `i` is the
-- node at address `buckets + i`. The queue's own struct is a value beside the store of nodes.
pub mod Holds
pub mod Seek
pub mod Add
pub mod Pop
pub mod Serve
pub mod Life
mod Tests
use my_repo.Base.{
  ℕ, zero, suc, ◌+◌, ◌-◌, ◌*◌, ◌/◌, ◌%◌, ◌^◌, Bool, ◌&&◌, not, ◌||◌, Option, none, some, ◌==◌, ltb,
  leb, if◌then◌else◌,
}
use my_repo.MkList
use my_repo.MkList.{Ptr, null, Heap, M, pure, ◌>>=◌, ◌>>◌, get_next, Ret, success, failure}

pub record BucketQueue : Type 0 where
  pub buckets : Ptr
  pub n_buckets : ℕ
  pub top : Ptr
  pub n_items : ℕ

-- `sizeof(struct mk_list)` and `sizeof(struct flb_bucket_queue)`, and `size_t` arithmetic.
abbrev pub sizeof_list : ℕ
sizeof_list = 16

abbrev pub sizeof_queue : ℕ
sizeof_queue = 32

abbrev pub size_mod : ℕ
size_mod = 2 ^ 64

-- `flb_malloc`, with the answer of the C library's `malloc` as its second argument.
unfoldable pub flb_malloc : ℕ → Option Ptr → Option Ptr
flb_malloc size malloc = if size == 0 then none else malloc

abbrev pub in_array : Ptr → ℕ → Ptr → Bool
in_array base n c = leb base c && ltb c (base + n)

-- The `n` nodes from `base` on come to life, or are given back.
abbrev pub alloc_nodes : Ptr → ℕ → M (Unit {0})
alloc_nodes base n h = some (tt, record h { live = λ c. in_array base n c || h.live c })

abbrev pub free_nodes : Ptr → ℕ → M (Unit {0})
free_nodes base n h = some (tt, record h { live = λ c. not (in_array base n c) && h.live c })

-- The loop over `mk_list_init`, from the bucket `i` on, with `k` buckets to go.
unfoldable pub init_buckets : ℕ → Ptr → ℕ → M (Unit {0})
init_buckets zero base i = pure tt
init_buckets (suc k) base i = do MkList.init (base + i); init_buckets k base (i + 1)

-- `malloc₁` and `malloc₂` are the answers of `malloc` to the two requests.
unfoldable pub create : (malloc₁ malloc₂ : Option Ptr) → ℕ → M (Option BucketQueue)
unfolding flb_malloc init_buckets
create malloc₁ malloc₂ priorities = elim (flb_malloc sizeof_queue malloc₁) [
  | none ↦ pure none
  | some _ ↦
      let size = sizeof_list * priorities % size_mod in
      elim (flb_malloc size malloc₂) [
        | none ↦ pure none
        | some base ↦ do
          alloc_nodes base (size / sizeof_list)
          init_buckets priorities base 0
          pure (
              some (record {
                buckets = base;
                n_buckets = priorities;
                top = base + priorities;
                n_items = 0;
              }))
      ]
]

abbrev pub is_empty : BucketQueue → Bool
is_empty q = q.top == q.buckets + q.n_buckets

unfoldable pub seek_loop : ℕ → BucketQueue → M BucketQueue
seek_loop zero q = λ _. none
seek_loop (suc fuel) q =
    let on = (do
      r ← MkList.is_empty q.top
      let rest = seek_loop fuel (record q { top = q.top + 1 })
      elim r [ success ↦ rest | failure ↦ pure q ]) in
    if is_empty q then pure q else on

-- `top` can pass each bucket once.
unfoldable pub seek : BucketQueue → M BucketQueue
unfolding seek_loop
seek q = seek_loop (q.n_buckets + 1) q

unfoldable pub add : BucketQueue → (item : Ptr) (priority : ℕ) → M (Ret × BucketQueue)
add q item priority = if leb q.n_buckets priority then pure (failure, q) else do
  s ← seek q
  MkList.add item (s.buckets + priority)
  let t = if ltb (s.buckets + priority) s.top then s.buckets + priority else s.top
  pure (success, record s { top = t; n_items = (s.n_items + 1) % size_mod })

-- NULL if there is no item.
unfoldable pub find_min : BucketQueue → M (Ptr × BucketQueue)
find_min q = do
  s ← seek q
  if is_empty s then pure (null, s) else do item ← get_next s.top; pure (item, s)

unfoldable pub delete_min : BucketQueue → M BucketQueue
delete_min q = do
  s ← seek q
  if is_empty s then pure s else do
    item ← get_next s.top
    MkList.del item
    t ← seek s
    pure (record t { n_items = (t.n_items + size_mod - 1) % size_mod })

unfoldable pub pop_min : BucketQueue → M (Ptr × BucketQueue)
unfolding find_min delete_min
pop_min q = do (item, s) ← find_min q; t ← delete_min s; pure (item, t)

unfoldable pub destroy : BucketQueue → M (Ret × BucketQueue)
destroy q = do
  s ← seek q
  if is_empty s then (do free_nodes s.buckets s.n_buckets; pure (success, s)) else pure (failure, s)
