-- ===== src/BucketQueue/Tests.antt =====
-- The theorems on flb_bucket_queue.h at a queue of two priorities with one item, of priority 1.
use my_repo.Base.{
  ℕ, zero, suc, ◌≡◌, ◌≢◌, refl, ◌⊎◌, inl, inr, ◌<◌, ◌+◌, true, Option, none, some, [], ◌∷◌, arith,
  ◌==◌, if◌then◌else◌,
}
use my_repo.MkList.{Ptr, null, Heap, success, failure, ◌>>=◌, ◌>>◌, pure, is_live}
use my_repo.MkList.Ring.{Ring, SameOutside}
use my_repo.BucketQueue.{BucketQueue, create, add, find_min, pop_min, delete_min, destroy}
use my_repo.BucketQueue.Holds.{Buckets, Holds, contents}
use my_repo.BucketQueue.Add.{add-Holds, add_refused, put_last}
use my_repo.BucketQueue.Serve.{Spares, find_min-Pops, pop_min-Pops}
use my_repo.BucketQueue.Pop.{Pops}
use my_repo.BucketQueue.Life.{create-Holds, create_fails, destroy_lem, no_items}

-- The buckets 10 and 11, and the item 2 in the second one.
abbrev store : Heap
store = record {
  live = λ c. true;
  next = λ c. if c == 11 then 2 else if c == 2 then 11 else if c == 10 then 10 else 0;
  prev = λ c. if c == 11 then 2 else if c == 2 then 11 else if c == 10 then 10 else 0;
}

abbrev queue : BucketQueue
queue = record { buckets = 10; n_buckets = 2; top = 11; n_items = 1 }

abbrev items : Buckets
items i = if i == 1 then 2 ∷ [] else []

queue-rings : (i : ℕ) → i < 2 → Ring store (10 + i) (items i)
queue-rings zero l = record {
  chain = (refl, refl);
  distinct = (refl, tt);
  live = λ c o. ground arith;
}
queue-rings (suc zero) l = record {
  chain = (refl, refl, (refl, refl));
  distinct = (refl, (refl, tt));
  live = λ c o. ground arith;
}
queue-rings (suc (suc i)) l = absurd (omega arith)

queue-Holds : Holds store queue items
queue-Holds = record {
  shape = record {
    rings = queue-rings;
    apart = λ i j li lj ne c o. ground arith;
    below = λ i l b. ground arith;
    low = omega arith;
    high = omega arith;
  };
  count = refl;
}

add-Holds_example :
    (g : Heap) × (q' : BucketQueue) × (add queue 3 0 store ≡ some ((success, q'), g))
    × Holds g q' (put_last items 0 3)
    × (q'.buckets ≡ 10)
    × (q'.n_buckets ≡ 2)
    × SameOutside (3 ∷ 10 ∷ 10 ∷ []) store g
add-Holds_example =
    add-Holds store queue items 3 0 queue-Holds (omega arith) refl (λ i l. ground arith)

find_min-Pops_example :
    (item : Ptr) × (q' : BucketQueue) × (cs : Buckets) × (find_min queue store
      ≡ some ((item, q'), store))
    × Holds store q' items
    × (q'.buckets ≡ 10)
    × (q'.n_buckets ≡ 2)
    × Pops items 2 item cs
find_min-Pops_example = find_min-Pops store queue items queue-Holds

pop_min-Pops_example :
    (item : Ptr) × (q' : BucketQueue) × (g : Heap) × (cs : Buckets) × (pop_min queue store
      ≡ some ((item, q'), g))
    × Holds g q' cs
    × Pops items 2 item cs
    × Spares store g queue q' items item
pop_min-Pops_example = pop_min-Pops store queue items queue-Holds

create-Holds_example :
    (g : Heap) × (q : BucketQueue) × (create (some 7) (some 20) 8 store ≡ some (some q, g))
    × (q.n_buckets ≡ 8)
    × Holds g q no_items
create-Holds_example =
    create-Holds store 7 20 8 (omega arith) (omega arith) (λ e. absurd (omega arith))

destroy_lem_example :
    (g : Heap) × (q' : BucketQueue) × (((destroy queue store ≡ some ((success, q'), g))
        × (contents items 0 2 ≡ []))
      ⊎ ((destroy queue store ≡ some ((failure, q'), store))
          × (contents items 0 2 ≢ [])
          × Holds store q' items))
destroy_lem_example = destroy_lem store queue items queue-Holds

abbrev result : {A : Type 0} → Option (A × Heap) → Option A
result none = none
result (some (a, h)) = some a

-- A later item of a better priority is served first.
serve_run :
    result (
      (do
        (_, q) ← add queue 3 0
        (a, q') ← pop_min q
        (b, q'') ← pop_min q'
        (c, _) ← pop_min q''
        pure (a ∷ b ∷ c ∷ []))
        store)
    ≡ some (3 ∷ 2 ∷ null ∷ [])
unfolding add pop_min my_repo.BucketQueue.seek my_repo.MkList.is_empty my_repo.MkList.add
    my_repo.MkList.del
serve_run = refl

add_refused_example : add queue 3 2 store ≡ some ((failure, queue), store)
add_refused_example = add_refused store queue items 3 2 (omega arith)

create_fails_example : create (some 7) none 8 store ≡ some (none, store)
create_fails_example = create_fails store (some 7) none 8 (inr (inl refl))
