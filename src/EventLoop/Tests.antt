-- ===== src/EventLoop/Tests.antt =====
-- The theorems on flb_event_loop.h at a queue of two priorities with one item, of priority 1, and
-- two events, of which one is registered, with priority 0.
use my_repo.Base.{
  ℕ, zero, suc, ◌+◌, ◌≡◌, ◌<◌, refl, ◌⊎◌, true, some, List, [], ◌∷◌, arith, ◌==◌, if◌then◌else◌,
}
use my_repo.MkList.{Ptr, null, Heap}
use my_repo.MkList.Ring.{Ring}
use my_repo.BucketQueue.{BucketQueue}
use my_repo.BucketQueue.Holds.{Buckets, Holds, contents}
use my_repo.EventLoop.{Event, next_round, load, load_injected}
use my_repo.EventLoop.Load.{loaded, load-Holds}
use my_repo.EventLoop.Serve.{next_round_lem}
use my_repo.EventLoop.Inject.{load_all, load_injected_lem}

-- The buckets 10 and 11, the item 2 in the second one, and the nodes 3 and 4 in no list.
abbrev store : Heap
store = record {
  live = λ c. true;
  next = λ c. if c == 11 then 2 else if c == 2 then 11 else if c == 10 then 10 else 0;
  prev = λ c. if c == 11 then 2 else if c == 2 then 11 else if c == 10 then 10 else 0;
}

abbrev queue : BucketQueue
queue = record { buckets = 10; n_buckets = 2; top = 11; n_items = 1 }

abbrev items : Buckets
items i = if i == 1 then 2 ∷ [] else []

abbrev event : (status node : ℕ) → Event
event status node = record {
  fd = 7;
  type = 4;
  mask = 1;
  status = status;
  «data» = 0;
  handler = 0;
  node = node;
  priority = 0;
}

abbrev events : List Event
events = event 1 4 ∷ event 2 3 ∷ []

queue-rings : (i : ℕ) → i < 2 → Ring store (10 + i) (items i)
queue-rings zero l = record {
  chain = (refl, refl);
  distinct = (refl, tt);
  live = λ c o. ground arith;
}
queue-rings (suc zero) l = record {
  chain = (refl, refl, (refl, refl));
  distinct = (refl, (refl, tt));
  live = λ c o. ground arith;
}
queue-rings (suc (suc i)) l = absurd (omega arith)

queue-Holds : Holds store queue items
queue-Holds = record {
  shape = record {
    rings = queue-rings;
    apart = λ i j li lj ne c o. ground arith;
    below = λ i l b. ground arith;
    low = omega arith;
    high = omega arith;
  };
  count = refl;
}

load-Holds_example :
    (g : Heap) × (q' : BucketQueue) × (load queue events store ≡ some (q', g))
    × Holds g q' (loaded items events)
    × (q'.n_buckets ≡ 2)
load-Holds_example =
    load-Holds events store queue items queue-Holds
      (
        record { live = refl; orphan = refl; range = omega arith; fresh = λ i l. ground arith },
        (
          record { live = refl; orphan = refl; range = omega arith; fresh = λ i l. ground arith },
          tt,
        ),
      )
      ((refl, tt), (tt, tt))

next_round_lem_example :
    (item : Ptr) × (q' : BucketQueue) × (g : Heap) × (cs : Buckets) × (next_round queue events store
      ≡ some ((item, q'), g))
    × Holds g q' cs
    × (((contents (loaded items events) 0 2 ≡ []) × (item ≡ null) × (contents cs 0 2 ≡ []))
        ⊎ (contents (loaded items events) 0 2 ≡ item ∷ contents cs 0 2))
next_round_lem_example =
    next_round_lem store queue items events queue-Holds
      (
        record { live = refl; orphan = refl; range = omega arith; fresh = λ i l. ground arith },
        (
          record { live = refl; orphan = refl; range = omega arith; fresh = λ i l. ground arith },
          tt,
        ),
      )
      ((refl, tt), (tt, tt))

-- The registered event of priority 0 comes before the item that waited.
order_run : contents (loaded items events) 0 2 ≡ 3 ∷ 2 ∷ []
order_run = refl

load_injected_lem_example :
    load_injected queue events 1 store ≡ load_all queue (event 2 3 ∷ []) store
load_injected_lem_example = load_injected_lem queue events 1 store
