-- ===== src/EventLoop/LoopTests.antt =====
-- The theorems on the loop of flb_event_loop.h at a queue with two items of priority 1, while a
-- third one arrives again and again; and a run with a limit of one visit.
use my_repo.Base.{
  ℕ, zero, suc, ◌+◌, ◌≤◌, ◌<◌, ◌≡◌, refl, true, Bool, Option, none, some, List, [], ◌∷◌, arith,
  ◌==◌, has, inl, if◌then◌else◌, length,
}
use my_repo.MkList.{Ptr, null, Heap, pure}
use my_repo.MkList.Ring.{Ring}
use my_repo.MkList
use my_repo.BucketQueue
use my_repo.BucketQueue.{BucketQueue}
use my_repo.BucketQueue.Holds.{Buckets}
use my_repo.EventLoop.{Event, Turn, Visits, live_foreach}
use my_repo.EventLoop.Track.{Tracks}
use my_repo.EventLoop.Turns.{Orderly}
use my_repo.EventLoop.Liveness.{live_foreach-ends, live_foreach-serves}

-- The buckets 10 and 11, the items 2 and 5 in the second one, and the node 3 in no list.
abbrev store : Heap
store = record {
  live = λ c. true;
  next = λ c.
      if c == 11 then 2 else if c == 2 then 5 else if c == 5 then 11 else if c == 10 then 10 else 0;
  prev = λ c.
      if c == 11 then 5 else if c == 5 then 2 else if c == 2 then 11 else if c == 10 then 10 else 0;
}

abbrev queue : BucketQueue
queue = record { buckets = 10; n_buckets = 2; top = 11; n_items = 2 }

abbrev items : Buckets
items i = if i == 1 then 2 ∷ 5 ∷ [] else []

abbrev late : Event
late = record {
  fd = 7;
  type = 4;
  mask = 1;
  status = 2;
  «data» = 0;
  handler = 0;
  node = 3;
  priority = 1;
}

abbrev node : Ptr → Bool
node c = c == 3

abbrev turns : ℕ → Turn
turns i = record { body = pure tt; after_body = []; wait = pure tt; ready = late ∷ [] }

turns-Orderly : (i : ℕ) → Orderly node 1 2 (turns i)
turns-Orderly i = record {
  body = λ h q bs t. (h, refl, t);
  after_body = tt;
  wait = λ h q bs t. (h, refl, t);
  ready = (record { marked = refl; above = omega arith; range = omega arith }, tt);
}

queue-rings : (i : ℕ) → i < 2 → Ring store (10 + i) (items i)
queue-rings zero l = record {
  chain = (refl, refl);
  distinct = (refl, tt);
  live = λ c o. ground arith;
}
queue-rings (suc zero) l = record {
  chain = (refl, refl, (refl, refl, (refl, refl)));
  distinct = (refl, (refl, (refl, tt)));
  live = λ c o. ground arith;
}
queue-rings (suc (suc i)) l = absurd (omega arith)

queue-Tracks : Tracks node store queue items
queue-Tracks = record {
  holds = record {
    shape = record {
      rings = queue-rings;
      apart = λ i j li lj ne c o. ground arith;
      below = λ i l b. ground arith;
      low = omega arith;
      high = omega arith;
    };
    count = refl;
  };
  live = λ c m. ground arith;
  place = λ c m. inl (ground arith, λ i li. ground arith);
}

live_foreach-ends_example :
    (v : Visits) × (g : Heap) × (cs : Buckets) × (live_foreach 4 turns
        (some 3)
        (late ∷ [])
        queue
        store
      ≡ some (v, g))
    × Tracks node g v.bktq cs
    × (length v.visited ≤ 3)
live_foreach-ends_example =
    live_foreach-ends node 1 2 turns 3 turns-Orderly (late ∷ []) queue store items
      (turns-Orderly 0).ready queue-Tracks refl 4 (omega arith)

-- The item 5 waits behind the item 2.
live_foreach-serves_example :
    (v : Visits) × (g : Heap) × (live_foreach 4 turns (some 3) (late ∷ []) queue store
      ≡ some (v, g))
    × (has 5 v.visited ≡ true)
live_foreach-serves_example =
    live_foreach-serves node 1 2 turns 3 turns-Orderly (late ∷ []) queue store items
      (turns-Orderly 0).ready queue-Tracks refl 4 (2 ∷ []) 5 (omega arith) ([], refl) (omega arith)
      (omega arith)

-- What a run has visited, the event that it ends with, and how many items are still in the queue.
outcome : Option (Visits × Heap) → List Ptr × Ptr × ℕ
outcome none = ([], null, 0)
outcome (some (v, _)) = (v.visited, v.event, v.bktq.n_items)

-- With the limit 3, the third visit is of the event that arrived.
three_visits :
    outcome (live_foreach 4 turns (some 3) (late ∷ []) queue store) ≡ (2 ∷ 5 ∷ 3 ∷ [], 3, 0)
unfolding live_foreach outcome BucketQueue.seek MkList.is_empty MkList.add MkList.del
three_visits = refl

abbrev idle : ℕ → Turn
idle i = record { body = pure tt; after_body = []; wait = pure tt; ready = [] }

-- With the limit 1, the event 5 is taken out of the queue and not visited.
one_visit : outcome (live_foreach 2 idle (some 1) [] queue store) ≡ (2 ∷ [], 5, 0)
unfolding live_foreach outcome BucketQueue.seek MkList.is_empty MkList.del
one_visit = refl

-- If the body removes the waiting event 5 directly, it is not visited.
removed_run :
    outcome (live_foreach 3 (λ i. record (idle i) { body = MkList.del 5 }) (some 3) [] queue store)
    ≡ (2 ∷ [], null, 1)
unfolding live_foreach outcome BucketQueue.seek MkList.is_empty MkList.del
removed_run = refl
