-- ===== src/EventLoop.antt =====
-- The events that wait for the engine, in the order of their priority: fluent-bit/flb_event_loop.h
-- over the bucket queue, and the events of monkey/mk_core/mk_event.h. The events that
-- `mk_event_foreach` visits, which depend on the backend, are a list.
pub mod Load
pub mod Serve
pub mod Inject
pub mod Track
pub mod Arrive
pub mod Turns
pub mod Waiting
pub mod Liveness
mod LoopTests
mod Tests
use my_repo.Base.{
  ℕ, zero, suc, ◌+◌, Bool, true, List, [], ◌∷◌, ◌==◌, ltb, leb, not, ◌&&◌, Option, none, some,
  if◌then◌else◌, length,
}
use my_repo.MkList.{Ptr, null, M, pure, ◌>>=◌, ◌>>◌, get_prev, Ret}
use my_repo.BucketQueue
use my_repo.BucketQueue.{BucketQueue}

abbrev pub event_custom : ℕ
event_custom = 4

abbrev pub event_empty : ℕ
event_empty = 0

abbrev pub event_none : ℕ
event_none = 1

abbrev pub event_registered : ℕ
event_registered = 2

-- `fd` is the bit pattern of the `int`; `node` is the address of `_priority_head`; `priority` is the
-- `char` as it is converted to `size_t`.
pub record Event : Type 0 where
  pub fd : ℕ
  pub type : ℕ
  pub mask : ℕ
  pub status : ℕ
  pub «data» : Ptr
  pub handler : Ptr
  pub node : Ptr
  pub priority : ℕ

unfoldable pub event_init : Event → (fd : ℕ) (arg callback : Ptr) → Event
event_init ev fd arg callback = record ev {
  fd = fd;
  type = event_custom;
  mask = event_empty;
  status = event_none;
  «data» = arg;
  handler = callback;
}

unfoldable pub event_zero : Event → Event
unfolding event_init
event_zero e = event_init e 0xffffffff null null

unfoldable pub event_new : Event → Event
event_new e = record e { mask = event_empty; status = event_none }

unfoldable pub load_event : BucketQueue → Event → M BucketQueue
unfolding BucketQueue.add
load_event bktq event = do prev ← get_prev event.node; if prev == null then added else pure bktq
  where
    added : M BucketQueue
    added = do (_, q) ← BucketQueue.add bktq event.node event.priority; pure q

unfoldable pub load : BucketQueue → List Event → M BucketQueue
unfolding load_event
load bktq [] = pure bktq
load bktq (event ∷ evl) =
    let rest : BucketQueue → M BucketQueue = λ q. load q evl in
    if event.status == event_none then rest bktq else (do q ← load_event bktq event; rest q)

-- The loop with the counter `i`.
unfoldable pub load_from : BucketQueue → List Event → (i n_events_initial : ℕ) → M BucketQueue
unfolding load_event
load_from bktq [] i n_events_initial = pure bktq
load_from bktq (event ∷ evl) i n_events_initial =
    let rest : BucketQueue → M BucketQueue = λ q. load_from q evl (i + 1) n_events_initial in
    if leb n_events_initial i then (do q ← load_event bktq event; rest q) else rest bktq

unfoldable pub load_injected : BucketQueue → List Event → (n_events_initial : ℕ) → M BucketQueue
unfolding load_from
load_injected bktq evl n_events_initial =
    if ltb (length evl) n_events_initial
    then pure bktq
    else if ltb n_events_initial (length evl)
    then load_from bktq evl 0 n_events_initial
    else pure bktq

-- The choice of the next event in `flb_event_priority_live_foreach`; NULL if there is none.
unfoldable pub next_event : BucketQueue → M (Ptr × BucketQueue)
unfolding BucketQueue.find_min BucketQueue.pop_min
next_event bktq = do
  (found, q) ← BucketQueue.find_min bktq
  if found == null then pure (null, q) else BucketQueue.pop_min q

-- The start of a round of the loop, and of the loop itself.
unfoldable pub next_round : BucketQueue → List Event → M (Ptr × BucketQueue)
unfolding load next_event
next_round bktq evl = do q ← load bktq evl; next_event q

-- The code between two choices that is outside the headers: what the loop's body does to the lists,
-- with the events that there are then, and the same of `mk_event_wait_2`.
pub record Turn : Type 0 where
  pub body : M (Unit {0})
  pub after_body : List Event
  pub wait : M (Unit {0})
  pub ready : List Event

-- The loop's body and its update, without the counter.
unfoldable pub next_turn : BucketQueue → (n_events : ℕ) → Turn → M (Ptr × BucketQueue)
unfolding load_injected next_round
next_turn bktq n_events turn = do
  turn.body
  q ← load_injected bktq turn.after_body n_events
  turn.wait
  next_round q turn.ready

-- `iter < max_iter || max_iter == -1`, where `none` is -1.
abbrev pub within : (iter : ℕ) → Option ℕ → Bool
within iter none = true
within iter (some max_iter) = ltb iter max_iter

-- What the loop leaves: the events that its body has visited, and `event` and the queue at its end.
pub record Visits : Type 0 where
  pub visited : List Ptr
  pub event : Ptr
  pub bktq : BucketQueue

abbrev pub visit : Ptr → Visits → Visits
visit event v = record v { visited = event ∷ v.visited }

-- `flb_event_priority_live_foreach` from the round `iter` on; `none` also when the fuel runs out.
unfoldable pub live_foreach_from :
    ℕ
    → (ℕ → Turn)
    → (max_iter : Option ℕ) → (iter n_events : ℕ) → (event : Ptr) → BucketQueue
    → M Visits
unfolding next_turn
live_foreach_from zero turns max_iter iter n_events event bktq = λ _. none
live_foreach_from (suc fuel) turns max_iter iter n_events event bktq =
    let rest = (do
      (next, q) ← next_turn bktq n_events (turns iter)
      v ← live_foreach_from fuel turns max_iter (iter + 1) (length (turns iter).ready) next q
      pure (visit event v)) in
    if not (event == null) && within iter max_iter
    then rest
    else pure (record { visited = []; event = event; bktq = bktq })

unfoldable pub live_foreach :
    ℕ → (ℕ → Turn) → (max_iter : Option ℕ) → List Event → BucketQueue → M Visits
unfolding next_round live_foreach_from
live_foreach fuel turns max_iter evl bktq = do
  (event, q) ← next_round bktq evl
  live_foreach_from fuel turns max_iter 0 (length evl) event q
