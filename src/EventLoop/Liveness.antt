-- ===== src/EventLoop/Liveness.antt =====
-- The loop of the engine, `flb_event_priority_live_foreach`: it ends, and it starves nobody.
use my_repo.Base.{
  ℕ, zero, suc, ◌+◌, ◌-◌, ◌≤◌, ◌<◌, ◌≡◌, ◌∙◌, Bool, true, false, some, List, [], ◌∷◌, ◌++◌, subst,
  arith, ◌==◌, has, length,
}
use my_repo.MkList.{Ptr, null, Heap, ◌>>=◌}
use my_repo.BucketQueue.{BucketQueue}
use my_repo.BucketQueue.Holds.{Buckets}
use my_repo.BucketQueue.Pop.{Pops}
use my_repo.EventLoop.{Event, next_round, Turn, Visits, visit, live_foreach_from, live_foreach}
use my_repo.EventLoop.Track.{Tracks}
use my_repo.EventLoop.Arrive.{Arrives, AllKnown}
use my_repo.EventLoop.Turns.{NoNull, Orderly, next_round-Chooses, next_turn-Chooses}
use my_repo.EventLoop.Waiting.{
  Waits, Waits-Arrives, contents-next, going, visit_run, live_foreach_from-Ends,
}

-- The event that is next is the item, if it waited behind nothing; otherwise the item waits behind
-- the rest.
abbrev Next : Ptr → Buckets → ℕ → List Ptr → Ptr → Type 0
Next event cs p [] item = event ≡ item
Next event cs p (a ∷ ahead) item = Waits cs p ahead item

chosen :
    (bs ds cs : Buckets) (p n : ℕ) (ahead : List Ptr) (item event : Ptr)
    → p < n
    → Waits bs p ahead item
    → Arrives p bs ds
    → NoNull n ds
    → Pops ds n event cs
    → Next event cs p ahead item × ((event == null) ≡ false)
chosen bs ds cs p n [] item event l w a nn pops =
    let (behind, w') = Waits-Arrives [] item a w in
    let (e, f, ne) = contents-next ds cs p n event item behind l pops w' nn in (e, ne)
chosen bs ds cs p n (x ∷ ahead) item event l w a nn pops =
    let (behind, w') = Waits-Arrives (x ∷ ahead) item a w in
    let (e, f, ne) = contents-next ds cs p n event x (ahead ++ item ∷ behind) l pops w' nn in
    ((behind, f), ne)

module _ (node : Ptr → Bool) (p n : ℕ) (turns : ℕ → Turn) (max_iter : ℕ)
    (orderly : (i : ℕ) → Orderly node p n (turns i)) where
  serves :
      (ahead : List Ptr) (fuel iter i : ℕ) (event item : Ptr) (q : BucketQueue) (h : Heap)
      (cs : Buckets)
      → Tracks node h q cs
      → q.n_buckets ≡ n
      → p < n
      → Next event cs p ahead item
      → (event == null) ≡ false
      → iter + length ahead < max_iter
      → max_iter - iter < fuel
      → (v : Visits) × (g : Heap) × (live_foreach_from fuel turns (some max_iter) iter i event q h
          ≡ some (v, g))
        × (has item v.visited ≡ true)
  serves [] fuel iter i event item q h cs t e l next ne bound f =
      let (v, g, _, run, _, _, visits) =
        live_foreach_from-Ends node p n turns max_iter orderly fuel iter i event q h cs t e f in
      let c : going node p n turns max_iter orderly event iter ≡ true = ground arith in
      (v, g, run, subst (λ x. has x v.visited ≡ true) next (visits c))
  serves (x ∷ ahead) zero iter i event item q h cs t e l next ne bound f = absurd (omega arith)
  serves (x ∷ ahead) (suc fuel) iter i event item q h bs t e l waits ne bound f =
      let (event', q', g, ds, cs, run, a, nn, pops, t', e') =
        next_turn-Chooses node p n (turns iter) i h q bs t e (orderly iter) in
      let (next', ne') =
        chosen bs ds cs p n ahead item event' l waits a (subst (λ m. NoNull m ds) e nn)
          (subst (λ m. Pops ds m event' cs) e pops) in
      let (v, g', rest, i') =
        serves ahead fuel (iter + 1) (length (turns iter).ready) event' item q' g cs t' (e' ∙ e) l
          next' ne' (omega arith) (omega arith) in
      (
        visit event v,
        g',
        visit_run node p n turns max_iter orderly fuel iter i event event' q q' h g g' v
            (ground arith) run rest,
        ground arith,
      )

  start_run :
      (fuel : ℕ) (evl : List Event) (event : Ptr) (q q' : BucketQueue) (h g g' : Heap) (v : Visits)
      → next_round q evl h ≡ some ((event, q'), g)
      → live_foreach_from fuel turns (some max_iter) 0 (length evl) event q' g ≡ some (v, g')
      → live_foreach fuel turns (some max_iter) evl q h ≡ some (v, g')
  unfolding live_foreach
  start_run fuel evl event q q' h g g' v r s = rw (◌>>=◌, r) s

  module _ (evl : List Event) (q : BucketQueue) (h : Heap) (bs : Buckets)
      (k : AllKnown node p n evl) (t : Tracks node h q bs) (e : q.n_buckets ≡ n) where
    -- For a limit `max_iter` and more fuel than it, on a well-formed queue and with events whose
    -- priorities are in range and whose nodes are each in the queue or orphans, and if the loop's
    -- body and `mk_event_wait_2` leave the items of the queue as they are, the loop
    -- `flb_event_priority_live_foreach` ends whatever arrives between its rounds, it visits at most
    -- `max_iter` events, and the queue is well formed again.
    pub live_foreach-ends :
        (fuel : ℕ)
        → max_iter < fuel
        → (v : Visits) × (g : Heap) × (cs : Buckets) × (live_foreach fuel turns
              (some max_iter)
              evl
              q
              h
            ≡ some (v, g))
          × Tracks node g v.bktq cs
          × (length v.visited ≤ max_iter)
    live_foreach-ends fuel f =
        let (event, q', g, ds, cs, run, _, _, _, t', e') =
          next_round-Chooses node p n evl h q bs t e k in
        let (v, g', es, rest, t'', bound, _) =
          live_foreach_from-Ends node p n turns max_iter orderly fuel 0 (length evl) event q' g cs
            t' (e' ∙ e) (omega arith) in
        (v, g', es, start_run fuel evl event q q' h g g' v run rest, t'', omega arith)

    -- For a limit `max_iter` and more fuel than it, on a well-formed queue with more than `p`
    -- priorities, let an item wait in the first priorities up to `p`, behind fewer than `max_iter`
    -- items of these. If the events that there are before the loop and between its rounds have
    -- priorities from `p` on that are in range, and nodes that are each in the queue or orphans,
    -- and if the loop's body and `mk_event_wait_2` leave the items of the queue as they are, so
    -- that no item is removed directly by `mk_list_del`, then `flb_event_priority_live_foreach`
    -- ends and has visited the item.
    pub live_foreach-serves :
        (fuel : ℕ) (ahead : List Ptr) (item : Ptr)
        → p < n
        → Waits bs p ahead item
        → length ahead < max_iter
        → max_iter < fuel
        → (v : Visits) × (g : Heap) × (live_foreach fuel turns (some max_iter) evl q h
            ≡ some (v, g))
          × (has item v.visited ≡ true)
    live_foreach-serves fuel ahead item l waits short f =
        let (event, q', g, ds, cs, run, a, nn, pops, t', e') =
          next_round-Chooses node p n evl h q bs t e k in
        let (next, ne) =
          chosen bs ds cs p n ahead item event l waits a (subst (λ m. NoNull m ds) e nn)
            (subst (λ m. Pops ds m event cs) e pops) in
        let (v, g', rest, i) =
          serves ahead fuel 0 (length evl) event item q' g cs t' (e' ∙ e) l next ne (omega arith)
            (omega arith) in
        (v, g', start_run fuel evl event q q' h g g' v run rest, i)
