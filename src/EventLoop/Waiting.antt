-- ===== src/EventLoop/Waiting.antt =====
-- Which events the loop visits.
use my_repo.Base.{
  ℕ, zero, suc, ◌+◌, ◌-◌, ◌≤◌, ◌<◌, ◌≡◌, refl, ◌∙◌, inl, inr, Bool, true, false, not, ◌&&◌, Option,
  some, List, [], ◌∷◌, ◌++◌, append_assoc, ap, sym, arith, ◌==◌, has, Bool-cases, length,
}
use native.Mathlib.Decide.{dec_lt}
use my_repo.MkList.{Ptr, null, Heap, ◌>>=◌}
use my_repo.BucketQueue.{BucketQueue}
use my_repo.BucketQueue.Holds.{Buckets, contents, contents_empty}
use my_repo.BucketQueue.Pop.{Pops, contents-Pops}
use my_repo.EventLoop.{Turn, next_turn, within, Visits, visit, live_foreach_from}
use my_repo.EventLoop.Track.{Tracks}
use my_repo.EventLoop.Arrive.{Arrives, contents-Arrives}
use my_repo.EventLoop.Turns.{NoNull, Orderly, next_turn-Chooses}

-- `item` waits in one of the first `p + 1` priorities, behind `ahead`.
abbrev pub Waits : Buckets → ℕ → List Ptr → Ptr → Type 0
Waits bs p ahead item = (behind : List Ptr) × (contents bs 0 (suc p) ≡ ahead ++ item ∷ behind)

pub Waits-Arrives :
    {p : ℕ} {bs cs : Buckets} (ahead : List Ptr) (item : Ptr)
    → Arrives p bs cs
    → Waits bs p ahead item
    → Waits cs p ahead item
Waits-Arrives ahead item a (behind, w) =
    let (more, e) = contents-Arrives a in
    (behind ++ more, e ∙ ap (λ l. l ++ more) w ∙ append_assoc ahead (item ∷ behind) more)

-- If something waits in the first `p + 1` priorities, the next event is the first of it.
pub contents-next :
    (bs cs : Buckets) (p n : ℕ) (item y : Ptr) (ys : List Ptr)
    → p < n
    → Pops bs n item cs
    → contents bs 0 (suc p) ≡ y ∷ ys
    → NoNull n bs
    → (item ≡ y) × (contents cs 0 (suc p) ≡ ys) × ((item == null) ≡ false)
contents-next bs cs p n item y ys l (inl (none_left, e, f)) w nn =
    let empty = contents_empty bs 0 (suc p) (λ j _ u. none_left j (omega arith)) in
    absurd (cc (empty, w))
contents-next bs cs p n item y ys l (inr (j, xs, lj, before, e, f)) w nn = elim (dec_lt j (suc p)) [
  | yes low ↦
      let first : y ∷ ys ≡ item ∷ contents cs 0 (suc p) =
        sym w
        ∙ contents-Pops bs cs (suc p) j item xs low before e
        ∙ ap (λ ds. item ∷ contents ds 0 (suc p)) (sym f) in
      (cc first, cc first, nn j lj item (rw e (ground arith)))
  | no high ↦
      let empty = contents_empty bs 0 (suc p) (λ i _ u. before i (omega arith)) in
      absurd (cc (empty, w))
]

module _ (node : Ptr → Bool) (p n : ℕ) (turns : ℕ → Turn) (max_iter : ℕ)
    (orderly : (i : ℕ) → Orderly node p n (turns i)) where
  -- The condition of the loop.
  abbrev pub going : (event : Ptr) (iter : ℕ) → Bool
  going event iter = not (event == null) && within iter (some max_iter)

  stop_run :
      (fuel iter i : ℕ) (event : Ptr) (q : BucketQueue) (h : Heap)
      → going event iter ≡ false
      → live_foreach_from (suc fuel) turns (some max_iter) iter i event q h
        ≡ some (record { visited = []; event = event; bktq = q }, h)
  unfolding live_foreach_from
  stop_run fuel iter i event q h c = rw c refl

  pub visit_run :
      (fuel iter i : ℕ) (event next : Ptr) (q q' : BucketQueue) (h g g' : Heap) (v : Visits)
      → going event iter ≡ true
      → next_turn q i (turns iter) h ≡ some ((next, q'), g)
      → live_foreach_from fuel turns
          (some max_iter)
          (iter + 1)
          (length (turns iter).ready)
          next
          q'
          g
        ≡ some (v, g')
      → live_foreach_from (suc fuel) turns (some max_iter) iter i event q h
        ≡ some (visit event v, g')
  unfolding live_foreach_from
  visit_run fuel iter i event next q q' h g g' v c r s = rw (◌>>=◌, c, r, s) refl

  -- The loop ends, after as many visits as it may make at most.
  abbrev pub Ends : (iter : ℕ) (event : Ptr) → Option (Visits × Heap) → Type 0
  Ends iter event run =
      (v : Visits) × (g : Heap) × (cs : Buckets) × (run ≡ some (v, g))
      × Tracks node g v.bktq cs
      × (length v.visited ≤ max_iter - iter)
      × (going event iter ≡ true → has event v.visited ≡ true)

  pub live_foreach_from-Ends :
      (fuel iter i : ℕ) (event : Ptr) (q : BucketQueue) (h : Heap) (bs : Buckets)
      → Tracks node h q bs
      → q.n_buckets ≡ n
      → max_iter - iter < fuel
      → Ends iter event (live_foreach_from fuel turns (some max_iter) iter i event q h)
  live_foreach_from-Ends zero iter i event q h bs t e f = absurd (omega arith)
  live_foreach_from-Ends (suc fuel) iter i event q h bs t e f =
      elim (Bool-cases (going event iter)) [
        | inl c ↦
            let (next, q', g, ds, cs, run, _, _, _, t', e') =
              next_turn-Chooses node p n (turns iter) i h q bs t e (orderly iter) in
            let (v, g', es, rest, t'', bound, _) =
              live_foreach_from-Ends fuel (iter + 1) (length (turns iter).ready) next q' g cs t'
                (e' ∙ e) (left_fuel fuel iter event c f) in
            (
              visit event v,
              g',
              es,
              visit_run fuel iter i event next q q' h g g' v c run rest,
              t'',
              left_bound iter event v.visited c bound,
              λ _. ground arith,
            )
        | inr c ↦ (
          record { visited = []; event = event; bktq = q },
          h,
          bs,
          stop_run fuel iter i event q h c,
          t,
          omega arith,
          λ d. absurd (cc (c, d)),
        )
      ]
    where
      left_fuel :
          (fuel iter : ℕ) (event : Ptr)
          → going event iter ≡ true
          → max_iter - iter < suc fuel
          → max_iter - (iter + 1) < fuel
      left_fuel fuel iter event c f = ground arith

      left_bound :
          (iter : ℕ) (event : Ptr) (vs : List Ptr)
          → going event iter ≡ true
          → length vs ≤ max_iter - (iter + 1)
          → length (event ∷ vs) ≤ max_iter - iter
      left_bound iter event vs c b = ground arith
