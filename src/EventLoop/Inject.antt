-- ===== src/EventLoop/Inject.antt =====
-- The events that are injected while the loop runs.
use my_repo.Base.{
  ℕ, zero, suc, ◌+◌, ◌-◌, ◌≤◌, ◌≡◌, refl, ◌∙◌, ap, inl, inr, some, List, [], ◌∷◌, arith, ltb, leb,
  if◌then◌else◌, length, Bool-cases, Option-cases,
}
use my_repo.MkList.{Heap, M, pure, ◌>>=◌}
use my_repo.BucketQueue.{BucketQueue}
use my_repo.EventLoop.{Event, load_event, load_from, load_injected}

abbrev pub drop : ℕ → List Event → List Event
drop zero es = es
drop (suc n) [] = []
drop (suc n) (e ∷ es) = drop n es

-- Every event is loaded, whatever its status.
abbrev pub load_all : BucketQueue → List Event → M BucketQueue
load_all q [] = pure q
load_all q (e ∷ es) = load_event q e >>= λ q'. load_all q' es

drop-nil : (n : ℕ) → drop n [] ≡ []
drop-nil zero = refl
drop-nil (suc n) = refl

drop-length : (n : ℕ) (es : List Event) → length es ≤ n → drop n es ≡ []
drop-length n [] l = drop-nil n
drop-length zero (e ∷ es) l = absurd (omega arith)
drop-length (suc n) (e ∷ es) l = drop-length n es (omega arith)

load_from-drop :
    (es : List Event) (q : BucketQueue) (i n : ℕ) (h : Heap)
    → load_from q es i n h ≡ load_all q (drop (n - i) es) h
unfolding load_from
load_from-drop [] q i n h = rw (drop-nil (n - i)) refl
load_from-drop (e ∷ es) q i n h = elim (Bool-cases (leb n i)) [
  | inl past ↦
      let at_start : n - i ≡ 0 = ground arith in
      let next_start : n - (i + 1) ≡ 0 = ground arith in
      rw (past, at_start)
        (elim (Option-cases (load_event q e h)) [
          | inl f ↦ rw (◌>>=◌, f) refl
          | inr ((q', h'), f) ↦
              rw (◌>>=◌, f) (load_from-drop es q' (i + 1) n h' ∙ rw next_start refl)
        ])
  | inr early ↦
      let one_more : n - i ≡ suc (n - (i + 1)) = ground arith in
      rw (early, one_more) (load_from-drop es q (i + 1) n h)
]

-- `flb_event_load_injected_events` changes nothing if there are fewer events than before, and
-- otherwise loads those behind the first `n_events_initial`, each once and in their order.
pub load_injected_lem :
    (q : BucketQueue) (es : List Event) (n_events_initial : ℕ) (h : Heap)
    → load_injected q es n_events_initial h ≡ (
        if ltb (length es) n_events_initial
        then some (q, h)
        else load_all q (drop n_events_initial es) h)
unfolding load_injected
load_injected_lem q es n h = elim (Bool-cases (ltb (length es) n)) [
  | inl less ↦ rw less refl
  | inr more ↦ elim (Bool-cases (ltb n (length es))) [
    | inl l ↦
        rw (more, l) (load_from-drop es q 0 n h ∙ ap (λ k. load_all q (drop k es) h) (omega arith))
    | inr l ↦ rw (more, l, drop-length n es (ground arith)) refl
  ]
]
