-- ===== src/EventLoop/Arrive.antt =====
-- What arrives in the queue while the loop runs, of a priority that is no higher than a given one.
use my_repo.Base.{
  ℕ, suc, ◌+◌, ◌≤◌, ◌≡◌, refl, ◌∙◌, inl, inr, Bool, true, false, Option, some, List, [], ◌∷◌, ◌++◌,
  append_assoc, append-nil, ap, subst, sym, arith, ◌==◌,
}
use native.Mathlib.Decide.{ℕ_discrete}
use my_repo.MkList.{Ptr, null, Heap, ◌>>=◌, is_live, success}
use my_repo.BucketQueue
use my_repo.BucketQueue.{BucketQueue}
use my_repo.BucketQueue.Holds.{Buckets, contents, contents-ext, contents-split, contents-update}
use my_repo.BucketQueue.Add.{add-Holds, put_last}
use my_repo.EventLoop.{Event, load_event}
use my_repo.EventLoop.Track.{Tracks, Known, Tracks-add, Queued-prev}

-- Items go last in their priorities, none of which is before `p`.
pub data Arrives (p : ℕ) : Buckets → Buckets → Type 0 where
  none_came : {bs : Buckets} → Arrives p bs bs
  came :
      {bs cs : Buckets} (r : ℕ) (x : Ptr) → p ≤ r → Arrives p (put_last bs r x) cs → Arrives p bs cs

pub Arrives-trans :
    {p : ℕ} {bs cs ds : Buckets} → Arrives p bs cs → Arrives p cs ds → Arrives p bs ds
Arrives-trans none_came b = b
Arrives-trans (came r x l a) b = came r x l (Arrives-trans a b)

contents-put_last :
    (bs : Buckets) (p r : ℕ) (x : Ptr)
    → p ≤ r
    → (more : List Ptr) × (contents (put_last bs r x) 0 (suc p) ≡ contents bs 0 (suc p) ++ more)
contents-put_last bs p r x l = elim (ℕ_discrete r p) [
  | yes e ↦ (
    x ∷ [],
    subst (λ r. contents (put_last bs r x) 0 (suc p) ≡ contents bs 0 (suc p) ++ (x ∷ [])) (sym e)
        here,
  )
  | no ne ↦ (
    [],
    contents-ext (put_last bs r x) bs 0 (suc p) (λ j _ u. ground arith)
        ∙ sym (append-nil (contents bs 0 (suc p))),
  )
]
  where
    cut : suc p ≡ p + suc 0
    cut = omega arith

    here : contents (put_last bs p x) 0 (suc p) ≡ contents bs 0 (suc p) ++ (x ∷ [])
    here =
        ap (contents (put_last bs p x) 0) cut
        ∙ contents-update bs p 0 (bs p ++ x ∷ [])
        ∙ ap (λ l. contents bs 0 p ++ l) (append-nil (bs p ++ x ∷ []))
        ∙ sym (append_assoc (contents bs 0 p) (bs p) (x ∷ []))
        ∙ ap (λ l. (contents bs 0 p ++ l) ++ (x ∷ [])) (sym (append-nil (bs p)))
        ∙ ap (λ l. l ++ (x ∷ [])) (sym (contents-split bs p 0))
        ∙ ap (λ k. contents bs 0 k ++ (x ∷ [])) (sym cut)

-- What waits up to the priority `p` keeps its place.
pub contents-Arrives :
    {p : ℕ} {bs cs : Buckets}
    → Arrives p bs cs
    → (more : List Ptr) × (contents cs 0 (suc p) ≡ contents bs 0 (suc p) ++ more)
contents-Arrives {p} {bs} none_came = ([], sym (append-nil (contents bs 0 (suc p))))
contents-Arrives {p} {bs} (came r x l a) =
    let (more, e) = contents-put_last bs p r x l in
    let (rest, f) = contents-Arrives a in
    (more ++ rest, f ∙ ap (λ l. l ++ rest) e ∙ append_assoc (contents bs 0 (suc p)) more rest)

abbrev pub AllKnown : (Ptr → Bool) → (p n : ℕ) → List Event → Type 0
AllKnown node p n [] = Unit {0}
AllKnown node p n (e ∷ es) = Known node p n e × AllKnown node p n es

-- The call returns with a queue that holds what it held and what arrived.
abbrev pub Loads :
    (Ptr → Bool) → ℕ → Heap → BucketQueue → Buckets → Option (BucketQueue × Heap) → Type 0
Loads node p h q bs run =
    (g : Heap) × (q' : BucketQueue) × (cs : Buckets) × (run ≡ some (q', g))
    × Tracks node g q' cs
    × Arrives p bs cs
    × (q'.n_buckets ≡ q.n_buckets)

module _ (node : Ptr → Bool) (p : ℕ) where
  load_event_new :
      (h g : Heap) (q q' : BucketQueue) (e : Event)
      → is_live h e.node ≡ true
      → h.prev e.node ≡ null
      → BucketQueue.add q e.node e.priority h ≡ some ((success, q'), g)
      → load_event q e h ≡ some (q', g)
  unfolding load_event
  load_event_new h g q q' e l o run = rw (◌>>=◌, l, o, run) refl

  load_event_queued :
      (h : Heap) (q : BucketQueue) (e : Event)
      → is_live h e.node ≡ true
      → (h.prev e.node == null) ≡ false
      → load_event q e h ≡ some (q, h)
  unfolding load_event
  load_event_queued h q e l o = rw (◌>>=◌, l, o) refl

  pub load_event-Loads :
      (h : Heap) (q : BucketQueue) (bs : Buckets) (e : Event)
      → Tracks node h q bs
      → Known node p q.n_buckets e
      → Loads node p h q bs (load_event q e h)
  load_event-Loads h q bs e t k = elim (t.place e.node k.marked) [
    | inl (o, far) ↦
        let live = t.live e.node k.marked in
        let (g, q', run, held, eb, en, same) =
          add-Holds h q bs e.node e.priority t.holds k.range live far in
        (
          g,
          q',
          put_last bs e.priority e.node,
          load_event_new h g q q' e live o run,
          Tracks-add node h q bs t g q' e.node e.priority k.range far held eb en same,
          came e.priority e.node k.above none_came,
          en,
        )
    | inr i ↦ (
      h,
      q,
      bs,
      load_event_queued h q e (t.live e.node k.marked) (Queued-prev node h q bs t e.node i),
      t,
      none_came,
      refl,
    )
  ]
