-- ===== src/EventLoop/Track.antt =====
-- The nodes of the events while the loop runs: each is in the queue, or it is an orphan.
use my_repo.Base.{
  ℕ, ◌+◌, ◌≤◌, ◌<◌, ◌≡◌, ◌≢◌, ◌∙◌, ◌⊎◌, inl, inr, Bool, true, false, List, [], ◌∷◌, arith, ◌==◌,
  has, has-append, ap, subst, sym, ==_self, ==_ne,
}
use native.Mathlib.Decide.{ℕ_discrete}
use my_repo.MkList.{Ptr, null, Heap, is_live}
use my_repo.MkList.Chain.{last, has-last, has-prev}
use my_repo.MkList.Ring.{Ring, SameOutside}
use my_repo.BucketQueue.{BucketQueue}
use my_repo.BucketQueue.Holds.{Buckets, Holds, update}
use my_repo.BucketQueue.Add.{put_last}
use my_repo.BucketQueue.Pop.{Pops}
use my_repo.BucketQueue.Serve.{Spares}
use my_repo.EventLoop.{Event}

abbrev pub Queued : BucketQueue → Buckets → Ptr → Type 0
Queued q bs c = (i : ℕ) × (i < q.n_buckets) × (has c (bs i) ≡ true)

abbrev pub Loose : Heap → BucketQueue → Buckets → Ptr → Type 0
Loose h q bs c =
    (h.prev c ≡ null) × ((i : ℕ) → i < q.n_buckets → has c ((q.buckets + i) ∷ bs i) ≡ false)

-- The queue is well formed, and each address that `node` marks is a node in it or an orphan.
pub record Tracks (node : Ptr → Bool) (h : Heap) (q : BucketQueue) (bs : Buckets) : Type 0 where
  pub holds : Holds h q bs
  pub open holds use *
  pub live : (c : Ptr) → node c ≡ true → is_live h c ≡ true
  pub place : (c : Ptr) → node c ≡ true → Loose h q bs c ⊎ Queued q bs c

-- An event with a marked node, and a priority from `p` to `n`.
pub record Known (node : Ptr → Bool) (p n : ℕ) (e : Event) : Type 0 where
  pub marked : node e.node ≡ true
  pub above : p ≤ e.priority
  pub range : e.priority < n

first_gone :
    (h : Heap) (a item : Ptr) (xs : List Ptr) → Ring h a (item ∷ xs) → has item (a ∷ xs) ≡ false
first_gone h a item xs r = ground (arith, r.distinct.0, r.distinct.1.0)

module _ (node : Ptr → Bool) (h : Heap) (q : BucketQueue) (bs : Buckets)
    (t : Tracks node h q bs) where
  -- A node goes last in its priority.
  pub Tracks-add :
      (g : Heap) (q' : BucketQueue) (item : Ptr) (p : ℕ)
      → p < q.n_buckets
      → ((i : ℕ) → i < q.n_buckets → has item ((q.buckets + i) ∷ bs i) ≡ false)
      → Holds g q' (put_last bs p item)
      → q'.buckets ≡ q.buckets
      → q'.n_buckets ≡ q.n_buckets
      → SameOutside (item ∷ last (q.buckets + p) (bs p) ∷ (q.buckets + p) ∷ []) h g
      → Tracks node g q' (put_last bs p item)
  Tracks-add g q' item p l fresh held eb en same = record {
    holds = held;
    live = λ c m. ground (arith, t.live c m, same.live c);
    place = λ c m. elim (ℕ_discrete c item) [
      | yes e ↦ inr (p, omega (arith, en), ground (arith, has-append c (bs p) (item ∷ [])))
      | no ne ↦ elim (t.place c m) [
        | inl (o, f) ↦ inl (
          ground (arith, same.prev c, f p l, has-last (q.buckets + p) (bs p)),
          λ i li. ground (arith, f i, f p l, en, eb, has-append c (bs p) (item ∷ [])),
        )
        | inr (i, li, f) ↦
            inr (i, omega (arith, en), ground (arith, has-append c (bs p) (item ∷ [])))
      ]
    ];
  }

  -- A node that waits in the queue has neighbours.
  pub Queued-prev : (c : Ptr) → Queued q bs c → (h.prev c == null) ≡ false
  Queued-prev c (i, l, f) =
      let r = t.rings i l in
      ground
        (arith, r.live (h.prev c), has-prev h (q.buckets + i) (bs i) (q.buckets + i) c r.chain f)

  left_gone :
      (j : ℕ) (item : Ptr) (xs : List Ptr)
      → j < q.n_buckets
      → bs j ≡ item ∷ xs
      → (i : ℕ) → i < q.n_buckets
      → has item ((q.buckets + i) ∷ update bs j xs i) ≡ false
  left_gone j item xs l e i li =
      let r : Ring h (q.buckets + j) (item ∷ xs) = subst (Ring h (q.buckets + j)) e (t.rings j l) in
      elim (ℕ_discrete i j) [
        | yes s ↦ rw (s, ==_self j) (first_gone h (q.buckets + j) item xs r)
        | no ne ↦ rw (==_ne i j ne) (
            t.apart j i l li (λ s. ne (sym s)) item
              (subst (λ ys. has item ((q.buckets + j) ∷ ys) ≡ true) (sym e) (ground arith)))
      ]

  still_out :
      (j : ℕ) (c item : Ptr) (xs : List Ptr)
      → bs j ≡ item ∷ xs
      → has c ((q.buckets + j) ∷ bs j) ≡ false
      → (i : ℕ) → has c ((q.buckets + i) ∷ bs i) ≡ false
      → has c ((q.buckets + i) ∷ update bs j xs i) ≡ false
  still_out j c item xs e out i far = elim (ℕ_discrete i j) [
    | yes s ↦
        rw (s, ==_self j) (first_out (subst (λ ys. has c ((q.buckets + j) ∷ ys) ≡ false) e out))
    | no ne ↦ rw (==_ne i j ne) far
  ]
    where
      first_out : has c ((q.buckets + j) ∷ item ∷ xs) ≡ false → has c ((q.buckets + j) ∷ xs) ≡ false
      first_out o = ground arith

  still_in :
      (j : ℕ) (c item : Ptr) (xs : List Ptr)
      → bs j ≡ item ∷ xs
      → c ≢ item
      → (i : ℕ) → has c (bs i) ≡ true
      → has c (update bs j xs i) ≡ true
  still_in j c item xs e ne i k = elim (ℕ_discrete i j) [
    | yes s ↦ rw (s, ==_self j) (tail_in (subst (λ ys. has c ys ≡ true) (ap bs s ∙ e) k))
    | no other ↦ rw (==_ne i j other) k
  ]
    where
      tail_in : has c (item ∷ xs) ≡ true → has c xs ≡ true
      tail_in o = ground arith

  -- What leaves the queue is an orphan; the others stay where they are.
  pub Tracks-pop :
      (g : Heap) (q' : BucketQueue) (item : Ptr) (cs : Buckets)
      → Holds g q' cs
      → Pops bs q.n_buckets item cs
      → Spares h g q q' bs item
      → Tracks node g q' cs
  Tracks-pop g q' item cs held (inl (none_left, e, f)) sp = record {
    holds = held;
    live = λ c m. ground (arith, t.live c m, sp.live c);
    place = λ c m. elim (t.place c m) [
      | inl (o, far) ↦ inl (
        ground (arith, (sp.fields c far).1),
        λ i li. rw (f, sp.buckets) (far i (omega (arith, sp.n_buckets))),
      )
      | inr (i, li, k) ↦ inr (i, omega (arith, sp.n_buckets), rw f k)
    ];
  }
  Tracks-pop g q' item cs held (inr (j, xs, l, before, e, f)) sp = record {
    holds = held;
    live = λ c m. ground (arith, t.live c m, sp.live c);
    place = λ c m. elim (ℕ_discrete c item) [
      | yes s ↦ inl (
        subst (λ z. g.prev z ≡ null) (sym s) (sp.orphan (ground (arith, t.live c m))),
        λ i li.
            rw (f, sp.buckets)
              (subst (λ z. has z ((q.buckets + i) ∷ update bs j xs i) ≡ false) (sym s)
                (left_gone j item xs l e i (omega (arith, sp.n_buckets)))),
      )
      | no ne ↦ elim (t.place c m) [
        | inl (o, far) ↦ inl (
          ground (arith, (sp.fields c far).1),
          λ i li.
              rw (f, sp.buckets)
                (let li' : i < q.n_buckets = omega (arith, sp.n_buckets) in
                  still_out j c item xs e (far j l) i (far i li')),
        )
        | inr (i, li, k) ↦
            inr (i, omega (arith, sp.n_buckets), rw f (still_in j c item xs e ne i k))
      ]
    ];
  }
