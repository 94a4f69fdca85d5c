-- ===== src/BucketQueue/Seek.antt =====
-- `flb_bucket_queue_seek`: the loop ends, and `top` stands at the first bucket with an item.
use my_repo.Base.{
  ℕ, zero, suc, ◌+◌, ◌-◌, ◌≤◌, ◌<◌, ◌≡◌, refl, ◌⊎◌, inl, inr, some, List, [], ◌∷◌, arith, ==_ne, ap,
  ◌∙◌, subst,
}
use native.Mathlib.Decide.{ℕ_discrete, dec_lt}
use my_repo.MkList.{Ptr, Heap, ◌>>=◌, success, failure}
use my_repo.MkList
use my_repo.MkList.Ring.{Ring}
use my_repo.MkList.Add.{is_empty_nil, is_empty_cons}
use my_repo.BucketQueue.{BucketQueue, seek_loop, seek}
use my_repo.BucketQueue.Holds.{Buckets, Shape}

-- The bucket `j` is the first one with an item, or there is none and `j` is past the last bucket.
pub record Found (n : ℕ) (bs : Buckets) (j : ℕ) : Type 0 where
  pub within : j ≤ n
  pub before : (i : ℕ) → i < j → bs i ≡ []
  pub here : (j ≡ n) ⊎ ((x : Ptr) × (xs : List Ptr) × (j < n) × (bs j ≡ x ∷ xs))

abbrev pub at : BucketQueue → ℕ → BucketQueue
at q j = record q { top = q.buckets + j }

List-cases : (xs : List Ptr) → (xs ≡ []) ⊎ ((x : Ptr) × (ys : List Ptr) × (xs ≡ x ∷ ys))
List-cases [] = inl refl
List-cases (x ∷ xs) = inr (x, xs, refl)

module _ (h : Heap) (bs : Buckets) where
  loop_end :
      (fuel : ℕ) (q : BucketQueue)
      → seek_loop (suc fuel) (at q q.n_buckets) h ≡ some (at q q.n_buckets, h)
  unfolding seek_loop
  loop_end fuel q = ground arith

  loop_stop :
      (fuel : ℕ) (q : BucketQueue) (k : ℕ)
      → k < q.n_buckets
      → MkList.is_empty (q.buckets + k) h ≡ some (failure, h)
      → seek_loop (suc fuel) (at q k) h ≡ some (at q k, h)
  unfolding seek_loop
  loop_stop fuel q k l e =
      rw (==_ne (q.buckets + k) (q.buckets + q.n_buckets) (omega arith), ◌>>=◌, e)

  loop_on :
      (fuel : ℕ) (q : BucketQueue) (k : ℕ)
      → k < q.n_buckets
      → MkList.is_empty (q.buckets + k) h ≡ some (success, h)
      → seek_loop (suc fuel) (at q k) h ≡ seek_loop fuel (at q (k + 1)) h
  unfolding seek_loop
  loop_on fuel q k l e =
      rw (==_ne (q.buckets + k) (q.buckets + q.n_buckets) (omega arith), ◌>>=◌, e)
        (ap (λ t. seek_loop fuel (record q { top = t }) h) next)
    where
      next : q.buckets + k + 1 ≡ q.buckets + (k + 1)
      next = omega arith

  seek_loop-Found :
      (fuel k : ℕ) (q : BucketQueue)
      → ((i : ℕ) → i < q.n_buckets → Ring h (q.buckets + i) (bs i))
      → ((i : ℕ) → i < k → bs i ≡ [])
      → k ≤ q.n_buckets
      → q.n_buckets - k < fuel
      → (j : ℕ) × (seek_loop fuel (at q k) h ≡ some (at q j, h)) × Found q.n_buckets bs j
  seek_loop-Found zero k q rings before l f = absurd (omega arith)
  seek_loop-Found (suc fuel) k q rings before l f = elim (ℕ_discrete k q.n_buckets) [
    | yes e ↦ (
      q.n_buckets,
      rw e (loop_end fuel q),
      record { within = omega arith; before = λ i b. before i (omega arith); here = inl refl },
    )
    | no ne ↦ elim (List-cases (bs k)) [
      | inl none_here ↦
          let (j, run, found) =
            seek_loop-Found fuel (k + 1) q rings (step none_here) (omega arith) (omega arith) in
          (
            j,
            loop_on fuel q k (omega arith) (
                  is_empty_nil h (q.buckets + k)
                    (subst (Ring h (q.buckets + k)) none_here (rings k (omega arith))))
                ∙ run,
            found,
          )
      | inr (x, xs, e) ↦ (
        k,
        loop_stop fuel q k (omega arith) (
            is_empty_cons h (q.buckets + k) x xs
              (subst (Ring h (q.buckets + k)) e (rings k (omega arith)))),
        record { within = l; before = before; here = inr (x, xs, omega arith, e) },
      )
    ]
  ]
    where
      step : bs k ≡ [] → (i : ℕ) → i < k + 1 → bs i ≡ []
      step e i b = elim (ℕ_discrete i k) [
        | yes same ↦ rw same e
        | no other ↦ before i (omega arith)
      ]

-- `seek` ends, changes nothing but `top`, and finds the first bucket with an item.
pub seek-Found :
    (h : Heap) (q : BucketQueue) (bs : Buckets)
    → Shape h q bs
    → (j : ℕ) × (seek q h ≡ some (at q j, h)) × Found q.n_buckets bs j × Shape h (at q j) bs
unfolding seek
seek-Found h q bs s =
    let (j, run, found) =
      seek_loop-Found h bs (q.n_buckets + 1) (q.top - q.buckets) q s.rings
        (λ i b. s.below i (bound s.low s.high b) (below_top s.low b)) (omega arith) (omega arith) in
    (
      j,
      rw (← top_at) at run,
      found,
      record {
        rings = s.rings;
        apart = s.apart;
        below = λ i l b. found.before i (omega arith);
        low = omega arith;
        high = omega (arith, found.within);
      },
    )
  where
    bound :
        {i : ℕ}
        → q.buckets ≤ q.top
        → q.top ≤ q.buckets + q.n_buckets
        → i < q.top - q.buckets
        → i < q.n_buckets
    bound lo hi b = omega arith

    below_top : {i : ℕ} → q.buckets ≤ q.top → i < q.top - q.buckets → q.buckets + i < q.top
    below_top lo b = omega arith

    top_at : q.top ≡ q.buckets + (q.top - q.buckets)
    top_at = omega arith

-- There is only one such bucket.
pub Found-unique : (n : ℕ) (bs : Buckets) (j k : ℕ) → Found n bs j → Found n bs k → j ≡ k
Found-unique n bs j k f g = elim (dec_lt j k) [
  | yes l ↦ absurd (clash j k f g l)
  | no nl ↦ elim (dec_lt k j) [ yes l ↦ absurd (clash k j g f l) | no nl' ↦ omega arith ]
]
  where
    clash : (a b : ℕ) → Found n bs a → Found n bs b → a < b → ⊥
    clash a b f g l = ground (arith, f.here, f.within, g.within, g.before a)
