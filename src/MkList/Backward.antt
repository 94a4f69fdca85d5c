-- ===== src/MkList/Backward.antt =====
-- `mk_list_foreach_safe_r`, and the macros that name the two ends of a list. Backward loops are
-- forward ones over the store with `next` and `prev` exchanged.
use mathlib.Core.List.{reverse, reverse-append}
use my_repo.Base.{
  has-reverse, length-reverse, ℕ, zero, suc, ◌<◌, ◌≡◌, refl, Option, none, some, List, [], ◌∷◌,
  arith, ◌==◌, length, ◌∙◌, Distinct, Distinct-swap, if◌then◌else◌,
}
use native.Mathlib.Decide.{ℕ_discrete}
use my_repo.MkList.{
  Ptr, Heap, M, pure, get_next, get_prev, del_between, del, foreach_safe, ◌>>=◌, ◌>>◌,
}
use my_repo.MkList.Chain.{first, last, prev-last}
use my_repo.MkList.Ring.{Ring, live-head, next-head}
use my_repo.MkList.Walk.{flip, Chain-flip}
use my_repo.MkList.Drain.{Drained, Drains, foreach_safe-del}

unfoldable pub foreach_safe_r : ℕ → (Ptr → M (Unit {0})) → (head curr n : Ptr) → M (Unit {0})
foreach_safe_r zero body head curr n = λ _. none
foreach_safe_r (suc fuel) body head curr n =
    let rest = (do body curr; n' ← get_prev n; foreach_safe_r fuel body head n n') in
    if curr == head then pure tt else rest

-- `mk_list_entry_first` and `mk_list_entry_last`: the head itself for an empty list.
unfoldable pub entry_first : Ptr → M Ptr
entry_first ptr = get_next ptr

unfoldable pub entry_last : Ptr → M Ptr
entry_last ptr = get_prev ptr

abbrev flip_run : Option (Unit {0} × Heap) → Option (Unit {0} × Heap)
flip_run none = none
flip_run (some (u, g)) = some (u, flip g)

flip-del : (p : Ptr) (h : Heap) → del p (flip h) ≡ flip_run (del p h)
unfolding del del_between
flip-del p h = ground arith

-- Two runs one after the other, each the exchanged one of another.
flip_then :
    (k k' : M (Unit {0}))
    → ((g : Heap) → k' (flip g) ≡ flip_run (k g))
    → (m m' : M (Unit {0})) (h : Heap) → m' (flip h) ≡ flip_run (m h)
    → (m' >> k') (flip h) ≡ flip_run ((m >> k) h)
flip_then k k' same m m' h e = rw (◌>>◌, ◌>>=◌, e) (by_result (m h))
  where
    by_result :
        (r : Option (Unit {0} × Heap)) → ((λ _. flip_run r) >> k') h ≡ flip_run (((λ _. r) >> k) h)
    by_result none = refl
    by_result (some (u, g)) = same g

foreach_safe_r-flip :
    (fuel : ℕ) (head curr n : Ptr) (h : Heap)
    → foreach_safe_r fuel del head curr n (flip h) ≡ flip_run (foreach_safe fuel del head curr n h)
unfolding foreach_safe_r foreach_safe
foreach_safe_r-flip zero head curr n h = refl
foreach_safe_r-flip (suc fuel) head curr n h = elim (ℕ_discrete curr head) [
  | yes e ↦ ground arith
  | no ne ↦
      let step : (m : M (Unit {0})) → (if curr == head then pure tt else m) ≡ m =
        λ m. ground arith in
      rw (step, step)
        (flip_then (do n' ← get_next n; foreach_safe fuel del head n n')
          (do n' ← get_prev n; foreach_safe_r fuel del head n n')
          (λ g. ground (arith, foreach_safe_r-flip fuel head n (g.next n) g)) (del curr) (del curr)
          h (flip-del curr h))
]

Distinct-reverse : (xs : List ℕ) → Distinct xs → Distinct (reverse xs)
Distinct-reverse [] d = d
Distinct-reverse (x ∷ xs) (out, d) =
    rw (reverse-append (x ∷ []) xs) (
      Distinct-swap (x ∷ []) (reverse xs) (ground (arith, has-reverse x xs), Distinct-reverse xs d))

Ring-flip :
    (h : Heap) (head : Ptr) (xs : List Ptr) → Ring h head xs → Ring (flip h) head (reverse xs)
Ring-flip h head xs r = record {
  chain = Chain-flip h head xs head r.chain;
  distinct = (ground (arith, has-reverse head xs, r.distinct), Distinct-reverse xs r.distinct.1);
  live = λ c i. ground (arith, has-reverse c xs, r.live c);
}

Drained-flip :
    (h g : Heap) (head : Ptr) (xs : List Ptr)
    → Drained (flip h) g head (reverse xs)
    → Drained h (flip g) head xs
Drained-flip h g head xs d = record {
  empty = Ring-flip g head [] d.empty;
  orphans = λ c i. ground (arith, has-reverse c xs, d.orphans c);
  same = record {
    live = d.same.live;
    next = λ c o. ground (arith, has-reverse c xs, d.same.prev c);
    prev = λ c o. ground (arith, has-reverse c xs, d.same.next c);
  };
}

-- For a well-formed list and more fuel than entries, deleting each entry on the way through
-- `mk_list_foreach_safe_r` ends, leaves the empty list and the two fields of each old entry NULL,
-- and writes no other node.
pub foreach_safe_r-del :
    (fuel : ℕ) (h : Heap) (head : Ptr) (xs : List Ptr)
    → Ring h head xs
    → length xs < fuel
    → Drains h (foreach_safe_r fuel del head (h.prev head) (h.prev (h.prev head)) h) head xs
foreach_safe_r-del fuel h head xs r f =
    let (g, run, d) =
      foreach_safe-del fuel (flip h) head (reverse xs) (Ring-flip h head xs r)
        (omega (arith, length-reverse xs)) in
    (
      flip g,
      foreach_safe_r-flip fuel head (h.prev head) (h.prev (h.prev head)) (flip h) ∙ rw run refl,
      Drained-flip h g head xs d,
    )

-- For a well-formed list `mk_list_entry_first` and `mk_list_entry_last` return its first and its
-- last entry, and the head for the empty list.
pub entry_ends_lem :
    (h : Heap) (head : Ptr) (xs : List Ptr)
    → Ring h head xs
    → (entry_first head h ≡ some (first xs head, h)) × (entry_last head h ≡ some (last head xs, h))
unfolding entry_first entry_last
entry_ends_lem h head xs r = (
  ground (arith, live-head h head xs r, next-head h head xs r),
  ground (arith, live-head h head xs r, prev-last h head xs head r.chain),
)
