-- ===== src/MkList/Walk.antt =====
-- The loops over a list: `mk_list_size`, `mk_list_foreach` and `mk_list_foreach_r`. With more fuel
-- than there are entries each of them ends at the head.
use mathlib.Core.List.{reverse, reverse-append}
use my_repo.Base.{
  has-reverse, length-reverse, ℕ, zero, suc, ◌+◌, ◌<◌, ◌≡◌, refl, true, false, some, List, [], ◌∷◌,
  ◌++◌, arith, ◌==◌, has, has-append, length,
}
use my_repo.MkList.{
  Ptr, Heap, is_live, size_loop, size, foreach, foreach_r, entry_next, init, put, ◌>>=◌,
}
use my_repo.MkList.Chain.{Chain, first, Chain-join, next-first}
use my_repo.MkList.Ring.{Ring, next-head, live-head, next-inner, live-inner}

module _ (h : Heap) (head : Ptr) where
  foreach_step :
      (fuel : ℕ) (y : Ptr) (ys : List Ptr)
      → (y == head) ≡ false
      → is_live h y ≡ true
      → foreach fuel head (h.next y) h ≡ some (ys, h)
      → foreach (suc fuel) head y h ≡ some (y ∷ ys, h)
  unfolding foreach
  foreach_step fuel y ys ne l run = rw (ne, ◌>>=◌, l, run)

  foreach_r_step :
      (fuel : ℕ) (y : Ptr) (ys : List Ptr)
      → (y == head) ≡ false
      → is_live h y ≡ true
      → foreach_r fuel head (h.prev y) h ≡ some (ys, h)
      → foreach_r (suc fuel) head y h ≡ some (y ∷ ys, h)
  unfolding foreach_r
  foreach_r_step fuel y ys ne l run = rw (ne, ◌>>=◌, l, run)

  size_loop_lem :
      (fuel : ℕ) (p : Ptr) (ys : List Ptr) (ret : ℕ)
      → Chain h p ys head
      → has head ys ≡ false
      → ((c : Ptr) → has c ys ≡ true → is_live h c ≡ true)
      → length ys < fuel
      → size_loop fuel head (first ys head) ret h ≡ some (ret + length ys, h)
  unfolding size_loop
  size_loop_lem zero p ys ret c out l f = absurd (omega arith)
  size_loop_lem (suc fuel) p [] ret c out l f = ground arith
  size_loop_lem (suc fuel) p (y ∷ ys) ret (_, _, c) out l f = ground (
    arith,
    l y,
    next-first h y ys head c,
    size_loop_lem fuel y ys (ret + 1) c (ground arith) (λ e i. l e (ground arith)) (omega arith),
  )

  foreach_loop_lem :
      (fuel : ℕ) (p : Ptr) (ys : List Ptr)
      → Chain h p ys head
      → has head ys ≡ false
      → ((c : Ptr) → has c ys ≡ true → is_live h c ≡ true)
      → length ys < fuel
      → foreach fuel head (first ys head) h ≡ some (ys, h)
  unfolding foreach
  foreach_loop_lem zero p ys c out l f = absurd (omega arith)
  foreach_loop_lem (suc fuel) p [] c out l f = ground arith
  foreach_loop_lem (suc fuel) p (y ∷ ys) (_, _, c) out l f =
      foreach_step fuel y ys (ground arith) (l y (ground arith)) (
        rw (next-first h y ys head c)
          (foreach_loop_lem fuel y ys c (ground arith) (λ e i. l e (ground arith)) (omega arith)))

-- The same nodes with `next` and `prev` exchanged.
abbrev pub flip : Heap → Heap
flip h = record { live = h.live; next = h.prev; prev = h.next }

pub Chain-flip :
    (h : Heap) (a : Ptr) (xs : List Ptr) (b : Ptr)
    → Chain h a xs b
    → Chain (flip h) b (reverse xs) a
Chain-flip h a [] b (n, p) = (p, n)
Chain-flip h a (x ∷ xs) b (n, p, c) =
    rw (reverse-append (x ∷ []) xs)
      (Chain-join (flip h) b (reverse xs) x [] a (Chain-flip h x xs b c) (p, n))

foreach_r_loop_lem :
    (h : Heap) (head : Ptr) (fuel : ℕ) (p : Ptr) (ys : List Ptr)
    → Chain (flip h) p ys head
    → has head ys ≡ false
    → ((c : Ptr) → has c ys ≡ true → is_live h c ≡ true)
    → length ys < fuel
    → foreach_r fuel head (first ys head) h ≡ some (ys, h)
unfolding foreach_r
foreach_r_loop_lem h head zero p ys c out l f = absurd (omega arith)
foreach_r_loop_lem h head (suc fuel) p [] c out l f = ground arith
foreach_r_loop_lem h head (suc fuel) p (y ∷ ys) (_, _, c) out l f =
    foreach_r_step h head fuel y ys (ground arith) (l y (ground arith)) (
      rw (next-first (flip h) y ys head c) (
        foreach_r_loop_lem h head fuel y ys c (ground arith) (λ e i. l e (ground arith))
          (omega arith)))

module _ (h : Heap) (head : Ptr) (xs : List Ptr) (r : Ring h head xs) (fuel : ℕ)
    (f : length xs < fuel) where
  live-entry : (c : Ptr) → has c xs ≡ true → is_live h c ≡ true
  live-entry c i = r.live c (ground arith)

  -- For a well-formed list and more fuel than entries, `mk_list_size` returns the number of entries
  -- and changes nothing.
  pub size-length : size fuel head h ≡ some (length xs, h)
  unfolding size
  size-length = ground (
    arith,
    live-head h head xs r,
    next-head h head xs r,
    size_loop_lem h head fuel head xs 0 r.chain r.distinct.0 live-entry f,
  )

  -- For a well-formed list and more fuel than entries, `mk_list_foreach` ends and visits the
  -- entries in order, each once.
  pub foreach_lem : foreach fuel head (h.next head) h ≡ some (xs, h)
  foreach_lem =
      rw (next-head h head xs r)
        (foreach_loop_lem h head fuel head xs r.chain r.distinct.0 live-entry f)

  -- For a well-formed list and more fuel than entries, `mk_list_foreach_r` ends and visits the
  -- entries in the opposite order, each once.
  pub foreach_r-reverse : foreach_r fuel head (h.prev head) h ≡ some (reverse xs, h)
  foreach_r-reverse =
      rw (next-first (flip h) head (reverse xs) head (Chain-flip h head xs head r.chain)) (
        foreach_r_loop_lem h head fuel head (reverse xs) (Chain-flip h head xs head r.chain)
          (ground (arith, has-reverse head xs))
          (λ c i. live-entry c (ground (arith, has-reverse c xs)))
          (omega (arith, length-reverse xs)))

-- `mk_list_init` makes the empty list.
pub init-Ring :
    (h : Heap) (list : Ptr)
    → is_live h list ≡ true
    → (g : Heap) × (init list h ≡ some (tt, g)) × Ring g list []
unfolding init
init-Ring h list l = (
  record h { next = put h.next list list; prev = put h.prev list list },
  ground arith,
  record { chain = ground arith; distinct = (refl, tt); live = λ c i. ground arith },
)

-- For an entry of a well-formed list `mk_list_entry_next` returns the entry behind it, and the
-- first one for the last one.
pub entry_next-first :
    (h : Heap) (head : Ptr) (xs : List Ptr) (x : Ptr) (ys : List Ptr)
    → Ring h head (xs ++ x ∷ ys)
    → entry_next x head h ≡ some (first ys (first (xs ++ x ∷ ys) head), h)
unfolding entry_next
entry_next-first h head xs x [] r = ground (
  arith,
  live-inner h head xs x [] r,
  next-inner h head xs x [] r,
  live-head h head _ r,
  next-head h head _ r,
)
entry_next-first h head xs x (y ∷ ys) r = ground (
  arith,
  live-inner h head xs x (y ∷ ys) r,
  next-inner h head xs x (y ∷ ys) r,
  has-append head xs (x ∷ y ∷ ys),
)
