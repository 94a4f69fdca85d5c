-- ===== src/MkList/Drain.antt =====
-- `mk_list_foreach_safe` around `mk_list_del`, the idiom that empties a list.
use my_repo.Base.{
  ℕ, zero, suc, ◌<◌, ◌≡◌, refl, true, false, Option, some, List, [], ◌∷◌, arith, ◌==◌, has, length,
  ◌∙◌, Distinct,
}
use my_repo.MkList.{Ptr, null, Heap, is_live, del, foreach_safe, ◌>>=◌}
use my_repo.MkList.Chain.{first}
use my_repo.MkList.Ring.{Ring, SameOutside, live-head, next-inner, live-inner}
use my_repo.MkList.Remove.{del_lem}

-- The list is empty, its old entries are orphans, and no other node was written.
pub record Drained (h g : Heap) (head : Ptr) (xs : List Ptr) : Type 0 where
  pub empty : Ring g head []
  pub orphans : (c : Ptr) → has c xs ≡ true → (g.next c ≡ null) × (g.prev c ≡ null)
  pub same : SameOutside (head ∷ xs) h g

abbrev pub Drains : Heap → Option (Unit {0} × Heap) → Ptr → List Ptr → Type 0
Drains h run head xs = (g : Heap) × (run ≡ some (tt, g)) × Drained h g head xs

step :
    (fuel : ℕ) (h h' : Heap) (head x n n' : Ptr)
    → (x == head) ≡ false
    → del x h ≡ some (tt, h')
    → is_live h' n ≡ true
    → h'.next n ≡ n'
    → foreach_safe (suc fuel) del head x n h ≡ foreach_safe fuel del head n n' h'
unfolding foreach_safe
step fuel h h' head x n n' ne run l e = rw (ne, ◌>>=◌, run, l, e)

stop_at :
    (fuel : ℕ) (g : Heap) (head n : Ptr) → foreach_safe (suc fuel) del head head n g ≡ some (tt, g)
unfolding foreach_safe
stop_at fuel g head n = ground arith

drain_loop :
    (fuel : ℕ) (h : Heap) (head : Ptr) (x : Ptr) (xs : List Ptr)
    → Ring h head (x ∷ xs)
    → length (x ∷ xs) < fuel
    → Drains h (foreach_safe fuel del head x (first xs head) h) head (x ∷ xs)
drain_loop zero h head x xs r f = absurd (omega arith)
drain_loop (suc zero) h head x [] r f = absurd (omega arith)
drain_loop (suc (suc fuel)) h head x [] r f =
    let (g, run, ring, n, p, same) = del_lem h head [] x [] r in
    (
      g,
      step (suc fuel) h g head x head (g.next head) (ground (arith, r.distinct)) run
            (live-head g head [] ring) refl
          ∙ stop_at fuel g head (g.next head),
      record {
        empty = ring;
        orphans = λ c i. ground arith;
        same = record {
          live = same.live;
          next = λ c o. ground (arith, same.next c);
          prev = λ c o. ground (arith, same.prev c);
        };
      },
    )
drain_loop (suc fuel) h head x (y ∷ ys) r f =
    let (g, run, ring, n, p, same) = del_lem h head [] x (y ∷ ys) r in
    let (e, rest, d) = drain_loop fuel g head y ys ring (omega arith) in
    (
      e,
      step fuel h g head x y (first ys head) (ground (arith, r.distinct)) run
            (live-inner g head [] y ys ring) (next-inner g head [] y ys ring)
          ∙ rest,
      record {
        empty = d.empty;
        orphans = λ c i. orphaned g e c n p r.distinct d i;
        same = record {
          live = λ c. ground (arith, same.live c, d.same.live c);
          next = λ c o. ground (arith, same.next c, d.same.next c);
          prev = λ c o. ground (arith, same.prev c, d.same.prev c);
        };
      },
    )
  where
    orphaned :
        (g e : Heap) (c : Ptr)
        → g.next x ≡ null
        → g.prev x ≡ null
        → Distinct (head ∷ x ∷ y ∷ ys)
        → Drained g e head (y ∷ ys)
        → has c (x ∷ y ∷ ys) ≡ true
        → (e.next c ≡ null) × (e.prev c ≡ null)
    orphaned g e c n p dis d i = ground (arith, d.orphans c, d.same.next c, d.same.prev c)

-- For a well-formed list and more fuel than entries, deleting each entry on the way through
-- `mk_list_foreach_safe` ends, leaves the empty list and the two fields of each old entry NULL, and
-- writes no other node.
pub foreach_safe-del :
    (fuel : ℕ) (h : Heap) (head : Ptr) (xs : List Ptr)
    → Ring h head xs
    → length xs < fuel
    → Drains h (foreach_safe fuel del head (h.next head) (h.next (h.next head)) h) head xs
foreach_safe-del zero h head xs r f = absurd (omega arith)
foreach_safe-del (suc fuel) h head [] r f = (
  h,
  rw r.chain.0 (stop_at fuel h head (h.next head)),
  record {
    empty = r;
    orphans = λ c i. cc;
    same = record { live = λ c. refl; next = λ c o. refl; prev = λ c o. refl };
  },
)
foreach_safe-del (suc fuel) h head (x ∷ xs) r f =
    rw (r.chain.0, next-inner h head [] x xs r) (drain_loop (suc fuel) h head x xs r f)
