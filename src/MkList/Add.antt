-- ===== src/MkList/Add.antt =====
-- Insertion: the functions of mk_list.h that link a node in, against insertion into a sequence.
use my_repo.Base.{
  ◌≡◌, subst, sym, true, false, some, List, [], ◌∷◌, ◌++◌, append_assoc, append-nil, arith, ◌==◌,
  has, Distinct, has-append, Distinct-append_inv,
}
use my_repo.MkList.{
  Ptr, Heap, is_live, add_between, add, link_in, add_after, is_empty, add_before, append, prepend,
  success, failure,
}
use my_repo.MkList.Chain.{first, last, has-last, last-append, last-rotate}
use my_repo.MkList.Ring.{Ring, next-head, prev-head, live-head, next-inner, prev-inner, live-inner}
use my_repo.MkList.Insert.{PutsIn, add_between-PutsIn, link_in-PutsIn}

first-ne-last :
    (x : Ptr) (xs : List Ptr) (y : Ptr) (ys : List Ptr)
    → Distinct (x ∷ xs ++ y ∷ ys)
    → (last x (xs ++ y ∷ ys) == x) ≡ false
first-ne-last x xs y ys d =
    rw (last-rotate x xs y ys)
      (ground (arith, has-last y ys, has-append x xs (y ∷ ys), has-append (last y ys) xs (y ∷ ys)))

-- The last entry is not the first one where two entries stand side by side.
ends_differ :
    (head : Ptr) (xs : List Ptr) (p y : Ptr) (ys : List Ptr)
    → Distinct (xs ++ p ∷ y ∷ ys)
    → (last head (xs ++ p ∷ y ∷ ys) == first (xs ++ p ∷ y ∷ ys) head) ≡ false
ends_differ head [] p y ys d = first-ne-last p [] y ys d
ends_differ head (x ∷ xs) p y ys d = first-ne-last x xs p (y ∷ ys) d

module _ (h : Heap) (new head : Ptr) (ln : is_live h new ≡ true) where
  -- For a live node that is not in a well-formed list, `mk_list_add` returns, puts it behind all
  -- entries, and writes only it and its two neighbours.
  pub add-PutsIn :
      (xs : List Ptr)
      → Ring h head xs
      → has new (head ∷ xs) ≡ false
      → PutsIn h (add new head h) new head xs []
  add-PutsIn xs r out = rw run (
      add_between-PutsIn h new head xs [] (subst (Ring h head) (sym (append-nil xs)) r)
        (ground (arith, has-append new xs [])) ln)
    where
      run : add new head h ≡ add_between new (last head xs) head h
      run = unfold add in ground (arith, live-head h head xs r, prev-head h head xs r)

  -- For a live node that is not in a well-formed list, and an entry of the list,
  -- `mk_list_add_after` returns, puts the node behind that entry, and writes only it and its two
  -- neighbours.
  pub add_after-PutsIn :
      (xs : List Ptr) (p : Ptr) (ys : List Ptr)
      → Ring h head (xs ++ p ∷ ys)
      → has new (head ∷ xs ++ p ∷ ys) ≡ false
      → PutsIn h (add_after new p head h) new head (xs ++ p ∷ []) ys
  add_after-PutsIn xs p [] r out = rw run (add-PutsIn (xs ++ p ∷ []) r out)
    where
      run : add_after new p head h ≡ add new head h
      run =
          unfold add_after in
          ground (
            arith,
            live-head h head (xs ++ p ∷ []) r,
            prev-head h head (xs ++ p ∷ []) r,
            last-append head xs p,
          )
  add_after-PutsIn xs p (y ∷ ys) r out = rw run (
      link_in-PutsIn h new head (xs ++ p ∷ []) (y ∷ ys)
        (subst (Ring h head) (sym (append_assoc xs (p ∷ []) (y ∷ ys))) r)
        (ground (arith, append_assoc xs (p ∷ []) (y ∷ ys))) ln)
    where
      d : Distinct (p ∷ y ∷ ys)
      d = (Distinct-append_inv xs (p ∷ y ∷ ys) r.distinct.1).1

      run : add_after new p head h ≡ link_in new (last head (xs ++ p ∷ [])) y h
      run =
          unfold add_after in
          ground (
            arith,
            live-head h head _ r,
            prev-head h head _ r,
            next-head h head _ r,
            next-inner h head xs p (y ∷ ys) r,
            live-inner h head xs p (y ∷ ys) r,
            last-rotate head xs p (y ∷ ys),
            last-append head xs p,
            first-ne-last p [] y ys d,
            ends_differ head xs p y ys r.distinct.1,
          )

-- `mk_list_is_empty` tells the empty list (0) from the others (-1).
pub is_empty_nil : (h : Heap) (head : Ptr) → Ring h head [] → is_empty head h ≡ some (success, h)
unfolding is_empty
is_empty_nil h head r = ground (arith, live-head h head [] r, next-head h head [] r)

pub is_empty_cons :
    (h : Heap) (head x : Ptr) (xs : List Ptr)
    → Ring h head (x ∷ xs)
    → is_empty head h ≡ some (failure, h)
unfolding is_empty
is_empty_cons h head x xs r =
    ground (arith, live-head h head (x ∷ xs) r, next-head h head (x ∷ xs) r)

is_empty_inner :
    (h : Heap) (head : Ptr) (xs : List Ptr) (x : Ptr) (ys : List Ptr)
    → Ring h head (xs ++ x ∷ ys)
    → is_empty head h ≡ some (failure, h)
is_empty_inner h head [] x ys r = is_empty_cons h head x ys r
is_empty_inner h head (z ∷ xs) x ys r = is_empty_cons h head z (xs ++ x ∷ ys) r

module _ (h : Heap) (new head : Ptr) (ln : is_live h new ≡ true) where
  -- For a live node that is not in a well-formed list, and an entry of the list,
  -- `mk_list_add_before` returns, puts the node before that entry, and writes only it and its two
  -- neighbours.
  pub add_before-PutsIn :
      (xs : List Ptr) (q : Ptr) (ys : List Ptr)
      → Ring h head (xs ++ q ∷ ys)
      → has new (head ∷ xs ++ q ∷ ys) ≡ false
      → PutsIn h (add_before new q head h) new head xs (q ∷ ys)
  add_before-PutsIn xs q ys r out = rw run (link_in-PutsIn h new head xs (q ∷ ys) r out ln)
    where
      run : add_before new q head h ≡ link_in new (last head xs) q h
      run =
          unfold add_before in
          ground (
            arith,
            live-head h head _ r,
            is_empty_inner h head xs q ys r,
            live-inner h head xs q ys r,
            prev-inner h head xs q ys r,
            has-append q xs (q ∷ ys),
            has-append head xs (q ∷ ys),
          )

  -- Before the head itself means last.
  pub add_before-PutsIn_head :
      (xs : List Ptr)
      → Ring h head xs
      → has new (head ∷ xs) ≡ false
      → PutsIn h (add_before new head head h) new head xs []
  add_before-PutsIn_head xs r out = rw run (add-PutsIn h new head ln xs r out)
    where
      run : add_before new head head h ≡ add new head h
      run = by_cases xs r
        where
          by_cases : (zs : List Ptr) → Ring h head zs → add_before new head head h ≡ add new head h
          by_cases [] r =
              unfold add_before in ground (arith, is_empty_nil h head r, live-head h head [] r)
          by_cases (z ∷ zs) r =
              unfold add_before in
              ground (arith, is_empty_cons h head z zs r, live-head h head (z ∷ zs) r)

  -- For a live node that is not in a well-formed list, `mk_list_append` returns, puts it behind all
  -- entries, and writes only it and its two neighbours.
  pub append-PutsIn :
      (xs : List Ptr)
      → Ring h head xs
      → has new (head ∷ xs) ≡ false
      → PutsIn h (append new head h) new head xs []
  append-PutsIn [] r out = rw run (add_between-PutsIn h new head [] [] r out ln)
    where
      run : append new head h ≡ add_between new head head h
      run =
          unfold append in
          ground (arith, is_empty_nil h head r, live-head h head [] r, prev-head h head [] r)
  append-PutsIn (x ∷ xs) r out = rw run (add-PutsIn h new head ln (x ∷ xs) r out)
    where
      run : append new head h ≡ add new head h
      run =
          unfold append in ground (arith, is_empty_cons h head x xs r, live-head h head (x ∷ xs) r)

  -- For a live node that is not in a well-formed list, `mk_list_prepend` returns, puts it before
  -- all entries, and writes only it and its two neighbours.
  pub prepend-PutsIn :
      (xs : List Ptr)
      → Ring h head xs
      → has new (head ∷ xs) ≡ false
      → PutsIn h (prepend new head h) new head [] xs
  prepend-PutsIn [] r out = rw run (add_between-PutsIn h new head [] [] r out ln)
    where
      run : prepend new head h ≡ add_between new head head h
      run =
          unfold prepend in
          ground (arith, is_empty_nil h head r, live-head h head [] r, prev-head h head [] r)
  prepend-PutsIn (x ∷ xs) r out = rw run (add_before-PutsIn [] x xs r out)
    where
      run : prepend new head h ≡ add_before new x head h
      run =
          unfold prepend in
          ground (
            arith,
            is_empty_cons h head x xs r,
            live-head h head (x ∷ xs) r,
            next-head h head (x ∷ xs) r,
          )
