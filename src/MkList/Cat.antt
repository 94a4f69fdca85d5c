-- ===== src/MkList/Cat.antt =====
-- `mk_list_cat`: one list's entries put behind another's.
use my_repo.Base.{
  ◌≡◌, false, some, List, [], ◌∷◌, ◌++◌, append-nil, arith, ◌==◌, has-append, Distinct-append,
  Apart,
}
use my_repo.MkList.{Ptr, Heap, put, cat}
use my_repo.MkList.Chain.{last, Chain-retarget, Chain-join, has-last}
use my_repo.MkList.Ring.{Ring, next-head, prev-head, live-head, live-last}

-- The four writes, with `p` the last node of the first list, `f` the first one of the second and
-- `e` its last.
joined : Heap → (head p f e : Ptr) → Heap
joined h head p f e = record h {
  next = put (put h.next p f) e head;
  prev = put (put h.prev f p) head e;
}

module _ (h : Heap) (head list : Ptr) (xs : List Ptr) (r : Ring h head xs) where
  last-list :
      (ys : List Ptr)
      → Ring h list ys
      → Apart (head ∷ xs) (list ∷ ys)
      → (last head xs == list) ≡ false
  last-list ys s apart = ground (arith, apart (last head xs), has-last head xs)

  cat_nil :
      Ring h list []
      → Apart (head ∷ xs) (list ∷ [])
      → cat list head h ≡ some (tt, joined h head (last head xs) list (last head xs))
  unfolding cat joined
  cat_nil s apart = ground (
    arith,
    live-head h head xs r,
    prev-head h head xs r,
    live-last h head xs r,
    live-head h list [] s,
    next-head h list [] s,
    last-list [] s apart,
    apart head,
  )

  cat_cons :
      (y : Ptr) (ys : List Ptr)
      → Ring h list (y ∷ ys)
      → Apart (head ∷ xs) (list ∷ y ∷ ys)
      → cat list head h ≡ some (tt, joined h head (last head xs) y (last y ys))
  unfolding cat joined
  cat_cons y ys s apart = ground (
    arith,
    live-head h head xs r,
    prev-head h head xs r,
    live-last h head xs r,
    live-head h list (y ∷ ys) s,
    next-head h list (y ∷ ys) s,
    prev-head h list (y ∷ ys) s,
    live-last h list (y ∷ ys) s,
    s.live y,
    last-list (y ∷ ys) s apart,
  )

  joined-nil :
      Apart (head ∷ xs) (list ∷ [])
      → Ring (joined h head (last head xs) list (last head xs)) head xs
  unfolding joined
  joined-nil apart = record {
    chain =
        Chain-retarget h (joined h head (last head xs) list (last head xs)) head xs head head
          r.chain r.distinct
          (record {
            next = λ c o ne. ground (arith, apart c);
            prev = λ c o. ground (arith, apart c);
          })
          (ground arith) (ground arith);
    distinct = r.distinct;
    live = λ c o. ground (arith, r.live c);
  }

  joined-cons :
      (y : Ptr) (ys : List Ptr)
      → Ring h list (y ∷ ys)
      → Apart (head ∷ xs) (list ∷ y ∷ ys)
      → Ring (joined h head (last head xs) y (last y ys)) head (xs ++ y ∷ ys)
  unfolding joined
  joined-cons y ys s apart = record {
    chain =
        Chain-join (joined h head (last head xs) y (last y ys)) head xs y ys head
          (Chain-retarget h (joined h head (last head xs) y (last y ys)) head xs head y r.chain
            r.distinct
            (record {
              next = λ c o ne. ground (arith, apart c, has-last y ys);
              prev = λ c o. ground (arith, apart c);
            })
            (ground (arith, apart (last head xs), has-last head xs, has-last y ys))
            (ground (arith, apart head)))
          (Chain-retarget h (joined h head (last head xs) y (last y ys)) y ys list head s.chain.2
            s.distinct.1
            (record {
              next = λ c o ne. ground (arith, apart (last head xs), has-last head xs);
              prev = λ c o. ground (arith, apart head);
            })
            (ground arith) (ground arith));
    distinct =
        Distinct-append (head ∷ xs) (y ∷ ys) r.distinct s.distinct.1
          (λ c o. ground (arith, apart c));
    live = λ c o. ground (arith, r.live c, s.live c, has-append c xs (y ∷ ys));
  }

  -- For two well-formed lists that share no node, `mk_list_cat` returns and leaves the entries of
  -- the second behind those of the first, in order, also if one of them has none.
  pub cat-append :
      (ys : List Ptr)
      → Ring h list ys
      → Apart (head ∷ xs) (list ∷ ys)
      → (g : Heap) × (cat list head h ≡ some (tt, g)) × Ring g head (xs ++ ys)
  cat-append [] s apart = (
    joined h head (last head xs) list (last head xs),
    cat_nil s apart,
    rw append-nil (joined-nil apart),
  )
  cat-append (y ∷ ys) s apart =
      (joined h head (last head xs) y (last y ys), cat_cons y ys s apart, joined-cons y ys s apart)
