-- ===== src/MkList/Remove.antt =====
-- `mk_list_del`: removal of an entry, and what a second removal of it does.
use my_repo.Base.{
  ◌≡◌, refl, subst, sym, true, none, some, List, [], ◌∷◌, ◌++◌, append_assoc, append-nil, arith,
  ◌==◌, has-append, Distinct-append_inv, if◌then◌else◌,
}
use my_repo.MkList.{Ptr, null, Heap, is_live, put, del, entry_orphan, success, failure}
use my_repo.MkList.Chain.{first, last, Chain-retarget, Chain-cut, has-last, last-rotate, has-first}
use my_repo.MkList.Ring.{Ring, SameOutside, Ring-rotate, next-inner, prev-inner, live-inner}

-- `g` is `h` with `x` taken out from between `p` and `q`, and its fields set to NULL.
pub record Removed (x p q : Ptr) (h g : Heap) : Type 0 where
  pub live : (c : Ptr) → g.live c ≡ h.live c
  pub next : (c : Ptr) → g.next c ≡ (if c == x then null else if c == p then q else h.next c)
  pub prev : (c : Ptr) → g.prev c ≡ (if c == x then null else if c == q then p else h.prev c)

unlinked : Heap → (x p q : Ptr) → Heap
unlinked h x p q = record h {
  next = put (put h.next p q) x null;
  prev = put (put h.prev q p) x null;
}

unlinked-Removed : (h : Heap) (x p q : Ptr) → Removed x p q h (unlinked h x p q)
unfolding unlinked
unlinked-Removed h x p q = record { live = λ c. refl; next = λ c. refl; prev = λ c. refl }

Removed-SameOutside :
    (h g : Heap) (x p q : Ptr) → Removed x p q h g → SameOutside (x ∷ p ∷ q ∷ []) h g
Removed-SameOutside h g x p q r = record {
  live = r.live;
  next = λ c o. ground (arith, r.next c);
  prev = λ c o. ground (arith, r.prev c);
}

Removed-last :
    (h g : Heap) (x q : Ptr) (zs : List Ptr)
    → Ring h q (zs ++ x ∷ [])
    → Removed x (last q zs) q h g
    → Ring g q zs
Removed-last h g x q zs r m =
    let (keep, _, apart) = Distinct-append_inv (q ∷ zs) (x ∷ []) r.distinct in
    record {
      chain =
          Chain-retarget h g q zs x q (Chain-cut h q zs x [] q r.chain).0 keep
            (record {
              next = λ c o ne. ground (arith, m.next c, apart c);
              prev = λ c o. ground (arith, m.prev c, apart c);
            })
            (ground (arith, m.next (last q zs), apart (last q zs), has-last q zs))
            (ground (arith, m.prev q, apart q));
      distinct = keep;
      live = λ c o. ground (arith, r.live c, m.live c, has-append c zs (x ∷ []));
    }

pub Removed-Ring :
    (h g : Heap) (x head : Ptr) (xs ys : List Ptr)
    → Ring h head (xs ++ x ∷ ys)
    → Removed x (last head xs) (first ys head) h g
    → Ring g head (xs ++ ys)
Removed-Ring h g x head xs [] r m =
    subst (Ring g head) (sym (append-nil xs)) (Removed-last h g x head xs r m)
Removed-Ring h g x head xs (y ∷ ys) r m = Ring-rotate g y ys head xs (
    Removed-last h g x y (ys ++ head ∷ xs)
      (subst (Ring h y) (sym (append_assoc ys (head ∷ xs) (x ∷ []))) (
        Ring-rotate h head (xs ++ x ∷ []) y ys
          (subst (Ring h head) (sym (append_assoc xs (x ∷ []) (y ∷ ys))) r)))
      (subst (λ p. Removed x p y h g) (sym (last-rotate y ys head xs)) m))

module _ (h : Heap) (head : Ptr) (xs : List Ptr) (x : Ptr) (ys : List Ptr)
    (r : Ring h head (xs ++ x ∷ ys)) where
  -- For an entry of a well-formed list `mk_list_del` returns, takes it out, sets its two fields to
  -- NULL, keeps the order of the others, and writes only it and its two neighbours.
  pub del_lem :
      (g : Heap) × (del x h ≡ some (tt, g))
      × Ring g head (xs ++ ys)
      × (g.next x ≡ null)
      × (g.prev x ≡ null)
      × SameOutside (x ∷ last head xs ∷ first ys head ∷ []) h g
  del_lem = (
    unlinked h x (last head xs) (first ys head),
    run,
    Removed-Ring h _ x head xs ys r (unlinked-Removed h x _ _),
    unfold unlinked in ground arith,
    unfold unlinked in ground arith,
    Removed-SameOutside h _ x _ _ (unlinked-Removed h x _ _),
  )
    where
      run : del x h ≡ some (tt, unlinked h x (last head xs) (first ys head))
      run =
          unfold del unlinked in
          ground (
            arith,
            live-inner h head xs x ys r,
            next-inner h head xs x ys r,
            prev-inner h head xs x ys r,
            r.live (last head xs),
            r.live (first ys head),
            has-last head xs,
            has-first ys head,
            has-append (last head xs) xs (x ∷ ys),
            has-append (first ys head) xs (x ∷ ys),
          )

-- For a node whose two fields are NULL, as `mk_list_del` leaves it, `mk_list_del` writes through
-- NULL.
pub del-orphan : (h : Heap) (x : Ptr) → h.next x ≡ null → h.prev x ≡ null → del x h ≡ none
unfolding del
del-orphan h x n p = ground arith

-- `mk_list_entry_orphan` and `mk_list_is_set` tell such an entry from a linked one.
pub entry_orphan-entry :
    (h : Heap) (head : Ptr) (xs : List Ptr) (x : Ptr) (ys : List Ptr)
    → Ring h head (xs ++ x ∷ ys)
    → entry_orphan x h ≡ some (success, h)
unfolding entry_orphan
entry_orphan-entry h head xs x ys r = ground (
  arith,
  live-inner h head xs x ys r,
  next-inner h head xs x ys r,
  prev-inner h head xs x ys r,
  r.live (last head xs),
  r.live (first ys head),
  has-last head xs,
  has-first ys head,
  has-append (last head xs) xs (x ∷ ys),
  has-append (first ys head) xs (x ∷ ys),
)

pub entry_orphan-orphan :
    (h : Heap) (x : Ptr)
    → is_live h x ≡ true
    → h.next x ≡ null
    → entry_orphan x h ≡ some (failure, h)
unfolding entry_orphan
entry_orphan-orphan h x l n = ground arith
