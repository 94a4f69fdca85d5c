-- ===== src/MkList/Insert.antt =====
-- A node linked in between two neighbours of a list, as `__mk_list_add` and the ends of
-- `mk_list_add_after` and `mk_list_add_before` do it.
use my_repo.Base.{
  ◌≡◌, refl, subst, sym, true, false, Option, some, List, [], ◌∷◌, ◌++◌, append_assoc, append-nil,
  arith, ◌==◌, has, has-append, Distinct-append, if◌then◌else◌,
}
use my_repo.MkList.{Ptr, Heap, is_live, put, add_between, link_in}
use my_repo.MkList.Chain.{first, last, Chain-retarget, Chain-join, has-last, last-rotate, has-first}
use my_repo.MkList.Ring.{Ring, SameOutside, Ring-rotate}

-- `g` is `h` with `n` linked in between `p` and `q`.
pub record Inserted (n p q : Ptr) (h g : Heap) : Type 0 where
  pub live : (c : Ptr) → g.live c ≡ h.live c
  pub next : (c : Ptr) → g.next c ≡ (if c == p then n else if c == n then q else h.next c)
  pub prev : (c : Ptr) → g.prev c ≡ (if c == n then p else if c == q then n else h.prev c)

module _ (h : Heap) (n p q : Ptr) where
  linked : Heap
  linked = record h { next = put (put h.next n q) p n; prev = put (put h.prev q n) n p }

  -- The writes of `link_in` come in another order.
  linked_in : Heap
  linked_in = record h { next = put (put h.next n q) p n; prev = put (put h.prev n p) q n }

  add_between_lem :
      is_live h n ≡ true
      → is_live h p ≡ true
      → is_live h q ≡ true
      → add_between n p q h ≡ some (tt, linked)
  unfolding add_between linked
  add_between_lem ln lp lq = ground arith

  linked-Inserted : Inserted n p q h linked
  unfolding linked
  linked-Inserted = record { live = λ c. refl; next = λ c. refl; prev = λ c. refl }

  link_in_lem :
      is_live h n ≡ true
      → is_live h p ≡ true
      → is_live h q ≡ true
      → link_in n p q h ≡ some (tt, linked_in)
  unfolding link_in linked_in
  link_in_lem ln lp lq = ground arith

  linked_in-Inserted : (n == q) ≡ false → Inserted n p q h linked_in
  unfolding linked_in
  linked_in-Inserted ne = record { live = λ c. refl; next = λ c. refl; prev = λ c. ground arith }

Inserted-SameOutside :
    {n p q : Ptr} {h g : Heap} → Inserted n p q h g → SameOutside (n ∷ p ∷ q ∷ []) h g
Inserted-SameOutside i = record {
  live = i.live;
  next = λ c o. ground (arith, i.next c);
  prev = λ c o. ground (arith, i.prev c);
}

-- Linking a node in between the last node and the first one puts it last.
Inserted-last :
    (h g : Heap) (n q : Ptr) (zs : List Ptr)
    → Ring h q zs
    → has n (q ∷ zs) ≡ false
    → is_live h n ≡ true
    → Inserted n (last q zs) q h g
    → Ring g q (zs ++ n ∷ [])
Inserted-last h g n q zs r out ln i = record {
  chain =
      Chain-join g q zs n [] q
        (Chain-retarget h g q zs q n r.chain r.distinct
          (record {
            next = λ c o ne. ground (arith, i.next c);
            prev = λ c o. ground (arith, i.prev c);
          })
          (ground (arith, i.next (last q zs))) (ground (arith, i.prev n)))
        (ground (arith, i.next n, has-last q zs), ground (arith, i.prev q));
  distinct = Distinct-append (q ∷ zs) (n ∷ []) r.distinct (refl, tt) (λ a o. ground arith);
  live = λ c o. ground (arith, r.live c, i.live c, has-append c zs (n ∷ []));
}

-- Linking a node in behind `xs` and before `ys`, wherever that is.
pub Inserted-Ring :
    (h g : Heap) (n a : Ptr) (xs ys : List Ptr)
    → Ring h a (xs ++ ys)
    → has n (a ∷ xs ++ ys) ≡ false
    → is_live h n ≡ true
    → Inserted n (last a xs) (first ys a) h g
    → Ring g a (xs ++ n ∷ ys)
Inserted-Ring h g n a xs [] r out ln i =
    Inserted-last h g n a xs (subst (Ring h a) (append-nil xs) r)
      (ground (arith, has-append n xs [])) ln i
Inserted-Ring h g n a xs (y ∷ ys) r out ln i =
    subst (Ring g a) (append_assoc xs (n ∷ []) (y ∷ ys)) (
      Ring-rotate g y ys a (xs ++ n ∷ []) (
        subst (Ring g y) (append_assoc ys (a ∷ xs) (n ∷ [])) (
          Inserted-last h g n y (ys ++ a ∷ xs) (Ring-rotate h a xs y ys r)
            (ground (arith, has-append n xs (y ∷ ys), has-append n ys (a ∷ xs))) ln
            (subst (λ p. Inserted n p y h g) (sym (last-rotate y ys a xs)) i))))

-- What the functions of this file have in common: they return, `new` stands between `xs` and `ys`,
-- and only `new` and its two neighbours are written.
abbrev pub PutsIn : Heap → Option (Unit {0} × Heap) → Ptr → Ptr → List Ptr → List Ptr → Type 0
PutsIn h run new head xs ys =
    (g : Heap) × (run ≡ some (tt, g))
    × Ring g head (xs ++ new ∷ ys)
    × SameOutside (new ∷ last head xs ∷ first ys head ∷ []) h g

module _ (h : Heap) (new head : Ptr) (xs ys : List Ptr) (r : Ring h head (xs ++ ys))
    (out : has new (head ∷ xs ++ ys) ≡ false) (ln : is_live h new ≡ true) where
  live-prev : is_live h (last head xs) ≡ true
  live-prev =
      r.live (last head xs) (ground (arith, has-last head xs, has-append (last head xs) xs ys))

  live-next : is_live h (first ys head) ≡ true
  live-next =
      r.live (first ys head) (ground (arith, has-first ys head, has-append (first ys head) xs ys))

  new-next : (new == first ys head) ≡ false
  new-next = ground (arith, has-first ys head, has-append new xs ys)

  pub add_between-PutsIn :
      PutsIn h (add_between new (last head xs) (first ys head) h) new head xs ys
  add_between-PutsIn = (
    linked h new (last head xs) (first ys head),
    add_between_lem h new (last head xs) (first ys head) ln live-prev live-next,
    Inserted-Ring h _ new head xs ys r out ln (linked-Inserted h new _ _),
    Inserted-SameOutside (linked-Inserted h new _ _),
  )

  pub link_in-PutsIn : PutsIn h (link_in new (last head xs) (first ys head) h) new head xs ys
  link_in-PutsIn = (
    linked_in h new (last head xs) (first ys head),
    link_in_lem h new (last head xs) (first ys head) ln live-prev live-next,
    Inserted-Ring h _ new head xs ys r out ln (linked_in-Inserted h new _ _ new-next),
    Inserted-SameOutside (linked_in-Inserted h new _ _ new-next),
  )
