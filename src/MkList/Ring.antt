-- ===== src/MkList/Ring.antt =====
-- What a list of mk_list.h stands for: the head and the entries, distinct nodes in a closed chain.
use my_repo.Base.{
  ◌≡◌, true, false, List, ◌∷◌, ◌++◌, arith, has, Distinct, has-append, Distinct-swap,
}
use my_repo.MkList.{Ptr, Heap, is_live}
use my_repo.MkList.Chain.{
  Chain, first, last, next-first, prev-last, first, last, Chain-cut, Chain-join, Chain-frame,
  has-last,
}

-- `head` is the head of a list with the entries `xs`.
pub record Ring (h : Heap) (head : Ptr) (xs : List Ptr) : Type 0 where
  pub chain : Chain h head xs head
  pub distinct : Distinct (head ∷ xs)
  pub live : (c : Ptr) → has c (head ∷ xs) ≡ true → is_live h c ≡ true

-- `g` has the nodes of `h`, and their fields but for the nodes `fs`.
pub record SameOutside (fs : List Ptr) (h g : Heap) : Type 0 where
  pub live : (c : Ptr) → g.live c ≡ h.live c
  pub next : (c : Ptr) → has c fs ≡ false → g.next c ≡ h.next c
  pub prev : (c : Ptr) → has c fs ≡ false → g.prev c ≡ h.prev c

pub SameOutside-trans :
    (fs gs es : List Ptr) (h g e : Heap)
    → SameOutside fs h g
    → SameOutside gs g e
    → ((c : Ptr) → has c es ≡ false → (has c fs ≡ false) × (has c gs ≡ false))
    → SameOutside es h e
SameOutside-trans fs gs es h g e s t sub = record {
  live = λ c. ground (arith, s.live c, t.live c);
  next = λ c i. ground (arith, sub c i, s.next c, t.next c);
  prev = λ c i. ground (arith, sub c i, s.prev c, t.prev c);
}

-- A ring is the same list of nodes from any of its nodes on.
pub Ring-rotate :
    (h : Heap) (a : Ptr) (xs : List Ptr) (b : Ptr) (ys : List Ptr)
    → Ring h a (xs ++ b ∷ ys)
    → Ring h b (ys ++ a ∷ xs)
Ring-rotate h a xs b ys r =
    let (l, m) = Chain-cut h a xs b ys a r.chain in
    record {
      chain = Chain-join h b ys a xs b m l;
      distinct = Distinct-swap (a ∷ xs) (b ∷ ys) r.distinct;
      live = λ c i. ground (arith, r.live c, has-append c xs (b ∷ ys), has-append c ys (a ∷ xs));
    }

-- A list is untouched by writes to other nodes.
pub Ring-frame :
    (fs : List Ptr) (h g : Heap) (a : Ptr) (xs : List Ptr)
    → Ring h a xs
    → SameOutside fs h g
    → ((c : Ptr) → has c (a ∷ xs) ≡ true → has c fs ≡ false)
    → Ring g a xs
Ring-frame fs h g a xs r s apart = record {
  chain =
      Chain-frame h g a xs a r.chain (λ c i. s.next c (apart c i)) (λ c i. s.prev c (apart c i));
  distinct = r.distinct;
  live = λ c i. ground (arith, r.live c, s.live c);
}

module _ (h : Heap) (a : Ptr) (xs : List Ptr) (r : Ring h a xs) where
  pub next-head : h.next a ≡ first xs a
  next-head = next-first h a xs a r.chain

  pub prev-head : h.prev a ≡ last a xs
  prev-head = prev-last h a xs a r.chain

  pub live-head : is_live h a ≡ true
  live-head = r.live a (ground arith)

  pub live-last : is_live h (last a xs) ≡ true
  live-last = r.live (last a xs) (has-last a xs)

pub next-inner :
    (h : Heap) (head : Ptr) (xs : List Ptr) (p : Ptr) (ys : List Ptr)
    → Ring h head (xs ++ p ∷ ys)
    → h.next p ≡ first ys head
next-inner h head xs p ys r = next-first h p ys head (Chain-cut h head xs p ys head r.chain).1

pub prev-inner :
    (h : Heap) (head : Ptr) (xs : List Ptr) (p : Ptr) (ys : List Ptr)
    → Ring h head (xs ++ p ∷ ys)
    → h.prev p ≡ last head xs
prev-inner h head xs p ys r = prev-last h head xs p (Chain-cut h head xs p ys head r.chain).0

pub live-inner :
    (h : Heap) (head : Ptr) (xs : List Ptr) (p : Ptr) (ys : List Ptr)
    → Ring h head (xs ++ p ∷ ys)
    → is_live h p ≡ true
live-inner h head xs p ys r = r.live p (ground (arith, has-append p xs (p ∷ ys)))
