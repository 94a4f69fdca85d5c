-- ===== src/MkList/Chain.antt =====
-- Doubly linked chains of nodes: how they are cut, joined, closed at another end, and kept by
-- writes elsewhere.
use my_repo.Base.{◌≡◌, refl, true, false, List, [], ◌∷◌, ◌++◌, arith, ◌==◌, has, Distinct}
use native.Mathlib.Decide.{ℕ_discrete}
use my_repo.MkList.{Ptr, Heap}

-- From `a` the `next` fields lead through `xs` to `b`, and the `prev` fields back.
abbrev pub Chain : Heap → Ptr → List Ptr → Ptr → Type 0
Chain h a [] b = (h.next a ≡ b) × (h.prev b ≡ a)
Chain h a (x ∷ xs) b = (h.next a ≡ x) × (h.prev x ≡ a) × Chain h x xs b

-- The last node of `a ∷ xs`, and the first of `xs` followed by `b`.
abbrev pub last : Ptr → List Ptr → Ptr
last a [] = a
last a (x ∷ xs) = last x xs

abbrev pub first : List Ptr → Ptr → Ptr
first [] b = b
first (x ∷ xs) b = x

pub has-last : (a : Ptr) (xs : List Ptr) → has (last a xs) (a ∷ xs) ≡ true
has-last a [] = ground arith
has-last a (x ∷ xs) = ground (arith, has-last x xs)

pub last-append : (a : Ptr) (xs : List Ptr) (n : Ptr) → last a (xs ++ n ∷ []) ≡ n
last-append a [] n = refl
last-append a (x ∷ xs) n = last-append x xs n

pub last-rotate :
    (b : Ptr) (ys : List Ptr) (a : Ptr) (xs : List Ptr) → last b (ys ++ a ∷ xs) ≡ last a xs
last-rotate b [] a xs = refl
last-rotate b (y ∷ ys) a xs = last-rotate y ys a xs

pub has-first : (ys : List Ptr) (b : Ptr) → has (first ys b) (b ∷ ys) ≡ true
has-first [] b = ground arith
has-first (y ∷ ys) b = ground arith

pub next-first :
    (h : Heap) (a : Ptr) (xs : List Ptr) (b : Ptr) → Chain h a xs b → h.next a ≡ first xs b
next-first h a [] b c = c.0
next-first h a (x ∷ xs) b c = c.0

pub prev-last :
    (h : Heap) (a : Ptr) (xs : List Ptr) (b : Ptr) → Chain h a xs b → h.prev b ≡ last a xs
prev-last h a [] b c = c.1
prev-last h a (x ∷ xs) b c = prev-last h x xs b c.2

-- The node before an entry is the head or another entry.
pub has-prev :
    (h : Heap) (a : Ptr) (xs : List Ptr) (b c : Ptr)
    → Chain h a xs b
    → has c xs ≡ true
    → has (h.prev c) (a ∷ xs) ≡ true
has-prev h a [] b c k i = absurd cc
has-prev h a (x ∷ xs) b c (_, p, k) i = elim (ℕ_discrete c x) [
  | yes e ↦ rw (e, p) (ground arith)
  | no ne ↦ ground (arith, has-prev h x xs b c k (ground arith))
]

pub Chain-cut :
    (h : Heap) (a : Ptr) (xs : List Ptr) (c : Ptr) (ys : List Ptr) (b : Ptr)
    → Chain h a (xs ++ c ∷ ys) b
    → Chain h a xs c × Chain h c ys b
Chain-cut h a [] c ys b (n, p, r) = ((n, p), r)
Chain-cut h a (x ∷ xs) c ys b (n, p, r) = let (l, r') = Chain-cut h x xs c ys b r in ((n, p, l), r')

pub Chain-join :
    (h : Heap) (a : Ptr) (xs : List Ptr) (c : Ptr) (ys : List Ptr) (b : Ptr)
    → Chain h a xs c
    → Chain h c ys b
    → Chain h a (xs ++ c ∷ ys) b
Chain-join h a [] c ys b (n, p) r = (n, p, r)
Chain-join h a (x ∷ xs) c ys b (n, p, l) r = (n, p, Chain-join h x xs c ys b l r)

-- The fields of the chain's nodes that may not change when its end is moved.
pub record SameBut (h g : Heap) (a : Ptr) (xs : List Ptr) : Type 0 where
  pub next : (c : Ptr) → has c (a ∷ xs) ≡ true → (c == last a xs) ≡ false → g.next c ≡ h.next c
  pub prev : (c : Ptr) → has c xs ≡ true → g.prev c ≡ h.prev c

-- A chain whose last link is written anew ends at another node.
pub Chain-retarget :
    (h g : Heap) (a : Ptr) (xs : List Ptr) (b c : Ptr)
    → Chain h a xs b
    → Distinct (a ∷ xs)
    → SameBut h g a xs
    → g.next (last a xs) ≡ c
    → g.prev c ≡ last a xs
    → Chain g a xs c
Chain-retarget h g a [] b c l d s n p = (n, p)
Chain-retarget h g a (x ∷ xs) b c (na, px, l) (out, d) s n p = (
  ground (arith, s.next a, has-last x xs),
  ground (arith, s.prev x),
  Chain-retarget h g x xs b c l d
      (record { next = λ e i ne. ground (arith, s.next e); prev = λ e i. ground (arith, s.prev e) })
      n p,
)

-- A chain keeps under writes that spare its links.
pub Chain-frame :
    (h g : Heap) (a : Ptr) (xs : List Ptr) (b : Ptr)
    → Chain h a xs b
    → ((c : Ptr) → has c (a ∷ xs) ≡ true → g.next c ≡ h.next c)
    → ((c : Ptr) → has c (b ∷ xs) ≡ true → g.prev c ≡ h.prev c)
    → Chain g a xs b
Chain-frame h g a [] b (n, p) sn sp = (ground (arith, sn a), ground (arith, sp b))
Chain-frame h g a (x ∷ xs) b (n, p, l) sn sp = (
  ground (arith, sn a),
  ground (arith, sp x),
  Chain-frame h g x xs b l (λ c i. ground (arith, sn c)) (λ c i. ground (arith, sp c)),
)
