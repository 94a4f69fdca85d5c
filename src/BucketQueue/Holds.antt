-- ===== src/BucketQueue/Holds.antt =====
-- What a bucket queue stands for: a list of items for each priority, first in, first out.
use my_repo.Base.{
  ℕ, zero, suc, ◌+◌, ◌%◌, ◌≤◌, ◌<◌, ◌≡◌, ◌≢◌, refl, true, false, List, [], ◌∷◌, ◌++◌, append_assoc,
  arith, ◌==◌, if◌then◌else◌, has, Apart, length, ap, ◌∙◌, sym, ==_self, ==_ne, Apart-symm,
}
use mathlib.Core.Path.{◌≡⟨◌⟩◌, ◌∎, ap₂}
use native.Mathlib.Decide.{ℕ_discrete}
use my_repo.MkList.{Ptr, Heap}
use my_repo.MkList.Ring.{Ring, SameOutside, Ring-frame}
use my_repo.BucketQueue.{BucketQueue, size_mod}

-- The items of each priority.
abbrev pub Buckets : Type 0
Buckets = ℕ → List Ptr

abbrev pub update : Buckets → ℕ → List Ptr → Buckets
update bs p xs i = if i == p then xs else bs i

-- All items of the `k` priorities from `i` on, in the order of service.
abbrev pub contents : Buckets → ℕ → ℕ → List Ptr
contents bs i zero = []
contents bs i (suc k) = bs i ++ contents bs (suc i) k

-- The lists are well formed and share no node, and those below `top` are empty.
pub record Shape (h : Heap) (q : BucketQueue) (bs : Buckets) : Type 0 where
  pub rings : (i : ℕ) → i < q.n_buckets → Ring h (q.buckets + i) (bs i)
  pub apart :
      (i j : ℕ)
      → i < q.n_buckets
      → j < q.n_buckets
      → i ≢ j
      → Apart ((q.buckets + i) ∷ bs i) ((q.buckets + j) ∷ bs j)
  pub below : (i : ℕ) → i < q.n_buckets → q.buckets + i < q.top → bs i ≡ []
  pub low : q.buckets ≤ q.top
  pub high : q.top ≤ q.buckets + q.n_buckets

-- Moreover the counter is the number of items.
pub record Holds (h : Heap) (q : BucketQueue) (bs : Buckets) : Type 0 where
  pub shape : Shape h q bs
  pub open shape use *
  pub count : q.n_items ≡ length (contents bs 0 q.n_buckets) % size_mod

-- Contents depend on the buckets in range only.
pub contents-ext :
    (bs cs : Buckets) (i k : ℕ)
    → ((j : ℕ) → i ≤ j → j < i + k → bs j ≡ cs j)
    → contents bs i k ≡ contents cs i k
contents-ext bs cs i zero e = refl
contents-ext bs cs i (suc k) e = rw (
  e i (omega arith) (omega arith),
  contents-ext bs cs (suc i) k (λ j l u. e j (omega arith) (omega arith)),
)

pub contents_empty :
    (bs : Buckets) (i k : ℕ) → ((j : ℕ) → i ≤ j → j < i + k → bs j ≡ []) → contents bs i k ≡ []
contents_empty bs i zero e = refl
contents_empty bs i (suc k) e =
    rw (e i (omega arith) (omega arith))
      (contents_empty bs (suc i) k (λ j l u. e j (omega arith) (omega arith)))

-- The order of service, cut behind the first `k` priorities.
pub contents-append :
    (bs : Buckets) (i k m : ℕ) → contents bs i (k + m) ≡ contents bs i k ++ contents bs (i + k) m
contents-append bs i zero m =
    let e : 0 + m ≡ m = omega arith in
    let f : i ≡ i + 0 = omega arith in ap (contents bs i) e ∙ ap (λ j. contents bs j m) f
contents-append bs i (suc k) m =
    let e : suc k + m ≡ suc (k + m) = omega arith in
    let f : suc i + k ≡ i + suc k = omega arith in
    contents bs i (suc k + m)
    ≡⟨ ap (contents bs i) e ⟩ bs i ++ contents bs (suc i) (k + m)
    ≡⟨ ap (λ l. bs i ++ l) (contents-append bs (suc i) k m) ⟩
      bs i ++ (contents bs (suc i) k ++ contents bs (suc i + k) m)
    ≡⟨ sym (append_assoc (bs i) _ _) ⟩ (bs i ++ contents bs (suc i) k) ++ contents bs (suc i + k) m
    ≡⟨ ap (λ j. (bs i ++ contents bs (suc i) k) ++ contents bs j m) f ⟩
      (bs i ++ contents bs (suc i) k) ++ contents bs (i + suc k) m ∎

-- Around one priority: what is served before it, its own items, and what is served after.
pub contents-split :
    (bs : Buckets) (p m : ℕ)
    → contents bs 0 (p + suc m) ≡ contents bs 0 p ++ (bs p ++ contents bs (suc p) m)
contents-split bs p m =
    let e : 0 + p ≡ p = omega arith in
    contents-append bs 0 p (suc m) ∙ ap (λ j. contents bs 0 p ++ (bs j ++ contents bs (suc j) m)) e

-- An update of one bucket changes only its own part.
pub contents-update :
    (bs : Buckets) (p m : ℕ) (xs : List Ptr)
    → contents (update bs p xs) 0 (p + suc m) ≡ contents bs 0 p ++ (xs ++ contents bs (suc p) m)
contents-update bs p m xs =
    let here : update bs p xs p ≡ xs = ground arith in
    contents-split (update bs p xs) p m
    ∙ ap₂ (λ l r. l ++ (update bs p xs p ++ r))
        (contents-ext (update bs p xs) bs 0 p (λ j l u. ground arith))
        (contents-ext (update bs p xs) bs (suc p) m (λ j l u. ground arith))
    ∙ ap (λ l. contents bs 0 p ++ (l ++ contents bs (suc p) m)) here

-- One bucket of a queue changes with its list, the others stay as they are.
pub update-rings :
    (n base p : ℕ) (h g : Heap) (bs : Buckets) (xs fs : List Ptr)
    → ((i : ℕ) → i < n → Ring h (base + i) (bs i))
    → Ring g (base + p) xs
    → SameOutside fs h g
    → ((i : ℕ) → i < n → i ≢ p → (c : Ptr) → has c ((base + i) ∷ bs i) ≡ true → has c fs ≡ false)
    → (i : ℕ) → i < n
    → Ring g (base + i) (update bs p xs i)
update-rings n base p h g bs xs fs rings r same out i l = elim (ℕ_discrete i p) [
  | yes e ↦ rw (e, ==_self p) r
  | no ne ↦ rw (==_ne i p ne) (Ring-frame fs h g (base + i) (bs i) (rings i l) same (out i l ne))
]

pub update-Apart :
    (n base p : ℕ) (bs : Buckets) (xs : List Ptr)
    → ((i j : ℕ) → i < n → j < n → i ≢ j → Apart ((base + i) ∷ bs i) ((base + j) ∷ bs j))
    → ((i : ℕ) → i < n → i ≢ p → Apart ((base + i) ∷ bs i) ((base + p) ∷ xs))
    → (i j : ℕ) → i < n
    → j < n
    → i ≢ j
    → Apart ((base + i) ∷ update bs p xs i) ((base + j) ∷ update bs p xs j)
update-Apart n base p bs xs apart new i j li lj ne = elim (ℕ_discrete i p) [
  | yes e ↦
      rw (e, ==_self p, ==_ne j p (λ f. ne (e ∙ sym f)))
        (Apart-symm ((base + j) ∷ bs j) ((base + p) ∷ xs) (new j lj (λ f. ne (e ∙ sym f))))
  | no other ↦ elim (ℕ_discrete j p) [
    | yes e ↦ rw (e, ==_self p, ==_ne i p other) (new i li other)
    | no other' ↦ rw (==_ne i p other, ==_ne j p other') (apart i j li lj ne)
  ]
]
