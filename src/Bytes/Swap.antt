-- ===== src/Bytes/Swap.antt =====
-- What the three byte swaps have in common.
use my_repo.Base.{
  ℕ, zero, suc, ◌+◌, ◌*◌, ◌/◌, ◌%◌, ◌^◌, ◌<◌, ◌≡◌, refl, sym, ap, ◌∙◌, true, List, [], ◌∷◌, arith,
  length, has, has-reverse, length-reverse, subst,
}
use mathlib.Core.List.{reverse, reverse-reverse}
use native.Mathlib.Nat.{pow-suc}
use my_repo.Bytes.{to_raw, of_raw, bswap_16, bswap_32, bswap_64}

to_raw-of_raw :
    (bs : List ℕ) → ((b : ℕ) → has b bs ≡ true → b < 256) → to_raw (length bs) (of_raw bs) ≡ bs
to_raw-of_raw [] small = refl
to_raw-of_raw (b ∷ bs) small =
    let l : b < 256 = small b (ground arith) in
    let low : (b + of_raw bs * 256) % 256 ≡ b = omega arith in
    let high : (b + of_raw bs * 256) / 256 ≡ of_raw bs = omega arith in
    rw (low, high, to_raw-of_raw bs (λ c i. small c (ground arith))) refl

pub of_raw-to_raw : (n v : ℕ) → v < 256 ^ n → of_raw (to_raw n v) ≡ v
of_raw-to_raw zero v l = omega arith
of_raw-to_raw (suc n) v l =
    let l' : v / 256 < 256 ^ n = omega (arith, pow-suc 256 n) in
    rw (of_raw-to_raw n (v / 256) l') (omega arith)

to_raw_small : (n v b : ℕ) → has b (to_raw n v) ≡ true → b < 256
to_raw_small zero v b i = absurd cc
to_raw_small (suc n) v b i =
    let l : v % 256 < 256 = omega arith in ground (arith, to_raw_small n (v / 256) b)

length-to_raw : (n v : ℕ) → length (to_raw n v) ≡ n
length-to_raw zero v = refl
length-to_raw (suc n) v = ap suc (length-to_raw n (v / 256))

of_raw_bound : (bs : List ℕ) → ((b : ℕ) → has b bs ≡ true → b < 256) → of_raw bs < 256 ^ length bs
of_raw_bound [] small = omega arith
of_raw_bound (b ∷ bs) small =
    let l : b < 256 = small b (ground arith) in
    omega (arith, pow-suc 256 (length bs), of_raw_bound bs (λ c i. small c (ground arith)))

-- The three functions, for `n` bytes.
swap : (n v : ℕ) → ℕ
swap n v = of_raw (reverse (to_raw n v))

to_raw-swap : (n v : ℕ) → to_raw n (swap n v) ≡ reverse (to_raw n v)
unfolding swap
to_raw-swap n v =
    let size : length (reverse (to_raw n v)) ≡ n =
      length-reverse (to_raw n v) ∙ length-to_raw n v in
    subst (λ k. to_raw k (of_raw (reverse (to_raw n v))) ≡ reverse (to_raw n v)) size
      (to_raw-of_raw (reverse (to_raw n v))
        (λ b i. to_raw_small n v b (sym (has-reverse b (to_raw n v)) ∙ i)))

swap_twice : (n v : ℕ) → v < 256 ^ n → swap n (swap n v) ≡ v
unfolding swap
swap_twice n v l =
    ap (λ bs. of_raw (reverse bs)) (to_raw-swap n v)
    ∙ ap of_raw (reverse-reverse (to_raw n v))
    ∙ of_raw-to_raw n v l

swap_16 : (v : ℕ) → bswap_16 v ≡ swap 2 v
unfolding bswap_16 swap
swap_16 v = refl

swap_32 : (v : ℕ) → bswap_32 v ≡ swap 4 v
unfolding bswap_32 swap
swap_32 v = refl

swap_64 : (v : ℕ) → bswap_64 v ≡ swap 8 v
unfolding bswap_64 swap
swap_64 v = refl

-- Each of the three swaps, applied twice to a value of its width, gives the value back.
pub bswap_twice :
    (a b c : ℕ)
    → a < 2 ^ 16
    → b < 2 ^ 32
    → c < 2 ^ 64
    → (bswap_16 (bswap_16 a) ≡ a) × (bswap_32 (bswap_32 b) ≡ b) × (bswap_64 (bswap_64 c) ≡ c)
bswap_twice a b c la lb lc = (
  rw (swap_16 a, swap_16 (swap 2 a)) (swap_twice 2 a la),
  rw (swap_32 b, swap_32 (swap 4 b)) (swap_twice 4 b lb),
  rw (swap_64 c, swap_64 (swap 8 c)) (swap_twice 8 c lc),
)

-- The bytes of a swapped value, for each of the three widths, are the bytes of the value in reverse
-- order.
pub to_raw-bswap :
    (v : ℕ)
    → (to_raw 8 (bswap_64 v) ≡ reverse (to_raw 8 v))
      × (to_raw 4 (bswap_32 v) ≡ reverse (to_raw 4 v))
      × (to_raw 2 (bswap_16 v) ≡ reverse (to_raw 2 v))
to_raw-bswap v = (
  rw (swap_64 v) (to_raw-swap 8 v),
  rw (swap_32 v) (to_raw-swap 4 v),
  rw (swap_16 v) (to_raw-swap 2 v),
)
