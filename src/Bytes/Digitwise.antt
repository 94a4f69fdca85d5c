-- ===== src/Bytes/Digitwise.antt =====
-- The swap of four bytes and the operations that work digit by digit.
use my_repo.Base.{
  ℕ, zero, suc, ◌-◌, ◌/◌, ◌^◌, ◌<◌, ◌≡◌, refl, sym, ap, ◌∙◌, List, [], ◌∷◌, arith, digit, op_high,
  op_low, op_bound,
}
use mathlib.Core.List.{reverse}
use my_repo.Bytes.{to_raw, of_raw, bswap_32}
use my_repo.Bytes.Swap.{of_raw-to_raw, to_raw-bswap}

zip_bytes : (ℕ → ℕ → ℕ) → List ℕ → List ℕ → List ℕ
zip_bytes op (x ∷ xs) (y ∷ ys) = op x y ∷ zip_bytes op xs ys
zip_bytes op _ _ = []

pub bswap_32_bound : (v : ℕ) → bswap_32 v < 2 ^ 32
unfolding bswap_32
bswap_32_bound v = omega arith

pub reversed : (v : ℕ) → bswap_32 v ≡ of_raw (reverse (to_raw 4 v))
unfolding bswap_32
reversed v = refl

-- On a number below 2 ^ 32 the complement commutes with the swap.
pub bswap_32-complement : (v : ℕ) → v < 2 ^ 32 → bswap_32 (2 ^ 32 - 1 - v) ≡ 2 ^ 32 - 1 - bswap_32 v
unfolding bswap_32
bswap_32-complement v l = omega arith

module _ (op f : ℕ → ℕ → ℕ) (f-zero : f 0 0 ≡ 0)
    (digit-op : (k a b : ℕ) → digit k (op a b) ≡ f (digit k a) (digit k b)) where
  to_raw-op : (n a b : ℕ) → to_raw n (op a b) ≡ zip_bytes op (to_raw n a) (to_raw n b)
  unfolding zip_bytes
  to_raw-op zero a b = refl
  to_raw-op (suc n) a b =
      rw
        (
          op_low op f f-zero digit-op a b,
          op_high op f f-zero digit-op a b,
          to_raw-op n (a / 256) (b / 256),
        )
        refl

  pub bswap_32-op : (a b : ℕ) → bswap_32 (op a b) ≡ op (bswap_32 a) (bswap_32 b)
  unfolding zip_bytes
  bswap_32-op a b =
      reversed (op a b)
      ∙ ap (λ bs. of_raw (reverse bs)) (to_raw-op 4 a b)
      ∙ ap of_raw (sym both)
      ∙ of_raw-to_raw 4 (op (bswap_32 a) (bswap_32 b)) (
          op_bound op f f-zero digit-op 4 (bswap_32 a) (bswap_32 b) (bswap_32_bound a)
            (bswap_32_bound b))
    where
      zipped :
          zip_bytes op (reverse (to_raw 4 a)) (reverse (to_raw 4 b))
          ≡ reverse (zip_bytes op (to_raw 4 a) (to_raw 4 b))
      zipped = refl

      both :
          to_raw 4 (op (bswap_32 a) (bswap_32 b)) ≡ reverse (zip_bytes op (to_raw 4 a) (to_raw 4 b))
      both =
          to_raw-op 4 (bswap_32 a) (bswap_32 b)
          ∙ ap (λ bs. zip_bytes op bs (to_raw 4 (bswap_32 b))) (to_raw-bswap a).1
          ∙ ap (zip_bytes op (reverse (to_raw 4 a))) (to_raw-bswap b).1
          ∙ zipped
