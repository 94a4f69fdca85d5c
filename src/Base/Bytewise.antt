-- ===== src/Base/Bytewise.antt =====
-- Operations that work digit by digit: on the low byte and on the rest of a number, and `^`.
use Prim.Native.Nat.{
  ℕ, zero, suc, ◌+◌, ◌*◌, ◌/◌, ◌%◌, ◌^◌, ◌≤◌, ◌<◌, min, digits, differ, bit_xor, bit_xor-bitwise,
}
use mathlib.Core.Path.{◌≡◌, refl, sym, ap, ◌∙◌}
use native.Mathlib.Nat.{le_refl, pow-suc}
use native.Mathlib.Omega.{arith}
use my_repo.Base.Bits.{digit, digit-zero, digit_bound, by_digits, digit-mask}

differ_lem : (x y : ℕ) → x < 2 → y < 2 → differ x y ≡ (x + y) % 2
differ_lem zero y l m = omega arith
differ_lem (suc zero) zero l m = omega arith
differ_lem (suc zero) (suc y) l m = let e : y ≡ 0 = omega arith in rw e refl
differ_lem (suc (suc x)) y l m = absurd (omega arith)

xor_digits :
    (n k a b : ℕ) → a ≤ n → digit k (digits (λ y. y) differ n a b) ≡ (digit k a + digit k b) % 2
xor_digits zero k a b l =
    let e : a ≡ 0 = omega arith in rw (e, digit-zero k) (omega (arith, digit_bound k b))
xor_digits (suc n) k zero b l = rw (digit-zero k) (omega (arith, digit_bound k b))
xor_digits (suc n) zero (suc a) b l =
    omega (arith, differ_lem (suc a % 2) (b % 2) (omega arith) (omega arith))
xor_digits (suc n) (suc k) (suc a) b l =
    let rest : ℕ = digits (λ y. y) differ n (suc a / 2) (b / 2) in
    let half : (rest * 2 + differ (suc a % 2) (b % 2)) / 2 ≡ rest =
      omega (arith, differ_lem (suc a % 2) (b % 2) (omega arith) (omega arith)) in
    ap (digit k) half ∙ xor_digits n k (suc a / 2) (b / 2) (omega arith)

pub digit-bit_xor : (k a b : ℕ) → digit k (bit_xor a b) ≡ (digit k a + digit k b) % 2
digit-bit_xor k a b = ap (digit k) (bit_xor-bitwise a b) ∙ xor_digits a k a b (le_refl a)

digit-byte :
    (k c : ℕ) → digit k (c / 256) ≡ digit (suc (suc (suc (suc (suc (suc (suc (suc k)))))))) c
digit-byte k c = ap (digit k) (omega arith)

-- An operation on numbers that is `f` on each digit.
module _ (op f : ℕ → ℕ → ℕ) (f-zero : f 0 0 ≡ 0)
    (digit-op : (k a b : ℕ) → digit k (op a b) ≡ f (digit k a) (digit k b)) where
  pub op_high : (a b : ℕ) → op a b / 256 ≡ op (a / 256) (b / 256)
  op_high a b = by_digits _ _ same
    where
      same : (k : ℕ) → digit k (op a b / 256) ≡ digit k (op (a / 256) (b / 256))
      same k =
          rw (digit-byte k (op a b), digit-op k (a / 256) (b / 256), digit-byte k a, digit-byte k b)
            (digit-op (suc (suc (suc (suc (suc (suc (suc (suc k)))))))) a b)

  masked : (x y m : ℕ) → m < 2 → x < 2 → y < 2 → f x y < 2 → min (f x y) m ≡ f (min x m) (min y m)
  masked x y zero l lx ly lf =
      let left : min x 0 ≡ 0 = omega arith in
      let right : min y 0 ≡ 0 = omega arith in rw (left, right, f-zero) (omega arith)
  masked x y (suc zero) l lx ly lf =
      let left : min x 1 ≡ x = omega arith in
      let right : min y 1 ≡ y = omega arith in rw (left, right) (omega arith)
  masked x y (suc (suc m)) l lx ly lf = absurd (omega arith)

  pub op_low : (a b : ℕ) → op a b % 256 ≡ op (a % 256) (b % 256)
  op_low a b = by_digits _ _ same
    where
      same : (k : ℕ) → digit k (op a b % 256) ≡ digit k (op (a % 256) (b % 256))
      same k =
          sym (digit-mask 8 k (op a b))
          ∙ rw
              (
                digit-op k a b,
                digit-op k (a % 256) (b % 256),
                ← digit-mask 8 k a,
                ← digit-mask 8 k b,
              )
              (masked (digit k a) (digit k b) (digit k 255) (digit_bound k 255) (digit_bound k a)
                (digit_bound k b) (omega (arith, digit-op k a b, digit_bound k (op a b))))

  pub op_zero : op 0 0 ≡ 0
  op_zero = by_digits _ _ (λ k. rw (digit-op k 0 0, digit-zero k) f-zero)

  -- The result has no more bytes than the arguments.
  pub op_bound : (n a b : ℕ) → a < 256 ^ n → b < 256 ^ n → op a b < 256 ^ n
  op_bound zero a b l m =
      let left : a ≡ 0 = omega arith in
      let right : b ≡ 0 = omega arith in rw (left, right, op_zero) (omega arith)
  op_bound (suc n) a b l m = omega (
    arith,
    pow-suc 256 n,
    op_high a b,
    op_bound n (a / 256) (b / 256) (omega (arith, pow-suc 256 n)) (omega (arith, pow-suc 256 n)),
  )
