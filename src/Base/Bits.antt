-- ===== src/Base/Bits.antt =====
-- Binary digits: `|` and `&` digit by digit, disjoint fields as a sum, low masks as a remainder.
use Prim.Native.Nat.{
  ℕ, zero, suc, ◌+◌, ◌-◌, ◌*◌, ◌/◌, ◌%◌, ◌^◌, ◌≤◌, ◌<◌, min, max, digits, bit_and, bit_or,
  bit_and-bitwise, bit_or-bitwise,
}
use mathlib.Core.Path.{◌≡◌, refl, sym, ap, ◌∙◌, subst}
use native.Mathlib.Nat.{
  le_refl, pow-suc, one-le-pow, div-add-mod', div-div-eq-div-mul, mod-lt, mod-eq_of_lt,
  mul-add-mod_self_right,
}
use native.Mathlib.Omega.{arith}
use my_repo.Base.Tests.{◌==◌, ltb, if◌then◌else◌}

-- An `int` that is converted to `size_t`, as bit patterns.
abbrev pub to_size : ℕ → ℕ
to_size int = if ltb int (2 ^ 31) then int else int + (2 ^ 64 - 2 ^ 32)

-- The binary digit of `a` at `2 ^ k`.
abbrev pub digit : (k a : ℕ) → ℕ
digit zero a = a % 2
digit (suc k) a = digit k (a / 2)

pub digit-zero : (k : ℕ) → digit k 0 ≡ 0
digit-zero zero = refl
digit-zero (suc k) = digit-zero k

pub digit_bound : (k a : ℕ) → digit k a < 2
digit_bound zero a = omega arith
digit_bound (suc k) a = digit_bound k (a / 2)

or_digits :
    (n k a b : ℕ) → a ≤ n → digit k (digits (λ y. y) max n a b) ≡ max (digit k a) (digit k b)
or_digits zero k a b l = let e : a ≡ 0 = omega arith in rw (e, digit-zero k) (omega arith)
or_digits (suc n) k zero b l = rw (digit-zero k) (omega arith)
or_digits (suc n) zero (suc a) b l = omega arith
or_digits (suc n) (suc k) (suc a) b l =
    let rest : ℕ = digits (λ y. y) max n (suc a / 2) (b / 2) in
    let half : (rest * 2 + max (suc a % 2) (b % 2)) / 2 ≡ rest = omega arith in
    ap (digit k) half ∙ or_digits n k (suc a / 2) (b / 2) (omega arith)

and_digits :
    (n k a b : ℕ) → a ≤ n → digit k (digits (λ y. 0) min n a b) ≡ min (digit k a) (digit k b)
and_digits zero k a b l = let e : a ≡ 0 = omega arith in rw (e, digit-zero k) (omega arith)
and_digits (suc n) k zero b l = rw (digit-zero k) (omega arith)
and_digits (suc n) zero (suc a) b l = omega arith
and_digits (suc n) (suc k) (suc a) b l =
    let rest : ℕ = digits (λ y. 0) min n (suc a / 2) (b / 2) in
    let half : (rest * 2 + min (suc a % 2) (b % 2)) / 2 ≡ rest = omega arith in
    ap (digit k) half ∙ and_digits n k (suc a / 2) (b / 2) (omega arith)

pub digit-bit_or : (k a b : ℕ) → digit k (bit_or a b) ≡ max (digit k a) (digit k b)
digit-bit_or k a b = ap (digit k) (bit_or-bitwise a b) ∙ or_digits a k a b (le_refl a)

pub digit-bit_and : (k a b : ℕ) → digit k (bit_and a b) ≡ min (digit k a) (digit k b)
digit-bit_and k a b = ap (digit k) (bit_and-bitwise a b) ∙ and_digits a k a b (le_refl a)

-- A number is known by its digits.
digits_ext : (n a b : ℕ) → a ≤ n → b ≤ n → ((k : ℕ) → digit k a ≡ digit k b) → a ≡ b
digits_ext zero a b l m same = omega arith
digits_ext (suc n) a b l m same =
    omega
      (arith, same 0, digits_ext n (a / 2) (b / 2) (omega arith) (omega arith) (λ k. same (suc k)))

pub by_digits : (a b : ℕ) → ((k : ℕ) → digit k a ≡ digit k b) → a ≡ b
by_digits a b same = digits_ext (a + b) a b (omega arith) (omega arith) same

pub mul-pow_half : (q k : ℕ) → q * 2 ^ suc k ≡ q * 2 ^ k * 2
mul-pow_half q k = omega (arith, ap (λ (t : ℕ). q * t) (pow-suc 2 k))

pub digit-fields :
    (k j q r : ℕ) → r < 2 ^ k → max (digit j (q * 2 ^ k)) (digit j r) ≡ digit j (q * 2 ^ k + r)
digit-fields zero j q r l =
    let e : r ≡ 0 = omega arith in
    let sum : q * 2 ^ 0 + 0 ≡ q * 2 ^ 0 = omega arith in rw (e, digit-zero j, sum) (omega arith)
digit-fields (suc k) zero q r l = omega (arith, mul-pow_half q k)
digit-fields (suc k) (suc j) q r l =
    let bound : r / 2 < 2 ^ k = omega (arith, pow-suc 2 k) in
    let high : q * 2 ^ suc k / 2 ≡ q * 2 ^ k = omega (arith, mul-pow_half q k) in
    let both : (q * 2 ^ suc k + r) / 2 ≡ q * 2 ^ k + r / 2 = omega (arith, mul-pow_half q k) in
    rw (high, both) (digit-fields k j q (r / 2) bound)

-- `(q << k) | r`, for an `r` of `k` digits.
pub bit_or_fields : (k q r : ℕ) → r < 2 ^ k → bit_or (q * 2 ^ k) r ≡ q * 2 ^ k + r
bit_or_fields k q r l =
    by_digits (bit_or (q * 2 ^ k) r) (q * 2 ^ k + r)
      (λ j. digit-bit_or j (q * 2 ^ k) r ∙ digit-fields k j q r l)

half_mod : (k a : ℕ) → a / 2 % 2 ^ k ≡ a % 2 ^ suc k / 2
half_mod k a =
    let q : ℕ = a / 2 ^ suc k in
    let r : ℕ = a % 2 ^ suc k in
    let parts : a / 2 ≡ q * 2 ^ k + r / 2 =
      omega (arith, div-add-mod' a (2 ^ suc k), mul-pow_half q k) in
    let small : r / 2 < 2 ^ k = omega (
      arith,
      pow-suc 2 k,
      one-le-pow k 2,
      mod-lt a {m = 2 ^ suc k} (omega (arith, one-le-pow (suc k) 2)),
    ) in
    ap (λ t. t % 2 ^ k) parts ∙ mul-add-mod_self_right q (2 ^ k) (r / 2) ∙ mod-eq_of_lt small

pub digit-mask : (k j a : ℕ) → min (digit j a) (digit j (2 ^ k - 1)) ≡ digit j (a % 2 ^ k)
digit-mask zero j a = let e : a % 2 ^ 0 ≡ 0 = omega arith in rw (e, digit-zero j) (omega arith)
digit-mask (suc k) zero a =
    omega (arith, pow-suc 2 k, one-le-pow k 2, mul-pow_half (a / 2 ^ suc k) k)
digit-mask (suc k) (suc j) a =
    let mask : (2 ^ suc k - 1) / 2 ≡ 2 ^ k - 1 = omega (arith, pow-suc 2 k, one-le-pow k 2) in
    let rest : a % 2 ^ suc k / 2 ≡ a / 2 % 2 ^ k = sym (half_mod k a) in
    rw (mask, rest) (digit-mask k j (a / 2))

-- `a & (2 ^ k - 1)`
pub bit_and_mask : (k a : ℕ) → bit_and a (2 ^ k - 1) ≡ a % 2 ^ k
bit_and_mask k a =
    by_digits (bit_and a (2 ^ k - 1)) (a % 2 ^ k)
      (λ j. digit-bit_and j a (2 ^ k - 1) ∙ digit-mask k j a)

bit_and_double : (a m : ℕ) → bit_and a (m * 2) ≡ bit_and (a / 2) m * 2
bit_and_double a m = by_digits (bit_and a (m * 2)) (bit_and (a / 2) m * 2) same
  where
    half : (c : ℕ) → c * 2 / 2 ≡ c
    half c = omega arith

    same : (k : ℕ) → digit k (bit_and a (m * 2)) ≡ digit k (bit_and (a / 2) m * 2)
    same zero = omega (arith, digit-bit_and zero a (m * 2))
    same (suc k) =
        digit-bit_and (suc k) a (m * 2)
        ∙ rw (half m, half (bit_and (a / 2) m)) (sym (digit-bit_and k (a / 2) m))

-- A mask of digits from `2 ^ j` on.
pub bit_and_shift : (j a m : ℕ) → bit_and a (m * 2 ^ j) ≡ bit_and (a / 2 ^ j) m * 2 ^ j
bit_and_shift zero a m =
    let one : m * 2 ^ 0 ≡ m = omega arith in
    let whole : a / 2 ^ 0 ≡ a = omega arith in rw (one, whole) (omega arith)
bit_and_shift (suc j) a m =
    let lower : a / 2 ^ suc j ≡ a / 2 / 2 ^ j =
      ap (λ d. a / d) (power j) ∙ sym (div-div-eq-div-mul a 2 (2 ^ j)) in
    rw (mul-pow_half m j, bit_and_double a (m * 2 ^ j), bit_and_shift j (a / 2) m, lower)
      (sym (mul-pow_half (bit_and (a / 2 / 2 ^ j) m) j))
  where
    power : (i : ℕ) → 2 ^ suc i ≡ 2 * 2 ^ i
    power i = omega (arith, pow-suc 2 i)

pub digit-complement : (w j a : ℕ) → j < w → a < 2 ^ w → digit j (2 ^ w - 1 - a) + digit j a ≡ 1
digit-complement zero j a l b = absurd (omega arith)
digit-complement (suc w) zero a l b = omega (arith, pow-suc 2 w, one-le-pow w 2)
digit-complement (suc w) (suc j) a l b =
    let half : (2 ^ suc w - 1 - a) / 2 ≡ 2 ^ w - 1 - a / 2 =
      omega (arith, pow-suc 2 w, one-le-pow w 2) in
    rw half (digit-complement w j (a / 2) (omega arith) (omega (arith, pow-suc 2 w)))

pub digit_def : (k a : ℕ) → digit k a ≡ a / 2 ^ k % 2
digit_def zero a = omega arith
digit_def (suc k) a =
    digit_def k (a / 2)
    ∙ ap (λ t. t % 2)
        (div-div-eq-div-mul a 2 (2 ^ k) ∙ ap (λ d. a / d) (omega (arith, pow-suc 2 k)))

-- The digit at `2 ^ k` alone.
pub bit_and-pow : (k a : ℕ) → bit_and a (2 ^ k) ≡ digit k a * 2 ^ k
bit_and-pow k a =
    let one : 1 * 2 ^ k ≡ 2 ^ k = omega arith in
    subst (λ m. bit_and a m ≡ digit k a * 2 ^ k) one
      (bit_and_shift k a 1 ∙ ap (λ t. t * 2 ^ k) (bit_and_mask 1 (a / 2 ^ k) ∙ sym (digit_def k a)))

pub digit-pow : (j k : ℕ) → digit j (2 ^ k) ≡ (if j == k then 1 else 0)
digit-pow zero zero = refl
digit-pow zero (suc k) = ground (arith, pow-suc 2 k)
digit-pow (suc j) zero = digit-zero j ∙ ground arith
digit-pow (suc j) (suc k) =
    let half : 2 ^ suc k / 2 ≡ 2 ^ k = omega (arith, pow-suc 2 k) in
    let same : (suc j == suc k) ≡ (j == k) = ground arith in rw (half, same) (digit-pow j k)
