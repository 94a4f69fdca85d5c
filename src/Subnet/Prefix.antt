-- ===== src/Subnet/Prefix.antt =====
-- Masks of a prefix, on numbers of 32 digits of which `h` do not belong to the prefix.
use my_repo.Base.{
  ℕ, ◌+◌, ◌-◌, ◌*◌, ◌/◌, ◌%◌, ◌^◌, ◌≤◌, ◌<◌, ◌≡◌, refl, sym, ap, ◌∙◌, ◌==◌, ==_iff, arith, min, max,
  bit_and, bit_or, bit_xor, digit, digit-zero, digit_bound, digit-bit_or, digit-bit_xor, digit-mask,
  digit-fields, by_digits, bit_and_shift, bit_and_mask, below, op_bound,
}
use native.Mathlib.Nat.{
  mod-eq_of_lt, div-lt_iff_lt-mul, div-add-mod', one-le-pow, mod-lt, mul-mod_left, pow-le-pow_right,
}

pub mask_value : (h : ℕ) → h < 32 → 4294967295 * 2 ^ h % 2 ^ 32 ≡ 2 ^ 32 - 2 ^ h
mask_value h l =
    (==_iff _ _).0 (below 32 (λ h. 4294967295 * 2 ^ h % 2 ^ 32 == 2 ^ 32 - 2 ^ h) refl h l)

prefix_size : (h : ℕ) → h < 32 → 2 ^ (32 - h) * 2 ^ h ≡ 2 ^ 32
prefix_size h l = (==_iff _ _).0 (below 32 (λ h. 2 ^ (32 - h) * 2 ^ h == 2 ^ 32) refl h l)

pub size_bound : (h : ℕ) → h < 32 → 2 ^ h ≤ 2 ^ 31
size_bound h l = pow-le-pow_right (omega arith) {i = h} {j = 31} (omega arith)

pow_pos : (h : ℕ) → 0 < 2 ^ h
pow_pos h = omega (arith, one-le-pow h 2)

split : (k : ℕ) → 2 ^ k ≡ 2 ^ k - 1 + 1
split k = omega (arith, one-le-pow k 2)

-- What is left of the digits of the prefix.
pub bit_and_prefix :
    (h a : ℕ) → h < 32 → a < 2 ^ 32 → bit_and a (2 ^ 32 - 2 ^ h) ≡ a / 2 ^ h * 2 ^ h
bit_and_prefix h a l la =
    let m : ℕ = 2 ^ (32 - h) - 1 in
    let mask : m * 2 ^ h ≡ 2 ^ 32 - 2 ^ h =
      omega (arith, prefix_size h l, ap (λ (t : ℕ). t * 2 ^ h) (split (32 - h))) in
    let few : a / 2 ^ h < 2 ^ (32 - h) =
      (div-lt_iff_lt-mul (pow_pos h)).1 (omega (arith, prefix_size h l)) in
    ap (bit_and a) (sym mask)
    ∙ bit_and_shift h a m
    ∙ ap (λ t. t * 2 ^ h) (bit_and_mask (32 - h) (a / 2 ^ h) ∙ mod-eq_of_lt few)

ones_bound : (h : ℕ) → 2 ^ h - 1 < 2 ^ h
ones_bound h = omega (arith, one-le-pow h 2)

-- With ones for the digits that do not belong to it.
pub bit_or_ones : (h a : ℕ) → bit_or a (2 ^ h - 1) ≡ a / 2 ^ h * 2 ^ h + (2 ^ h - 1)
bit_or_ones h a = by_digits _ _ same
  where
    high : ℕ
    high = a / 2 ^ h * 2 ^ h

    whole : (j : ℕ) → digit j a ≡ max (digit j high) (digit j (a % 2 ^ h))
    whole j =
        ap (digit j) (sym (div-add-mod' a (2 ^ h)))
        ∙ sym (digit-fields h j (a / 2 ^ h) (a % 2 ^ h) (mod-lt a (pow_pos h)))

    same : (j : ℕ) → digit j (bit_or a (2 ^ h - 1)) ≡ digit j (high + (2 ^ h - 1))
    same j = omega (
      arith,
      digit-bit_or j a (2 ^ h - 1),
      digit-mask h j a,
      whole j,
      digit-fields h j (a / 2 ^ h) (2 ^ h - 1) (ones_bound h),
    )

-- The two differ in those digits.
pub bit_xor_ones : (h q : ℕ) → bit_xor (q * 2 ^ h + (2 ^ h - 1)) (q * 2 ^ h) ≡ 2 ^ h - 1
bit_xor_ones h q = by_digits _ _ same
  where
    disjoint : (j : ℕ) → min (digit j (q * 2 ^ h)) (digit j (2 ^ h - 1)) ≡ 0
    disjoint j = digit-mask h j (q * 2 ^ h) ∙ ap (digit j) (mul-mod_left q (2 ^ h)) ∙ digit-zero j

    same : (j : ℕ) → digit j (bit_xor (q * 2 ^ h + (2 ^ h - 1)) (q * 2 ^ h)) ≡ digit j (2 ^ h - 1)
    same j = omega (
      arith,
      disjoint j,
      digit-bit_xor j (q * 2 ^ h + (2 ^ h - 1)) (q * 2 ^ h),
      digit-fields h j q (2 ^ h - 1) (ones_bound h),
      digit_bound j (q * 2 ^ h),
      digit_bound j (2 ^ h - 1),
    )

-- The last number with the prefix has 32 digits too.
pub last_bound : (h a : ℕ) → h < 32 → a < 2 ^ 32 → a / 2 ^ h * 2 ^ h + (2 ^ h - 1) < 2 ^ 32
last_bound h a l la = omega (
  arith,
  bit_or_ones h a,
  op_bound bit_or max refl digit-bit_or 4 a (2 ^ h - 1) la (omega (arith, size_bound h l)),
)
