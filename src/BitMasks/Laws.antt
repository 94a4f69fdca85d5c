-- ===== src/BitMasks/Laws.antt =====
-- Which digits the masks keep.
use my_repo.Base.{
  ℕ, zero, suc, ◌+◌, ◌-◌, ◌*◌, ◌/◌, ◌%◌, ◌^◌, ◌≤◌, ◌<◌, ◌≡◌, refl, sym, ap, ◌∙◌, true, false, none,
  some, ltb, leb, ◌==◌, ◌&&◌, ◌||◌, if◌then◌else◌, arith, bit_and, digit, digit-bit_and,
  digit-complement, digit-pow, digit-zero, by_digits, bit_and_mask, digit_bound,
}
use native.Mathlib.Nat.{pow-suc, one-le-pow, div-eq_of_lt-le, mod-eq_of_lt, pow-le-pow_right}
use my_repo.BitMasks.{bits_clear, bit_mask}

-- `FLB_BITS_CLEAR` resets the digit `n` and keeps every other digit.
pub bits_clear_lem :
    (val n j : ℕ)
    → n < 31
    → j < 64
    → (r : ℕ) × (bits_clear val n ≡ some r) × (digit j r ≡ (if j == n then 0 else digit j val))
unfolding bits_clear
bits_clear_lem val n j l m =
    let small : ltb n 31 ≡ true = ground arith in
    let pow : 2 ^ n < 2 ^ 64 =
      omega (arith, pow-le-pow_right {n = 2} (omega arith) {i = n} {j = 31} (omega arith)) in
    (
      bit_and val (2 ^ 64 - 1 - 2 ^ n),
      rw small refl,
      ground (
        arith,
        digit-bit_and j val (2 ^ 64 - 1 - 2 ^ n),
        digit-complement 64 j (2 ^ n) m pow,
        digit-pow j n,
        digit_bound j val,
      ),
    )

pow-add : (a b : ℕ) → 2 ^ (a + b) ≡ 2 ^ a * 2 ^ b
pow-add zero b =
    let none_more : zero + b ≡ b = omega arith in ap (λ k. 2 ^ k) none_more ∙ omega arith
pow-add (suc a) b =
    let shift : suc a + b ≡ suc (a + b) = omega arith in
    ap (λ k. 2 ^ k) shift
    ∙ omega (
      arith,
      pow-suc 2 (a + b),
      pow-suc 2 a,
      ap (λ (t : ℕ). t * 2 ^ b) (pow-suc 2 a),
      pow-add a b,
    )

high_ones : (a b : ℕ) → (2 ^ (a + b) - 1) / 2 ^ b ≡ 2 ^ a - 1
high_ones a b =
    div-eq_of_lt-le (2 ^ b) (grind (arith, pow-add a b, one-le-pow a 2, one-le-pow b 2))
      (grind (arith, pow-add a b, one-le-pow a 2, one-le-pow b 2))

bit_and_comm : (a b : ℕ) → bit_and a b ≡ bit_and b a
bit_and_comm a b = by_digits _ _ (λ j. omega (arith, digit-bit_and j a b, digit-bit_and j b a))

bit_mask_ones : (w n : ℕ) → 1 ≤ n → n ≤ w → bit_mask w n ≡ some (2 ^ n - 1)
unfolding bit_mask
bit_mask_ones w n l m =
    let defined : (leb n w && (ltb (w - n) w || ltb w 32)) ≡ true = ground arith in
    let counted : (n == 0) ≡ false = ground arith in
    let parts : n + (w - n) ≡ w = omega arith in
    let shifted : (2 ^ w - 1) / 2 ^ (w - n) ≡ 2 ^ n - 1 =
      ap (λ k. (2 ^ k - 1) / 2 ^ (w - n)) (sym parts) ∙ high_ones n (w - n) in
    let below_all : 2 ^ n - 1 < 2 ^ w =
      omega (arith, pow-le-pow_right {n = 2} (omega arith) {i = n} {j = w} m, one-le-pow n 2) in
    rw (defined, counted, shifted)
      (ap some (
        bit_and_comm (2 ^ w - 1) (2 ^ n - 1) ∙ bit_and_mask w (2 ^ n - 1) ∙ mod-eq_of_lt below_all))

zero_bit_and : (a : ℕ) → bit_and 0 a ≡ 0
zero_bit_and a = by_digits _ _ (λ j. omega (arith, digit-bit_and j 0 a, digit-zero j))

bit_mask_zero : (w : ℕ) → bit_mask w 0 ≡ (if ltb w 32 then some 0 else none)
unfolding bit_mask
bit_mask_zero w =
    let zero_le : leb 0 w ≡ true = ground arith in
    let whole : ltb (w - 0) w ≡ false = ground arith in
    rw (zero_le, whole, zero_bit_and ((2 ^ w - 1) / 2 ^ (w - 0))) refl

-- For a count from 1 to the width of the type, `FLB_BIT_MASK` is the mask of so many low digits, so
-- that `&` with it is the remainder. For the count 0 it is 0 for a type of less than 32 digits, and
-- undefined for a wider one, for all that the first factor is meant for this count.
pub bit_mask_lem :
    (w n v : ℕ)
    → 1 ≤ n
    → n ≤ w
    → (mask : ℕ) × (bit_mask w n ≡ some mask)
      × (bit_and v mask ≡ v % 2 ^ n)
      × (bit_mask w 0 ≡ (if ltb w 32 then some 0 else none))
bit_mask_lem w n v l m = (2 ^ n - 1, bit_mask_ones w n l m, bit_and_mask n v, bit_mask_zero w)
