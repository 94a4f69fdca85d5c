-- ===== src/BitMasks.antt =====
-- The masks of fluent-bit/flb_bits.h. `w` is the number of digits of an unsigned type; `none` is a
-- shift that C leaves undefined.
pub mod Laws
mod Tests
use my_repo.Base.{
  ℕ, ◌-◌, ◌/◌, ◌^◌, ◌&&◌, ◌||◌, not, Option, none, some, ltb, leb, ◌==◌, if◌then◌else◌, bit_and,
}

-- `1 << n` is an `int`, and `val` has 64 digits.
unfoldable pub bits_clear : (val n : ℕ) → Option ℕ
bits_clear val n = if ltb n 31 then some (bit_and val (2 ^ 64 - 1 - 2 ^ n)) else none

-- A type of less than 32 digits is promoted to `int` before it is shifted.
unfoldable pub bit_mask : (w one_count : ℕ) → Option ℕ
bit_mask w one_count =
    if leb one_count w && (ltb (w - one_count) w || ltb w 32)
    then some
        (bit_and (if one_count == 0 then 0 else 2 ^ w - 1) ((2 ^ w - 1) / 2 ^ (w - one_count)))
    else none
