-- ===== src/Time/Double.antt =====
-- `flb_time_from_double` of fluent-bit/flb_time.h. The numbers of type double are a parameter with
-- the operations that the function uses; a `long` is its bit pattern.
use my_repo.Base.{ℕ, ◌^◌, ◌<◌, ◌≡◌, refl}
use my_repo.Time.{Time}

-- The conversions from and to `long`, the one to `int`, the difference and the product, with the
-- rules of IEEE 754 that whole numbers need.
pub record Doubles (D : Type 0) : Type 0 where
  pub of_long : ℕ → D
  pub to_int : D → ℕ
  pub to_long : D → ℕ
  pub sub : D → D → D
  pub mul : D → D → D
  pub to_int-of_long : (n : ℕ) → n < 2 ^ 31 → to_int (of_long n) ≡ n
  pub sub_self : (n : ℕ) → sub (of_long n) (of_long n) ≡ of_long 0
  pub zero_mul : (n : ℕ) → mul (of_long 0) (of_long n) ≡ of_long 0
  pub to_long-zero : to_long (of_long 0) ≡ 0

unfoldable pub from_double : {D : Type 0} → Doubles D → D → Time
from_double o d =
    let sec = o.to_int d in
    record {
      tv_sec = sec;
      tv_nsec = o.to_long (o.mul (o.sub d (o.of_long sec)) (o.of_long 1000000000));
    }

-- Below 2 ^ 31 a whole number of seconds becomes a time of these seconds and no nanoseconds.
pub from_double-of_long :
    {D : Type 0} (o : Doubles D) (n : ℕ)
    → n < 2 ^ 31
    → from_double o (o.of_long n) ≡ record { tv_sec = n; tv_nsec = 0 }
unfolding from_double
from_double-of_long o n l = rw (o.to_int-of_long n l, o.sub_self n, o.zero_mul, o.to_long-zero) refl
