-- ===== src/Time/Tests.antt =====
-- The theorems on flb_time.h at a value of two seconds and a half.
use my_repo.Base.{ℕ, ◌+◌, ◌-◌, ◌*◌, ◌/◌, ◌<◌, ◌≡◌, ◌↔◌, true, refl, arith}
use my_repo.Time.{Time, from_uint64, from_uint64_iff, equal, set_time, copy_time, equal_lem}
use my_repo.Time.Double.{Doubles, from_double, from_double-of_long}

from_uint64_iff_example :
    ((from_uint64 2500000000).tv_sec * 1000000000 + (from_uint64 2500000000).tv_nsec ≡ 2500000000)
    ↔ (2500000000 < 1000000000)
from_uint64_iff_example = from_uint64_iff 2500000000

-- The half second comes out as 2499999998 nanoseconds.
half_run : (from_uint64 2500000000).tv_nsec ≡ 2499999998
unfolding from_uint64
half_run = refl

abbrev noon : Time
noon = record { tv_sec = 43200; tv_nsec = 5 }

abbrev half : ℕ
half = 500000000

equal_lem_example :
    (equal noon (copy_time noon noon) ≡ true)
    × ((equal (set_time noon noon.tv_sec half) (set_time noon noon.tv_sec half) ≡ true)
        ↔ ((noon.tv_sec ≡ noon.tv_sec) × (half ≡ half)))
equal_lem_example = equal_lem noon noon noon.tv_sec half noon.tv_sec half

-- Numbers with nine decimal digits behind the point.
abbrev fixed_point : Doubles ℕ
fixed_point = record {
  of_long = λ n. n * 1000000000;
  to_int = λ d. d / 1000000000;
  to_long = λ d. d / 1000000000;
  sub = λ d e. d - e;
  mul = λ d e. d * e / 1000000000;
  to_int-of_long = λ n l. omega arith;
  sub_self = λ n. omega arith;
  zero_mul = λ n. omega arith;
  to_long-zero = refl;
}

from_double-of_long_example :
    from_double fixed_point (fixed_point.of_long 7) ≡ record { tv_sec = 7; tv_nsec = 0 }
from_double-of_long_example = from_double-of_long fixed_point 7 (omega arith)

from_double_half_run :
    from_double fixed_point 2500000000 ≡ record { tv_sec = 2; tv_nsec = 500000000 }
unfolding from_double
from_double_half_run = refl
