-- ===== src/Time.antt =====
-- The times of fluent-bit/flb_time.h: seconds and nanoseconds, each a number of 64 digits.
pub mod Double
mod Tests
use my_repo.Base.{ℕ, ◌+◌, ◌-◌, ◌*◌, ◌/◌, ◌^◌, ◌<◌, ◌≡◌, ◌↔◌, Bool, ◌&&◌, ◌==◌, arith, true}

pub record Time : Type 0 where
  pub tv_sec : ℕ
  pub tv_nsec : ℕ

unfoldable pub zero_time : Time → Time
zero_time tm = record { tv_sec = 0; tv_nsec = 0 }

unfoldable pub set_time : Time → (sec nsec : ℕ) → Time
set_time tm sec nsec = record { tv_sec = sec; tv_nsec = nsec }

unfoldable pub copy_time : (dst src : Time) → Time
copy_time dst src = record { tv_sec = src.tv_sec; tv_nsec = src.tv_nsec }

-- The quotient is at most the value, so the difference does not wrap around.
unfoldable pub from_uint64 : (value : ℕ) → Time
from_uint64 value = let sec = value / 1000000000 in record { tv_sec = sec; tv_nsec = value - sec }

unfoldable pub equal : Time → Time → Bool
equal t0 t1 = (t0.tv_sec == t1.tv_sec) && (t0.tv_nsec == t1.tv_nsec)

-- `flb_time_from_uint64` gives the time of that many nanoseconds exactly for values below a second:
-- from a second on, the nanoseconds still count the whole seconds.
pub from_uint64_iff :
    (value : ℕ)
    → ((from_uint64 value).tv_sec * 1000000000 + (from_uint64 value).tv_nsec ≡ value)
      ↔ (value < 1000000000)
unfolding from_uint64
from_uint64_iff value = (λ e. omega arith, λ l. omega arith)

-- `flb_time_equal` holds of a time and of what `flb_time_copy` makes of it, and of two times that
-- `flb_time_set` made only if their seconds and their nanoseconds agree.
pub equal_lem :
    (dst src : Time) (s n s' n' : ℕ)
    → (equal src (copy_time dst src) ≡ true)
      × ((equal (set_time dst s n) (set_time src s' n') ≡ true) ↔ ((s ≡ s') × (n ≡ n')))
unfolding equal copy_time set_time
equal_lem dst src s n s' n' =
    (ground arith, ((λ e. (ground arith, ground arith)), (λ e. ground arith)))
