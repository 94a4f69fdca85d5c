-- ===== src/Sds.antt =====
-- The strings with a header of fluent-bit/flb_sds.h. Numbers are the bit patterns of `uint64_t`;
-- `strncmp` and `strncasecmp` are arguments, and their results bit patterns of `int`.
pub mod Compare
mod Tests
use my_repo.Base.{
  ℕ, ◌+◌, ◌-◌, ◌*◌, ◌%◌, ◌^◌, Bool, true, false, List, ◌==◌, ltb, if◌then◌else◌, to_size,
}

pub record Sds : Type 0 where
  pub len : ℕ
  pub alloc : ℕ
  pub buf : List ℕ

abbrev pub int_minus_one : ℕ
int_minus_one = 2 ^ 32 - 1

unfoldable pub sds_len : Sds → ℕ
sds_len s = s.len

unfoldable pub sds_is_empty : Sds → Bool
unfolding sds_len
sds_is_empty s = if sds_len s == 0 then true else false

unfoldable pub sds_len_set : Sds → ℕ → Sds
sds_len_set s len = record s { len = len }

unfoldable pub sds_alloc : Sds → ℕ
sds_alloc s = s.alloc

unfoldable pub sds_avail : Sds → ℕ
sds_avail s = (s.alloc + 2 ^ 64 - s.len) % 2 ^ 64

unfoldable pub sds_cmp : (strncmp : List ℕ → List ℕ → ℕ → ℕ) → Sds → (str : List ℕ) (len : ℕ) → ℕ
unfolding sds_len
sds_cmp strncmp s str len =
    if sds_len s == to_size len then strncmp s.buf str (to_size len) else int_minus_one

unfoldable pub sds_casecmp :
    (strncasecmp : List ℕ → List ℕ → ℕ → ℕ) → Sds → (str : List ℕ) (len : ℕ) → ℕ
unfolding sds_len
sds_casecmp strncasecmp s str len =
    if sds_len s == to_size len then strncasecmp s.buf str (to_size len) else int_minus_one
