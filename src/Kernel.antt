-- ===== src/Kernel.antt =====
-- The number of a version in fluent-bit/flb_kernel.h. `none` is a sum that no `int` holds.
pub mod Order
mod Tests
use my_repo.Base.{ℕ, ◌+◌, ◌*◌, ◌^◌, Option, none, some, ltb, if◌then◌else◌}

unfoldable pub kernel_version : (a b c : ℕ) → Option ℕ
kernel_version a b c =
    let version = a * 2 ^ 16 + b * 2 ^ 8 + c in if ltb version (2 ^ 31) then some version else none
