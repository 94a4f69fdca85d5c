-- ===== src/Bytes.antt =====
-- The byte swaps of fluent-bit/flb_byteswap.h, in the version over the union, on a host whose first
-- byte is the low one. The versions over compiler intrinsics are not in the headers.
pub mod Swap
pub mod Digitwise
mod Tests
use my_repo.Base.{ℕ, zero, suc, ◌+◌, ◌*◌, ◌/◌, ◌%◌, List, [], ◌∷◌, get_or}

-- The member `raw` of the union, for a value that was stored in a member of `n` bytes.
abbrev pub to_raw : (n : ℕ) → ℕ → List ℕ
to_raw zero value = []
to_raw (suc n) value = value % 256 ∷ to_raw n (value / 256)

-- The member `word`, `dword` or `qword`, for the bytes that were stored in `raw`.
abbrev pub of_raw : List ℕ → ℕ
of_raw [] = 0
of_raw (b ∷ bs) = b + of_raw bs * 256

abbrev pub raw : List ℕ → ℕ → ℕ
raw bytes i = get_or bytes i 0

unfoldable pub bswap_16 : ℕ → ℕ
bswap_16 value = let input = to_raw 2 value in of_raw (raw input 1 ∷ raw input 0 ∷ [])

unfoldable pub bswap_32 : ℕ → ℕ
bswap_32 value =
    let input = to_raw 4 value in
    of_raw (raw input 3 ∷ raw input 2 ∷ raw input 1 ∷ raw input 0 ∷ [])

unfoldable pub bswap_64 : ℕ → ℕ
bswap_64 value =
    let input = to_raw 8 value in
    of_raw (
      raw input 7
      ∷ raw input 6
      ∷ raw input 5
      ∷ raw input 4
      ∷ raw input 3
      ∷ raw input 2
      ∷ raw input 1
      ∷ raw input 0
      ∷ [])
