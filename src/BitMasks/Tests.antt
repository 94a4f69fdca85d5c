-- ===== src/BitMasks/Tests.antt =====
-- The masks at small arguments.
use my_repo.Base.{
  ℕ, ◌%◌, ◌^◌, ◌≡◌, refl, none, some, arith, bit_and, digit, ltb, ◌==◌, if◌then◌else◌,
}
use my_repo.BitMasks.{bits_clear, bit_mask}
use my_repo.BitMasks.Laws.{bits_clear_lem, bit_mask_lem}

bits_clear_lem_example :
    (r : ℕ) × (bits_clear 0xf0f0 5 ≡ some r)
    × (digit 5 r ≡ (if ◌==◌ 5 5 then 0 else digit 5 0xf0f0))
bits_clear_lem_example = bits_clear_lem 0xf0f0 5 5 (omega arith) (omega arith)

bit_mask_lem_example :
    (mask : ℕ) × (bit_mask 32 12 ≡ some mask)
    × (bit_and 0xabcdef mask ≡ 0xabcdef % 2 ^ 12)
    × (bit_mask 32 0 ≡ (if ltb 32 32 then some 0 else none))
bit_mask_lem_example = bit_mask_lem 32 12 0xabcdef (omega arith) (omega arith)

masks :
    (bit_mask 64 64 ≡ some 0xffff_ffff_ffff_ffff) × (bit_mask 8 3 ≡ some 7) × (bit_mask 8 9 ≡ none)
unfolding bit_mask
masks = (refl, refl, refl)
