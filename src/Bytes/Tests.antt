-- ===== src/Bytes/Tests.antt =====
-- Runs of the byte swaps.
use my_repo.Base.{◌≡◌, refl, arith}
use mathlib.Core.List.{reverse}
use my_repo.Bytes.{to_raw, bswap_16, bswap_32, bswap_64}
use my_repo.Bytes.Swap.{bswap_twice, to_raw-bswap}

swapped_16 : bswap_16 0x0102 ≡ 0x0201
unfolding bswap_16
swapped_16 = refl

swapped_32 : bswap_32 0x01020304 ≡ 0x04030201
unfolding bswap_32
swapped_32 = refl

swapped_64 : bswap_64 0x0102030405060708 ≡ 0x0807060504030201
unfolding bswap_64
swapped_64 = refl

bswap_twice_example :
    (bswap_16 (bswap_16 0x0102) ≡ 0x0102)
    × (bswap_32 (bswap_32 0xff000000) ≡ 0xff000000)
    × (bswap_64 (bswap_64 0x0102030405060708) ≡ 0x0102030405060708)
bswap_twice_example =
    bswap_twice 0x0102 0xff000000 0x0102030405060708 (omega arith) (omega arith) (omega arith)

to_raw-bswap_example :
    (to_raw 8 (bswap_64 0x0102) ≡ reverse (to_raw 8 0x0102))
    × (to_raw 4 (bswap_32 0x0102) ≡ reverse (to_raw 4 0x0102))
    × (to_raw 2 (bswap_16 0x0102) ≡ reverse (to_raw 2 0x0102))
to_raw-bswap_example = to_raw-bswap 0x0102
