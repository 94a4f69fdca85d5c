-- ===== src/Subnet/HostOrder.antt =====
-- What the C library says of `htonl`, and that the swap of four bytes does it.
use my_repo.Base.{ℕ, ◌^◌, ◌<◌, ◌≡◌, sym, ap, ◌∙◌, arith}
use mathlib.Core.List.{reverse}
use my_repo.Bytes.{to_raw, of_raw, bswap_32}
use my_repo.Bytes.Swap.{of_raw-to_raw, to_raw-bswap, bswap_twice}
use my_repo.Bytes.Digitwise.{reversed, bswap_32_bound}

-- The bytes of the result stand in memory with the high byte of the value first.
pub record HostOrder : Type 0 where
  pub htonl : ℕ → ℕ
  pub htonl_bound : (v : ℕ) → v < 2 ^ 32 → htonl v < 2 ^ 32
  pub htonl_bytes : (v : ℕ) → v < 2 ^ 32 → to_raw 4 (htonl v) ≡ reverse (to_raw 4 v)

abbrev pub swapping : HostOrder
swapping = record {
  htonl = bswap_32;
  htonl_bound = λ v l. bswap_32_bound v;
  htonl_bytes = λ v l. (to_raw-bswap v).1;
}

pub htonl-bswap_32 : (order : HostOrder) (v : ℕ) → v < 2 ^ 32 → order.htonl v ≡ bswap_32 v
htonl-bswap_32 order v l =
    sym (of_raw-to_raw 4 (order.htonl v) (order.htonl_bound v l))
    ∙ ap of_raw (order.htonl_bytes v l)
    ∙ sym (reversed v)

pub htonl_twice : (order : HostOrder) (v : ℕ) → v < 2 ^ 32 → order.htonl (order.htonl v) ≡ v
htonl_twice order v l =
    htonl-bswap_32 order (order.htonl v) (order.htonl_bound v l)
    ∙ ap bswap_32 (htonl-bswap_32 order v l)
    ∙ (bswap_twice 0 v 0 (omega arith) l (omega arith)).1
