-- ===== src/Subnet.antt =====
-- The macros of monkey/mk_core/mk_macros.h that calculate a sub-net from an address, as `s_addr` has
-- it, and the length of a prefix, on a host whose first byte is the low one. `htonl` is a function of
-- the C library.
pub mod HostOrder
pub mod Prefix
pub mod Hosts
pub mod Range
pub mod Member
mod Tests
use my_repo.Base.{
  ℕ, ◌+◌, ◌-◌, ◌*◌, ◌/◌, ◌%◌, ◌^◌, Bool, ◌&&◌, Option, none, some, leb, ltb, ◌==◌, if◌then◌else◌,
  bit_and, bit_or, bit_xor,
}

infixl 5 ◌>>=◌
abbrev ◌>>=◌ : {A B : Type 0} → Option A → (A → Option B) → Option B
none >>= rest = none
some a >>= rest = rest a

-- A shift by 32 or more is undefined.
unfoldable pub ip_octect : (addr pos : ℕ) → Option ℕ
ip_octect addr pos = if ltb pos 4 then some (bit_and (addr / 2 ^ (8 * pos)) 255) else none

module _ (htonl : ℕ → ℕ) where
  -- A shift by less than 0 or by 32 is undefined.
  unfoldable pub netmask : (net : ℕ) → Option ℕ
  netmask net =
      if leb 1 net && leb net 32 then some (htonl (4294967295 * 2 ^ (32 - net) % 2 ^ 32)) else none

  unfoldable pub broadcast : (addr net : ℕ) → Option ℕ
  broadcast addr net = do mask ← netmask net; some (bit_or addr (2 ^ 32 - 1 - mask))

  unfoldable pub network : (addr net : ℕ) → Option ℕ
  network addr net = do mask ← netmask net; some (bit_and addr mask)

  unfoldable pub wildcard : (addr net : ℕ) → Option ℕ
  wildcard addr net = do
    last ← broadcast addr net
    first ← network addr net
    some (bit_xor last first)

  unfoldable pub host_min : (addr net : ℕ) → Option ℕ
  host_min addr net =
      if net == 31
      then network addr net
      else do first ← network addr net; some ((first + 16777216) % 2 ^ 32)

  unfoldable pub host_max : (addr net : ℕ) → Option ℕ
  host_max addr net =
      if net == 31
      then broadcast addr net
      else do last ← broadcast addr net; some ((last + 2 ^ 32 - 16777216) % 2 ^ 32)
