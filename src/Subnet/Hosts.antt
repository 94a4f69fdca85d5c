-- ===== src/Subnet/Hosts.antt =====
-- The sub-net of an address, and its first and last host, in the order of the host.
use my_repo.Base.{
  ℕ, ◌+◌, ◌-◌, ◌*◌, ◌/◌, ◌%◌, ◌^◌, ◌≤◌, ◌<◌, ◌≡◌, refl, sym, ap, ◌∙◌, true, some, leb, ◌&&◌, arith,
  bit_and, bit_or, bit_xor, min, max, digit-bit_and, digit-bit_or, digit-bit_xor,
}
use native.Mathlib.Nat.{one-le-pow}
use my_repo.Bytes.{bswap_32}
use my_repo.Bytes.Digitwise.{bswap_32-op, bswap_32-complement, bswap_32_bound}
use my_repo.Bytes.Swap.{bswap_twice}
use my_repo.Subnet.{netmask, network, broadcast, wildcard}
use my_repo.Subnet.HostOrder.{HostOrder, htonl-bswap_32}
use my_repo.Subnet.Prefix.{
  mask_value, bit_and_prefix, bit_or_ones, bit_xor_ones, size_bound, last_bound,
}

-- The first number with the prefix of `a` of the length `net`, and how many there are.
abbrev pub first : (a net : ℕ) → ℕ
first a net = a / 2 ^ (32 - net) * 2 ^ (32 - net)

abbrev pub size : (net : ℕ) → ℕ
size net = 2 ^ (32 - net)

bswap_and : (a b : ℕ) → bswap_32 (bit_and a b) ≡ bit_and (bswap_32 a) (bswap_32 b)
bswap_and = bswap_32-op bit_and min refl digit-bit_and

bswap_or : (a b : ℕ) → bswap_32 (bit_or a b) ≡ bit_or (bswap_32 a) (bswap_32 b)
bswap_or = bswap_32-op bit_or max refl digit-bit_or

bswap_xor : (a b : ℕ) → bswap_32 (bit_xor a b) ≡ bit_xor (bswap_32 a) (bswap_32 b)
bswap_xor = bswap_32-op bit_xor (λ x y. (x + y) % 2) refl digit-bit_xor

bswap_back : (v : ℕ) → v < 2 ^ 32 → bswap_32 (bswap_32 v) ≡ v
bswap_back v l = (bswap_twice 0 v 0 (omega arith) l (omega arith)).1

module _ (order : HostOrder) (addr net : ℕ) (la : addr < 2 ^ 32) (low : 1 ≤ net)
    (high : net ≤ 32) where
  open order use {htonl}

  mask : netmask htonl net ≡ some (bswap_32 (2 ^ 32 - 2 ^ (32 - net)))
  unfolding netmask
  mask =
      let inside : (leb 1 net && leb net 32) ≡ true = ground arith in
      rw inside (
        ap some (
          ap htonl (mask_value (32 - net) (omega arith))
          ∙ htonl-bswap_32 order (2 ^ 32 - 2 ^ (32 - net))
              (omega (arith, one-le-pow (32 - net) 2))))

  as_host : htonl addr ≡ bswap_32 addr
  as_host = htonl-bswap_32 order addr la

  network_bswap : network htonl addr net ≡ some (bswap_32 (first (bswap_32 addr) net))
  unfolding network
  network_bswap = rw mask (
      ap some (
        ap (λ a. bit_and a (bswap_32 (2 ^ 32 - 2 ^ (32 - net)))) (sym (bswap_back addr la))
        ∙ sym (bswap_and (bswap_32 addr) (2 ^ 32 - 2 ^ (32 - net)))
        ∙ ap bswap_32
            (bit_and_prefix (32 - net) (bswap_32 addr) (omega arith) (bswap_32_bound addr))))

  broadcast_bswap :
      broadcast htonl addr net ≡ some (bswap_32 (first (bswap_32 addr) net + (size net - 1)))
  unfolding broadcast
  broadcast_bswap = rw mask (
      ap some (
        ap (bit_or addr) (
          sym (
            bswap_32-complement (2 ^ 32 - 2 ^ (32 - net)) (omega (arith, one-le-pow (32 - net) 2))))
        ∙ ap (λ m. bit_or addr (bswap_32 m)) ones
        ∙ ap (λ a. bit_or a (bswap_32 (size net - 1))) (sym (bswap_back addr la))
        ∙ sym (bswap_or (bswap_32 addr) (size net - 1))
        ∙ ap bswap_32 (bit_or_ones (32 - net) (bswap_32 addr))))
    where
      ones : 2 ^ 32 - 1 - (2 ^ 32 - 2 ^ (32 - net)) ≡ size net - 1
      ones = omega (arith, one-le-pow (32 - net) 2, size_bound (32 - net))

  wildcard_bswap : wildcard htonl addr net ≡ some (bswap_32 (size net - 1))
  unfolding wildcard
  wildcard_bswap =
      rw (broadcast_bswap, network_bswap)
        (ap some (
          sym (bswap_xor (first (bswap_32 addr) net + (size net - 1)) (first (bswap_32 addr) net))
          ∙ ap bswap_32 (bit_xor_ones (32 - net) (bswap_32 addr / 2 ^ (32 - net)))))

  pub fits : first (htonl addr) net + (size net - 1) < 2 ^ 32
  fits = rw as_host (last_bound (32 - net) (bswap_32 addr) (omega arith) (bswap_32_bound addr))

  pub in_host_order : (v : ℕ) → v ≤ first (htonl addr) net + (size net - 1) → bswap_32 v ≡ htonl v
  in_host_order v l = sym (htonl-bswap_32 order v (omega (arith, fits)))

  -- In the order of the host, `MK_NET_NETWORK` is the first number with the prefix of the address,
  -- `MK_NET_BROADCAST` the last one and `MK_NET_WILDCARD` their difference, for a prefix of 1 to 32
  -- digits.
  pub network_lem :
      (network htonl addr net ≡ some (htonl (first (htonl addr) net)))
      × (broadcast htonl addr net ≡ some (htonl (first (htonl addr) net + (size net - 1))))
      × (wildcard htonl addr net ≡ some (htonl (size net - 1)))
  network_lem = (
    network_bswap
        ∙ ap (λ a. some (bswap_32 (first a net))) (sym as_host)
        ∙ ap some (in_host_order _ (omega arith)),
    broadcast_bswap
        ∙ ap (λ a. some (bswap_32 (first a net + (size net - 1)))) (sym as_host)
        ∙ ap some (in_host_order _ (omega arith)),
    wildcard_bswap ∙ ap some (in_host_order _ (omega arith)),
  )
