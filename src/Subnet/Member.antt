-- ===== src/Subnet/Member.antt =====
-- Which addresses are in a sub-net, and the four numbers by which an address is written.
use my_repo.Base.{
  ℕ, zero, suc, ◌+◌, ◌-◌, ◌*◌, ◌/◌, ◌%◌, ◌^◌, ◌≤◌, ◌<◌, ◌≡◌, ◌↔◌, sym, ap, ◌∙◌, none, some, arith,
  bit_and_mask,
}
use native.Mathlib.Nat.{div-mul-le_self, lt-div-mul-add, div-eq_of_lt-le, one-le-pow}
use my_repo.Bytes.{bswap_32}
use my_repo.Subnet.{ip_octect, network}
use my_repo.Subnet.HostOrder.{HostOrder, htonl-bswap_32, htonl_twice}
use my_repo.Subnet.Hosts.{first, size, network_lem, fits}

same_first : (s x q : ℕ) → 0 < s → q * s ≤ x → x ≤ q * s + (s - 1) → x / s * s ≡ q * s
same_first s x q p l m = ap (λ t. t * s) (div-eq_of_lt-le s {m = x} l (grind arith))

module _ (order : HostOrder) (net : ℕ) (low : 1 ≤ net) (high : net ≤ 32) where
  open order use {htonl}

  module _ (x y : ℕ) (lx : x < 2 ^ 32) (ly : y < 2 ^ 32) where
    some_size : 0 < size net
    some_size = omega (arith, one-le-pow (32 - net) 2)

    -- Two addresses have the same `MK_NET_NETWORK` exactly if the one is, in the order of the host,
    -- between the network and the broadcast address of the other, for a prefix of 1 to 32 digits.
    pub network_iff :
        (network htonl x net ≡ network htonl y net)
        ↔ ((first (htonl y) net ≤ htonl x) × (htonl x ≤ first (htonl y) net + (size net - 1)))
    network_iff = (there, back)
      where
        there :
            network htonl x net ≡ network htonl y net
            → (first (htonl y) net ≤ htonl x) × (htonl x ≤ first (htonl y) net + (size net - 1))
        there e =
            let same : first (htonl x) net ≡ first (htonl y) net =
              sym (
                htonl_twice order (first (htonl x) net)
                  (omega (arith, fits order x net lx low high)))
              ∙ ap (λ o. elim o [ none ↦ 0 | some t ↦ htonl t ])
                  (sym (network_lem order x net lx low high).0
                    ∙ e
                    ∙ (network_lem order y net ly low high).0)
              ∙ htonl_twice order (first (htonl y) net)
                  (omega (arith, fits order y net ly low high)) in
            (
              omega (arith, same, div-mul-le_self (htonl x) (size net)),
              omega (arith, same, lt-div-mul-add {a = htonl x} some_size),
            )

        back :
            (first (htonl y) net ≤ htonl x) × (htonl x ≤ first (htonl y) net + (size net - 1))
            → network htonl x net ≡ network htonl y net
        back (l, m) =
            (network_lem order x net lx low high).0
            ∙ ap (λ t. some (htonl t))
                (same_first (size net) (htonl x) (htonl y / size net) some_size l m)
            ∙ sym (network_lem order y net ly low high).0

-- The numbers of the dotted notation are the bytes of the address from the high one on.
pub ip_octect_lem :
    (order : HostOrder) (addr pos : ℕ)
    → addr < 2 ^ 32
    → pos < 4
    → ip_octect addr pos ≡ some (order.htonl addr / 2 ^ (8 * (3 - pos)) % 256)
unfolding ip_octect bswap_32
ip_octect_lem order addr zero la l =
    rw (htonl-bswap_32 order addr la) (ap some (bit_and_mask 8 (addr / 1) ∙ omega arith))
ip_octect_lem order addr (suc zero) la l =
    rw (htonl-bswap_32 order addr la) (ap some (bit_and_mask 8 (addr / 256) ∙ omega arith))
ip_octect_lem order addr (suc (suc zero)) la l =
    rw (htonl-bswap_32 order addr la) (ap some (bit_and_mask 8 (addr / 65536) ∙ omega arith))
ip_octect_lem order addr (suc (suc (suc zero))) la l =
    rw (htonl-bswap_32 order addr la) (ap some (bit_and_mask 8 (addr / 16777216) ∙ omega arith))
ip_octect_lem order addr (suc (suc (suc (suc pos)))) la l = absurd (omega arith)
