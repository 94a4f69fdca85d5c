-- ===== src/Subnet/Range.antt =====
-- The first and the last host of a sub-net, and which addresses have the same network.
use my_repo.Base.{
  ℕ, zero, suc, ◌+◌, ◌-◌, ◌*◌, ◌/◌, ◌%◌, ◌^◌, ◌≤◌, ◌<◌, ◌≡◌, ◌≢◌, ◌⊎◌, inl, inr, sym, ap, ◌∙◌, some,
  ◌==◌, arith, mul-pow_half, false, true,
}
use native.Mathlib.Nat.{pow-le-pow_right}
use native.Mathlib.Decide.{ℕ_discrete}
use my_repo.Bytes.{bswap_32}
use my_repo.Bytes.Digitwise.{bswap_32_bound}
use my_repo.Subnet.{network, broadcast, host_min, host_max}
use my_repo.Subnet.HostOrder.{HostOrder, htonl_twice}
use my_repo.Subnet.Hosts.{first, size, network_lem, fits, in_host_order}

-- The low byte of a number is the high one of the swapped number.
bswap_32-suc : (n : ℕ) → n % 256 < 255 → n < 2 ^ 32 → bswap_32 (n + 1) ≡ bswap_32 n + 16777216
unfolding bswap_32
bswap_32-suc n l b = omega arith

even : (h q : ℕ) → 1 ≤ h → q * 2 ^ h % 2 ≡ 0
even zero q l = absurd (omega arith)
even (suc h) q l = omega (arith, mul-pow_half q h)

next : (n : ℕ) → n % 2 ≡ 0 → n + 1 < 2 ^ 32 → (bswap_32 n + 16777216) % 2 ^ 32 ≡ bswap_32 (n + 1)
next n e l = omega (arith, bswap_32-suc n (omega arith) (omega arith), bswap_32_bound (n + 1))

previous :
    (n : ℕ)
    → n % 2 ≡ 0
    → n + 1 < 2 ^ 32
    → (bswap_32 (n + 1) + 2 ^ 32 - 16777216) % 2 ^ 32 ≡ bswap_32 n
previous n e l = omega (arith, bswap_32-suc n (omega arith) (omega arith), bswap_32_bound n)

module _ (order : HostOrder) (addr net : ℕ) (la : addr < 2 ^ 32) (low : 1 ≤ net)
    (high : net ≤ 32) where
  open order use {htonl}

  n : ℕ
  n = first (htonl addr) net

  as_bswap : (v : ℕ) → v ≤ n + (size net - 1) → bswap_32 v ≡ htonl v
  unfolding n
  as_bswap = in_host_order order addr net la low high

  below_all : n + (size net - 1) < 2 ^ 32
  unfolding n
  below_all = fits order addr net la low high

  laws :
      (network htonl addr net ≡ some (htonl n))
      × (broadcast htonl addr net ≡ some (htonl (n + (size net - 1))))
  unfolding n
  laws = let l = network_lem order addr net la low high in (l.0, l.1)

  module _ (wide : net ≤ 30) where
    large : 4 ≤ size net
    large = pow-le-pow_right (omega arith) {i = 2} {j = 32 - net} (omega arith)

    n_even : n % 2 ≡ 0
    unfolding n
    n_even = even (32 - net) (htonl addr / 2 ^ (32 - net)) (omega arith)

    size_even : size net % 2 ≡ 0
    size_even = omega (arith, even (32 - net) 1 (omega arith))

    wide_min : host_min htonl addr net ≡ some (htonl (n + 1))
    unfolding host_min
    wide_min =
        let test : (net == 31) ≡ false = ground arith in
        rw (test, laws.0)
          (ap some (
            ap (λ t. (t + 16777216) % 2 ^ 32) (sym (as_bswap n (omega arith)))
            ∙ next n n_even (omega (arith, large, below_all))
            ∙ as_bswap (n + 1) (omega (arith, large))))

    wide_max : host_max htonl addr net ≡ some (htonl (n + (size net - 2)))
    unfolding host_max
    wide_max =
        let test : (net == 31) ≡ false = ground arith in
        let last : n + (size net - 1) ≡ n + (size net - 2) + 1 = omega (arith, large) in
        rw (test, laws.1)
          (ap some (
            ap (λ t. (t + 2 ^ 32 - 16777216) % 2 ^ 32)
              (sym (as_bswap (n + (size net - 1)) (omega arith)) ∙ ap bswap_32 last)
            ∙ previous (n + (size net - 2)) (omega (arith, n_even, size_even, large))
                (omega (arith, large, below_all))
            ∙ as_bswap (n + (size net - 2)) (omega (arith, large))))

  module _ (pair : net ≡ 31) where
    pair_min : host_min htonl addr net ≡ some (htonl n)
    unfolding host_min
    pair_min = let test : (net == 31) ≡ true = ground arith in rw test laws.0

    pair_max : host_max htonl addr net ≡ some (htonl (n + 1))
    unfolding host_max
    pair_max =
        let test : (net == 31) ≡ true = ground arith in
        let two : size net ≡ 2 = ap size pair in
        let last : n + (size net - 1) ≡ n + 1 = omega (arith, two) in
        rw test (laws.1 ∙ ap (λ v. some (htonl v)) last)

  module _ (alone : net ≡ 32) where
    only : n ≡ htonl addr
    unfolding n
    only = ap (first (htonl addr)) alone ∙ omega arith

    alone_min : host_min htonl addr net ≡ some ((addr + 16777216) % 2 ^ 32)
    unfolding host_min
    alone_min =
        let test : (net == 31) ≡ false = ground arith in
        rw (test, laws.0)
          (ap (λ t. some ((t + 16777216) % 2 ^ 32)) (ap htonl only ∙ htonl_twice order addr la))

    alone_max : host_max htonl addr net ≡ some ((addr + 2 ^ 32 - 16777216) % 2 ^ 32)
    unfolding host_max
    alone_max =
        let test : (net == 31) ≡ false = ground arith in
        let one : size net ≡ 1 = ap size alone in
        let last : n + (size net - 1) ≡ n = omega (arith, one) in
        rw (test, laws.1)
          (ap (λ t. some ((t + 2 ^ 32 - 16777216) % 2 ^ 32))
            (ap htonl (last ∙ only) ∙ htonl_twice order addr la))

  -- For an address of 32 digits and a prefix of 1 to 30 digits, `MK_NET_HOSTMIN` is the number after that of the network and
  -- `MK_NET_HOSTMAX` the one before that of the broadcast, in the order of the host. For 31 digits
  -- they are the two numbers of the sub-net. For 32 digits, where the address is the only one of its
  -- sub-net, both are other addresses.
  pub host_range :
      ((net ≤ 30)
        × (host_min htonl addr net ≡ some (htonl (first (htonl addr) net + 1)))
        × (host_max htonl addr net ≡ some (htonl (first (htonl addr) net + (size net - 2)))))
      ⊎ (((net ≡ 31)
            × (host_min htonl addr net ≡ some (htonl (first (htonl addr) net)))
            × (host_max htonl addr net ≡ some (htonl (first (htonl addr) net + 1))))
          ⊎ ((net ≡ 32)
              × ((least : ℕ) × (greatest : ℕ) × (host_min htonl addr net ≡ some least)
                  × (host_max htonl addr net ≡ some greatest)
                  × (least ≢ addr)
                  × (greatest ≢ addr))))
  unfolding n
  host_range = elim (ℕ_discrete net 31) [
    | yes e ↦ inr (inl (e, pair_min e, pair_max e))
    | no m ↦ elim (ℕ_discrete net 32) [
      | yes e ↦ inr (
          inr (
            e,
            (
              (addr + 16777216) % 2 ^ 32,
              (addr + 2 ^ 32 - 16777216) % 2 ^ 32,
              alone_min e,
              alone_max e,
              (λ same. omega arith),
              (λ same. omega arith),
            ),
          ))
      | no k ↦ let wide : net ≤ 30 = omega arith in inl (wide, wide_min wide, wide_max wide)
    ]
  ]
