-- ===== src/Subnet/Tests.antt =====
-- The sub-net macros at 192.168.1.77, and where the host macros leave a sub-net of one address.
use my_repo.Base.{ℕ, ◌+◌, ◌-◌, ◌*◌, ◌≤◌, ◌≡◌, ◌≢◌, ◌⊎◌, ◌↔◌, refl, none, some, arith}
use my_repo.Bytes.{bswap_32}
use my_repo.Subnet.{ip_octect, netmask, network, broadcast, wildcard, host_min, host_max}
use my_repo.Subnet.HostOrder.{swapping}
use my_repo.Subnet.Hosts.{first, size, network_lem}
use my_repo.Subnet.Range.{host_range}
use my_repo.Subnet.Member.{network_iff}

-- As it stands in `s_addr`.
abbrev dotted : (a b c d : ℕ) → ℕ
dotted a b c d = a + b * 256 + c * 65536 + d * 16777216

abbrev addr : ℕ
addr = dotted 192 168 1 77

network_lem_example :
    (network bswap_32 addr 24 ≡ some (bswap_32 (first (bswap_32 addr) 24)))
    × (broadcast bswap_32 addr 24 ≡ some (bswap_32 (first (bswap_32 addr) 24 + (size 24 - 1))))
    × (wildcard bswap_32 addr 24 ≡ some (bswap_32 (size 24 - 1)))
network_lem_example = network_lem swapping addr 24 (omega arith) (omega arith) (omega arith)

host_range_example :
    ((24 ≤ 30)
      × (host_min bswap_32 addr 24 ≡ some (bswap_32 (first (bswap_32 addr) 24 + 1)))
      × (host_max bswap_32 addr 24 ≡ some (bswap_32 (first (bswap_32 addr) 24 + (size 24 - 2)))))
    ⊎ (((◌≡◌ {A = ℕ} 24 31)
          × (host_min bswap_32 addr 24 ≡ some (bswap_32 (first (bswap_32 addr) 24)))
          × (host_max bswap_32 addr 24 ≡ some (bswap_32 (first (bswap_32 addr) 24 + 1))))
        ⊎ ((◌≡◌ {A = ℕ} 24 32)
            × ((least : ℕ) × (greatest : ℕ) × (host_min bswap_32 addr 24 ≡ some least)
                × (host_max bswap_32 addr 24 ≡ some greatest)
                × (least ≢ addr)
                × (greatest ≢ addr))))
host_range_example = host_range swapping addr 24 (omega arith) (omega arith) (omega arith)

network_iff_example : (network bswap_32 (dotted 192 168 1 200) 24 ≡ network bswap_32 addr 24) ↔ (
    (first (bswap_32 addr) 24 ≤ bswap_32 (dotted 192 168 1 200))
    × (bswap_32 (dotted 192 168 1 200) ≤ first (bswap_32 addr) 24 + (size 24 - 1)))
network_iff_example =
    network_iff swapping 24 (omega arith) (omega arith) (dotted 192 168 1 200) addr (omega arith)
      (omega arith)

whole_run :
    (network bswap_32 addr 24 ≡ some (dotted 192 168 1 0))
    × (broadcast bswap_32 addr 24 ≡ some (dotted 192 168 1 255))
    × (wildcard bswap_32 addr 20 ≡ some (dotted 0 0 15 255))
    × (host_min bswap_32 addr 20 ≡ some (dotted 192 168 0 1))
    × (host_max bswap_32 addr 20 ≡ some (dotted 192 168 15 254))
    × (ip_octect addr 3 ≡ some 77)
unfolding network broadcast wildcard host_min host_max ip_octect netmask bswap_32
whole_run = (refl, refl, refl, refl, refl, refl)

-- The prefix 0 asks for a shift by 32 digits.
no_prefix : network bswap_32 addr 0 ≡ none
unfolding network netmask
no_prefix = refl

-- The hosts of 192.168.1.255/32 would go from 192.168.1.0 to 192.168.1.254.
one_address :
    (host_min bswap_32 (dotted 192 168 1 255) 32 ≡ some (dotted 192 168 1 0))
    × (host_max bswap_32 (dotted 192 168 1 255) 32 ≡ some (dotted 192 168 1 254))
unfolding host_min host_max network broadcast netmask bswap_32
one_address = (refl, refl)
