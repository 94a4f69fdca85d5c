-- ===== src/Kernel/Order.antt =====
-- The numbers of versions are ordered as the versions are, as long as each part has 8 digits.
use my_repo.Base.{ℕ, ◌+◌, ◌*◌, ◌^◌, ◌<◌, ◌≡◌, ◌↔◌, ◌⊎◌, ap, none, some, arith, ltb, if◌then◌else◌}
use my_repo.Kernel.{kernel_version}

-- A version comes before another one in the order of its three parts.
abbrev pub Before : (a b c a' b' c' : ℕ) → Type 0
Before a b c a' b' c' = (a < a') ⊎ ((a ≡ a') × ((b < b') ⊎ ((b ≡ b') × (c < c'))))

-- For second and third parts below 256, the number of a version is smaller than that of another one
-- exactly if the version comes before it.
pub kernel_version-Before :
    (a b c a' b' c' v v' : ℕ)
    → b < 256
    → c < 256
    → b' < 256
    → c' < 256
    → kernel_version a b c ≡ some v
    → kernel_version a' b' c' ≡ some v'
    → (v < v') ↔ Before a b c a' b' c'
unfolding kernel_version
kernel_version-Before a b c a' b' c' v v' lb lc lb' lc' e e' =
    let value : v ≡ a * 2 ^ 16 + b * 2 ^ 8 + c = ground arith in
    let value' : v' ≡ a' * 2 ^ 16 + b' * 2 ^ 8 + c' = ground arith in
    ((λ l. ground arith), (λ l. ground arith))

-- A third part from 256 on gives the number of a later version.
pub kernel_version_carry : (a b c : ℕ) → kernel_version a b (256 + c) ≡ kernel_version a (b + 1) c
unfolding kernel_version
kernel_version_carry a b c =
    let same : a * 2 ^ 16 + b * 2 ^ 8 + (256 + c) ≡ a * 2 ^ 16 + (b + 1) * 2 ^ 8 + c =
      omega arith in
    ap (λ v. if ltb v (2 ^ 31) then some v else none) same
