-- ===== src/Lua/Tests.antt =====
-- The second place from the top of five, and the registry of Lua 5.1.
use my_repo.Base.{◌+◌, ◌-◌, ◌^◌, ◌≤◌, ◌<◌, ◌≡◌, ◌≢◌, ◌⊎◌, refl, arith}
use my_repo.Lua.{flb_lua_absindex}
use my_repo.Lua.Index.{flb_lua_absindex_lem}

flb_lua_absindex_lem_example :
    (flb_lua_absindex 501 5 (λ i. i) (2 - 1) ≡ 2 - 1)
    × (((2 ≤ 5) × (flb_lua_absindex 501 5 (λ i. i) (2 ^ 32 - 2) ≡ 5 + 1 - 2))
        ⊎ ((5 < 2) × (flb_lua_absindex 501 5 (λ i. i) (2 ^ 32 - 2) ≢ 2 ^ 32 - 2)))
flb_lua_absindex_lem_example =
    flb_lua_absindex_lem 501 5 2 (λ i. i) (omega arith) (omega arith) (omega arith) (omega arith)

registry : flb_lua_absindex 501 5 (λ i. i) (2 ^ 32 - 10000) ≡ 2 ^ 32 - 9994
unfolding flb_lua_absindex
registry = refl
