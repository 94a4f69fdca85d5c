-- ===== src/Lua/Index.antt =====
-- Indices from the top of the stack, and those that are no place on it.
use my_repo.Base.{ℕ, ◌+◌, ◌-◌, ◌^◌, ◌≤◌, ◌<◌, ◌≡◌, ◌≢◌, ◌⊎◌, inl, inr, arith, Bool-cases, leb}
use my_repo.Lua.{flb_lua_absindex}

-- Where LUA_VERSION_NUM is below 520, an index from 0 on stays as it is; the index -k of a place on
-- the stack becomes the number of this place from the bottom; and the index -k below the stack, such
-- as a pseudo-index, becomes another index.
pub flb_lua_absindex_lem :
    (version top k : ℕ) (lua_absindex : ℕ → ℕ)
    → version < 520
    → top < 2 ^ 31
    → 1 ≤ k
    → k ≤ 2 ^ 31
    → (flb_lua_absindex version top lua_absindex (k - 1) ≡ k - 1)
      × (((k ≤ top) × (flb_lua_absindex version top lua_absindex (2 ^ 32 - k) ≡ top + 1 - k))
          ⊎ ((top < k) × (flb_lua_absindex version top lua_absindex (2 ^ 32 - k) ≢ 2 ^ 32 - k)))
unfolding flb_lua_absindex
flb_lua_absindex_lem version top k lua_absindex lv lt l m = (
  ground arith,
  elim (Bool-cases (leb k top)) [
    | inl on ↦ inl (ground arith, ground arith)
    | inr off ↦ inr (ground arith, λ same. ground arith)
  ],
)
