-- ===== src/Lua.antt =====
-- The absolute index of fluent-bit/flb_lua.h. An `int` is its pattern of 32 digits, and the functions
-- of Lua are parameters.
pub mod Index
mod Tests
use my_repo.Base.{ℕ, ◌+◌, ◌%◌, ◌^◌, ltb, leb, if◌then◌else◌}

unfoldable pub flb_lua_absindex :
    (lua_version_num gettop : ℕ) (lua_absindex : ℕ → ℕ) → (index : ℕ) → ℕ
flb_lua_absindex lua_version_num gettop lua_absindex index =
    if ltb lua_version_num 520
    then if leb (2 ^ 31) index then (gettop + index + 1) % 2 ^ 32 else index
    else lua_absindex index
