-- ===== src/Str.antt =====
-- The strings of fluent-bit/flb_str.h: lists of bytes before the byte 0, which is not part of them.
-- `none` is a read before the start of the string.
mod Trim
mod Tests
use my_repo.Base.{
  ℕ, zero, suc, ◌+◌, Bool, true, false, Option, none, some, List, [], ◌∷◌, get_or, length, ◌==◌,
  if◌then◌else◌,
}

abbrev pub take : List ℕ → ℕ → List ℕ
take s zero = []
take [] (suc n) = []
take (x ∷ s) (suc n) = x ∷ take s n

-- `malloc`: whether the memory is there; the outer `none` of `rtrim` is a fault, the inner NULL.
unfoldable pub strndup : (malloc : Bool) → (s : List ℕ) (n : ℕ) → Option (List ℕ)
strndup malloc s n = if malloc then some (take s n) else none

unfoldable pub strdup : (malloc : Bool) → List ℕ → Option (List ℕ)
unfolding strndup
strdup malloc s = strndup malloc s (length s)

-- `none` for NULL.
unfoldable pub str_emptyval : Option (List ℕ) → Bool
str_emptyval none = false
str_emptyval (some []) = true
str_emptyval (some (x ∷ s)) = false

-- `while (c == str[--pos]);` from `pos` on.
unfoldable pub rtrim_loop : List ℕ → (c pos : ℕ) → Option ℕ
rtrim_loop str c zero = none
rtrim_loop str c (suc pos) =
    let rest = rtrim_loop str c pos in if c == get_or str pos 0 then rest else some pos

unfoldable pub rtrim : (malloc : Bool) → List ℕ → (c : ℕ) → Option (Option (List ℕ))
unfolding strndup rtrim_loop
rtrim malloc str c = elim (rtrim_loop str c (length str)) [
  | none ↦ none
  | some pos ↦ some (strndup malloc str (pos + 1))
]
