-- ===== src/Memory.antt =====
-- The allocation wrappers of fluent-bit/flb_mem.h (without `flb_malloc`, which stands with the bucket
-- queue) and monkey/mk_core/mk_memory.h. A block is the list of its bytes, `none` is NULL; what the
-- C library's functions answer is an argument.
pub mod Zero
pub mod Periods
mod Tests
use my_repo.Base.{
  ℕ, zero, suc, ◌+◌, ◌-◌, ◌%◌, Bool, true, false, not, ◌&&◌, Option, none, some, List, [], ◌∷◌,
  ◌==◌, ltb, if◌then◌else◌,
}

abbrev pub Block : Type 0
Block = List ℕ

-- The state of the failures that the fuzzers ask for: `flb_malloc_p` and `flb_malloc_mod`.
pub record Fuzz : Type 0 where
  pub malloc_p : ℕ
  pub malloc_mod : ℕ

unfoldable pub fuzz_get_probability : (val : ℕ) → Fuzz → Bool × Fuzz
fuzz_get_probability val f =
    let p = (f.malloc_p + 1) % f.malloc_mod in
    (if ltb p val then true else false, record f { malloc_p = p })

unfoldable pub flb_calloc : (n size : ℕ) (calloc : Option Block) → Option Block
flb_calloc n size calloc = if size == 0 then none else calloc

unfoldable pub flb_realloc :
    (realloc : Block → ℕ → Option Block) → Block → (size : ℕ) → Option Block
flb_realloc realloc ptr size = realloc ptr size

-- `memset(p, 0, n)` at the offset `p` of a block, whose bytes behind the end are left alone.
abbrev pub memset_zero : Block → (p n : ℕ) → Block
memset_zero [] p n = []
memset_zero (b ∷ bs) zero zero = b ∷ bs
memset_zero (b ∷ bs) zero (suc n) = 0 ∷ memset_zero bs zero n
memset_zero (b ∷ bs) (suc p) n = b ∷ memset_zero bs p n

unfoldable pub flb_realloc_z :
    (realloc : Block → ℕ → Option Block) → Block → (old_size new_size : ℕ) → Option Block
unfolding flb_realloc
flb_realloc_z realloc ptr old_size new_size = elim (flb_realloc realloc ptr new_size) [
  | none ↦ none
  | some tmp ↦
      some (if ltb old_size new_size then memset_zero tmp old_size (new_size - old_size) else tmp)
]

-- The result, and whether `perror` was called.
abbrev reported : Option Block → (size : ℕ) → Option Block × Bool
reported (some aux) size = (some aux, false)
reported none size = if size == 0 then (none, false) else (none, true)

unfoldable pub mk_mem_alloc : (size : ℕ) (malloc : Option Block) → Option Block × Bool
mk_mem_alloc size malloc = reported malloc size

unfoldable pub mk_mem_alloc_z : (size : ℕ) (calloc : Option Block) → Option Block
mk_mem_alloc_z size none = none
mk_mem_alloc_z size (some buf) = some buf

unfoldable pub mk_mem_realloc :
    (realloc : Block → ℕ → Option Block) → Block → (size : ℕ) → Option Block × Bool
mk_mem_realloc realloc ptr size = reported (realloc ptr size) size

-- `mk_ptr_t`: the address of the data, and the length.
pub record MkPtr : Type 0 where
  pub «data» : ℕ
  pub len : ℕ

unfoldable pub mk_ptr_reset : MkPtr → MkPtr
mk_ptr_reset p = record p { «data» = 0; len = 0 }
