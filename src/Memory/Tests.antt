-- ===== src/Memory/Tests.antt =====
-- The theorems on the allocation wrappers at blocks of a few bytes.
use my_repo.Base.{
  ℕ, zero, suc, ◌≡◌, ◌⊎◌, inr, refl, ap, true, false, Option, none, some, [], ◌∷◌, ◌++◌, length,
}
use my_repo.Memory.{Block, flb_realloc_z}
use my_repo.Memory.Zero.{take, zeros, Documented, flb_realloc_z_lem}
use my_repo.Memory.Periods.{answers, periodic, answers-periodic}

-- Bytes of the value 7 behind the start of the old block.
abbrev fill_up : Block → ℕ → Block
fill_up bs zero = []
fill_up [] (suc n) = 7 ∷ fill_up [] n
fill_up (b ∷ bs) (suc n) = b ∷ fill_up bs n

abbrev grow : Block → ℕ → Option Block
grow ptr size = some (fill_up ptr size)

length-fill_up : (bs : Block) (n : ℕ) → length (fill_up bs n) ≡ n
length-fill_up bs zero = refl
length-fill_up [] (suc n) = ap suc (length-fill_up [] n)
length-fill_up (b ∷ bs) (suc n) = ap suc (length-fill_up bs n)

take-fill_up : (bs : Block) (n : ℕ) → take (length bs) (fill_up bs n) ≡ take n bs
take-fill_up [] zero = refl
take-fill_up [] (suc n) = refl
take-fill_up (b ∷ bs) zero = refl
take-fill_up (b ∷ bs) (suc n) = ap (λ cs. b ∷ cs) (take-fill_up bs n)

grow-Documented : Documented grow
grow-Documented ptr size =
    inr (fill_up ptr size, refl, length-fill_up ptr size, take-fill_up ptr size)

flb_realloc_z_lem_example :
    (flb_realloc_z grow (1 ∷ 2 ∷ []) 2 4 ≡ none)
    ⊎ (flb_realloc_z grow (1 ∷ 2 ∷ []) 2 4 ≡ some (take 4 (1 ∷ 2 ∷ []) ++ zeros 2))
flb_realloc_z_lem_example = flb_realloc_z_lem grow (1 ∷ 2 ∷ []) 4 grow-Documented

answers-periodic_example : answers 4 1 (record { malloc_p = 1; malloc_mod = 3 }) ≡ periodic 4 2 1 3
answers-periodic_example = answers-periodic 4 1 1 (record { malloc_p = 1; malloc_mod = 3 }) refl

every_third : periodic 4 2 1 3 ≡ false ∷ true ∷ false ∷ false ∷ []
every_third = refl
