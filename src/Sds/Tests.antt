-- ===== src/Sds/Tests.antt =====
-- The theorems on strings with a header at a string of three bytes.
use my_repo.Base.{
  ℕ, zero, suc, ◌+◌, ◌≡◌, ◌↔◌, refl, inl, inr, Bool, true, false, ◌&&◌, List, [], ◌∷◌, arith, ◌==◌,
  Bool-cases, if◌then◌else◌, to_size,
}
use my_repo.Sds.{Sds, sds_avail, sds_len_set, sds_alloc, sds_cmp, sds_casecmp}
use my_repo.Sds.Compare.{sds_avail-sds_len_set, sds_cmp_iff}

abbrev text : Sds
text = record { len = 3; alloc = 8; buf = 65 ∷ 66 ∷ 67 ∷ 0 ∷ [] }

abbrev equal : ℕ → List ℕ → List ℕ → Bool
equal zero a b = true
equal (suc n) [] b = false
equal (suc n) (x ∷ a) [] = false
equal (suc n) (x ∷ a) (y ∷ b) = (x == y) && equal n a b

abbrev Same : List ℕ → List ℕ → ℕ → Type 0
Same a b n = equal n a b ≡ true

abbrev strncmp : List ℕ → List ℕ → ℕ → ℕ
strncmp a b n = if equal n a b then 0 else 1

strncmp_iff : (a b : List ℕ) (n : ℕ) → (strncmp a b n ≡ 0) ↔ Same a b n
strncmp_iff a b n = elim (Bool-cases (equal n a b)) [
  | inl e ↦ rw e ((λ z. refl), (λ s. refl))
  | inr e ↦ rw e ((λ z. absurd (omega arith)), (λ s. absurd cc))
]

sds_avail-sds_len_set_example : sds_avail (sds_len_set text 5) + 5 ≡ sds_alloc text
sds_avail-sds_len_set_example = sds_avail-sds_len_set text 5 (omega arith) (omega arith)

sds_cmp_iff_example :
    ((sds_cmp strncmp text (65 ∷ 66 ∷ 67 ∷ 68 ∷ []) 3 ≡ 0)
      ↔ ((3 ≡ to_size 3) × Same text.buf (65 ∷ 66 ∷ 67 ∷ 68 ∷ []) 3))
    × ((sds_casecmp strncmp text (65 ∷ 66 ∷ 67 ∷ 68 ∷ []) 3 ≡ 0)
        ↔ ((3 ≡ to_size 3) × Same text.buf (65 ∷ 66 ∷ 67 ∷ 68 ∷ []) 3))
sds_cmp_iff_example = sds_cmp_iff strncmp Same strncmp_iff text (65 ∷ 66 ∷ 67 ∷ 68 ∷ []) 3
