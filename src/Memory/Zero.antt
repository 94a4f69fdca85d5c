-- ===== src/Memory/Zero.antt =====
-- `flb_realloc_z`: a grown block is the old one with zeros behind it.
use my_repo.Base.{
  ℕ, zero, suc, ◌+◌, ◌-◌, ◌≤◌, ◌≡◌, refl, ◌∙◌, ap, ◌⊎◌, inl, inr, Option, none, some, [], ◌∷◌, ◌++◌,
  arith, ltb, length, sym, Bool-cases, append-nil,
}
use my_repo.Memory.{Block, memset_zero, flb_realloc, flb_realloc_z}

abbrev pub take : ℕ → Block → Block
take zero bs = []
take (suc n) [] = []
take (suc n) (b ∷ bs) = b ∷ take n bs

abbrev pub zeros : ℕ → Block
zeros zero = []
zeros (suc n) = 0 ∷ zeros n

-- `realloc` as it is documented: it fails, or the new block has the size that was asked for and
-- begins with the old one, as far as both go.
abbrev pub Documented : (Block → ℕ → Option Block) → Type 0
Documented realloc =
    (ptr : Block) (size : ℕ)
    → (realloc ptr size ≡ none)
      ⊎ ((tmp : Block) × (realloc ptr size ≡ some tmp)
          × (length tmp ≡ size)
          × (take (length ptr) tmp ≡ take size ptr))

take-length : (bs : Block) (n : ℕ) → length bs ≤ n → take n bs ≡ bs
take-length [] zero l = refl
take-length [] (suc n) l = refl
take-length (b ∷ bs) zero l = absurd (omega arith)
take-length (b ∷ bs) (suc n) l = ap (λ cs. b ∷ cs) (take-length bs n (omega arith))

zeros-memset_zero : (bs : Block) (n : ℕ) → length bs ≡ n → memset_zero bs 0 n ≡ zeros n
zeros-memset_zero [] zero l = refl
zeros-memset_zero [] (suc n) l = absurd (omega arith)
zeros-memset_zero (b ∷ bs) zero l = absurd (omega arith)
zeros-memset_zero (b ∷ bs) (suc n) l = ap (λ cs. 0 ∷ cs) (zeros-memset_zero bs n (omega arith))

memset_zero_lem :
    (bs : Block) (p n : ℕ) → length bs ≡ p + n → memset_zero bs p n ≡ take p bs ++ zeros n
memset_zero_lem bs zero n l = zeros-memset_zero bs n (omega arith)
memset_zero_lem [] (suc p) n l = absurd (omega arith)
memset_zero_lem (b ∷ bs) (suc p) n l = ap (λ cs. b ∷ cs) (memset_zero_lem bs p n (omega arith))

-- For a `realloc` as it is documented and the true old size, `flb_realloc_z` returns NULL or a block
-- of the new size: the old block followed by zeros where it grows, and the start of the old block
-- where it does not.
pub flb_realloc_z_lem :
    (realloc : Block → ℕ → Option Block) (ptr : Block) (new_size : ℕ)
    → Documented realloc
    → (flb_realloc_z realloc ptr (length ptr) new_size ≡ none)
      ⊎ (flb_realloc_z realloc ptr (length ptr) new_size
          ≡ some (take new_size ptr ++ zeros (new_size - length ptr)))
unfolding flb_realloc_z
flb_realloc_z_lem realloc ptr new_size doc = elim (doc ptr new_size) [
  | inl e ↦ inl (rw (flb_realloc_z, flb_realloc, e) refl)
  | inr (tmp, e, size, start) ↦ elim (Bool-cases (ltb (length ptr) new_size)) [
    | inl grows ↦
        let whole : length tmp ≡ length ptr + (new_size - length ptr) = ground arith in
        inr (
          rw
            (
              flb_realloc_z,
              flb_realloc,
              e,
              grows,
              memset_zero_lem tmp (length ptr) (new_size - length ptr) whole,
              start,
            )
            refl)
    | inr fits ↦
        let none_left : new_size - length ptr ≡ 0 = ground arith in
        inr (
          rw (flb_realloc_z, flb_realloc, e, fits, none_left, append-nil (take new_size ptr))
            (ap some (sym (take-length tmp (length ptr) (ground arith)) ∙ start)))
  ]
]
