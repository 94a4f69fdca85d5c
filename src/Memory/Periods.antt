-- ===== src/Memory/Periods.antt =====
-- Which allocations fail while fuzzing.
use my_repo.Base.{
  ℕ, zero, suc, ◌+◌, ◌%◌, ◌≡◌, refl, ap, Bool, List, [], ◌∷◌, ltb, Bool-cases, inl, inr,
}
use native.Mathlib.Nat.{mod-add-mod}
use my_repo.Memory.{Fuzz, fuzz_get_probability}

-- The answers to `n` questions.
abbrev pub answers : (n val : ℕ) → Fuzz → List Bool
answers zero val f = []
answers (suc n) val f = let (b, g) = fuzz_get_probability val f in b ∷ answers n val g

-- The `i`th question, counted from one, is answered by yes if its number is small, modulo the
-- period.
abbrev pub periodic : (n i val period : ℕ) → List Bool
periodic zero i val period = []
periodic (suc n) i val period = ltb (i % period) val ∷ periodic n (i + 1) val period

fuzz_step :
    (val i : ℕ) (f : Fuzz)
    → f.malloc_p ≡ i % f.malloc_mod
    → fuzz_get_probability val f ≡ (
      ltb ((i + 1) % f.malloc_mod) val,
      record { malloc_p = (i + 1) % f.malloc_mod; malloc_mod = f.malloc_mod },
    )
unfolding fuzz_get_probability
fuzz_step val i f e =
    rw (e, mod-add-mod i f.malloc_mod 1)
      (elim (Bool-cases (ltb ((i + 1) % f.malloc_mod) val)) [
        | inl s ↦ rw s refl
        | inr s ↦ rw s refl
      ])

-- If `flb_malloc_p` stands at `i` modulo `flb_malloc_mod`, the next questions of
-- `flb_fuzz_get_probability` are answered by yes exactly where their number, counted on from `i + 1`,
-- is below `val` modulo `flb_malloc_mod`: there is no chance in it.
pub answers-periodic :
    (n val i : ℕ) (f : Fuzz)
    → f.malloc_p ≡ i % f.malloc_mod
    → answers n val f ≡ periodic n (i + 1) val f.malloc_mod
answers-periodic zero val i f e = refl
answers-periodic (suc n) val i f e = rw (fuzz_step val i f e) (
    ap (λ bs. ltb ((i + 1) % f.malloc_mod) val ∷ bs)
      (answers-periodic n val (i + 1)
        (record { malloc_p = (i + 1) % f.malloc_mod; malloc_mod = f.malloc_mod }) refl))
