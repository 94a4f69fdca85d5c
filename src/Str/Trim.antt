-- ===== src/Str/Trim.antt =====
-- Trimming on the right: what is left, and the strings on which the loop runs off the start.
use my_repo.Base.{
  ℕ, zero, suc, ◌+◌, ◌<◌, ◌≡◌, ◌≢◌, refl, ◌⊎◌, inl, inr, true, none, some, List, arith, get_or,
  length, ◌==◌, Bool-cases,
}
use my_repo.Str.{take, strndup, rtrim_loop, rtrim}

-- Below `n`, every byte from `i` on is `c`.
abbrev pub All : List ℕ → (c i n : ℕ) → Type 0
All str c i n = (j : ℕ) → i < j + 1 → j < n → get_or str j 0 ≡ c

loop_lem :
    (str : List ℕ) (c n : ℕ)
    → ((p : ℕ) × (rtrim_loop str c n ≡ some p)
        × (p < n)
        × (get_or str p 0 ≢ c)
        × All str c (p + 1) n)
      ⊎ ((rtrim_loop str c n ≡ none) × All str c 0 n)
loop_lem str c zero = inr (unfold rtrim_loop in refl, λ j l b. absurd (omega arith))
loop_lem str c (suc n) = elim (Bool-cases (c == get_or str n 0)) [
  | inr e ↦
      inl (
        n,
        unfold rtrim_loop in rw e refl,
        omega arith,
        ground arith,
        λ j l b. absurd (omega arith),
      )
  | inl e ↦ elim (loop_lem str c n) [
    | inl (p, run, l, ne, all) ↦
        inl (p, unfold rtrim_loop in rw e run, omega arith, ne, λ j a b. ground (arith, all j))
    | inr (run, all) ↦ inr (unfold rtrim_loop in rw e run, λ j a b. ground (arith, all j))
  ]
]

-- With memory for the copy, `flb_rtrim` returns the string up to its last byte that is not `c`; if
-- every byte is `c`, or there is none, it reads before the start of the string.
pub rtrim_lem :
    (str : List ℕ) (c : ℕ)
    → ((p : ℕ) × (rtrim true str c ≡ some (some (take str (p + 1))))
        × (p < length str)
        × (get_or str p 0 ≢ c)
        × All str c (p + 1) (length str))
      ⊎ ((rtrim true str c ≡ none) × All str c 0 (length str))
unfolding rtrim strndup
rtrim_lem str c = elim (loop_lem str c (length str)) [
  | inl (p, run, l, ne, all) ↦ inl (p, rw (rtrim, run) refl, l, ne, all)
  | inr (run, all) ↦ inr (rw (rtrim, run) refl, all)
]
