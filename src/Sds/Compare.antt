-- ===== src/Sds/Compare.antt =====
-- Comparison of strings with a header, and the room that is left in one.
use my_repo.Base.{
  ℕ, ◌+◌, ◌^◌, ◌≤◌, ◌<◌, ◌≡◌, ◌↔◌, inl, inr, false, List, arith, subst, sym, ◌==◌, Bool-cases,
  to_size,
}
use my_repo.Sds.{Sds, int_minus_one, sds_avail, sds_len_set, sds_alloc, sds_cmp, sds_casecmp}

-- For a string that is no longer than its allocation, the room that `flb_sds_avail` finds after
-- `flb_sds_len_set` to a length that fits is the allocation less that length, without wrap-around.
pub sds_avail-sds_len_set :
    (s : Sds) (len : ℕ)
    → s.alloc < 2 ^ 64
    → len ≤ s.alloc
    → sds_avail (sds_len_set s len) + len ≡ sds_alloc s
unfolding sds_avail sds_len_set sds_alloc
sds_avail-sds_len_set s len w l = omega arith

module _ (cmp : List ℕ → List ℕ → ℕ → ℕ) (Same : List ℕ → List ℕ → ℕ → Type 0)
    (doc : (a b : List ℕ) (n : ℕ) → (cmp a b n ≡ 0) ↔ Same a b n) where
  -- If the comparison of the C library answers 0 exactly for texts that are the same up to a length,
  -- `flb_sds_cmp` and `flb_sds_casecmp` answer 0 exactly if the length that is given, converted to
  -- `size_t`, is the string's, and the texts are the same up to it.
  pub sds_cmp_iff :
      (s : Sds) (str : List ℕ) (len : ℕ)
      → ((sds_cmp cmp s str len ≡ 0) ↔ ((s.len ≡ to_size len) × Same s.buf str s.len))
        × ((sds_casecmp cmp s str len ≡ 0) ↔ ((s.len ≡ to_size len) × Same s.buf str s.len))
  unfolding sds_cmp sds_casecmp
  sds_cmp_iff s str len = elim (Bool-cases (s.len == to_size len)) [
    | inl e ↦ let e' : s.len ≡ to_size len = ground arith in let both = same e' in rw e (both, both)
    | inr ne ↦ rw ne (never ne, never ne)
  ]
    where
      same :
          s.len ≡ to_size len
          → (cmp s.buf str (to_size len) ≡ 0) ↔ ((s.len ≡ to_size len) × Same s.buf str s.len)
      same e = (
        (λ z. (e, subst (Same s.buf str) (sym e) ((doc s.buf str (to_size len)).0 z))),
        (λ p. (doc s.buf str (to_size len)).1 (subst (Same s.buf str) e p.1)),
      )

      never :
          (s.len == to_size len) ≡ false
          → (int_minus_one ≡ 0) ↔ ((s.len ≡ to_size len) × Same s.buf str s.len)
      never ne = ((λ z. absurd (omega arith)), (λ p. absurd (ground (arith, p.0))))
