-- ===== src/Langinfo/Names.antt =====
-- Every item has its text, and a short name is the start of the long one.
use Prim.Native.String.{String}
use my_repo.Base.{
  ℕ, zero, suc, ◌+◌, ◌^◌, ◌≤◌, ◌<◌, ◌≡◌, ◌≢◌, ◌⊎◌, inl, inr, refl, true, false, Bool-cases, ◌||◌,
  ltb, leb, List, [], ◌∷◌, Option, none, some, arith, get_elem?, Bool, ◌&&◌, ◌==◌, below, codes,
}
use my_repo.Langinfo.{lc_time_c, nl_langinfo}
use my_repo.Langinfo.Items.{day_1, abday_1, mon_1, abmon_1}

abbrev pub take : ℕ → List ℕ → List ℕ
take zero l = []
take (suc n) [] = []
take (suc n) (c ∷ l) = c ∷ take n l

abbrev pub text : Option String → List ℕ
text none = []
text (some s) = codes s

abbrev not_empty : Option String → Bool
not_empty none = false
not_empty (some String.[]) = false
not_empty (some (String.◌∷◌ c s)) = true

found : (t : Option String) → not_empty t ≡ true → (s : String) × (t ≡ some s) × (codes s ≢ [])
found none e = absurd cc
found (some String.[]) e = absurd cc
found (some (String.◌∷◌ c s)) e = (String.◌∷◌ c s, refl, λ empty. cc)

abbrev same : List ℕ → List ℕ → Bool
same [] [] = true
same (a ∷ l) (b ∷ m) = a == b && same l m
same _ _ = false

same_eq : (l m : List ℕ) → same l m ≡ true → l ≡ m
same_eq [] [] e = refl
same_eq [] (b ∷ m) e = absurd cc
same_eq (a ∷ l) [] e = absurd cc
same_eq (a ∷ l) (b ∷ m) e = ground (arith, same_eq l m)

inside :
    (item : ℕ) → item < 44 → (s : String) × (get_elem? lc_time_c item ≡ some s) × (codes s ≢ [])
inside item l =
    found (get_elem? lc_time_c item) (below 44 (λ i. not_empty (get_elem? lc_time_c i)) refl item l)

-- `nl_langinfo` reads inside the table: for an item of the header the text is that of the table and
-- not empty, and for every other `int`, negative ones too, it is empty.
pub nl_langinfo_lem :
    (item : ℕ)
    → item < 2 ^ 32
    → ((item < 44)
        × ((s : String) × (get_elem? lc_time_c item ≡ some s)
            × (nl_langinfo item ≡ some s)
            × (codes s ≢ [])))
      ⊎ ((44 ≤ item) × (nl_langinfo item ≡ some ""))
unfolding nl_langinfo
nl_langinfo_lem item l = elim (Bool-cases (leb (2 ^ 31) item || ltb 0x2b item)) [
  | inl out ↦ inr (ground arith, rw out refl)
  | inr low ↦
      let small : item < 44 = ground arith in
      let (s, e, ne) = inside item small in inl (small, (s, e, rw low e, ne))
]

abday-day :
    (i : ℕ) → i < 7 → text (nl_langinfo (abday_1 + i)) ≡ take 3 (text (nl_langinfo (day_1 + i)))
unfolding nl_langinfo
abday-day i l = same_eq _ _ (
    below 7 (λ i. same (text (nl_langinfo (abday_1 + i))) (take 3 (text (nl_langinfo (day_1 + i)))))
      refl i l)

abmon-mon :
    (j : ℕ) → j < 12 → text (nl_langinfo (abmon_1 + j)) ≡ take 3 (text (nl_langinfo (mon_1 + j)))
unfolding nl_langinfo
abmon-mon j l = same_eq _ _ (
    below 12
      (λ j. same (text (nl_langinfo (abmon_1 + j))) (take 3 (text (nl_langinfo (mon_1 + j))))) refl
      j l)

-- The short name of a day and the short name of a month are the first three characters of the long
-- ones.
pub short_names :
    (i j : ℕ)
    → i < 7
    → j < 12
    → (text (nl_langinfo (abday_1 + i)) ≡ take 3 (text (nl_langinfo (day_1 + i))))
      × (text (nl_langinfo (abmon_1 + j)) ≡ take 3 (text (nl_langinfo (mon_1 + j))))
short_names i j l m = (abday-day i l, abmon-mon j m)
