-- ===== src/Str/Tests.antt =====
-- The theorem on flb_str.h at the bytes of "ab  " and the space.
use my_repo.Base.{◌+◌, ◌<◌, ℕ, ◌≡◌, ◌≢◌, refl, ◌⊎◌, true, none, some, List, [], ◌∷◌, get_or}
use my_repo.Str.{take, rtrim}
use my_repo.Str.Trim.{All, rtrim_lem}

abbrev str : List ℕ
str = 97 ∷ 98 ∷ 32 ∷ 32 ∷ []

rtrim_lem_example :
    ((p : ℕ) × (rtrim true str 32 ≡ some (some (take str (p + 1))))
      × (p < 4)
      × (get_or str p 0 ≢ 32)
      × All str 32 (p + 1) 4)
    ⊎ ((rtrim true str 32 ≡ none) × All str 32 0 4)
rtrim_lem_example = rtrim_lem str 32

trim_run : rtrim true str 32 ≡ some (some (97 ∷ 98 ∷ []))
unfolding rtrim
trim_run = refl

-- A string of spaces only.
underrun_run : rtrim true (32 ∷ 32 ∷ []) 32 ≡ none
unfolding rtrim
underrun_run = refl
