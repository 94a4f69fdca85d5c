-- ===== src/Uri/Kept.antt =====
-- The characters that are kept, as a text.
use my_repo.Base.{all_below, below, ℕ, ◌<◌, ◌≡◌, refl, Bool, true, false, not, List, [], ◌∷◌, has}
use my_repo.Uri.{uri_to_encode}

-- "0123456789ABCDEFGHIJKLMNOPQRSTUVWXYZabcdefghijklmnopqrstuvwxyz?&-_.~/="
abbrev pub kept : List ℕ
kept =
    48 ∷ 49 ∷ 50 ∷ 51 ∷ 52 ∷ 53 ∷ 54 ∷ 55 ∷ 56 ∷ 57 ∷ 65 ∷ 66 ∷ 67 ∷ 68 ∷ 69 ∷ 70 ∷ 71 ∷ 72 ∷ 73
    ∷ 74 ∷ 75 ∷ 76 ∷ 77 ∷ 78 ∷ 79 ∷ 80 ∷ 81 ∷ 82 ∷ 83 ∷ 84 ∷ 85 ∷ 86 ∷ 87 ∷ 88 ∷ 89 ∷ 90 ∷ 97 ∷ 98
    ∷ 99 ∷ 100 ∷ 101 ∷ 102 ∷ 103 ∷ 104 ∷ 105 ∷ 106 ∷ 107 ∷ 108 ∷ 109 ∷ 110 ∷ 111 ∷ 112 ∷ 113 ∷ 114
    ∷ 115 ∷ 116 ∷ 117 ∷ 118 ∷ 119 ∷ 120 ∷ 121 ∷ 122 ∷ 63 ∷ 38 ∷ 45 ∷ 95 ∷ 46 ∷ 126 ∷ 47 ∷ 61 ∷ []

abbrev xnor : Bool → Bool → Bool
xnor true b = b
xnor false b = not b

tests : all_below 256 (λ c. xnor (uri_to_encode c) (not (has c kept))) ≡ true
unfolding uri_to_encode
tests = refl

xnor-eq : (a b : Bool) → xnor a b ≡ true → a ≡ b
xnor-eq true true e = refl
xnor-eq false false e = refl
xnor-eq true false e = cc
xnor-eq false true e = cc

-- For every byte, `flb_uri_to_encode` says that a character is to be encoded exactly if it is none of
-- the letters, the digits and the eight signs of `kept`.
pub uri_to_encode_lem : (c : ℕ) → c < 256 → uri_to_encode c ≡ not (has c kept)
uri_to_encode_lem c l =
    xnor-eq _ _ (below 256 (λ c. xnor (uri_to_encode c) (not (has c kept))) tests c l)
