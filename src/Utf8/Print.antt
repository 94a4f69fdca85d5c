-- ===== src/Utf8/Print.antt =====
-- `flb_utf8_print` on encoded text.
use my_repo.Base.{
  all_below, below, ℕ, ◌+◌, ◌/◌, ◌%◌, ◌≤◌, ◌<◌, ◌≡◌, refl, ◌∙◌, ap, Bool, true, false, not, Option,
  some, ◌||◌, List, [], ◌∷◌, ◌++◌, append_assoc, append-nil, subst, sym, arith, ◌==◌, ltb, ◌⊎◌,
  if◌then◌else◌,
}
use native.Mathlib.Decide.{dec_lt}
use my_repo.Utf8.{Decoder, utf8_decode, utf8_print_loop, utf8_print}
use my_repo.Utf8.Decode.{decode_all}
use my_repo.Utf8.RoundTrip.{
  begin, encode, two_bytes, starts_four, three_bytes, third_of_four, four_bytes, encode_three,
  encode_four, utf8_decode-encode,
}

abbrev waits : ℕ → Bool
waits byte = not ((utf8_decode begin byte).state == 0)

-- The first byte of an encoding of two, three or four bytes is not all of it.
leads_two : all_below 32 (λ h. ltb h 2 || waits (192 + h)) ≡ true
unfolding utf8_decode
leads_two = refl

leads_three : all_below 16 (λ h. waits (224 + h)) ≡ true
unfolding utf8_decode
leads_three = refl

leads_four : all_below 5 (λ h. waits (240 + h)) ≡ true
unfolding utf8_decode
leads_four = refl

first_any : (c b : ℕ) → utf8_decode (record { state = 0; codep = c }) b ≡ utf8_decode begin b
unfolding utf8_decode
first_any c b = refl

abbrev next_print : List ℕ → List ℕ → Decoder → Option (List ℕ × ℕ)
next_print s printed e =
    if e.state == 0
    then utf8_print_loop s e (printed ++ e.codep ∷ [])
    else utf8_print_loop s e printed

print_step :
    (b : ℕ) (s printed : List ℕ) (d : Decoder)
    → 0 < b
    → utf8_print_loop (b ∷ s) d printed ≡ next_print s printed (utf8_decode d b)
unfolding utf8_print_loop
print_step b s printed d l = let more : (b == 0) ≡ false = ground arith in rw more refl

quiet :
    (b : ℕ) (s printed : List ℕ) (d e : Decoder)
    → 0 < b
    → utf8_decode d b ≡ e
    → (e.state == 0) ≡ false
    → utf8_print_loop (b ∷ s) d printed ≡ utf8_print_loop s e printed
quiet b s printed d e l run ne =
    print_step b s printed d l ∙ ap (next_print s printed) run ∙ rw (next_print, ne) refl

prints :
    (b cp : ℕ) (s printed : List ℕ) (d : Decoder)
    → 0 < b
    → utf8_decode d b ≡ record { state = 0; codep = cp }
    → utf8_print_loop (b ∷ s) d printed
      ≡ utf8_print_loop s (record { state = 0; codep = cp }) (printed ++ cp ∷ [])
prints b cp s printed d l run = print_step b s printed d l ∙ ap (next_print s printed) run

not_zero : (b : Bool) → not b ≡ true → b ≡ false
not_zero b e = ground arith

or_right : (a b : Bool) → a ≡ false → (a || b) ≡ true → b ≡ true
or_right a b n e = ground arith

abbrev Prints : (cp : ℕ) → List ℕ → Type 0
Prints cp bytes =
    (c : ℕ) (s printed : List ℕ)
    → utf8_print_loop (bytes ++ s) (record { state = 0; codep = c }) printed
      ≡ utf8_print_loop s (record { state = 0; codep = cp }) (printed ++ cp ∷ [])

print_one :
    (cp : ℕ)
    → 0 < cp
    → decode_all (cp ∷ []) begin ≡ record { state = 0; codep = cp }
    → Prints cp (cp ∷ [])
print_one cp l run c s printed = prints cp cp s printed _ l (first_any c cp ∙ run)

print_two :
    (cp b : ℕ)
    → 0 < b
    → 2 ≤ cp / 64
    → cp / 64 < 32
    → decode_all ((192 + cp / 64) ∷ b ∷ []) begin ≡ record { state = 0; codep = cp }
    → Prints cp ((192 + cp / 64) ∷ b ∷ [])
print_two cp b lb l u run c s printed =
    let high : ltb (cp / 64) 2 ≡ false = ground arith in
    let cell = below 32 (λ h. ltb h 2 || waits (192 + h)) leads_two (cp / 64) u in
    quiet (192 + cp / 64) (b ∷ s) printed _ (utf8_decode begin (192 + cp / 64)) (omega arith)
      (first_any c (192 + cp / 64)) (not_zero _ (or_right _ _ high cell))
    ∙ prints b cp s printed _ lb run

print_three :
    (cp : ℕ)
    → 2048 ≤ cp
    → cp < 65536
    → (cp < 0xD800) ⊎ (0xE000 ≤ cp)
    → Prints cp ((224 + cp / 4096) ∷ (128 + cp / 64 % 64) ∷ (128 + cp % 64) ∷ [])
print_three cp l u plain c s printed =
    let b1 = 224 + cp / 4096 in
    let b2 = 128 + cp / 64 % 64 in
    let b3 = 128 + cp % 64 in
    let two = two_bytes cp l u plain in
    quiet b1 (b2 ∷ b3 ∷ s) printed _ (utf8_decode begin b1) (omega arith) (first_any c b1)
      (not_zero _ (below 16 (λ h. waits (224 + h)) leads_three (cp / 4096) (omega arith)))
    ∙ quiet b2 (b3 ∷ s) printed _ (decode_all (b1 ∷ b2 ∷ []) begin) (omega arith) refl
        (ap (λ d. d.state == 0) two)
    ∙ prints b3 cp s printed _ (omega arith) (three_bytes cp l u plain)

print_four :
    (cp : ℕ)
    → 65536 ≤ cp
    → cp < 0x110000
    → Prints cp
        ((240 + cp / 262144) ∷ (128 + cp / 4096 % 64) ∷ (128 + cp / 64 % 64) ∷ (128 + cp % 64) ∷ [])
print_four cp l u c s printed =
    let b1 = 240 + cp / 262144 in
    let b2 = 128 + cp / 4096 % 64 in
    let b3 = 128 + cp / 64 % 64 in
    let b4 = 128 + cp % 64 in
    let two =
      starts_four (cp / 262144) (cp / 4096 % 64) (omega arith) (omega arith) (omega arith)
        (omega arith) in
    quiet b1 (b2 ∷ b3 ∷ b4 ∷ s) printed _ (utf8_decode begin b1) (omega arith) (first_any c b1)
      (not_zero _ (below 5 (λ h. waits (240 + h)) leads_four (cp / 262144) (omega arith)))
    ∙ quiet b2 (b3 ∷ b4 ∷ s) printed _ (decode_all (b1 ∷ b2 ∷ []) begin) (omega arith) refl
        (ap (λ d. d.state == 0) two)
    ∙ quiet b3 (b4 ∷ s) printed _ (decode_all (b1 ∷ b2 ∷ b3 ∷ []) begin) (omega arith) refl
        (ap (λ d. d.state == 0) (third_of_four cp l u))
    ∙ prints b4 cp s printed _ (omega arith) (four_bytes cp l u)

-- A code point from 1 to 0x10ffff that is no surrogate.
abbrev pub Scalar : ℕ → Type 0
Scalar cp = (0 < cp) × (cp < 0x110000) × ((cp < 0xD800) ⊎ (0xE000 ≤ cp))

abbrev pub AllScalar : List ℕ → Type 0
AllScalar [] = Unit {0}
AllScalar (cp ∷ cps) = Scalar cp × AllScalar cps

abbrev pub encode_all : List ℕ → List ℕ
encode_all [] = []
encode_all (cp ∷ cps) = encode cp ++ encode_all cps

encode_one : (cp : ℕ) → cp < 128 → encode cp ≡ cp ∷ []
encode_one cp l = let a : ltb cp 128 ≡ true = ground arith in rw a refl

encode_two : (cp : ℕ) → 128 ≤ cp → cp < 2048 → encode cp ≡ (192 + cp / 64) ∷ (128 + cp % 64) ∷ []
encode_two cp l u =
    let a : ltb cp 128 ≡ false = ground arith in
    let b : ltb cp 2048 ≡ true = ground arith in rw (a, b) refl

Prints-encode : (cp : ℕ) → Scalar cp → Prints cp (encode cp)
Prints-encode cp (pos, u, plain) = elim (dec_lt cp 2048) [
  | yes small ↦
      let run = utf8_decode-encode cp u plain in
      elim (dec_lt cp 128) [
        | yes one ↦
            let e = encode_one cp one in
            subst (Prints cp) (sym e) (
              print_one cp pos
                (subst (λ bs. decode_all bs begin ≡ record { state = 0; codep = cp }) e run))
        | no two ↦
            let e = encode_two cp (omega arith) small in
            subst (Prints cp) (sym e) (
              print_two cp (128 + cp % 64) (omega arith) (omega arith) (omega arith)
                (subst (λ bs. decode_all bs begin ≡ record { state = 0; codep = cp }) e run))
      ]
  | no big ↦ elim (dec_lt cp 65536) [
    | yes medium ↦
        subst (Prints cp) (sym (encode_three cp (omega arith) medium))
          (print_three cp (omega arith) medium plain)
    | no large ↦
        subst (Prints cp) (sym (encode_four cp (omega arith))) (print_four cp (omega arith) u)
  ]
]

print_loop-encode_all :
    (cps rest : List ℕ) (c : ℕ) (printed : List ℕ)
    → AllScalar cps
    → utf8_print_loop (encode_all cps ++ 0 ∷ rest) (record { state = 0; codep = c }) printed
      ≡ some (printed ++ cps, 0)
print_loop-encode_all [] rest c printed a =
    unfold utf8_print_loop in ap (λ l. some (l, 0)) (sym (append-nil printed))
print_loop-encode_all (cp ∷ cps) rest c printed (s, a) =
    ap (λ bytes. utf8_print_loop bytes (record { state = 0; codep = c }) printed)
      (append_assoc (encode cp) (encode_all cps) (0 ∷ rest))
    ∙ Prints-encode cp s c (encode_all cps ++ 0 ∷ rest) printed
    ∙ print_loop-encode_all cps rest cp (printed ++ cp ∷ []) a
    ∙ ap (λ l. some (l, 0)) (append_assoc printed (cp ∷ []) cps)

-- On the encoding of any text, a list of code points from 1 to 0x10ffff that are no surrogates, with
-- the byte 0 behind it, `flb_utf8_print` prints exactly these code points, in order, does not
-- complain, and reads nothing of what follows the byte 0.
pub utf8_print-encode_all :
    (cps rest : List ℕ) → AllScalar cps → utf8_print (encode_all cps ++ 0 ∷ rest) ≡ some (cps, true)
unfolding utf8_print
utf8_print-encode_all cps rest a = rw (utf8_print, print_loop-encode_all cps rest 0 [] a) refl
