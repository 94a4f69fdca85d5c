-- ===== src/Utf8/RoundTrip.antt =====
-- The decoder gives back every code point from its encoding.
use my_repo.Base.{
  all_below, below, ℕ, ◌+◌, ◌*◌, ◌/◌, ◌%◌, ◌^◌, ◌≤◌, ◌<◌, ◌≡◌, refl, ◌∙◌, ap, Bool, true, false,
  ◌&&◌, ◌||◌, List, [], ◌∷◌, arith, ◌==◌, ltb, leb, if◌then◌else◌, bit_and, bit_or, by_digits,
  digit-bit_or, ==_iff, ◌⊎◌, bit_or_fields, inl, inr,
}
use native.Mathlib.Decide.{dec_lt}
use my_repo.Utf8.{Decoder, utf8_decode, utf8_accept}
use my_repo.Utf8.Decode.{decode_all, type_of, next_state}

abbrev pub begin : Decoder
begin = record { state = 0; codep = 0 }

-- The encodings of one to four bytes.
abbrev pub encode : ℕ → List ℕ
encode cp =
    if ltb cp 128
    then cp ∷ []
    else if ltb cp 2048
    then (192 + cp / 64) ∷ (128 + cp % 64) ∷ []
    else if ltb cp 65536
    then (224 + cp / 4096) ∷ (128 + cp / 64 % 64) ∷ (128 + cp % 64) ∷ []
    else (240 + cp / 262144) ∷ (128 + cp / 4096 % 64) ∷ (128 + cp / 64 % 64) ∷ (128 + cp % 64) ∷ []

abbrev pub is_at : Decoder → (state codep : ℕ) → Bool
is_at d state codep = (d.state == state) && (d.codep == codep)

pub small_codes : all_below 2048 (λ cp. is_at (decode_all (encode cp) begin) 0 cp) ≡ true
unfolding utf8_decode
small_codes = refl

-- The first two bytes of three, and of four.
two_of_three :
    all_below 16 (λ h. all_below 64 (λ m.
      let q = h * 64 + m in
      (ltb q 32 || (leb 864 q && ltb q 896))
      || is_at (decode_all ((224 + h) ∷ (128 + m) ∷ []) begin) 2 q))
    ≡ true
unfolding utf8_decode
two_of_three = refl

two_of_four :
    all_below 5 (λ h. all_below 64 (λ m.
      let q = h * 64 + m in
      (ltb q 16 || leb 272 q) || is_at (decode_all ((240 + h) ∷ (128 + m) ∷ []) begin) 3 q))
    ≡ true
unfolding utf8_decode
two_of_four = refl

-- The states behind which one byte, and two, are missing.
next_states :
    all_below 64
      (λ x. (next_state 2 (type_of (128 + x)) == 0) && (next_state 3 (type_of (128 + x)) == 2))
    ≡ true
next_states = refl

low_bits : all_below 64 (λ x. bit_and (128 + x) 0x3f == x) ≡ true
low_bits = refl

or_right : (a b : Bool) → a ≡ false → (a || b) ≡ true → b ≡ true
or_right a b n e = ground arith

and_left : (a b : Bool) → (a && b) ≡ true → a ≡ true
and_left a b e = ground arith

and_right : (a b : Bool) → (a && b) ≡ true → b ≡ true
and_right a b e = ground arith

proper_three :
    (q : ℕ) → 32 ≤ q → (q < 864) ⊎ (896 ≤ q) → (ltb q 32 || (leb 864 q && ltb q 896)) ≡ false
proper_three q l p = ground arith

proper_four : (q : ℕ) → 16 ≤ q → q < 272 → (ltb q 16 || leb 272 q) ≡ false
proper_four q l p = ground arith

bit_or_swap : (a b : ℕ) → bit_or a b ≡ bit_or b a
bit_or_swap a b =
    by_digits (bit_or a b) (bit_or b a)
      (λ j. rw (digit-bit_or j a b, digit-bit_or j b a) (omega arith))

-- A byte that continues: its six bits are put behind the code point so far.
continues :
    (s t c x : ℕ)
    → ((s ≡ 2) × (t ≡ 0)) ⊎ ((s ≡ 3) × (t ≡ 2))
    → c * 64 < 2 ^ 32
    → x < 64
    → utf8_decode (record { state = s; codep = c }) (128 + x)
      ≡ record { state = t; codep = c * 64 + x }
unfolding utf8_decode
continues s t c x which wide l =
    let low : bit_and (128 + x) 0x3f ≡ x =
      (==_iff _ _).0 (below 64 (λ y. bit_and (128 + y) 0x3f == y) low_bits x l) in
    let next =
      below 64
        (λ y. (next_state 2 (type_of (128 + y)) == 0) && (next_state 3 (type_of (128 + y)) == 2))
        next_states x l in
    let fits : c * 64 % 2 ^ 32 ≡ c * 64 = omega arith in
    let joined : bit_or x (c * 64) ≡ c * 64 + x = bit_or_swap x (c * 64) ∙ bit_or_fields 6 c x l in
    elim which [
      | inl (e, f) ↦
          let n : next_state 2 (type_of (128 + x)) ≡ 0 = (==_iff _ _).0 (and_left _ _ next) in
          rw (e, f, low, fits, joined, n) refl
      | inr (e, f) ↦
          let n : next_state 3 (type_of (128 + x)) ≡ 2 = (==_iff _ _).0 (and_right _ _ next) in
          rw (e, f, low, fits, joined, n) refl
    ]

pub is_at-eq : (d : Decoder) (s c : ℕ) → is_at d s c ≡ true → d ≡ record { state = s; codep = c }
is_at-eq d s c e =
    let f : d.state ≡ s = ground arith in
    let g : d.codep ≡ c = ground arith in
    ap (λ t. record { state = t; codep = d.codep }) f ∙ ap (λ k. record { state = s; codep = k }) g

-- The first two bytes of an encoding of three bytes and of four.
starts_three :
    (h m : ℕ)
    → h < 16
    → m < 64
    → 32 ≤ h * 64 + m
    → (h * 64 + m < 864) ⊎ (896 ≤ h * 64 + m)
    → decode_all ((224 + h) ∷ (128 + m) ∷ []) begin ≡ record { state = 2; codep = h * 64 + m }
starts_three h m lh lm long plain =
    let row =
      below 16
        (λ h. all_below 64 (λ m.
          let q = h * 64 + m in
          (ltb q 32 || (leb 864 q && ltb q 896))
          || is_at (decode_all ((224 + h) ∷ (128 + m) ∷ []) begin) 2 q))
        two_of_three h lh in
    let cell =
      below 64
        (λ m.
          let q = h * 64 + m in
          (ltb q 32 || (leb 864 q && ltb q 896))
          || is_at (decode_all ((224 + h) ∷ (128 + m) ∷ []) begin) 2 q)
        row m lm in
    let no = proper_three (h * 64 + m) long plain in
    is_at-eq (decode_all ((224 + h) ∷ (128 + m) ∷ []) begin) 2 (h * 64 + m) (or_right _ _ no cell)

pub starts_four :
    (h m : ℕ)
    → h < 5
    → m < 64
    → 16 ≤ h * 64 + m
    → h * 64 + m < 272
    → decode_all ((240 + h) ∷ (128 + m) ∷ []) begin ≡ record { state = 3; codep = h * 64 + m }
starts_four h m lh lm long short =
    let row =
      below 5
        (λ h. all_below 64 (λ m.
          let q = h * 64 + m in
          (ltb q 16 || leb 272 q) || is_at (decode_all ((240 + h) ∷ (128 + m) ∷ []) begin) 3 q))
        two_of_four h lh in
    let cell =
      below 64
        (λ m.
          let q = h * 64 + m in
          (ltb q 16 || leb 272 q) || is_at (decode_all ((240 + h) ∷ (128 + m) ∷ []) begin) 3 q)
        row m lm in
    let no = proper_four (h * 64 + m) long short in
    is_at-eq (decode_all ((240 + h) ∷ (128 + m) ∷ []) begin) 3 (h * 64 + m) (or_right _ _ no cell)

-- The first two bytes of three.
pub two_bytes :
    (cp : ℕ)
    → 2048 ≤ cp
    → cp < 65536
    → (cp < 0xD800) ⊎ (0xE000 ≤ cp)
    → decode_all ((224 + cp / 4096) ∷ (128 + cp / 64 % 64) ∷ []) begin
      ≡ record { state = 2; codep = cp / 64 }
two_bytes cp l u plain =
    let q : cp / 4096 * 64 + cp / 64 % 64 ≡ cp / 64 = omega arith in
    starts_three (cp / 4096) (cp / 64 % 64) (omega arith) (omega arith) (omega arith) (apart plain)
    ∙ ap (λ k. record { state = 2; codep = k }) q
  where
    apart :
        (cp < 0xD800) ⊎ (0xE000 ≤ cp)
        → (cp / 4096 * 64 + cp / 64 % 64 < 864) ⊎ (896 ≤ cp / 4096 * 64 + cp / 64 % 64)
    apart (inl a) = inl (omega arith)
    apart (inr a) = inr (omega arith)

pub three_bytes :
    (cp : ℕ)
    → 2048 ≤ cp
    → cp < 65536
    → (cp < 0xD800) ⊎ (0xE000 ≤ cp)
    → decode_all ((224 + cp / 4096) ∷ (128 + cp / 64 % 64) ∷ (128 + cp % 64) ∷ []) begin
      ≡ record { state = 0; codep = cp }
three_bytes cp l u plain =
    let last = continues 2 0 (cp / 64) (cp % 64) (inl (refl, refl)) (omega arith) (omega arith) in
    let whole : cp / 64 * 64 + cp % 64 ≡ cp = omega arith in
    ap (λ d. utf8_decode d (128 + cp % 64)) (two_bytes cp l u plain)
    ∙ last
    ∙ ap (λ k. record { state = 0; codep = k }) whole

-- The first three bytes of four.
pub third_of_four :
    (cp : ℕ)
    → 65536 ≤ cp
    → cp < 0x110000
    → decode_all ((240 + cp / 262144) ∷ (128 + cp / 4096 % 64) ∷ (128 + cp / 64 % 64) ∷ []) begin
      ≡ record { state = 2; codep = cp / 64 }
third_of_four cp l u =
    let q : cp / 262144 * 64 + cp / 4096 % 64 ≡ cp / 4096 = omega arith in
    let two =
      starts_four (cp / 262144) (cp / 4096 % 64) (omega arith) (omega arith) (omega arith)
        (omega arith) in
    let third =
      continues 3 2 (cp / 4096) (cp / 64 % 64) (inr (refl, refl)) (omega arith) (omega arith) in
    let r : cp / 4096 * 64 + cp / 64 % 64 ≡ cp / 64 = omega arith in
    ap (λ d. utf8_decode d (128 + cp / 64 % 64)) (two ∙ ap (λ k. record { state = 3; codep = k }) q)
    ∙ third
    ∙ ap (λ k. record { state = 2; codep = k }) r

pub four_bytes :
    (cp : ℕ)
    → 65536 ≤ cp
    → cp < 0x110000
    → decode_all
        ((240 + cp / 262144) ∷ (128 + cp / 4096 % 64) ∷ (128 + cp / 64 % 64) ∷ (128 + cp % 64) ∷ [])
        begin
      ≡ record { state = 0; codep = cp }
four_bytes cp l u =
    let last = continues 2 0 (cp / 64) (cp % 64) (inl (refl, refl)) (omega arith) (omega arith) in
    let whole : cp / 64 * 64 + cp % 64 ≡ cp = omega arith in
    ap (λ d. utf8_decode d (128 + cp % 64)) (third_of_four cp l u)
    ∙ last
    ∙ ap (λ k. record { state = 0; codep = k }) whole

pub encode_three :
    (cp : ℕ)
    → 2048 ≤ cp
    → cp < 65536
    → encode cp ≡ (224 + cp / 4096) ∷ (128 + cp / 64 % 64) ∷ (128 + cp % 64) ∷ []
encode_three cp l u =
    let a : ltb cp 128 ≡ false = ground arith in
    let b : ltb cp 2048 ≡ false = ground arith in
    let c : ltb cp 65536 ≡ true = ground arith in rw (a, b, c) refl

pub encode_four :
    (cp : ℕ)
    → 65536 ≤ cp
    → encode cp
      ≡ (240 + cp / 262144) ∷ (128 + cp / 4096 % 64) ∷ (128 + cp / 64 % 64) ∷ (128 + cp % 64) ∷ []
encode_four cp l =
    let a : ltb cp 128 ≡ false = ground arith in
    let b : ltb cp 2048 ≡ false = ground arith in
    let c : ltb cp 65536 ≡ false = ground arith in rw (a, b, c) refl

-- From the accepting state, decoding the encoding of a code point below 0x110000 that is no
-- surrogate, in one to four bytes, accepts it and gives the code point back.
pub utf8_decode-encode :
    (cp : ℕ)
    → cp < 0x110000
    → (cp < 0xD800) ⊎ (0xE000 ≤ cp)
    → decode_all (encode cp) begin ≡ record { state = utf8_accept; codep = cp }
utf8_decode-encode cp u plain = elim (dec_lt cp 2048) [
  | yes small ↦
      is_at-eq (decode_all (encode cp) begin) 0 cp
        (below 2048 (λ c. is_at (decode_all (encode c) begin) 0 c) small_codes cp small)
  | no big ↦ elim (dec_lt cp 65536) [
    | yes medium ↦
        ap (λ bs. decode_all bs begin) (encode_three cp (omega arith) medium)
        ∙ three_bytes cp (omega arith) medium plain
    | no large ↦
        ap (λ bs. decode_all bs begin) (encode_four cp (omega arith))
        ∙ four_bytes cp (omega arith) u
  ]
]
