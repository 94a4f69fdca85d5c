-- ===== src/Utf8/Decode.antt =====
-- The states of the decoder: it stays within its table, and never leaves the rejecting state.
use my_repo.Base.{
  all_below, below, ℕ, ◌+◌, ◌*◌, ◌<◌, ◌≡◌, refl, true, List, [], ◌∷◌, arith, ◌==◌, ltb, get_or,
}
use my_repo.Utf8.{Decoder, utf8d, utf8_decode, utf8_reject}

abbrev pub type_of : ℕ → ℕ
type_of byte = get_or utf8d byte 400

abbrev pub next_state : (state type : ℕ) → ℕ
next_state state type = get_or utf8d (256 + state * 16 + type) 400

types : all_below 256 (λ b. ltb (type_of b) 12) ≡ true
types = refl

pub ltb_lt : (a b : ℕ) → ltb a b ≡ true → a < b
ltb_lt a b e = ground arith

type_bound : (b : ℕ) → b < 256 → type_of b < 12
type_bound b l = ltb_lt (type_of b) 12 (below 256 (λ c. ltb (type_of c) 12) types b l)

states : all_below 9 (λ s. all_below 12 (λ t. ltb (next_state s t) 9)) ≡ true
states = refl

state_bound : (s t : ℕ) → s < 9 → t < 12 → next_state s t < 9
state_bound s t ls lt = ltb_lt (next_state s t) 9 (below 12 (λ u. ltb (next_state s u) 9) row t lt)
  where
    row : all_below 12 (λ u. ltb (next_state s u) 9) ≡ true
    row = below 9 (λ r. all_below 12 (λ u. ltb (next_state r u) 9)) states s ls

-- From one of the nine states and for a byte, `flb_utf8_decode` reads its table below the 400
-- entries that it has, and comes to one of the nine states.
pub utf8_decode_bound :
    (d : Decoder) (byte : ℕ)
    → d.state < 9
    → byte < 256
    → (256 + d.state * 16 + get_or utf8d byte 400 < 400) × ((utf8_decode d byte).state < 9)
unfolding utf8_decode
utf8_decode_bound d byte ls lb =
    (omega (arith, type_bound byte lb), state_bound d.state (type_of byte) ls (type_bound byte lb))

abbrev pub decode_all : List ℕ → Decoder → Decoder
decode_all [] d = d
decode_all (b ∷ bs) d = decode_all bs (utf8_decode d b)

abbrev pub Bytes : List ℕ → Type 0
Bytes [] = Unit {0}
Bytes (b ∷ bs) = (b < 256) × Bytes bs

rejects : all_below 12 (λ t. next_state 1 t == 1) ≡ true
rejects = refl

-- Once `flb_utf8_decode` rejects, it rejects whatever bytes follow.
pub utf8_decode-reject :
    (bs : List ℕ) (d : Decoder)
    → Bytes bs
    → d.state ≡ utf8_reject
    → (decode_all bs d).state ≡ utf8_reject
utf8_decode-reject [] d bytes r = r
utf8_decode-reject (b ∷ bs) d (lb, bytes) r = utf8_decode-reject bs (utf8_decode d b) bytes step
  where
    step : (utf8_decode d b).state ≡ utf8_reject
    step =
        let e = below 12 (λ t. next_state 1 t == 1) rejects (type_of b) (type_bound b lb) in
        unfold utf8_decode in rw r (ground arith)
