-- ===== src/Kqueue/Visit.antt =====
-- Which events `mk_event_foreach` visits.
use my_repo.Base.{
  ℕ, zero, suc, ◌+◌, ◌≤◌, ◌<◌, ◌≡◌, refl, sym, ◌∙◌, ap, true, false, some, List, [], ◌∷◌, arith,
  ltb, length, get_elem?,
}
use my_repo.Kqueue.{next_udata, foreach_from, event_foreach}

abbrev pub take : ℕ → List ℕ → List ℕ
take zero xs = []
take (suc n) [] = []
take (suc n) (x ∷ xs) = x ∷ take n xs

-- The `n` elements from `i` on.
abbrev slice : (i n : ℕ) → List ℕ → List ℕ
slice zero n xs = take n xs
slice (suc i) n [] = []
slice (suc i) n (x ∷ xs) = slice i n xs

slice-zero : (i : ℕ) (xs : List ℕ) → slice i 0 xs ≡ []
slice-zero zero xs = refl
slice-zero (suc i) [] = refl
slice-zero (suc i) (x ∷ xs) = slice-zero i xs

slice-suc :
    (i n : ℕ) (xs : List ℕ)
    → i < length xs
    → (x : ℕ) × (get_elem? xs i ≡ some x) × (slice i (suc n) xs ≡ x ∷ slice (i + 1) n xs)
slice-suc i n [] l = absurd (omega arith)
slice-suc zero n (x ∷ xs) l = (x, refl, refl)
slice-suc (suc i) n (x ∷ xs) l =
    let (y, e, f) = slice-suc i n xs (omega arith) in
    let shift : suc i + 1 ≡ suc (i + 1) = omega arith in
    (y, e, f ∙ ap (λ j. y ∷ slice j n (x ∷ xs)) (sym shift))

foreach_from_lem :
    (k fuel i n : ℕ) (events : List ℕ)
    → i + k ≡ n
    → n ≤ length events
    → k < fuel
    → foreach_from fuel events i n (next_udata events i n) ≡ some (slice i k events)
unfolding foreach_from
foreach_from_lem k zero i n events e l f = absurd (omega arith)
foreach_from_lem zero (suc fuel) i n events e l f =
    let stop : ltb i n ≡ false = ground arith in rw (stop, stop, slice-zero i events) refl
foreach_from_lem (suc k) (suc fuel) i n events e l f =
    let go : ltb i n ≡ true = ground arith in
    let (x, g, s) = slice-suc i k events (omega arith) in
    rw (go, g, go, foreach_from_lem k fuel (i + 1) n events (omega arith) l (omega arith), s) refl

-- If `n_events` is not larger than the array and the fuel is more than it, `mk_event_foreach` visits
-- the first `n_events` entries of the array, each once and in order, and reads no other.
pub event_foreach_lem :
    (fuel n_events : ℕ) (events : List ℕ)
    → n_events ≤ length events
    → n_events < fuel
    → event_foreach fuel events n_events ≡ some (take n_events events)
unfolding event_foreach
event_foreach_lem fuel n_events events l f =
    foreach_from_lem n_events fuel 0 n_events events (omega arith) l f
