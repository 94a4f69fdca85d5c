-- ===== src/ConfigMap/Walk.antt =====
-- The loop over the values of an option, `flb_config_map_foreach`, on a list of MkList.
use my_repo.Base.{
  ℕ, zero, suc, ◌+◌, ◌-◌, ◌%◌, ◌^◌, ◌<◌, ◌≡◌, refl, Option, none, some, List, [], ◌∷◌, map, ◌==◌,
  if◌then◌else◌, length, Bool-cases, inl, inr, ap, ◌∙◌,
}
use my_repo.MkList.{Ptr, Heap, M, pure, ◌>>=◌, get_next, is_live, foreach}
use my_repo.MkList.Ring.{Ring}
use my_repo.MkList.Walk.{foreach_lem}

-- `mk_list_entry` for a field at the given offset of its struct.
abbrev pub entry : (offset : ℕ) → Ptr → Ptr
entry offset ptr = (ptr + 2 ^ 64 - offset) % 2 ^ 64

-- The pairs of `curr` and `v` of the rounds.
unfoldable pub config_map_foreach : ℕ → (offset : ℕ) (head curr v : Ptr) → M (List (Ptr × Ptr))
config_map_foreach zero offset head curr v = λ _. none
config_map_foreach (suc fuel) offset head curr v =
    let rest = (do
      next ← get_next curr
      visits ← config_map_foreach fuel offset head next (entry offset next)
      pure ((curr, v) ∷ visits)) in
    if curr == head then pure [] else rest

abbrev pairs : ℕ → Option (List Ptr × Heap) → Option (List (Ptr × Ptr) × Heap)
pairs offset none = none
pairs offset (some (nodes, h)) = some (map (λ c. (c, entry offset c)) nodes, h)

-- `flb_config_map_foreach` makes the rounds of `mk_list_foreach`, each with the value that holds the
-- node, and faults where it does.
pub config_map_foreach-foreach :
    (fuel offset : ℕ) (head curr : Ptr) (h : Heap)
    → config_map_foreach fuel offset head curr (entry offset curr) h
      ≡ pairs offset (foreach fuel head curr h)
unfolding config_map_foreach foreach
config_map_foreach-foreach zero offset head curr h = refl
config_map_foreach-foreach (suc fuel) offset head curr h = elim (Bool-cases (curr == head)) [
  | inl done ↦ rw done refl
  | inr more ↦ elim (Bool-cases (is_live h curr)) [
    | inr dead ↦ rw (more, ◌>>=◌, dead) refl
    | inl live ↦
        rw (more, ◌>>=◌, live, config_map_foreach-foreach fuel offset head (h.next curr) h)
          (joined (foreach fuel head (h.next curr) h))
  ]
]
  where
    joined :
        (r : Option (List Ptr × Heap))
        → ◌>>=◌
            (λ (g : Heap). pairs offset r)
            (λ visits. pure ((curr, entry offset curr) ∷ visits))
            h
          ≡ pairs offset (◌>>=◌ (λ (g : Heap). r) (λ nodes. pure (curr ∷ nodes)) h)
    joined none = refl
    joined (some (nodes, g)) = refl

-- On a well-formed list and with more fuel than entries, `flb_config_map_foreach` ends and visits the
-- entries in order, each once and with the value that holds it.
pub config_map_foreach_lem :
    (fuel offset : ℕ) (h : Heap) (head : Ptr) (xs : List Ptr)
    → Ring h head xs
    → length xs < fuel
    → config_map_foreach fuel offset head (h.next head) (entry offset (h.next head)) h
      ≡ some (map (λ c. (c, entry offset c)) xs, h)
config_map_foreach_lem fuel offset h head xs r l =
    config_map_foreach-foreach fuel offset head (h.next head) h
    ∙ ap (pairs offset) (foreach_lem h head xs r fuel l)
