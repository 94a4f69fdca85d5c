-- ===== src/ConfigMap/Tests.antt =====
-- The loop over the values of an option, on a list of two entries.
use my_repo.Base.{◌≡◌, refl, true, some, [], ◌∷◌, map, arith, ◌==◌, if◌then◌else◌}
use my_repo.MkList.{Heap}
use my_repo.MkList.Ring.{Ring}
use my_repo.ConfigMap.Walk.{entry, config_map_foreach, config_map_foreach_lem}

-- The head is at 8, and the entries are at 200 and 300 in structs of 150 and 250.
abbrev heap : Heap
heap = record {
  live = λ p. true;
  next = λ p. if p == 8 then 200 else if p == 200 then 300 else 8;
  prev = λ p. if p == 8 then 300 else if p == 300 then 200 else 8;
}

heap-Ring : Ring heap 8 (200 ∷ 300 ∷ [])
heap-Ring = record {
  chain = (refl, refl, (refl, refl, (refl, refl)));
  distinct = (refl, (refl, (refl, tt)));
  live = λ c i. ground arith;
}

config_map_foreach_lem_example :
    config_map_foreach 3 50 8 200 (entry 50 200) heap
    ≡ some (map (λ c. (c, entry 50 c)) (200 ∷ 300 ∷ []), heap)
config_map_foreach_lem_example =
    config_map_foreach_lem 3 50 heap 8 (200 ∷ 300 ∷ []) heap-Ring (omega arith)

two_values : config_map_foreach 3 50 8 200 150 heap ≡ some ((200, 150) ∷ (300, 250) ∷ [], heap)
unfolding config_map_foreach
two_values = refl
