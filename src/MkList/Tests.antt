-- ===== src/MkList/Tests.antt =====
-- The theorems on mk_list.h at a list with the entries 2 and 3 and the head 1, and runs of the code.
use my_repo.Base.{◌≡◌, refl, true, Option, none, some, List, [], ◌∷◌, arith, ◌==◌, if◌then◌else◌}
use my_repo.MkList.{
  Ptr, null, Heap, add, add_after, append, prepend, del, size, foreach, foreach_r, foreach_safe,
  cat, entry_next, ◌>>◌,
}
use my_repo.MkList.Ring.{Ring, SameOutside}
use my_repo.MkList.Insert.{PutsIn}
use my_repo.MkList.Add.{add-PutsIn, add_after-PutsIn, append-PutsIn, prepend-PutsIn}
use my_repo.MkList.Remove.{del_lem, del-orphan}
use my_repo.MkList.Walk.{size-length, foreach_lem, foreach_r-reverse, entry_next-first}
use my_repo.MkList.Cat.{cat-append}
use my_repo.MkList.Drain.{Drains, foreach_safe-del}
use my_repo.MkList.Backward.{
  foreach_safe_r, foreach_safe_r-del, entry_first, entry_last, entry_ends_lem,
}

-- The nodes 1, 2, 3 in a ring, 5 and 6 in another, 4 a new node.
abbrev store : Heap
store = record {
  live = λ c. true;
  next = λ c.
      if c == 1
      then 2
      else if c == 2
      then 3
      else if c == 3
      then 1
      else if c == 5
      then 6
      else if c == 6
      then 5
      else 0;
  prev = λ c.
      if c == 1
      then 3
      else if c == 2
      then 1
      else if c == 3
      then 2
      else if c == 5
      then 6
      else if c == 6
      then 5
      else 0;
}

abbrev entries : List Ptr
entries = 2 ∷ 3 ∷ []

store-Ring : Ring store 1 entries
store-Ring = record {
  chain = (refl, refl, (refl, refl, (refl, refl)));
  distinct = (refl, (refl, (refl, tt)));
  live = λ c i. ground arith;
}

other-Ring : Ring store 5 (6 ∷ [])
other-Ring = record {
  chain = (refl, refl, (refl, refl));
  distinct = (refl, (refl, tt));
  live = λ c i. ground arith;
}

add-PutsIn_example : PutsIn store (add 4 1 store) 4 1 entries []
add-PutsIn_example = add-PutsIn store 4 1 refl entries store-Ring refl

add_after-PutsIn_example : PutsIn store (add_after 4 2 1 store) 4 1 (2 ∷ []) (3 ∷ [])
add_after-PutsIn_example = add_after-PutsIn store 4 1 refl [] 2 (3 ∷ []) store-Ring refl

append-PutsIn_example : PutsIn store (append 4 1 store) 4 1 entries []
append-PutsIn_example = append-PutsIn store 4 1 refl entries store-Ring refl

prepend-PutsIn_example : PutsIn store (prepend 4 1 store) 4 1 [] entries
prepend-PutsIn_example = prepend-PutsIn store 4 1 refl entries store-Ring refl

del_lem_example :
    (g : Heap) × (del 2 store ≡ some (tt, g))
    × Ring g 1 (3 ∷ [])
    × (g.next 2 ≡ null)
    × (g.prev 2 ≡ null)
    × SameOutside (2 ∷ 1 ∷ 3 ∷ []) store g
del_lem_example = del_lem store 1 [] 2 (3 ∷ []) store-Ring

del-orphan_example : del 4 store ≡ none
del-orphan_example = del-orphan store 4 refl refl

size-length_example : size 3 1 store ≡ some (2, store)
size-length_example = size-length store 1 entries store-Ring 3 (omega arith)

foreach_lem_example : foreach 3 1 2 store ≡ some (entries, store)
foreach_lem_example = foreach_lem store 1 entries store-Ring 3 (omega arith)

foreach_r-reverse_example : foreach_r 3 1 3 store ≡ some (3 ∷ 2 ∷ [], store)
foreach_r-reverse_example = foreach_r-reverse store 1 entries store-Ring 3 (omega arith)

cat-append_example : (g : Heap) × (cat 5 1 store ≡ some (tt, g)) × Ring g 1 (2 ∷ 3 ∷ 6 ∷ [])
cat-append_example =
    cat-append store 1 5 entries store-Ring (6 ∷ []) other-Ring (λ c i. ground arith)

foreach_safe-del_example : Drains store (foreach_safe 3 del 1 2 3 store) 1 entries
foreach_safe-del_example = foreach_safe-del 3 store 1 entries store-Ring (omega arith)

foreach_safe_r-del_example : Drains store (foreach_safe_r 3 del 1 3 2 store) 1 entries
foreach_safe_r-del_example = foreach_safe_r-del 3 store 1 entries store-Ring (omega arith)

entry_ends_lem_example :
    (entry_first 1 store ≡ some (2, store)) × (entry_last 1 store ≡ some (3, store))
entry_ends_lem_example = entry_ends_lem store 1 entries store-Ring

entry_next-first_example : entry_next 3 1 store ≡ some (2, store)
entry_next-first_example = entry_next-first store 1 (2 ∷ []) 3 [] store-Ring

abbrev result : {A : Type 0} → Option (A × Heap) → Option A
result none = none
result (some (a, h)) = some a

prepend_run : result ((prepend 4 1 >> foreach 5 1 4) store) ≡ some (4 ∷ 2 ∷ 3 ∷ [])
unfolding prepend foreach
prepend_run = refl

del_twice_run : (del 2 >> del 2) store ≡ none
unfolding del
del_twice_run = refl

cat_run : result ((cat 5 1 >> foreach_r 5 1 6) store) ≡ some (6 ∷ 3 ∷ 2 ∷ [])
unfolding cat foreach_r
cat_run = refl
