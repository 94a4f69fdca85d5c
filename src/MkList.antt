-- ===== src/MkList.antt =====
-- The intrusive doubly linked list of monkey/mk_core/mk_list.h, over an explicit store of nodes.
-- A node is `struct mk_list`, known by its address; `none` is an access through NULL or through a
-- pointer to no node. The children prove the operations correct for well-formed lists.
pub mod Chain
pub mod Ring
pub mod Insert
pub mod Add
pub mod Remove
pub mod Walk
pub mod Cat
pub mod Drain
pub mod Backward
mod Tests
pub use my_repo.Base.{pure, ◌>>=◌, ◌>>◌}
use my_repo.Base.{
  State, ℕ, zero, suc, ◌+◌, Bool, true, false, not, ◌&&◌, ◌||◌, Option, none, some, List, [], ◌∷◌,
  ◌==◌, if◌then◌else◌,
}

abbrev pub Ptr : Type 0
Ptr = ℕ

abbrev pub null : Ptr
null = 0

-- The fields `prev` and `next` of every node, and which addresses hold a node.
pub record Heap : Type 0 where
  pub live : Ptr → Bool
  pub next : Ptr → Ptr
  pub prev : Ptr → Ptr

abbrev pub M : Type 0 → Type 0
M = State Heap

abbrev pub put : (Ptr → Ptr) → Ptr → Ptr → Ptr → Ptr
put f p v c = if c == p then v else f c

-- `p` may be dereferenced.
abbrev pub is_live : Heap → Ptr → Bool
is_live h p = not (p == null) && h.live p

abbrev pub get_next : Ptr → M Ptr
get_next p h = if is_live h p then some (h.next p, h) else none

abbrev pub get_prev : Ptr → M Ptr
get_prev p h = if is_live h p then some (h.prev p, h) else none

abbrev pub set_next : Ptr → Ptr → M (Unit {0})
set_next p v h = if is_live h p then some (tt, record h { next = put h.next p v }) else none

abbrev pub set_prev : Ptr → Ptr → M (Unit {0})
set_prev p v h = if is_live h p then some (tt, record h { prev = put h.prev p v }) else none

-- The results 0 and -1 of the functions that report through an `int`.
pub data Ret : Type 0 where
  success failure : Ret

unfoldable pub init : Ptr → M (Unit {0})
init list = do set_next list list; set_prev list list

-- `__mk_list_add`
unfoldable pub add_between : (new prev next : Ptr) → M (Unit {0})
add_between new prev next = do
  set_prev next new
  set_next new next
  set_prev new prev
  set_next prev new

unfoldable pub add : (new head : Ptr) → M (Unit {0})
unfolding add_between
add new head = do prev ← get_prev head; add_between new prev head

-- The four writes that `mk_list_add_after` and `mk_list_add_before` end with.
unfoldable pub link_in : (new prev next : Ptr) → M (Unit {0})
link_in new prev next = do
  set_next new next
  set_prev new prev
  set_next prev new
  set_prev next new

unfoldable pub add_after : (new prev head : Ptr) → M (Unit {0})
unfolding add link_in
add_after new prev head = do
  last ← get_prev head
  first ← get_next head
  if last == first || last == prev
      then add new head
      else do next ← get_next prev; link_in new prev next

unfoldable pub is_empty : Ptr → M Ret
is_empty head = do first ← get_next head; pure (if first == head then success else failure)

unfoldable pub add_before : (new next head : Ptr) → M (Unit {0})
unfolding add is_empty link_in
add_before new next head = if new == null || (next == null || head == null) then pure tt else do
  empty ← is_empty head
  elim empty [
    | success ↦ add new head
    | failure ↦
        if next == head then add new head else do prev ← get_prev next; link_in new prev next
  ]

unfoldable pub append : (new head : Ptr) → M (Unit {0})
unfolding is_empty add_between add_after
append new head = do
  empty ← is_empty head
  elim empty [
    | success ↦ do last ← get_prev head; add_between new last head
    | failure ↦ do last ← get_prev head; add_after new last head
  ]

unfoldable pub prepend : (new head : Ptr) → M (Unit {0})
unfolding is_empty add_between add_before
prepend new head = do
  empty ← is_empty head
  elim empty [
    | success ↦ do last ← get_prev head; add_between new last head
    | failure ↦ do first ← get_next head; add_before new first head
  ]

-- `__mk_list_del`
unfoldable pub del_between : (prev next : Ptr) → M (Unit {0})
del_between prev next = do set_next prev next; set_prev next prev

unfoldable pub del : Ptr → M (Unit {0})
unfolding del_between
del entry = do
  prev ← get_prev entry
  next ← get_next entry
  del_between prev next
  set_prev entry null
  set_next entry null

-- Neither field of the node is NULL: 0, and -1 otherwise.
unfoldable pub is_set : Ptr → M Ret
is_set head = do
  next ← get_next head
  if next == null
      then pure failure
      else do prev ← get_prev head; pure (if prev == null then failure else success)

-- The loop `for (it = it; it != head; it = it->next, ret++)`; `none` also when the fuel runs out.
unfoldable pub size_loop : ℕ → (head it : Ptr) → ℕ → M ℕ
size_loop zero head it ret = λ _. none
size_loop (suc fuel) head it ret =
    let rest = (do next ← get_next it; size_loop fuel head next (ret + 1)) in
    if it == head then pure ret else rest

unfoldable pub size : ℕ → Ptr → M ℕ
unfolding size_loop
size fuel head = do first ← get_next head; size_loop fuel head first 0

unfoldable pub entry_init : Ptr → M (Unit {0})
entry_init list = do set_next list null; set_prev list null

unfoldable pub entry_is_orphan : Ptr → M Bool
entry_is_orphan head = do
  next ← get_next head
  if next == null then pure true else do prev ← get_prev head; pure (prev == null)

unfoldable pub entry_orphan : Ptr → M Ret
entry_orphan head = do
  next ← get_next head
  if next == null
      then pure failure
      else do prev ← get_prev head; pure (if prev == null then failure else success)

unfoldable pub cat : (list head : Ptr) → M (Unit {0})
cat list head = do
  last ← get_prev head
  first ← get_next list
  set_next last first
  first' ← get_next list
  set_prev first' last
  end ← get_prev list
  set_next end head
  end' ← get_prev list
  set_prev head end'

-- `mk_list_foreach`: the nodes in the order of the visits.
unfoldable pub foreach : ℕ → (head curr : Ptr) → M (List Ptr)
foreach zero head curr = λ _. none
foreach (suc fuel) head curr =
    let rest = (do next ← get_next curr; nodes ← foreach fuel head next; pure (curr ∷ nodes)) in
    if curr == head then pure [] else rest

-- `mk_list_foreach_r`
unfoldable pub foreach_r : ℕ → (head curr : Ptr) → M (List Ptr)
foreach_r zero head curr = λ _. none
foreach_r (suc fuel) head curr =
    let rest = (do prev ← get_prev curr; nodes ← foreach_r fuel head prev; pure (curr ∷ nodes)) in
    if curr == head then pure [] else rest

-- `mk_list_foreach_safe`, with the loop's body: `n` is read before the body runs.
unfoldable pub foreach_safe : ℕ → (Ptr → M (Unit {0})) → (head curr n : Ptr) → M (Unit {0})
foreach_safe zero body head curr n = λ _. none
foreach_safe (suc fuel) body head curr n =
    let rest = (do body curr; n' ← get_next n; foreach_safe fuel body head n n') in
    if curr == head then pure tt else rest

-- `mk_list_entry_next`: the node behind `ptr`, the first node behind the last one.
unfoldable pub entry_next : (ptr head : Ptr) → M Ptr
entry_next ptr head = do next ← get_next ptr; if next == head then get_next head else pure next
