-- ===== src/Plugins.antt =====
-- The plugin registry of fluent-bit/flb_plugins.h: `flb_plugins_register` and
-- `flb_plugins_unregister`, on the lists of mk_list.h. A plugin is known by the address of its node
-- `_head`. `none` is undefined behaviour: an access to a node that is not live, or a second free.
mod Table
pub mod Holds
pub mod Register
pub mod Blocks
pub mod Drop
pub mod Unregister
pub mod Life
pub mod RoundTrip
mod Tests
use my_repo.Base.{
  State, pure, ◌>>=◌, ◌>>◌, ℕ, zero, suc, Bool, true, false, Option, none, some, List, [], ◌∷◌,
  ◌++◌, ◌==◌, if◌then◌else◌,
}
use my_repo.MkList.{
  Ptr, null, Heap, M, Ret, success, failure, is_live, set_next, set_prev, get_next,
}
use my_repo.MkList
pub use my_repo.Plugins.Table.*

-- What the code reads of an `extern` struct: whether `cb_destroy` is set (only the structs of inputs
-- and outputs have that field), and the bytes of its `_head`.
pub record Plugin : Type 0 where
  pub cb_destroy : Bool
  pub next : Ptr
  pub prev : Ptr

-- The addresses of the five list heads in `struct flb_config`.
pub record Config : Type 0 where
  pub custom_plugins : Ptr
  pub in_plugins : Ptr
  pub out_plugins : Ptr
  pub filter_plugins : Ptr
  pub processor_plugins : Ptr

abbrev pub head_of : Config → Kind → Ptr
head_of config custom = config.custom_plugins
head_of config input = config.in_plugins
head_of config output = config.out_plugins
head_of config filter = config.filter_plugins
head_of config processor = config.processor_plugins

-- `fresh` are the structs that `flb_malloc` will return, in order; after them it returns NULL.
-- `symbol` tells which plugin was copied to a struct, `destroyed` the calls of `cb_destroy` so far.
pub record Memory : Type 0 where
  pub heap : Heap
  pub symbol : Ptr → Symbol
  pub fresh : List Ptr
  pub destroyed : List Ptr

abbrev pub on_heap : {A : Type 0} → Memory → Option (A × Heap) → Option (A × Memory)
on_heap m none = none
on_heap m (some (a, h)) = some (a, record m { heap = h })

unfoldable pub lift : {A : Type 0} → M A → State Memory A
lift op m = on_heap m (op m.heap)

abbrev pub set_live : Heap → Ptr → Bool → Heap
set_live h p b = record h { live = λ c. if c == p then b else h.live c }

abbrev pub give : List Ptr → State Memory (Option Ptr)
give [] m = some (none, m)
give (p ∷ ps) m = some (some p, record m { heap = set_live m.heap p true; fresh = ps })

-- `flb_malloc`; a returned struct is not NULL.
unfoldable pub malloc : State Memory (Option Ptr)
malloc m = give m.fresh m

-- `flb_free`
unfoldable pub free : Ptr → State Memory (Unit {0})
free p m = if is_live m.heap p then some (tt, record m { heap = set_live m.heap p false }) else none

unfoldable pub label : Ptr → Symbol → State Memory (Unit {0})
label p s m = some (tt, record m { symbol = λ c. if c == p then s else m.symbol c })

module _ (plugin : Symbol → Plugin) (config : Config) where
  -- `memcpy` of the whole struct.
  unfoldable pub copy : Ptr → Symbol → State Memory (Unit {0})
  unfolding lift label
  copy p s = do lift (set_next p (plugin s).next); lift (set_prev p (plugin s).prev); label p s

  unfoldable pub fill : Option Ptr → Block → State Memory Ret
  unfolding copy lift MkList.add
  fill none b = pure failure
  fill (some p) b = do copy p b.symbol; lift (MkList.add p (head_of config b.kind)); pure success

  -- The blocks one after the other; the first failure returns.
  unfoldable pub register_blocks : List Block → State Memory Ret
  unfolding malloc fill
  register_blocks [] = pure success
  register_blocks (b ∷ bs) = do
    p ← malloc
    r ← fill p b
    elim r [ success ↦ register_blocks bs | failure ↦ pure failure ]

  unfoldable pub register : State Memory Ret
  unfolding register_blocks
  register = register_blocks blocks

  -- `in->cb_destroy(in)`, where it is set.
  unfoldable pub call_destroy : Ptr → State Memory (Unit {0})
  call_destroy p m =
      if (plugin (m.symbol p)).cb_destroy
      then some (tt, record m { destroyed = m.destroyed ++ p ∷ [] })
      else some (tt, m)

  unfoldable pub unlink : Ptr → State Memory (Unit {0})
  unfolding lift MkList.del free
  unlink p = do lift (MkList.del p); free p

  -- The body of each of the five loops.
  unfoldable pub drop_plugin : Kind → Ptr → State Memory (Unit {0})
  unfolding call_destroy unlink
  drop_plugin custom p = unlink p
  drop_plugin input p = do call_destroy p; unlink p
  drop_plugin output p = do call_destroy p; unlink p
  drop_plugin filter p = unlink p
  drop_plugin processor p = unlink p

  -- `mk_list_foreach_safe`: `n` is read before the body runs.
  unfoldable pub drop_loop : ℕ → Kind → (curr n : Ptr) → State Memory (Unit {0})
  unfolding drop_plugin lift
  drop_loop zero k curr n = λ _. none
  drop_loop (suc fuel) k curr n =
      let rest = (do drop_plugin k curr; n' ← lift (get_next n); drop_loop fuel k n n') in
      if curr == head_of config k then pure tt else rest

  unfoldable pub drop_all : ℕ → Kind → State Memory (Unit {0})
  unfolding drop_loop lift
  drop_all fuel k = do
    first ← lift (get_next (head_of config k))
    second ← lift (get_next first)
    drop_loop fuel k first second

  unfoldable pub unregister : ℕ → State Memory (Unit {0})
  unfolding drop_all
  unregister fuel = do
    drop_all fuel custom
    drop_all fuel input
    drop_all fuel output
    drop_all fuel filter
    drop_all fuel processor
