-- ===== src/Plugins/Drop.antt =====
-- The body of the loops of `flb_plugins_unregister`, and one of its loops.
use my_repo.Base.{
  ◌≡◌, refl, true, false, not, ◌&&◌, some, List, [], ◌∷◌, ◌++◌, append-nil, subst, arith, ◌==◌, has,
  if◌then◌else◌, Bool-cases, inl, inr,
}
use my_repo.MkList.{Ptr, Heap, is_live, ◌>>=◌, del}
use my_repo.MkList.Chain.{first, has-first}
use my_repo.MkList.Ring.{Ring, SameOutside}
use my_repo.MkList.Remove.{del_lem}
use my_repo.Plugins.{
  Plugin, Config, Kind, custom, input, output, filter, processor, Symbol, Memory, head_of, lift,
  set_live, free, call_destroy, unlink, drop_plugin,
}
use my_repo.Plugins.Holds.{Lists, update, Holds, Ring-keep, Holds-update}

-- The plugins of a list that have a `cb_destroy` that is called.
abbrev pub calls : (Symbol → Plugin) → Kind → (Ptr → Symbol) → List Ptr → List Ptr
calls plugin k symbol [] = []
calls plugin custom symbol (x ∷ xs) = []
calls plugin input symbol (x ∷ xs) =
    let rest = calls plugin input symbol xs in
    if (plugin (symbol x)).cb_destroy then x ∷ rest else rest
calls plugin output symbol (x ∷ xs) =
    let rest = calls plugin output symbol xs in
    if (plugin (symbol x)).cb_destroy then x ∷ rest else rest
calls plugin filter symbol (x ∷ xs) = []
calls plugin processor symbol (x ∷ xs) = []

-- From `m` to `m'` the plugins `xs` of one list were dropped.
pub record Dropped (plugin : Symbol → Plugin) (config : Config) (k : Kind) (xs : List Ptr)
    (ls : Lists) (m m' : Memory) : Type 0 where
  pub holds : Holds m'.heap config ls
  pub live : (c : Ptr) → m'.heap.live c ≡ (m.heap.live c && not (has c xs))
  pub symbol : m'.symbol ≡ m.symbol
  pub destroyed : m'.destroyed ≡ m.destroyed ++ calls plugin k m.symbol xs
  pub fresh : m'.fresh ≡ m.fresh

module _ (plugin : Symbol → Plugin) (config : Config) where
  dropped : Kind → Ptr → Memory → Heap → Memory
  dropped k x m g = record m {
    heap = set_live g x false;
    destroyed = m.destroyed ++ calls plugin k m.symbol (x ∷ []);
  }

  unlink_lem :
      (x : Ptr) (m : Memory) (g : Heap)
      → del x m.heap ≡ some (tt, g)
      → is_live g x ≡ true
      → unlink plugin config x m ≡ some (tt, record m { heap = set_live g x false })
  unfolding unlink lift free
  unlink_lem x m g run l = rw (◌>>=◌, run, l) refl

  call_lem :
      (x : Ptr) (m : Memory)
      → call_destroy plugin config x m
        ≡ some (tt, record m { destroyed = m.destroyed ++ calls plugin input m.symbol (x ∷ []) })
  unfolding call_destroy
  call_lem x m = elim (Bool-cases (plugin (m.symbol x)).cb_destroy) [
    | inl e ↦ rw e refl
    | inr e ↦ rw (e, append-nil m.destroyed) refl
  ]

  drop_plugin_lem :
      (k : Kind) (x : Ptr) (m : Memory) (g : Heap)
      → del x m.heap ≡ some (tt, g)
      → is_live g x ≡ true
      → drop_plugin plugin config k x m ≡ some (tt, dropped k x m g)
  unfolding drop_plugin dropped
  drop_plugin_lem custom x m g run l = rw (unlink_lem x m g run l, append-nil m.destroyed) refl
  drop_plugin_lem input x m g run l =
      rw (◌>>=◌, call_lem x m)
        (unlink_lem x (record m { destroyed = m.destroyed ++ calls plugin input m.symbol (x ∷ []) })
          g run l)
  drop_plugin_lem output x m g run l =
      rw (◌>>=◌, call_lem x m)
        (unlink_lem x (record m { destroyed = m.destroyed ++ calls plugin input m.symbol (x ∷ []) })
          g run l)
  drop_plugin_lem filter x m g run l = rw (unlink_lem x m g run l, append-nil m.destroyed) refl
  drop_plugin_lem processor x m g run l = rw (unlink_lem x m g run l, append-nil m.destroyed) refl

  -- Dropping the first plugin of a list.
  dropped-Holds :
      (k : Kind) (x : Ptr) (xs : List Ptr) (ls : Lists) (h g : Heap)
      → Holds h config ls
      → ls k ≡ x ∷ xs
      → Ring g (head_of config k) xs
      → SameOutside (x ∷ head_of config k ∷ first xs (head_of config k) ∷ []) h g
      → Holds (set_live g x false) config (update ls k xs)
  dropped-Holds k x xs ls h g holds e ring eq =
      Holds-update h _ config ls k xs holds
        (Ring-keep g _ (head_of config k) xs ring
          (λ c i. record { next = refl; prev = refl; live = rw (apart_from c i) refl }))
        (λ j ne c i.
          let far = holds.apart j k ne c i in
          let off : has c (x ∷ head_of config k ∷ xs) ≡ false = off_lem c far in
          let ne' : (c == x) ≡ false = ground arith in
          let out : has c (x ∷ head_of config k ∷ first xs (head_of config k) ∷ []) ≡ false =
            ground (arith, has-first xs (head_of config k)) in
          (
            record { next = eq.next c out; prev = eq.prev c out; live = rw ne' (eq.live c) },
            ground arith,
          ))
    where
      before : Ring h (head_of config k) (x ∷ xs)
      before = subst (Ring h (head_of config k)) e (holds.rings k)

      apart_from : (c : Ptr) → has c (head_of config k ∷ xs) ≡ true → (c == x) ≡ false
      apart_from c i = ground (arith, before.distinct)

      off_lem :
          (c : Ptr)
          → has c (head_of config k ∷ ls k) ≡ false
          → has c (x ∷ head_of config k ∷ xs) ≡ false
      off_lem c far =
          let f : has c (head_of config k ∷ x ∷ xs) ≡ false =
            subst (λ l. has c (head_of config k ∷ l) ≡ false) e far in
          ground arith

  pub drop_plugin-Dropped :
      (k : Kind) (x : Ptr) (xs : List Ptr) (ls : Lists) (m : Memory)
      → Holds m.heap config ls
      → ls k ≡ x ∷ xs
      → (m' : Memory) × (drop_plugin plugin config k x m ≡ some (tt, m'))
        × Dropped plugin config k (x ∷ []) (update ls k xs) m m'
  unfolding dropped
  drop_plugin-Dropped k x xs ls m holds e =
      let before : Ring m.heap (head_of config k) (x ∷ xs) =
        subst (Ring m.heap (head_of config k)) e (holds.rings k) in
      let (g, run, ring, n, p, eq) = del_lem m.heap (head_of config k) [] x xs before in
      (
        dropped k x m g,
        drop_plugin_lem k x m g run (ground (arith, eq.live x, before.live x)),
        record {
          holds = dropped-Holds k x xs ls m.heap g holds e ring eq;
          live = λ c. rw (eq.live c) (ground arith);
          symbol = refl;
          destroyed = refl;
          fresh = refl;
        },
      )
