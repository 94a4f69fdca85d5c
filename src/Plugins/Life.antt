-- ===== src/Plugins/Life.antt =====
-- `flb_plugins_register` and `flb_plugins_unregister` as a whole.
use my_repo.Base.{
  ℕ, zero, suc, ◌<◌, ◌≡◌, refl, ◌∙◌, Bool, true, false, not, ◌&&◌, some, List, [], ◌∷◌, ◌++◌,
  append_assoc, append-nil, subst, sym, arith, has, has-append, length, Bool-cases, inl, inr,
}
use my_repo.MkList.{Ptr, ◌>>=◌, is_live}
use my_repo.MkList.Chain.{first}
use my_repo.MkList.Ring.{Ring, live-head, next-head, live-inner, next-inner}
use my_repo.Plugins.{
  Plugin, Config, Kind, custom, input, output, filter, processor, Symbol, Memory, head_of,
  drop_loop, drop_all, unregister,
}
use my_repo.Plugins.Holds.{Lists, update, Holds, same, same-eq, Holds-ext}
use my_repo.Plugins.Drop.{calls, Dropped}
use my_repo.Plugins.Unregister.{drop_loop-Dropped, stop_at, lift-get_next}

abbrev pub all_of : Lists → List Ptr
all_of ls = ls custom ++ (ls input ++ (ls output ++ (ls filter ++ ls processor)))

-- From `m` to `m'` all plugins were dropped.
pub record Unregistered (plugin : Symbol → Plugin) (config : Config) (ls : Lists) (m m' : Memory)
    : Type 0 where
  pub holds : Holds m'.heap config (λ k. [])
  pub live : (c : Ptr) → m'.heap.live c ≡ (m.heap.live c && not (has c (all_of ls)))
  pub destroyed :
      m'.destroyed
      ≡ m.destroyed
        ++ (calls plugin input m.symbol (ls input) ++ calls plugin output m.symbol (ls output))

update-nil : (ls : Lists) (k : Kind) → ls k ≡ [] → (j : Kind) → ls j ≡ update ls k [] j
update-nil ls k e j = elim (Bool-cases (same j k)) [
  | inl s ↦ rw (s, same-eq j k s) e
  | inr s ↦ rw s refl
]

-- The kinds whose structs have a `cb_destroy` that is called.
abbrev has_destroy : Kind → Bool
has_destroy input = true
has_destroy output = true
has_destroy _ = false

emptied :
    (ls : Lists) (k : Kind)
    → update
        (update (update (update (update ls custom []) input []) output []) filter [])
        processor
        []
        k
      ≡ []
emptied ls custom = refl
emptied ls input = refl
emptied ls output = refl
emptied ls filter = refl
emptied ls processor = refl

each_gone :
    (ls : Lists) (c : Ptr) (a : Bool)
    → (((((a && not (has c (ls custom))) && not (has c (ls input))) && not (has c (ls output)))
          && not (has c (ls filter)))
        && not (has c (ls processor)))
      ≡ (a && not (has c (all_of ls)))
each_gone ls c a = ground (
  arith,
  has-append c (ls custom) (ls input ++ (ls output ++ (ls filter ++ ls processor))),
  has-append c (ls input) (ls output ++ (ls filter ++ ls processor)),
  has-append c (ls output) (ls filter ++ ls processor),
  has-append c (ls filter) (ls processor),
)

no_calls :
    (plugin : Symbol → Plugin) (k : Kind) (symbol : Ptr → Symbol) (xs : List Ptr)
    → has_destroy k ≡ false
    → calls plugin k symbol xs ≡ []
no_calls plugin k symbol [] e = refl
no_calls plugin custom symbol (x ∷ xs) e = refl
no_calls plugin filter symbol (x ∷ xs) e = refl
no_calls plugin processor symbol (x ∷ xs) e = refl
no_calls plugin input symbol (x ∷ xs) e = cc
no_calls plugin output symbol (x ∷ xs) e = cc

calls_in_order :
    (plugin : Symbol → Plugin) (symbol : Ptr → Symbol) (ls : Lists) (d : List Ptr)
    → ((((d ++ calls plugin custom symbol (ls custom)) ++ calls plugin input symbol (ls input))
            ++ calls plugin output symbol (ls output))
          ++ calls plugin filter symbol (ls filter))
        ++ calls plugin processor symbol (ls processor)
      ≡ d ++ (calls plugin input symbol (ls input) ++ calls plugin output symbol (ls output))
calls_in_order plugin symbol ls d =
    rw
      (
        no_calls plugin custom symbol (ls custom) refl,
        no_calls plugin filter symbol (ls filter) refl,
        no_calls plugin processor symbol (ls processor) refl,
        append-nil d,
        append-nil
            ((d ++ calls plugin input symbol (ls input)) ++ calls plugin output symbol (ls output)),
        append-nil
            ((d ++ calls plugin input symbol (ls input)) ++ calls plugin output symbol (ls output)),
      )
      (append_assoc d _ _)

module _ (plugin : Symbol → Plugin) (config : Config) where
  opens :
      (fuel : ℕ) (k : Kind) (p q : Ptr) (xs : List Ptr) (m : Memory)
      → Ring m.heap (head_of config k) xs
      → m.heap.next (head_of config k) ≡ p
      → is_live m.heap p ≡ true
      → m.heap.next p ≡ q
      → drop_all plugin config fuel k m ≡ drop_loop plugin config fuel k p q m
  unfolding drop_all
  opens fuel k p q xs m r e l f =
      rw
        (
          ◌>>=◌,
          lift-get_next plugin config m (head_of config k) (live-head m.heap _ xs r),
          e,
          lift-get_next plugin config m p l,
          f,
          e,
        )
        refl

  drop_all-Dropped :
      (fuel : ℕ) (k : Kind) (xs : List Ptr) (ls : Lists) (m : Memory)
      → Holds m.heap config ls
      → ls k ≡ xs
      → length xs < fuel
      → (m' : Memory) × (drop_all plugin config fuel k m ≡ some (tt, m'))
        × Dropped plugin config k xs (update ls k []) m m'
  drop_all-Dropped zero k xs ls m holds e f = absurd (omega arith)
  drop_all-Dropped (suc fuel) k [] ls m holds e f =
      let r : Ring m.heap (head_of config k) [] =
        subst (Ring m.heap (head_of config k)) e (holds.rings k) in
      (
        m,
        opens (suc fuel) k (head_of config k) (head_of config k) [] m r (next-head m.heap _ [] r)
              (live-head m.heap _ [] r) (next-head m.heap _ [] r)
            ∙ stop_at plugin config fuel k (head_of config k) m,
        record {
          holds = Holds-ext m.heap config ls _ (update-nil ls k e) holds;
          live = λ c. ground arith;
          symbol = refl;
          destroyed = sym (append-nil m.destroyed);
          fresh = refl;
        },
      )
  drop_all-Dropped (suc fuel) k (x ∷ xs) ls m holds e f =
      let r : Ring m.heap (head_of config k) (x ∷ xs) =
        subst (Ring m.heap (head_of config k)) e (holds.rings k) in
      let (m', run, d) = drop_loop-Dropped plugin config (suc fuel) k x xs ls m holds e f in
      (
        m',
        opens (suc fuel) k x (first xs (head_of config k)) (x ∷ xs) m r (next-head m.heap _ _ r)
              (live-inner m.heap _ [] x xs r) (next-inner m.heap _ [] x xs r)
            ∙ run,
        d,
      )

  -- For five well-formed lists that share no node, and more fuel than entries in any of them,
  -- `flb_plugins_unregister` returns, all lists are empty, exactly the structs that were in them
  -- are given back, and `cb_destroy` was called, where it is set, for the inputs and then the
  -- outputs, in the order of the lists.
  pub unregister-Unregistered :
      (fuel : ℕ) (ls : Lists) (m : Memory)
      → Holds m.heap config ls
      → ((k : Kind) → length (ls k) < fuel)
      → (m' : Memory) × (unregister plugin config fuel m ≡ some (tt, m'))
        × Unregistered plugin config ls m m'
  unfolding unregister
  unregister-Unregistered fuel ls m holds f =
      let l1 = update ls custom [] in
      let l2 = update l1 input [] in
      let l3 = update l2 output [] in
      let l4 = update l3 filter [] in
      let (m1, r1, d1) = drop_all-Dropped fuel custom _ ls m holds refl (f custom) in
      let (m2, r2, d2) = drop_all-Dropped fuel input _ l1 m1 d1.holds refl (f input) in
      let (m3, r3, d3) = drop_all-Dropped fuel output _ l2 m2 d2.holds refl (f output) in
      let (m4, r4, d4) = drop_all-Dropped fuel filter _ l3 m3 d3.holds refl (f filter) in
      let (m5, r5, d5) = drop_all-Dropped fuel processor _ l4 m4 d4.holds refl (f processor) in
      (
        m5,
        rw (◌>>=◌, r1, r2, r3, r4, r5) refl,
        record {
          holds = Holds-ext m5.heap config _ (λ k. []) (emptied ls) d5.holds;
          live = λ c.
              rw (d5.live c, d4.live c, d3.live c, d2.live c, d1.live c)
                (each_gone ls c (m.heap.live c));
          destroyed =
              rw
                (
                  d5.destroyed, d4.destroyed, d3.destroyed, d2.destroyed, d1.destroyed, d4.symbol,
                  d3.symbol, d2.symbol, d1.symbol,
                )
                (calls_in_order plugin m.symbol ls m.destroyed);
        },
      )
