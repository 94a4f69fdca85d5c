-- ===== src/Plugins/Unregister.antt =====
-- The loops of `flb_plugins_unregister`.
use my_repo.Base.{
  ℕ, zero, suc, ◌<◌, ◌≡◌, refl, ◌∙◌, Bool, true, false, not, ◌&&◌, ◌||◌, some, List, [], ◌∷◌, ◌++◌,
  append_assoc, subst, arith, ◌==◌, ==_self, has, length, ap, Bool-cases, inl, inr,
}
use my_repo.MkList.{Ptr, is_live, ◌>>=◌, get_next}
use my_repo.MkList.Chain.{first}
use my_repo.MkList.Ring.{Ring, live-head, live-inner, next-inner}
use my_repo.Plugins.{
  Plugin, Config, Kind, custom, input, output, filter, processor, Symbol, Memory, head_of, lift,
  drop_plugin, drop_loop,
}
use my_repo.Plugins.Holds.{Lists, update, Holds, same, same_refl, Holds-ext}
use my_repo.Plugins.Drop.{calls, Dropped, drop_plugin-Dropped}

calls-cons :
    (plugin : Symbol → Plugin) (k : Kind) (symbol : Ptr → Symbol) (x : Ptr) (xs : List Ptr)
    → calls plugin k symbol (x ∷ []) ++ calls plugin k symbol xs ≡ calls plugin k symbol (x ∷ xs)
calls-cons plugin custom symbol x [] = refl
calls-cons plugin custom symbol x (y ∷ xs) = refl
calls-cons plugin input symbol x xs = elim (Bool-cases (plugin (symbol x)).cb_destroy) [
  | inl e ↦ rw e refl
  | inr e ↦ rw e refl
]
calls-cons plugin output symbol x xs = elim (Bool-cases (plugin (symbol x)).cb_destroy) [
  | inl e ↦ rw e refl
  | inr e ↦ rw e refl
]
calls-cons plugin filter symbol x [] = refl
calls-cons plugin filter symbol x (y ∷ xs) = refl
calls-cons plugin processor symbol x [] = refl
calls-cons plugin processor symbol x (y ∷ xs) = refl

update_twice :
    (ls : Lists) (k : Kind) (xs : List Ptr) (j : Kind)
    → update (update ls k xs) k [] j ≡ update ls k [] j
update_twice ls k xs j = elim (Bool-cases (same j k)) [ inl e ↦ rw e refl | inr e ↦ rw e refl ]

update_here : (ls : Lists) (k : Kind) (xs : List Ptr) → update ls k xs k ≡ xs
update_here ls k xs = rw (same_refl k) refl

not_either : (a x y : Bool) → ((a && not (x || false)) && not y) ≡ (a && not (x || y))
not_either true true y = refl
not_either true false y = refl
not_either false x y = refl

module _ (plugin : Symbol → Plugin) (config : Config) where
  Dropped-cons :
      (k : Kind) (x : Ptr) (xs : List Ptr) (ls : Lists) (m m1 m' : Memory)
      → Dropped plugin config k (x ∷ []) (update ls k xs) m m1
      → Dropped plugin config k xs (update (update ls k xs) k []) m1 m'
      → Dropped plugin config k (x ∷ xs) (update ls k []) m m'
  Dropped-cons k x xs ls m m1 m' d r = record {
    holds = Holds-ext m'.heap config _ _ (update_twice ls k xs) r.holds;
    live = λ c. rw (r.live c, d.live c) (not_either (m.heap.live c) (c == x) (has c xs));
    symbol = r.symbol ∙ d.symbol;
    destroyed =
        rw (r.destroyed, d.destroyed, d.symbol)
          (append_assoc m.destroyed (calls plugin k m.symbol (x ∷ [])) (calls plugin k m.symbol xs)
            ∙ ap (λ l. m.destroyed ++ l) (calls-cons plugin k m.symbol x xs));
    fresh = r.fresh ∙ d.fresh;
  }

  pub lift-get_next :
      (m : Memory) (p : Ptr)
      → is_live m.heap p ≡ true
      → lift (get_next p) m ≡ some (m.heap.next p, m)
  unfolding lift
  lift-get_next m p l = rw l refl

  pub stop_at :
      (fuel : ℕ) (k : Kind) (n : Ptr) (m : Memory)
      → drop_loop plugin config (suc fuel) k (head_of config k) n m ≡ some (tt, m)
  unfolding drop_loop
  stop_at fuel k n m = rw (==_self (head_of config k)) refl

  step :
      (fuel : ℕ) (k : Kind) (x n : Ptr) (m m1 : Memory)
      → (x == head_of config k) ≡ false
      → drop_plugin plugin config k x m ≡ some (tt, m1)
      → is_live m1.heap n ≡ true
      → drop_loop plugin config (suc fuel) k x n m
        ≡ drop_loop plugin config fuel k n (m1.heap.next n) m1
  unfolding drop_loop
  step fuel k x n m m1 ne run l = rw (ne, ◌>>=◌, run, lift-get_next m1 n l) refl

  -- The loop from an entry on.
  pub drop_loop-Dropped :
      (fuel : ℕ) (k : Kind) (x : Ptr) (xs : List Ptr) (ls : Lists) (m : Memory)
      → Holds m.heap config ls
      → ls k ≡ x ∷ xs
      → length (x ∷ xs) < fuel
      → (m' : Memory) × (drop_loop plugin config fuel k x (first xs (head_of config k)) m
          ≡ some (tt, m'))
        × Dropped plugin config k (x ∷ xs) (update ls k []) m m'
  drop_loop-Dropped zero k x xs ls m holds e f = absurd (omega arith)
  drop_loop-Dropped (suc zero) k x [] ls m holds e f = absurd (omega arith)
  drop_loop-Dropped (suc (suc fuel)) k x [] ls m holds e f =
      let (m1, run, d) = drop_plugin-Dropped plugin config k x [] ls m holds e in
      let before : Ring m.heap (head_of config k) (x ∷ []) =
        subst (Ring m.heap (head_of config k)) e (holds.rings k) in
      let after : Ring m1.heap (head_of config k) [] =
        subst (Ring m1.heap (head_of config k)) (update_here ls k []) (d.holds.rings k) in
      (
        m1,
        step (suc fuel) k x (head_of config k) m m1 (ground (arith, before.distinct)) run
              (live-head m1.heap _ [] after)
            ∙ stop_at fuel k _ m1,
        d,
      )
  drop_loop-Dropped (suc fuel) k x (y ∷ ys) ls m holds e f =
      let (m1, run, d) = drop_plugin-Dropped plugin config k x (y ∷ ys) ls m holds e in
      let before : Ring m.heap (head_of config k) (x ∷ y ∷ ys) =
        subst (Ring m.heap (head_of config k)) e (holds.rings k) in
      let after : Ring m1.heap (head_of config k) (y ∷ ys) =
        subst (Ring m1.heap (head_of config k)) (update_here ls k (y ∷ ys)) (d.holds.rings k) in
      let (m', rest, r) =
        drop_loop-Dropped fuel k y ys (update ls k (y ∷ ys)) m1 d.holds (update_here ls k (y ∷ ys))
          (omega arith) in
      (
        m',
        step fuel k x y m m1 (ground (arith, before.distinct)) run
              (live-inner m1.heap _ [] y ys after)
            ∙ ap (λ n. drop_loop plugin config fuel k y n m1) (next-inner m1.heap _ [] y ys after)
            ∙ rest,
        Dropped-cons k x (y ∷ ys) ls m m1 m' d r,
      )
