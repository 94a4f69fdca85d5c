-- ===== src/Plugins/RoundTrip.antt =====
-- Registration from empty lists: what the lists hold, and what `flb_plugins_unregister` undoes.
use my_repo.Base.{
  ◌≤◌, ◌≡◌, refl, ◌∙◌, Bool, true, false, not, ◌&&◌, ◌||◌, some, List, [], ◌∷◌, ◌++◌, arith, ◌==◌,
  has, has-append, length, if◌then◌else◌, ap, Bool-cases, inl, inr,
}
use my_repo.MkList.{Ptr, Ret}
use my_repo.Plugins.{
  Plugin, Config, Kind, custom, input, output, filter, processor, Symbol, Block, Memory, unregister,
  register, blocks,
}
use my_repo.Plugins.Holds.{Lists, Holds, same}
use my_repo.Plugins.Register.{Fresh}
use my_repo.Plugins.Blocks.{register_blocks_lem, outcome, registered, taken}
use my_repo.Plugins.Life.{unregister-Unregistered, all_of}

-- A node of some list.
abbrev in_some : Ptr → Lists → Bool
in_some c ls =
    has c (ls custom)
    || (has c (ls input) || (has c (ls output) || (has c (ls filter) || has c (ls processor))))

has-all_of : (c : Ptr) (ls : Lists) → has c (all_of ls) ≡ in_some c ls
has-all_of c ls =
    rw
      (
        has-append c (ls custom) (ls input ++ (ls output ++ (ls filter ++ ls processor))),
        has-append c (ls input) (ls output ++ (ls filter ++ ls processor)),
        has-append c (ls output) (ls filter ++ ls processor),
        has-append c (ls filter) (ls processor),
      )
      refl

in_some-cons :
    (k : Kind) (c p : Ptr) (ls : Lists)
    → in_some c (λ j. if same j k then p ∷ ls j else ls j) ≡ ((c == p) || in_some c ls)
in_some-cons custom c p ls = ground arith
in_some-cons input c p ls = ground arith
in_some-cons output c p ls = ground arith
in_some-cons filter c p ls = ground arith
in_some-cons processor c p ls = ground arith

-- Each registered struct is in one of the lists, and no other.
in_some-registered :
    (c : Ptr) (bs : List Block) (ps : List Ptr) → in_some c (registered bs ps) ≡ has c (taken bs ps)
in_some-registered c [] ps = refl
in_some-registered c (b ∷ bs) [] = refl
in_some-registered c (b ∷ bs) (p ∷ ps) =
    in_some-cons b.kind c p (registered bs ps)
    ∙ ap (λ t. (c == p) || t) (in_some-registered c bs ps)

length-registered :
    (bs : List Block) (ps : List Ptr) (k : Kind) → length (registered bs ps k) ≤ length bs
length-registered [] ps k = omega arith
length-registered (b ∷ bs) [] k = omega arith
length-registered (b ∷ bs) (p ∷ ps) k = elim (Bool-cases (same k b.kind)) [
  | inl e ↦ rw e (omega (arith, length-registered bs ps k))
  | inr e ↦ rw e (omega (arith, length-registered bs ps k))
]

has-taken :
    (c : Ptr) (bs : List Block) (ps : List Ptr) → has c (taken bs ps) ≡ true → has c ps ≡ true
has-taken c (b ∷ bs) (p ∷ ps) i = ground (arith, has-taken c bs ps)
has-taken c [] ps i = cc
has-taken c (b ∷ bs) [] i = cc

restored : (a t : Bool) → (t ≡ true → a ≡ false) → ((a || t) && not t) ≡ a
restored a t h = ground arith

module _ (plugin : Symbol → Plugin) (config : Config) (m : Memory) (f : Fresh m.heap m.fresh)
    (holds : Holds m.heap config (λ k. [])) where
  -- If the five lists are empty, then whether the allocator has a struct for each block or not,
  -- `flb_plugins_register` and then `flb_plugins_unregister`, with fuel for 89 nodes, return, the
  -- lists are empty, and exactly the structs that were in use before are in use.
  pub unregister-register :
      (m1 m2 : Memory) × (r : Ret) × (register plugin config m ≡ some (r, m1))
      × (unregister plugin config 89 m1 ≡ some (tt, m2))
      × Holds m2.heap config (λ k. [])
      × ((c : Ptr) → m2.heap.live c ≡ m.heap.live c)
  unfolding register
  unregister-register =
      let (m1, run, r) = register_blocks_lem plugin config blocks (λ k. []) m f holds in
      let (m2, back, u) =
        unregister-Unregistered plugin config 89 (registered blocks m.fresh) m1 r.holds
          (λ k. omega (arith, length-registered blocks m.fresh k)) in
      (
        m1,
        m2,
        outcome blocks m.fresh,
        run,
        back,
        u.holds,
        λ c.
            rw
              (
                u.live c,
                r.live c,
                has-all_of c (registered blocks m.fresh),
                in_some-registered c blocks m.fresh,
              )
              (restored (m.heap.live c) (has c (taken blocks m.fresh))
                (λ i. (f.unused c (has-taken c blocks m.fresh i)).0)),
      )
