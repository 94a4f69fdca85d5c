-- ===== src/Plugins/Blocks.antt =====
-- The blocks of `flb_plugins_register` one after the other, until the allocator gives out.
use my_repo.Base.{
  ◌≡◌, refl, Bool, true, false, ◌||◌, none, some, List, [], ◌∷◌, ◌++◌, ◌∙◌, append_assoc,
  append-nil, arith, ◌==◌, has, if◌then◌else◌, map, Bool-cases, inl, inr, sym,
}
use my_repo.MkList.{Ptr, Ret, success, failure, ◌>>=◌}
use my_repo.Plugins.{
  Plugin, Config, Kind, Symbol, Block, Memory, set_live, malloc, fill, register_blocks,
}
use my_repo.Plugins.Holds.{Lists, update, Holds, Holds-ext, same, same-eq}
use my_repo.Plugins.Register.{Fresh, Filled, fill_lem}

-- The structs that the blocks get, and the list of each kind with the plugins in them.
abbrev pub taken : List Block → List Ptr → List Ptr
taken [] ps = []
taken (b ∷ bs) [] = []
taken (b ∷ bs) (p ∷ ps) = p ∷ taken bs ps

abbrev pub registered : List Block → List Ptr → Lists
registered [] ps k = []
registered (b ∷ bs) [] k = []
registered (b ∷ bs) (p ∷ ps) k =
    let rest = registered bs ps k in if same k b.kind then p ∷ rest else rest

abbrev pub named : List Block → List Ptr → Kind → List Symbol
named [] ps k = []
named (b ∷ bs) [] k = []
named (b ∷ bs) (p ∷ ps) k =
    let rest = named bs ps k in if same k b.kind then b.symbol ∷ rest else rest

abbrev pub outcome : List Block → List Ptr → Ret
outcome [] ps = success
outcome (b ∷ bs) [] = failure
outcome (b ∷ bs) (p ∷ ps) = outcome bs ps

-- From `m` to `m'` the blocks `bs` were run.
pub record Registered (config : Config) (bs : List Block) (ls : Lists) (ps : List Ptr)
    (m m' : Memory) : Type 0 where
  pub holds : Holds m'.heap config (λ k. ls k ++ registered bs ps k)
  pub symbols : (k : Kind) → map m'.symbol (registered bs ps k) ≡ named bs ps k
  pub others : (c : Ptr) → has c ps ≡ false → m'.symbol c ≡ m.symbol c
  pub live : (c : Ptr) → m'.heap.live c ≡ (m.heap.live c || has c (taken bs ps))
  pub destroyed : m'.destroyed ≡ m.destroyed

malloc_lem :
    (m : Memory) (p : Ptr) (ps : List Ptr)
    → m.fresh ≡ p ∷ ps
    → malloc m ≡ some (some p, record m { heap = set_live m.heap p true; fresh = ps })
unfolding malloc
malloc_lem m p ps e = rw e refl

malloc_nil : (m : Memory) → m.fresh ≡ [] → malloc m ≡ some (none, m)
unfolding malloc
malloc_nil m e = rw e refl

-- Where one more plugin belongs.
next_lists :
    (ls : Lists) (b : Block) (bs : List Block) (p : Ptr) (ps : List Ptr) (k : Kind)
    → update ls b.kind (ls b.kind ++ p ∷ []) k ++ registered bs ps k
      ≡ ls k ++ registered (b ∷ bs) (p ∷ ps) k
next_lists ls b bs p ps k = elim (Bool-cases (same k b.kind)) [
  | inl e ↦ rw (e, same-eq k b.kind e) (append_assoc (ls b.kind) (p ∷ []) (registered bs ps b.kind))
  | inr e ↦ rw e refl
]

or_if : (x y z : Bool) → ((if x then true else y) || z) ≡ (y || (x || z))
or_if true true z = refl
or_if true false z = refl
or_if false y z = refl

module _ (plugin : Symbol → Plugin) (config : Config) where
  stops :
      (b : Block) (bs : List Block) (m : Memory)
      → m.fresh ≡ []
      → register_blocks plugin config (b ∷ bs) m ≡ some (failure, m)
  unfolding register_blocks fill
  stops b bs m e = rw (◌>>=◌, malloc_nil m e) refl

  goes_on :
      (b : Block) (bs : List Block) (p : Ptr) (ps : List Ptr) (m m1 : Memory)
      → m.fresh ≡ p ∷ ps
      → fill plugin config (some p) b (record m { heap = set_live m.heap p true; fresh = ps })
        ≡ some (success, m1)
      → register_blocks plugin config (b ∷ bs) m ≡ register_blocks plugin config bs m1
  unfolding register_blocks
  goes_on b bs p ps m m1 e run = rw (◌>>=◌, malloc_lem m p ps e, run) refl

  rest_Fresh :
      (b : Block) (p : Ptr) (ps : List Ptr) (ls : Lists) (m m1 : Memory)
      → Fresh m.heap (p ∷ ps)
      → Filled plugin config p b ls m m1
      → Fresh m1.heap ps
  rest_Fresh b p ps ls m m1 f d = record {
    distinct = f.distinct.1;
    unused = λ c i.
        let ne : (c == p) ≡ false = ground (arith, f.distinct.0) in
        (ground (arith, d.live c, f.unused c), (f.unused c (ground arith)).1);
  }

  Registered-cons :
      (b : Block) (bs : List Block) (p : Ptr) (ps : List Ptr) (ls : Lists) (m m1 m' : Memory)
      → has p ps ≡ false
      → Filled plugin config p b ls (record m { fresh = ps }) m1
      → Registered config bs (update ls b.kind (ls b.kind ++ p ∷ [])) ps m1 m'
      → Registered config (b ∷ bs) ls (p ∷ ps) m m'
  Registered-cons b bs p ps ls m m1 m' out d r = record {
    holds = Holds-ext m'.heap config _ _ (next_lists ls b bs p ps) r.holds;
    symbols = λ k. elim (Bool-cases (same k b.kind)) [
      | inl e ↦ rw (e, r.symbols k, r.others p out, d.symbol p) (ground arith)
      | inr e ↦ rw e (r.symbols k)
    ];
    others = λ c i.
        let ne : (c == p) ≡ false = ground arith in
        let j : has c ps ≡ false = ground arith in r.others c j ∙ rw (d.symbol c, ne) refl;
    live = λ c. rw (r.live c, d.live c) (or_if (c == p) (m.heap.live c) (has c (taken bs ps)));
    destroyed = r.destroyed ∙ d.destroyed;
  }

  register_blocks_go :
      (bs : List Block) (ps : List Ptr) (ls : Lists) (m : Memory)
      → m.fresh ≡ ps
      → Fresh m.heap ps
      → Holds m.heap config ls
      → (m' : Memory) × (register_blocks plugin config bs m ≡ some (outcome bs ps, m'))
        × Registered config bs ls ps m m'
  register_blocks_go [] ps ls m e f holds = (
    m,
    unfold register_blocks in refl,
    record {
      holds = Holds-ext m.heap config ls _ (λ k. sym (append-nil (ls k))) holds;
      symbols = λ k. refl;
      others = λ c i. refl;
      live = λ c. ground arith;
      destroyed = refl;
    },
  )
  register_blocks_go (b ∷ bs) [] ls m e f holds = (
    m,
    stops b bs m e,
    record {
      holds = Holds-ext m.heap config ls _ (λ k. sym (append-nil (ls k))) holds;
      symbols = λ k. refl;
      others = λ c i. refl;
      live = λ c. ground arith;
      destroyed = refl;
    },
  )
  register_blocks_go (b ∷ bs) (p ∷ ps) ls m e f holds =
      let u = f.unused p (ground arith) in
      let (m1, run, d) = fill_lem plugin config p b ls (record m { fresh = ps }) holds u.0 u.1 in
      let (m', rest, r) =
        register_blocks_go bs ps (update ls b.kind (ls b.kind ++ p ∷ [])) m1 d.fresh
          (rest_Fresh b p ps ls (record m { fresh = ps }) m1 f d) d.holds in
      (
        m',
        goes_on b bs p ps m m1 e run ∙ rest,
        Registered-cons b bs p ps ls m m1 m' f.distinct.0 d r,
      )

  -- For five well-formed lists that share no node, and an allocator that returns unused structs
  -- until it returns NULL, the blocks return, in the order of the statements each block that gets a
  -- struct puts it behind its list, with a copy of its plugin, the first that gets none ends them
  -- with -1, and no other struct is taken into use or given back.
  pub register_blocks_lem :
      (bs : List Block) (ls : Lists) (m : Memory)
      → Fresh m.heap m.fresh
      → Holds m.heap config ls
      → (m' : Memory) × (register_blocks plugin config bs m ≡ some (outcome bs m.fresh, m'))
        × Registered config bs ls m.fresh m m'
  register_blocks_lem bs ls m = register_blocks_go bs m.fresh ls m refl
