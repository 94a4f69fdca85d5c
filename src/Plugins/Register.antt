-- ===== src/Plugins/Register.antt =====
-- `flb_plugins_register`, against the lists it is to build.
use my_repo.Base.{
  ◌≡◌, refl, true, false, some, List, [], ◌∷◌, ◌++◌, arith, ◌==◌, has, Distinct, if◌then◌else◌,
  has-append, Bool-cases, inl, inr,
}
use my_repo.MkList.{Ptr, null, Heap, success, ◌>>=◌}
use my_repo.MkList.Chain.{last, has-last}
use my_repo.MkList.Ring.{SameOutside}
use my_repo.MkList.Add.{add-PutsIn}
use my_repo.Plugins.{
  Plugin, Config, Kind, Symbol, Block, Memory, head_of, lift, set_live, label, copy, fill,
}
use my_repo.Plugins.Holds.{Lists, update, Holds, SameAt, same, Ring-keep, Holds-update}

-- The allocator returns structs that are not in use, each once.
pub record Fresh (h : Heap) (ps : List Ptr) : Type 0 where
  pub distinct : Distinct ps
  pub unused : (p : Ptr) → has p ps ≡ true → (h.live p ≡ false) × ((p == null) ≡ false)

module _ (plugin : Symbol → Plugin) (config : Config) where
  -- The heap with the copied struct.
  copied : Heap → Ptr → Symbol → Heap
  copied h p s = record {
    live = λ c. if c == p then true else h.live c;
    next = λ c. if c == p then (plugin s).next else h.next c;
    prev = λ c. if c == p then (plugin s).prev else h.prev c;
  }

  -- The registration of one plugin, from memory `m` to `m'`.
  pub record Filled (p : Ptr) (b : Block) (ls : Lists) (m m' : Memory) : Type 0 where
    pub holds : Holds m'.heap config (update ls b.kind (ls b.kind ++ p ∷ []))
    pub symbol : (c : Ptr) → m'.symbol c ≡ (if c == p then b.symbol else m.symbol c)
    pub live : (c : Ptr) → m'.heap.live c ≡ (if c == p then true else m.heap.live c)
    pub fresh : m'.fresh ≡ m.fresh
    pub destroyed : m'.destroyed ≡ m.destroyed

  outside :
      (h : Heap) (p : Ptr) (ls : Lists) (k : Kind)
      → Holds h config ls
      → h.live p ≡ false
      → has p (head_of config k ∷ ls k) ≡ false
  outside h p ls k holds dead = elim (Bool-cases (has p (head_of config k ∷ ls k))) [
    | inl e ↦ ground (arith, (holds.rings k).live p e)
    | inr e ↦ e
  ]

  copied-Holds :
      (h : Heap) (p : Ptr) (s : Symbol) (ls : Lists)
      → Holds h config ls
      → h.live p ≡ false
      → Holds (copied h p s) config ls
  unfolding copied
  copied-Holds h p s ls holds dead = record {
    rings = λ k. Ring-keep h _ (head_of config k) (ls k) (holds.rings k) (λ c i.
        let ne : (c == p) ≡ false = ground (arith, outside h p ls k holds dead) in
        record { next = rw ne refl; prev = rw ne refl; live = rw ne refl });
    apart = holds.apart;
  }

  copy_lem :
      (p : Ptr) (s : Symbol) (m : Memory)
      → (p == null) ≡ false
      → copy plugin config p s (record m { heap = set_live m.heap p true })
        ≡ some (
          tt,
          record m { heap = copied m.heap p s; symbol = λ c. if c == p then s else m.symbol c },
        )
  unfolding copy lift label copied
  copy_lem p s m ne = ground arith

  -- The nodes of another list are not written.
  others_kept :
      (h g : Heap) (p : Ptr) (ls : Lists) (k j : Kind)
      → has p (head_of config j ∷ ls j) ≡ false
      → Holds h config ls
      → SameOutside (p ∷ last (head_of config k) (ls k) ∷ head_of config k ∷ []) h g
      → same j k ≡ false
      → (c : Ptr) → has c (head_of config j ∷ ls j) ≡ true
      → SameAt h g c × (has c (head_of config k ∷ ls k ++ p ∷ []) ≡ false)
  others_kept h g p ls k j out holds eq ne c i =
      let far = holds.apart j k ne c i in
      let off : has c (p ∷ last (head_of config k) (ls k) ∷ head_of config k ∷ []) ≡ false =
        ground (arith, has-last (head_of config k) (ls k)) in
      (
        record { next = eq.next c off; prev = eq.prev c off; live = eq.live c },
        ground (arith, has-append c (ls k) (p ∷ [])),
      )

  pub fill_lem :
      (p : Ptr) (b : Block) (ls : Lists) (m : Memory)
      → Holds m.heap config ls
      → m.heap.live p ≡ false
      → (p == null) ≡ false
      → (m' : Memory) × (fill plugin config (some p) b (record m { heap = set_live m.heap p true })
          ≡ some (success, m'))
        × Filled p b ls m m'
  unfolding fill lift copied
  fill_lem p b ls m holds dead ne =
      let k = b.kind in
      let before = copied-Holds m.heap p b.symbol ls holds dead in
      let (g, run, ring, eq) =
        add-PutsIn (copied m.heap p b.symbol) p (head_of config k) (ground arith) (ls k)
          (before.rings k) (outside m.heap p ls k holds dead) in
      (
        record m { heap = g; symbol = λ c. if c == p then b.symbol else m.symbol c },
        rw (◌>>=◌, copy_lem p b.symbol m ne, run) refl,
        record {
          holds =
              Holds-update (copied m.heap p b.symbol) g config ls k (ls k ++ p ∷ []) before ring
                (λ j ne' c i.
                  others_kept _ g p ls k j (outside m.heap p ls j holds dead) before eq ne' c i);
          symbol = λ c. refl;
          live = λ c. eq.live c;
          fresh = refl;
          destroyed = refl;
        },
      )
