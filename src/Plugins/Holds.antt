-- ===== src/Plugins/Holds.antt =====
-- What the registry stands for: five lists of plugins, in the order of registration.
use my_repo.Base.{
  ◌≡◌, refl, Bool, true, false, List, ◌∷◌, arith, has, Apart, Apart-symm, subst, if◌then◌else◌,
  Bool-cases, inl, inr,
}
use mathlib.Core.Path.{fun_ext}
use my_repo.MkList.{Ptr, Heap}
use my_repo.MkList.Chain.{Chain-frame}
use my_repo.MkList.Ring.{Ring}
use my_repo.Plugins.{Config, Kind, custom, input, output, filter, processor, head_of}

abbrev pub same : Kind → Kind → Bool
same custom custom = true
same input input = true
same output output = true
same filter filter = true
same processor processor = true
same _ _ = false

-- The plugins of each list.
abbrev pub Lists : Type 0
Lists = Kind → List Ptr

abbrev pub update : Lists → Kind → List Ptr → Lists
update ls k xs j = if same j k then xs else ls j

-- The five lists are well formed and share no node.
pub record Holds (h : Heap) (config : Config) (ls : Lists) : Type 0 where
  pub rings : (k : Kind) → Ring h (head_of config k) (ls k)
  pub apart :
      (k j : Kind) → same k j ≡ false → Apart (head_of config k ∷ ls k) (head_of config j ∷ ls j)

pub Holds-ext :
    (h : Heap) (config : Config) (ls ms : Lists)
    → ((k : Kind) → ls k ≡ ms k)
    → Holds h config ls
    → Holds h config ms
Holds-ext h config ls ms e = subst (Holds h config) (fun_ext e)

pub same-eq : (k j : Kind) → same k j ≡ true → k ≡ j
same-eq custom custom e = refl
same-eq input input e = refl
same-eq output output e = refl
same-eq filter filter e = refl
same-eq processor processor e = refl
same-eq _ _ e = cc

pub same_refl : (k : Kind) → same k k ≡ true
same_refl custom = refl
same_refl input = refl
same_refl output = refl
same_refl filter = refl
same_refl processor = refl

both-same : (i j k : Kind) → same i k ≡ true → same j k ≡ true → same i j ≡ true
both-same i j k e f = rw (same-eq i k e, same-eq j k f) (same_refl k)

-- `g` is `h` at the node `c`.
pub record SameAt (h g : Heap) (c : Ptr) : Type 0 where
  pub next : g.next c ≡ h.next c
  pub prev : g.prev c ≡ h.prev c
  pub live : g.live c ≡ h.live c

-- A list is kept by what spares its nodes.
pub Ring-keep :
    (h g : Heap) (a : Ptr) (xs : List Ptr)
    → Ring h a xs
    → ((c : Ptr) → has c (a ∷ xs) ≡ true → SameAt h g c)
    → Ring g a xs
Ring-keep h g a xs r s = record {
  chain = Chain-frame h g a xs a r.chain (λ c i. (s c i).next) (λ c i. (s c i).prev);
  distinct = r.distinct;
  live = λ c i. ground (arith, r.live c i, (s c i).live);
}

-- One list changes, and no node of the others does.
pub Holds-update :
    (h g : Heap) (config : Config) (ls : Lists) (k : Kind) (xs : List Ptr)
    → Holds h config ls
    → Ring g (head_of config k) xs
    → ((j : Kind)
        → same j k ≡ false
        → (c : Ptr) → has c (head_of config j ∷ ls j) ≡ true
        → SameAt h g c × (has c (head_of config k ∷ xs) ≡ false))
    → Holds g config (update ls k xs)
Holds-update h g config ls k xs holds ring others = record {
  rings = λ j. rings j;
  apart = λ i j ne. apart i j ne;
}
  where
    rings : (j : Kind) → Ring g (head_of config j) (update ls k xs j)
    rings j = elim (Bool-cases (same j k)) [
      | inl e ↦ rw (e, same-eq j k e) ring
      | inr e ↦
          rw e (Ring-keep h g (head_of config j) (ls j) (holds.rings j) (λ c i. (others j e c i).0))
    ]

    apart :
        (i j : Kind)
        → same i j ≡ false
        → Apart (head_of config i ∷ update ls k xs i) (head_of config j ∷ update ls k xs j)
    apart i j ne = elim (Bool-cases (same i k)) [
      | inl e ↦ elim (Bool-cases (same j k)) [
        | inl f ↦ absurd (cc (ne, both-same i j k e f))
        | inr f ↦
            rw (e, f, same-eq i k e)
              (Apart-symm (head_of config j ∷ ls j) (head_of config k ∷ xs)
                (λ c i. (others j f c i).1))
      ]
      | inr e ↦ elim (Bool-cases (same j k)) [
        | inl f ↦ rw (e, f, same-eq j k f) (λ c i'. (others i e c i').1)
        | inr f ↦ rw (e, f) (holds.apart i j ne)
      ]
    ]
