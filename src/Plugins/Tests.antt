-- ===== src/Plugins/Tests.antt =====
-- The theorems on the plugin registry at five empty lists, and a run of the code.
use my_repo.Base.{
  ℕ, zero, suc, ◌+◌, ◌≤◌, ◌<◌, ◌≡◌, refl, true, false, ◌||◌, ◌&&◌, ltb, sym, subst, Apart, Option,
  none, some, List, [], ◌∷◌, arith, ◌==◌, has, Distinct, length, map, if◌then◌else◌,
}
use my_repo.MkList.{Ptr, is_live, null, Ret, success, failure}
use my_repo.MkList.Ring.{Ring}
use my_repo.Plugins.{
  Plugin, Config, Kind, custom, input, output, filter, processor, Symbol, Memory, head_of, blocks,
  register, register_blocks, unregister,
}
use my_repo.Plugins.Table.{
  custom_calyptia_plugin, in_tail_plugin, in_kubernetes_events_plugin, in_fluentbit_metrics_plugin,
}
use my_repo.Plugins.Holds.{Lists, Holds, same}
use my_repo.Plugins.Register.{Fresh}
use my_repo.Plugins.Blocks.{Registered, register_blocks_lem}
use my_repo.Plugins.Life.{Unregistered, unregister-Unregistered}
use my_repo.Plugins.RoundTrip.{unregister-register}

abbrev plugins : Symbol → Plugin
plugins in_fluentbit_metrics_plugin = record { cb_destroy = true; next = 0; prev = 0 }
plugins _ = record { cb_destroy = false; next = 0; prev = 0 }

abbrev heads : Config
heads = record {
  custom_plugins = 1;
  in_plugins = 2;
  out_plugins = 3;
  filter_plugins = 4;
  processor_plugins = 5;
}

abbrev upto : ℕ → ℕ → List Ptr
upto b zero = []
upto b (suc n) = b ∷ upto (b + 1) n

has-upto : (c b n : ℕ) → has c (upto b n) ≡ true → (b ≤ c) × (c < b + n)
has-upto c b zero i = cc
has-upto c b (suc n) i = ground (arith, has-upto c (b + 1) n)

upto-Distinct : (b n : ℕ) → Distinct (upto b n)
upto-Distinct b zero = tt
upto-Distinct b (suc n) = (ground (arith, has-upto b (b + 1) n), upto-Distinct (b + 1) n)

-- The heads 1 to 5 of empty lists; `n` structs from 10 on are free.
abbrev with_structs : ℕ → Memory
with_structs n = record {
  heap = record {
    live = λ c. c == 1 || (c == 2 || (c == 3 || (c == 4 || c == 5)));
    next = λ c. c;
    prev = λ c. c;
  };
  symbol = λ c. in_tail_plugin;
  fresh = upto 10 n;
  destroyed = [];
}

with_structs-Fresh : (n : ℕ) → Fresh (with_structs n).heap (upto 10 n)
with_structs-Fresh n = record {
  distinct = upto-Distinct 10 n;
  unused = λ p i. (ground (arith, has-upto p 10 n), ground (arith, has-upto p 10 n));
}

empty-Ring :
    (n p : ℕ)
    → (with_structs n).heap.live p ≡ true
    → (p == null) ≡ false
    → Ring (with_structs n).heap p []
empty-Ring n p l z = record {
  chain = (refl, refl);
  distinct = (refl, tt);
  live = λ c i. ground arith;
}

with_structs-Holds : (n : ℕ) → Holds (with_structs n).heap heads (λ k. [])
with_structs-Holds n = record { rings = rings; apart = apart }
  where
    rings : (k : Kind) → Ring (with_structs n).heap (head_of heads k) []
    rings custom = empty-Ring n 1 refl refl
    rings input = empty-Ring n 2 refl refl
    rings output = empty-Ring n 3 refl refl
    rings filter = empty-Ring n 4 refl refl
    rings processor = empty-Ring n 5 refl refl

    heads_apart : (k j : Kind) → same k j ≡ false → (head_of heads k == head_of heads j) ≡ false
    heads_apart custom custom e = e
    heads_apart input input e = e
    heads_apart output output e = e
    heads_apart filter filter e = e
    heads_apart processor processor e = e
    heads_apart _ _ e = refl

    apart : (k j : Kind) → same k j ≡ false → Apart (head_of heads k ∷ []) (head_of heads j ∷ [])
    apart k j e c i = ground (arith, heads_apart k j e)

-- Three structs: the function fails, with the first three plugins registered, and then only the
-- second input has a `cb_destroy`.
outcomes : Option (Ret × Memory) → Ret × List Symbol
outcomes none = (success, [])
outcomes (some (r, m)) = (r, map m.symbol (m.heap.next 1 ∷ m.heap.next 2 ∷ m.heap.prev 2 ∷ []))

three_registered : outcomes (register plugins heads (with_structs 3)) ≡ (
  failure,
  custom_calyptia_plugin ∷ in_kubernetes_events_plugin ∷ in_fluentbit_metrics_plugin ∷ [],
)
unfolding register outcomes
three_registered = refl

register_blocks_lem_example :
    (m' : Memory) × (register_blocks plugins heads blocks (with_structs 3) ≡ some (failure, m'))
    × Registered heads blocks (λ k. []) (upto 10 3) (with_structs 3) m'
register_blocks_lem_example =
    register_blocks_lem plugins heads blocks (λ k. []) (with_structs 3) (with_structs-Fresh 3)
      (with_structs-Holds 3)

unregister-register_example :
    (m1 m2 : Memory) × (r : Ret) × (register plugins heads (with_structs 3) ≡ some (r, m1))
    × (unregister plugins heads 89 m1 ≡ some (tt, m2))
    × Holds m2.heap heads (λ k. [])
    × ((c : Ptr) → m2.heap.live c ≡ (with_structs 3).heap.live c)
unregister-register_example =
    unregister-register plugins heads (with_structs 3) (with_structs-Fresh 3) (with_structs-Holds 3)

-- The inputs 10 and 11, of which the second has a `cb_destroy`.
abbrev two_inputs : Memory
two_inputs = record {
  heap = record {
    live = λ c. ltb 0 c && ltb c 20;
    next = λ c. if c == 2 then 10 else if c == 10 then 11 else if c == 11 then 2 else c;
    prev = λ c. if c == 2 then 11 else if c == 11 then 10 else if c == 10 then 2 else c;
  };
  symbol = λ c. if c == 11 then in_fluentbit_metrics_plugin else in_tail_plugin;
  fresh = [];
  destroyed = [];
}

abbrev inputs : Lists
inputs input = 10 ∷ 11 ∷ []
inputs _ = []

two_inputs-Holds : Holds two_inputs.heap heads inputs
two_inputs-Holds = record { rings = rings; apart = apart }
  where
    alone :
        (p : ℕ)
        → two_inputs.heap.next p ≡ p
        → two_inputs.heap.prev p ≡ p
        → is_live two_inputs.heap p ≡ true
        → Ring two_inputs.heap p []
    alone p n v l = record {
      chain = (n, v);
      distinct = (refl, tt);
      live = λ c i.
          let e : c ≡ p = ground arith in subst (λ q. is_live two_inputs.heap q ≡ true) (sym e) l;
    }

    rings : (k : Kind) → Ring two_inputs.heap (head_of heads k) (inputs k)
    rings custom = alone 1 refl refl refl
    rings input = record {
      chain = (refl, refl, (refl, refl, (refl, refl)));
      distinct = (refl, (refl, (refl, tt)));
      live = λ c i. ground arith;
    }
    rings output = alone 3 refl refl refl
    rings filter = alone 4 refl refl refl
    rings processor = alone 5 refl refl refl

    apart :
        (k j : Kind)
        → same k j ≡ false
        → Apart (head_of heads k ∷ inputs k) (head_of heads j ∷ inputs j)
    apart custom custom e c i = absurd cc
    apart input input e c i = absurd cc
    apart output output e c i = absurd cc
    apart filter filter e c i = absurd cc
    apart processor processor e c i = absurd cc
    apart _ _ e c i = ground arith

unregister-Unregistered_example :
    (m' : Memory) × (unregister plugins heads 3 two_inputs ≡ some (tt, m'))
    × Unregistered plugins heads inputs two_inputs m'
unregister-Unregistered_example =
    unregister-Unregistered plugins heads 3 inputs two_inputs two_inputs-Holds short
  where
    short : (k : Kind) → length (inputs k) < 3
    short input = omega arith
    short _ = omega arith
