-- ===== src/Input/Collect.antt =====
-- What a collection holds, calls and reports, and when the settings of an input have no answer.
use my_repo.Base.{
  ℕ, ◌+◌, ◌^◌, ◌<◌, ◌≡◌, ◌↔◌, ◌⊎◌, inl, inr, refl, ap, arith, Bool, true, false, Bool-cases,
  if◌then◌else◌, Option, none, some, [], ◌∷◌, ◌++◌,
}
use my_repo.Task.{bits_u64_high, bits_u64_low}
use my_repo.Task.Ids.{bits_u64_set_roundtrip}
use my_repo.Output.Calls.{ConfigMap}
use my_repo.Input.{
  InputCoro, Held, LibcoInParams, input_coro_create, input_coro_collect, input_pre_cb_collect,
  input_params_set, input_return, engine_in_coro, input_config_map_set,
}

-- `flb_input_coro_collect` returns NULL and holds nothing new, or returns a context for this input
-- that is last in its list, with one coroutine; if there was memory for the parameters, the callback
-- is then called with the collector and the configuration.
pub input_coro_collect_lem :
    (calloc coro_create calloc_params calloc_late : Bool) (id now ins coro coll config : ℕ)
    (h : Held)
    → (input_coro_collect calloc coro_create calloc_params id now ins coro coll config h
        ≡ (none, h, none))
      ⊎ ((c : InputCoro) × (tls : Option LibcoInParams) × (input_coro_collect calloc coro_create
              calloc_params id now ins coro coll config h
            ≡ (
              some c,
              record {
                contexts = h.contexts + 1;
                coros = h.coros + 1;
                input_coro_list = h.input_coro_list ++ c ∷ [];
              },
              tls,
            ))
          × (c.ins ≡ ins)
          × (calloc_params ≡ true
              → input_pre_cb_collect tls calloc_late ≡ some (some (coll, config))))
unfolding input_coro_collect input_coro_create input_params_set input_pre_cb_collect
input_coro_collect_lem false coro_create calloc_params late id now ins coro coll config h = inl refl
input_coro_collect_lem true false calloc_params late id now ins coro coll config h =
    inl (ap (λ n. (none, record h { contexts = n }, none)) (omega arith))
input_coro_collect_lem true true false late id now ins coro coll config h =
    inr
      (record { id = id; start_time = now; ins = ins; config = config }, none, refl, refl, λ e. cc)
input_coro_collect_lem true true true late id now ins coro coll config h = inr (
  record { id = id; start_time = now; ins = ins; config = config },
  some (record { coll = coll; config = config; coro = coro }),
  refl,
  refl,
  λ e. refl,
)

-- For an input with a number below 2 ^ 32, the message of `flb_input_return` tells the engine that an
-- input coroutine ended, and which input it is of.
pub input_return_lem :
    (ins_id : ℕ)
    → ins_id < 2 ^ 32
    → (bits_u64_high (input_return ins_id) ≡ engine_in_coro)
      × (bits_u64_low (input_return ins_id) ≡ ins_id)
unfolding input_return
input_return_lem ins_id l = bits_u64_set_roundtrip engine_in_coro ins_id (omega arith) l

-- The call for a map succeeds, or there is no map; and the state behind it.
abbrev pub accepts : {S : Type 0} → ConfigMap S → S → Bool
accepts none s = true
accepts (some set) s = (set s).0

abbrev pub behind : {S : Type 0} → ConfigMap S → S → S
behind none s = s
behind (some set) s = (set s).1

-- `flb_input_config_map_set` returns a value that was never written exactly if the input has neither
-- of the two configuration maps. With one of them it succeeds exactly if the calls for the maps that
-- there are succeed one after the other; the call for the network map is made exactly if the other
-- one did not fail.
pub input_config_map_set_iff :
    {S : Type 0} (config_map net_config_map : ConfigMap S) (s : S)
    → let run = input_config_map_set config_map net_config_map s in
      ((run.0 ≡ none) ↔ ((config_map ≡ none) × (net_config_map ≡ none)))
      × ((run.0 ≡ some true) ↔ (
          (¬ ((config_map ≡ none) × (net_config_map ≡ none)))
          × (accepts config_map s ≡ true)
          × (accepts net_config_map (behind config_map s) ≡ true)))
      × (run.1 ≡ (
          if accepts config_map s
          then behind net_config_map (behind config_map s)
          else behind config_map s))
unfolding input_config_map_set
input_config_map_set_iff none none s =
    (((λ e. (refl, refl)), (λ e. refl)), ((λ e. cc), (λ r. absurd (r.0 (refl, refl)))), refl)
input_config_map_set_iff none (some f) s =
    (((λ e. cc), (λ e. cc)), ((λ e. ((λ n. cc (n.1)), refl, cc e)), (λ r. cc (r.2))), refl)
input_config_map_set_iff (some f) none s = elim (Bool-cases ((f s).0)) [
  | inl t ↦ rw t (((λ e. cc), (λ e. cc)), ((λ e. ((λ n. cc (n.0)), refl, refl)), (λ r. refl)), refl)
  | inr t ↦ rw t (((λ e. cc), (λ e. cc)), ((λ e. cc), (λ r. cc)), refl)
]
input_config_map_set_iff (some f) (some g) s = elim (Bool-cases ((f s).0)) [
  | inl t ↦
      rw t (((λ e. cc), (λ e. cc)), ((λ e. ((λ n. cc (n.0)), refl, cc e)), (λ r. cc (r.2))), refl)
  | inr t ↦ rw t (((λ e. cc), (λ e. cc)), ((λ e. cc), (λ r. cc)), refl)
]
