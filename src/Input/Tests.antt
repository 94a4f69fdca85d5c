-- ===== src/Input/Tests.antt =====
-- The theorems on flb_input.h at the input with number 4.
use my_repo.Base.{ℕ, ◌+◌, ◌≡◌, ◌↔◌, ◌⊎◌, true, Option, none, some, [], ◌∷◌, arith}
use my_repo.Task.{bits_u64_high, bits_u64_low}
use my_repo.Output.Calls.{ConfigMap}
use my_repo.Input.{
  InputCoro, Held, LibcoInParams, input_coro_collect, input_pre_cb_collect, input_return,
  engine_in_coro, input_config_map_set,
}
use my_repo.Input.Collect.{
  input_coro_collect_lem, input_return_lem, accepts, behind, input_config_map_set_iff,
}

abbrev held : Held
held = record { contexts = 0; coros = 0; input_coro_list = [] }

input_coro_collect_lem_example :
    (input_coro_collect true true true 0 99 4 50 60 70 held ≡ (none, held, none))
    ⊎ ((c : InputCoro) × (tls : Option LibcoInParams) × (input_coro_collect true true true 0 99 4 50
            60 70 held
          ≡ (some c, record { contexts = 1; coros = 1; input_coro_list = c ∷ [] }, tls))
        × (c.ins ≡ 4)
        × (true ≡ true → input_pre_cb_collect tls true ≡ some (some (60, 70))))
input_coro_collect_lem_example = input_coro_collect_lem true true true true 0 99 4 50 60 70 held

input_return_lem_example :
    (bits_u64_high (input_return 4) ≡ engine_in_coro) × (bits_u64_low (input_return 4) ≡ 4)
input_return_lem_example = input_return_lem 4 (omega arith)

abbrev accept : ConfigMap ℕ
accept = some (λ n. (true, n + 1))

abbrev nowhere : ConfigMap ℕ
nowhere = none

input_config_map_set_iff_example :
    let run = input_config_map_set accept nowhere 0 in
    ((run.0 ≡ none) ↔ ((accept ≡ none) × (nowhere ≡ none)))
    × ((run.0 ≡ some true) ↔ (
        (¬ ((accept ≡ none) × (nowhere ≡ none)))
        × (accepts accept 0 ≡ true)
        × (accepts nowhere (behind accept 0) ≡ true)))
    × (run.1 ≡ 1)
input_config_map_set_iff_example = input_config_map_set_iff accept nowhere 0
