-- ===== src/Input.antt =====
-- The collection of an input of fluent-bit/flb_input.h as a coroutine: how its context is made and
-- listed, its parameters, the message of its end, and the settings of an input.
pub mod Collect
mod Tests
use my_repo.Base.{
  ℕ, ◌+◌, ◌-◌, Bool, true, false, not, ◌||◌, Option, none, some, List, [], ◌∷◌, ◌++◌, ◌==◌,
  if◌then◌else◌,
}
use my_repo.Task.{bits_u64_set}
use my_repo.Output.Calls.{ConfigMap}

pub record InputCoro : Type 0 where
  pub id : ℕ
  pub start_time : ℕ
  pub ins : ℕ
  pub config : ℕ

-- What is held: contexts and coroutines that are in no list yet, and the list of the input.
pub record Held : Type 0 where
  pub contexts : ℕ
  pub coros : ℕ
  pub input_coro_list : List InputCoro

-- The answers of memory, of `flb_coro_create`, of `flb_input_coro_id_get` and of the clock.
unfoldable pub input_coro_create :
    (calloc coro_create : Bool) (id now ins config : ℕ) → Held → Option InputCoro × Held
input_coro_create calloc coro_create id now ins config h =
    if not calloc
    then (none, h)
    else let one : Held = record h { contexts = h.contexts + 1 } in
      if not coro_create
      then (none, record one { contexts = one.contexts - 1 })
      else let input_coro : InputCoro = record {
        id = id;
        start_time = now;
        ins = ins;
        config = config;
      } in
        (
          some input_coro,
          record one {
            coros = h.coros + 1;
            input_coro_list = h.input_coro_list ++ input_coro ∷ [];
          },
        )

pub record LibcoInParams : Type 0 where
  pub coll : ℕ
  pub config : ℕ
  pub coro : ℕ

-- From the thread's parameters and the answer of `flb_calloc`, the new parameters and whether the
-- coroutine was entered.
unfoldable pub input_params_set :
    Option LibcoInParams → (calloc : Bool) (coro coll config : ℕ) → Option LibcoInParams × Bool
input_params_set tls calloc coro coll config = elim tls [
  | some _ ↦ (some (record { coll = coll; config = config; coro = coro }), true)
  | none ↦
      if calloc
      then (some (record { coll = coll; config = config; coro = coro }), true)
      else (none, false)
]

-- The collector and the configuration with which the callback is called, once the coroutine is
-- resumed. Without parameters it makes some that are all zero, and reads through NULL, a fault:
-- the outer `none`; without memory for them it returns: the inner `none`.
unfoldable pub input_pre_cb_collect :
    Option LibcoInParams → (calloc : Bool) → Option (Option (ℕ × ℕ))
input_pre_cb_collect tls calloc = elim tls [
  | some p ↦ some (some (p.coll, p.config))
  | none ↦ if calloc then none else some none
]

-- `pthread_key_create` makes a new key, under which the thread has no parameters yet. The
-- answer of `co_create` is not looked at.
unfoldable pub input_coro_collect :
    (calloc coro_create calloc_params : Bool) (id now ins coro coll config : ℕ)
    → Held
    → Option InputCoro × Held × Option LibcoInParams
unfolding input_coro_create input_params_set
input_coro_collect calloc coro_create calloc_params id now ins coro coll config h =
    let (made, h') = input_coro_create calloc coro_create id now ins config h in
    elim made [
      | none ↦ (none, h', none)
      | some input_coro ↦
          (some input_coro, h', (input_params_set none calloc_params coro coll config).0)
    ]

-- `FLB_ENGINE_IN_CORO`
abbrev pub engine_in_coro : ℕ
engine_in_coro = 3

-- The value on the pipe of the input.
unfoldable pub input_return : (ins_id : ℕ) → ℕ
input_return ins_id = bits_u64_set engine_in_coro ins_id

abbrev pub input_running : ℕ
input_running = 1

abbrev pub input_paused : ℕ
input_paused = 0

unfoldable pub input_buf_paused : (mem_buf_status storage_buf_status : ℕ) → Bool
input_buf_paused mem_buf_status storage_buf_status =
    if mem_buf_status == input_paused
    then true
    else if storage_buf_status == input_paused
    then true
    else false

-- One of the two blocks: the call if there is a map, and the variable `ret`, which is `none` as long
-- as it has no value.
unfoldable pub config_map_apply :
    {S : Type 0} → (config_map : ConfigMap S) → (ret : Option Bool) → S → Option Bool × S
config_map_apply none ret s = (ret, s)
config_map_apply (some set) ret s = let (ok, s') = set s in (some ok, s')

abbrev pub failed : Option Bool → Bool
failed none = false
failed (some ok) = not ok

unfoldable pub input_config_map_set :
    {S : Type 0} → (config_map net_config_map : ConfigMap S) → S → Option Bool × S
unfolding config_map_apply
input_config_map_set config_map net_config_map s =
    let (ret, s') = config_map_apply config_map none s in
    if failed ret then (ret, s') else config_map_apply net_config_map ret s'
