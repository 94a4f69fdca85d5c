-- ===== src/Task.antt =====
-- The tasks of fluent-bit/flb_task.h: a chunk of records under way to its outputs. The lists of
-- routes and of retries are the lists of their entries in the order of `mk_list_foreach`.
pub mod Ids
pub mod Routes
pub mod Users
pub mod Unordered
pub mod Answers
mod Tests
use my_repo.Base.{
  ℕ, zero, suc, ◌+◌, ◌-◌, ◌*◌, ◌/◌, ◌%◌, ◌^◌, Bool, true, ◌&&◌, List, [], ◌∷◌, bit_and, bit_or,
  ◌==◌, if◌then◌else◌, length,
}

abbrev pub word : ℕ
word = 2 ^ 32

-- The four bits of the result, the fourteen of the task and the fourteen of the output coroutine.
unfoldable pub task_ret : ℕ → ℕ
task_ret val = val / 2 ^ 28

unfoldable pub task_id : ℕ → ℕ
task_id val = bit_and val 0xfffc000 / 2 ^ 14

unfoldable pub task_out : ℕ → ℕ
task_out val = bit_and val 0x3fff

unfoldable pub task_set : (ret id out : ℕ) → ℕ
task_set ret id out = bit_or (bit_or (ret * 2 ^ 28 % word) (id * 2 ^ 14 % word)) out % word

-- FLB_BITS_U64_SET, FLB_BITS_U64_HIGH and FLB_BITS_U64_LOW.
unfoldable pub bits_u64_set : ℕ → ℕ → ℕ
bits_u64_set a b = bit_or (a * 2 ^ 32 % 2 ^ 64) b

unfoldable pub bits_u64_high : ℕ → ℕ
bits_u64_high val = val / 2 ^ 32

unfoldable pub bits_u64_low : ℕ → ℕ
bits_u64_low val = bit_and val 0xffffffff

abbrev pub route_inactive : ℕ
route_inactive = 0

abbrev pub route_active : ℕ
route_active = 1

abbrev pub route_dropped : ℕ
route_dropped = 2

-- `out` is the address of the output instance.
pub record TaskRoute : Type 0 where
  pub status : ℕ
  pub out : ℕ

pub record TaskRetry : Type 0 where
  pub attempts : ℕ
  pub o_ins : ℕ
  pub parent : ℕ

-- `users` is the bit pattern of the `int`.
pub record Task : Type 0 where
  pub id : ℕ
  pub ref_id : ℕ
  pub status : ℕ
  pub users : ℕ
  pub event_chunk : ℕ
  pub ic : ℕ
  pub records : ℕ
  pub routes : List TaskRoute
  pub retries : List TaskRetry
  pub i_ins : ℕ
  pub config : ℕ

-- `flb_task_destroy` is not in the headers: `W` is the state that it changes.
module _ {W : Type 0} (flb_task_destroy : Task → W → W) where
  unfoldable pub users_release : Task → W → W
  users_release task w =
      if (task.users == 0) && (length task.retries == 0) then flb_task_destroy task w else w

  unfoldable pub users_dec : Task → (release_check : ℕ) → W → Task × W
  unfolding users_release
  users_dec task release_check w =
      let task' = record task { users = (task.users + word - 1) % word } in
      (task', if release_check == 1 then users_release task' w else w)

-- The lock of the task is a state `L` of the thread library, whose functions answer 0 or an error
-- number; the answers are dropped.
module _ {L : Type 0} (pthread_mutex_lock pthread_mutex_unlock : L → ℕ × L) where
  unfoldable pub acquire_lock : L → L
  acquire_lock lock = (pthread_mutex_lock lock).1

  unfoldable pub release_lock : L → L
  release_lock lock = (pthread_mutex_unlock lock).1

unfoldable pub users_inc : Task → Task
users_inc task = record task { users = (task.users + 1) % word }

-- The loops of the functions on routes.
unfoldable pub count_active : List TaskRoute → ℕ → ℕ
count_active [] result = result
count_active (r ∷ rs) result =
    count_active rs (if r.status == route_active then result + 1 else result)

unfoldable pub status_of : List TaskRoute → (o_ins : ℕ) → ℕ
status_of [] o_ins = route_inactive
status_of (r ∷ rs) o_ins = if r.out == o_ins then r.status else status_of rs o_ins

unfoldable pub set_status : List TaskRoute → (o_ins new_status : ℕ) → List TaskRoute
set_status [] o_ins new_status = []
set_status (r ∷ rs) o_ins new_status =
    if r.out == o_ins
    then record r { status = new_status } ∷ rs
    else r ∷ set_status rs o_ins new_status

unfoldable pub get_active_route_count : Task → ℕ
unfolding count_active
get_active_route_count task = count_active task.routes 0

unfoldable pub get_route_status : Task → (o_ins : ℕ) → ℕ
unfolding status_of
get_route_status task o_ins = status_of task.routes o_ins

unfoldable pub set_route_status : Task → (o_ins new_status : ℕ) → Task
unfolding set_status
set_route_status task o_ins new_status = record task {
  routes = set_status task.routes o_ins new_status;
}

unfoldable pub activate_route : Task → ℕ → Task
unfolding set_route_status
activate_route task o_ins = set_route_status task o_ins route_active

unfoldable pub deactivate_route : Task → ℕ → Task
unfolding set_route_status
deactivate_route task o_ins = set_route_status task o_ins route_inactive

unfoldable pub drop_route : Task → ℕ → Task
unfolding set_route_status
drop_route task o_ins = set_route_status task o_ins route_dropped
