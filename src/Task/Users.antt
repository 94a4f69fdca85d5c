-- ===== src/Task/Users.antt =====
-- The counter of a task's users, and when the last one destroys the task.
use my_repo.Base.{ℕ, zero, suc, ◌+◌, ◌-◌, ◌%◌, ◌<◌, ◌≡◌, refl, List, [], ◌∷◌, arith}
use my_repo.Task.{Task, TaskRetry, word, users_dec, users_release}

module _ {W : Type 0} (flb_task_destroy : Task → W → W) where
  -- `n` calls of `flb_task_users_dec`, each with the check for a release.
  abbrev pub users_decs : ℕ → Task → W → Task × W
  users_decs zero task w = (task, w)
  users_decs (suc n) task w =
      let r = users_dec flb_task_destroy task 1 w in users_decs n (r.0) (r.1)

  dec_keeps :
      (task : Task) (w : W) (n : ℕ)
      → task.users ≡ n + 2
      → n + 2 < word
      → users_dec flb_task_destroy task 1 w ≡ (record task { users = n + 1 }, w)
  unfolding users_dec users_release
  dec_keeps task w n e l =
      let less : (n + 2 + word - 1) % word ≡ n + 1 = omega arith in rw (e, less) (ground arith)

  dec_last :
      (task : Task) (w : W)
      → task.users ≡ 1
      → task.retries ≡ []
      → users_dec flb_task_destroy task 1 w
        ≡ (record task { users = 0 }, flb_task_destroy (record task { users = 0 }) w)
  unfolding users_dec users_release
  dec_last task w e r = ground arith

  -- A task without retries that has `n + 1` users, `n + 1` below 2 ^ 32, is destroyed by the last of
  -- `n + 1` calls of `flb_task_users_dec` with the check for a release, with no users left, and by
  -- no call before it.
  pub users_decs-destroy :
      (n : ℕ) (task : Task) (w : W)
      → task.users ≡ n + 1
      → n + 1 < word
      → task.retries ≡ []
      → users_decs (suc n) task w
        ≡ (record task { users = 0 }, flb_task_destroy (record task { users = 0 }) w)
  users_decs-destroy zero task w e l r = dec_last task w (omega arith) r
  users_decs-destroy (suc n) task w e l r =
      rw (dec_keeps task w n (omega arith) (omega arith))
        (users_decs-destroy n (record task { users = n + 1 }) w refl (omega arith) r)

  dec_retries :
      (task : Task) (w : W) (r : TaskRetry) (rs : List TaskRetry)
      → task.retries ≡ r ∷ rs
      → users_dec flb_task_destroy task 1 w
        ≡ (record task { users = (task.users + word - 1) % word }, w)
  unfolding users_dec users_release
  dec_retries task w r rs e = ground arith

  -- A task with a retry that is pending is not destroyed by any number of calls of
  -- `flb_task_users_dec` with the check for a release.
  pub users_decs-retries :
      (n : ℕ) (task : Task) (w : W) (r : TaskRetry) (rs : List TaskRetry)
      → task.retries ≡ r ∷ rs
      → (users_decs n task w).1 ≡ w
  users_decs-retries zero task w r rs e = refl
  users_decs-retries (suc n) task w r rs e =
      rw (users_decs, dec_retries task w r rs e)
        (users_decs-retries n (record task { users = (task.users + word - 1) % word }) w r rs e)
