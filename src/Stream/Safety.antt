-- ===== src/Stream/Safety.antt =====
-- Thread safety of a stream: it leaves the list that other threads see, and is locked from then on.
use my_repo.Base.{ℕ, ◌≡◌, true, Bool, arith, ◌==◌, if◌then◌else◌}
use my_repo.MkList.Ring.{Ring}
use my_repo.Stream.{Stream, acquire_lock}

-- The locks of a stream that is not thread safe succeed at once, whether or not the caller waits,
-- and touch no mutex; those of a thread safe stream succeed exactly if the mutex answers 0.
pub acquire_lock_lem :
    {S : Type 0} (mutex_lock mutex_trylock mutex_unlock : S → ℕ × S) (stream : Stream)
    (wait_flag : Bool) (s : S)
    → acquire_lock mutex_lock mutex_trylock mutex_unlock stream wait_flag s ≡ (
        if stream.thread_safety_flag
        then if wait_flag
          then ((mutex_lock s).0 == 0, (mutex_lock s).1)
          else ((mutex_trylock s).0 == 0, (mutex_trylock s).1)
        else (true, s))
unfolding acquire_lock
acquire_lock_lem mutex_lock mutex_trylock mutex_unlock stream wait_flag s = ground arith
