-- ===== src/Backends.antt =====
-- The iteration over reported events in the three other backends of the event loop:
-- monkey/mk_core/mk_event_epoll.h, mk_event_select.h and mk_event_libevent.h. The macro
-- `mk_event_foreach` differs in the array that it reads only, so the loop is that of Kqueue.
pub mod Agree
mod Tests
use my_repo.Base.{ℕ, Option, List, map}
use my_repo.Kqueue.{foreach_from, event_foreach}

-- `epoll_event` of the system's headers: the mask, and the member `ptr` of its union.
pub record EpollEvent : Type 0 where
  pub events : ℕ
  pub data_ptr : ℕ

-- The fields of `mk_event` that a backend sets in the array `fired`.
pub record Fired : Type 0 where
  pub mask : ℕ
  pub event : ℕ

unfoldable pub epoll_foreach :
    (fuel : ℕ) → (events : List EpollEvent) → (n_events : ℕ) → Option (List ℕ)
unfolding event_foreach
epoll_foreach fuel events n_events = event_foreach fuel (map (λ e. e.data_ptr) events) n_events

unfoldable pub select_foreach : (fuel : ℕ) → (fired : List Fired) → (n_events : ℕ) → Option (List ℕ)
unfolding event_foreach
select_foreach fuel fired n_events = event_foreach fuel (map (λ e. e.event) fired) n_events

unfoldable pub libevent_foreach :
    (fuel : ℕ) → (fired : List Fired) → (n_events : ℕ) → Option (List ℕ)
unfolding event_foreach
libevent_foreach fuel fired n_events = event_foreach fuel (map (λ e. e.event) fired) n_events
