-- ===== src/Backends/Agree.antt =====
-- The four backends visit the same events.
use my_repo.Base.{ℕ, ◌≤◌, ◌<◌, ◌≡◌, some, List, map, length, ap, ◌∙◌}
use my_repo.Kqueue.{event_foreach}
use my_repo.Kqueue.Visit.{take, event_foreach_lem}
use my_repo.Backends.{EpollEvent, Fired, epoll_foreach, select_foreach, libevent_foreach}

-- If the arrays of the four backends report the same events in the same order, `n_events` is not
-- larger than they are and the fuel is more than it, then `mk_event_foreach` visits in each of the
-- backends the first `n_events` events, each once and in order, and reads no other entry.
pub foreach_lem :
    (fuel n_events : ℕ) (events : List ℕ) (epoll : List EpollEvent) (select libevent : List Fired)
    → map (λ e. e.data_ptr) epoll ≡ events
    → map (λ e. e.event) select ≡ events
    → map (λ e. e.event) libevent ≡ events
    → n_events ≤ length events
    → n_events < fuel
    → (event_foreach fuel events n_events ≡ some (take n_events events))
      × (epoll_foreach fuel epoll n_events ≡ some (take n_events events))
      × (select_foreach fuel select n_events ≡ some (take n_events events))
      × (libevent_foreach fuel libevent n_events ≡ some (take n_events events))
unfolding epoll_foreach select_foreach libevent_foreach
foreach_lem fuel n_events events epoll select libevent p q r l f =
    let kqueue = event_foreach_lem fuel n_events events l f in
    let from : (l : List ℕ)
        → l ≡ events
        → event_foreach fuel l n_events ≡ some (take n_events events) =
      λ l e. ap (λ l. event_foreach fuel l n_events) e ∙ kqueue in
    (kqueue, from _ p, from _ q, from _ r)
