-- ===== src/Backends/Tests.antt =====
-- The four backends at arrays with room for more events than were reported.
use my_repo.Base.{◌≡◌, refl, some, List, [], ◌∷◌, arith}
use my_repo.Kqueue.{event_foreach}
use my_repo.Kqueue.Visit.{take}
use my_repo.Backends.{EpollEvent, Fired, epoll_foreach, select_foreach, libevent_foreach}
use my_repo.Backends.Agree.{foreach_lem}

abbrev epoll : List EpollEvent
epoll =
    record { events = 1; data_ptr = 7 }
    ∷ record { events = 4; data_ptr = 8 }
    ∷ record { events = 0; data_ptr = 9 }
    ∷ []

abbrev fired : List Fired
fired =
    record { mask = 1; event = 7 }
    ∷ record { mask = 4; event = 8 }
    ∷ record { mask = 0; event = 9 }
    ∷ []

foreach_lem_example :
    (event_foreach 3 (7 ∷ 8 ∷ 9 ∷ []) 2 ≡ some (take 2 (7 ∷ 8 ∷ 9 ∷ [])))
    × (epoll_foreach 3 epoll 2 ≡ some (take 2 (7 ∷ 8 ∷ 9 ∷ [])))
    × (select_foreach 3 fired 2 ≡ some (take 2 (7 ∷ 8 ∷ 9 ∷ [])))
    × (libevent_foreach 3 fired 2 ≡ some (take 2 (7 ∷ 8 ∷ 9 ∷ [])))
foreach_lem_example =
    foreach_lem 3 2 (7 ∷ 8 ∷ 9 ∷ []) epoll fired fired refl refl refl (omega arith) (omega arith)
