-- ===== src/Kqueue.antt =====
-- The kqueue backend of monkey/mk_core/mk_event_kqueue.h: the mask of a filter, and the iteration
-- over the events that were reported. The numbers of the filters come from the system's headers.
pub mod Visit
mod Tests
use my_repo.Base.{
  ℕ, zero, suc, ◌+◌, Option, none, some, List, [], ◌∷◌, ◌==◌, ltb, get_elem?, if◌then◌else◌,
}

abbrev pub event_read : ℕ
event_read = 1

abbrev pub event_write : ℕ
event_write = 4

unfoldable pub filter_mask : (evfilt_read evfilt_write f : ℕ) → ℕ
filter_mask evfilt_read evfilt_write f =
    if f == evfilt_read then event_read else if f == evfilt_write then event_write else 0

-- The field `udata` of a reported event; `none` is an access behind the array.
abbrev pub udata : List ℕ → ℕ → Option ℕ
udata events i = get_elem? events i

-- The event of the round `i`: `event`, which is only set where there is one.
abbrev pub next_udata : List ℕ → (i n_events : ℕ) → Option ℕ
next_udata events i n_events = if ltb i n_events then udata events i else some 0

abbrev pub cons_visit : ℕ → Option (List ℕ) → Option (List ℕ)
cons_visit event none = none
cons_visit event (some visited) = some (event ∷ visited)

-- The loop of `mk_event_foreach` from the round `i` on, with `fuel` rounds at most: the events in the
-- order of the visits. `none` is an access behind the array, or too little fuel.
unfoldable pub foreach_from : ℕ → List ℕ → (i n_events : ℕ) → (event : Option ℕ) → Option (List ℕ)
foreach_from zero events i n_events event = none
foreach_from (suc fuel) events i n_events none = none
foreach_from (suc fuel) events i n_events (some event) =
    let rest = foreach_from fuel events (i + 1) n_events (next_udata events (i + 1) n_events) in
    if ltb i n_events then cons_visit event rest else some []

unfoldable pub event_foreach : ℕ → List ℕ → (n_events : ℕ) → Option (List ℕ)
unfolding foreach_from
event_foreach fuel events n_events =
    foreach_from fuel events 0 n_events (next_udata events 0 n_events)
