-- ===== src/Kqueue/Tests.antt =====
-- A run of the kqueue backend at an array with room for more events than were reported.
use my_repo.Base.{◌≡◌, refl, some, [], ◌∷◌}
use my_repo.Kqueue.{event_foreach}

two_of_three : event_foreach 3 (7 ∷ 8 ∷ 9 ∷ []) 2 ≡ some (7 ∷ 8 ∷ [])
unfolding event_foreach
two_of_three = refl
