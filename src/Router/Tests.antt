-- ===== src/Router/Tests.antt =====
-- The theorem on the router at an output for metrics and traces.
use my_repo.Base.{◌≡◌, refl, false, ◌||◌, ltb, ◌==◌, digit}
use my_repo.Router.{router_match_type}
use my_repo.Router.Match.{router_match_type_lem}

router_match_type_lem_example : router_match_type 2 6 ≡ (ltb 2 2 || (digit 2 6 == 1))
router_match_type_lem_example = router_match_type_lem 2 6

no_logs : router_match_type 0 6 ≡ false
unfolding router_match_type
no_logs = refl
