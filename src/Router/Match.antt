-- ===== src/Router/Match.antt =====
-- The flags of an output against the kind of the events.
use my_repo.Base.{
  ℕ, zero, suc, ◌*◌, ◌≡◌, ◌||◌, arith, bit_and, ltb, ◌==◌, digit, digit_bound, bit_and-pow,
}
use my_repo.Router.{router_match_type}

-- For the three kinds of events, in the order of their numbers, `flb_router_match_type` accepts
-- exactly if the binary digit of the flags at that number is set; any other number is accepted.
pub router_match_type_lem :
    (kind flags : ℕ) → router_match_type kind flags ≡ (ltb 2 kind || (digit kind flags == 1))
unfolding router_match_type
router_match_type_lem zero flags =
    let b : bit_and flags 1 ≡ digit 0 flags * 1 = bit_and-pow 0 flags in
    ground (arith, digit_bound 0 flags)
router_match_type_lem (suc zero) flags =
    let b : bit_and flags 2 ≡ digit 1 flags * 2 = bit_and-pow 1 flags in
    ground (arith, digit_bound 1 flags)
router_match_type_lem (suc (suc zero)) flags =
    let b : bit_and flags 4 ≡ digit 2 flags * 4 = bit_and-pow 2 flags in
    ground (arith, digit_bound 2 flags)
router_match_type_lem (suc (suc (suc kind))) flags = ground arith
