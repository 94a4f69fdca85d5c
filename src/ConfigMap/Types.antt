-- ===== src/ConfigMap/Types.antt =====
-- Which types are lists.
use my_repo.Base.{ℕ, ◌*◌, ◌/◌, ◌%◌, ◌≡◌, ◌&&◌, ◌||◌, none, some, arith, ◌==◌, leb, if◌then◌else◌}
use my_repo.ConfigMap.{mult_type}

-- The type of the list that `flb_config_map_mult_type` gives is the number of the type, without its
-- last decimal digit, which is the number of the nodes to split up to, from 0 to 4.
pub mult_type_lem :
    (type : ℕ)
    → mult_type type ≡ (
        if (type / 10 == 3 || type / 10 == 4) && leb (type % 10) 4
        then some (type / 10 * 10)
        else none)
unfolding mult_type
mult_type_lem type = ground arith
