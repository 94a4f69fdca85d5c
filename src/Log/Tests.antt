-- ===== src/Log/Tests.antt =====
-- The theorems on the tests of the log at small arguments, and the size of a text that was cut.
use my_repo.Base.{
  ℕ, zero, suc, ◌^◌, ◌≤◌, ◌<◌, ◌≡◌, ◌⊎◌, refl, true, Option, none, some, List, [], ◌∷◌, arith,
}
use my_repo.Log.{log_check, log_check_level, log_suppress_check}
use my_repo.Log.Plugins.{
  an_input, an_output, a_filter, a_custom, Instance, Logs, input_plg, output_plg, filter_plg,
  custom_plg, plg_lem,
}
use my_repo.Log.Levels.{log_check-log_check_level, log_check_monotone, log_suppress_check_lem}

log_check-log_check_level_example : log_check (some 2) 4 ≡ log_check_level 2 4
log_check-log_check_level_example = log_check-log_check_level (some 2) 4

log_check_monotone_example : log_check (some 4) 2 ≡ true
unfolding log_check
log_check_monotone_example = log_check_monotone (some 4) 4 2 (omega arith) refl

abbrev interval : ℕ
interval = 5

abbrev worker : Option ℕ
worker = some 3

abbrev text : List ℕ
text = 65 ∷ 66 ∷ []

log_suppress_check_lem_example :
    (((0 < interval) × (interval < 2 ^ 31) × ((level : ℕ) × (worker ≡ some level)))
      × (log_suppress_check interval (λ n. (2, text)) worker (λ buf size. size)
          ≡ (2, some (text, 2))))
    ⊎ (((interval ≡ 0) ⊎ ((2 ^ 31 ≤ interval) ⊎ (worker ≡ none)))
        × (log_suppress_check interval (λ n. (2, text)) worker (λ buf size. size) ≡ (0, none)))
log_suppress_check_lem_example =
    log_suppress_check_lem interval 2 text worker (λ buf size. size) (omega arith) (omega arith)

abbrev letters : ℕ → List ℕ
letters zero = []
letters (suc n) = 65 ∷ letters n

-- A formatted text of 5000 bytes is cut to 4094, and the cache is asked for 5000.
cut_text :
    log_suppress_check 5 (λ n. (5000, letters 4094)) (some 3) (λ buf size. size)
    ≡ (5000, some (letters 4094, 5000))
unfolding log_suppress_check
cut_text = refl

abbrev instance_one : Instance
instance_one = record { log_level = 3; log_suppress_interval = 5; plugin_name = text; name = text }

plg_lem_example :
    Logs
      (λ n. (2, text))
      worker
      (λ buf size. 0)
      an_input
      (input_plg (λ n. (2, text)) worker (λ buf size. 0))
      instance_one
      2
    × Logs
        (λ n. (2, text))
        worker
        (λ buf size. 0)
        an_output
        (output_plg (λ n. (2, text)) worker (λ buf size. 0))
        instance_one
        2
    × Logs
        (λ n. (2, text))
        worker
        (λ buf size. 0)
        a_filter
        (filter_plg (λ n. (2, text)) worker (λ buf size. 0))
        instance_one
        2
plg_lem_example = plg_lem (λ n. (2, text)) worker (λ buf size. 0) instance_one 2

-- A message that the cache suppresses for an input is printed by a custom plugin.
suppressed_run :
    ((input_plg (λ n. (2, text)) worker (λ buf size. 1) instance_one 1).0 ≡ none)
    × (custom_plg instance_one 1
        ≡ some (record { level = 1; kind = a_custom; plugin_name = text; instance_name = text }))
unfolding input_plg custom_plg log_suppress_check log_check_level
suppressed_run = (refl, refl)
