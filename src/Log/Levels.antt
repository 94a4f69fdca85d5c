-- ===== src/Log/Levels.antt =====
-- Levels are thresholds; and what the suppression of repeated messages is asked.
use my_repo.Base.{
  ℕ, ◌-◌, ◌^◌, ◌≤◌, ◌<◌, ◌≡◌, ◌⊎◌, refl, inl, inr, true, false, ◌||◌, Option, none, some, List,
  arith, ◌==◌, ltb, leb, Bool-cases, Option-cases,
}
use my_repo.Log.{log_check_level, log_check, log_info, log_suppress_check}

-- A message of the level `l` passes `flb_log_check` exactly if `l` passes `flb_log_check_level` for
-- the level of the worker, or for FLB_LOG_INFO where there is no worker.
pub log_check-log_check_level :
    (worker : Option ℕ) (l : ℕ)
    → log_check worker l ≡ log_check_level (elim worker [ none ↦ log_info | some level ↦ level ]) l
unfolding log_check log_check_level
log_check-log_check_level none l = refl
log_check-log_check_level (some level) l = ground arith

-- What passes for one level passes for each that is more severe.
pub log_check_monotone :
    (worker : Option ℕ) (l m : ℕ) → m ≤ l → log_check worker l ≡ true → log_check worker m ≡ true
unfolding log_check
log_check_monotone none l m le c = ground arith
log_check_monotone (some level) l m le c = ground arith

-- If `vsnprintf` returns a number that is not negative, then `flb_log_suppress_check` asks the cache
-- exactly if the interval is positive and there is a worker, and it asks for the text in the buffer
-- with the size that `vsnprintf` returned, however long that text is; otherwise it answers 0.
pub log_suppress_check_lem :
    (interval returned : ℕ) (buf : List ℕ) (worker : Option ℕ) (check_suppress : List ℕ → ℕ → ℕ)
    → interval < 2 ^ 32
    → returned < 2 ^ 31
    → (((0 < interval) × (interval < 2 ^ 31) × ((level : ℕ) × (worker ≡ some level)))
        × (log_suppress_check interval (λ n. (returned, buf)) worker check_suppress
            ≡ (check_suppress buf returned, some (buf, returned))))
      ⊎ (((interval ≡ 0) ⊎ ((2 ^ 31 ≤ interval) ⊎ (worker ≡ none)))
          × (log_suppress_check interval (λ n. (returned, buf)) worker check_suppress ≡ (0, none)))
unfolding log_suppress_check
log_suppress_check_lem interval returned buf worker check_suppress wi wr =
    elim (Bool-cases (interval == 0 || leb (2 ^ 31) interval)) [
      | inl off ↦ inr (ground arith, rw off refl)
      | inr on ↦
          let fits : ltb returned (2 ^ 31) ≡ true = ground arith in
          let proper : (returned == 2 ^ 64 - 1) ≡ false = ground arith in
          elim (Option-cases worker) [
            | inl e ↦ inr (inr (inr e), rw (on, fits, proper, e) refl)
            | inr (level, e) ↦
                inl ((ground arith, ground arith, (level, e)), rw (on, fits, proper, e, fits) refl)
          ]
    ]
