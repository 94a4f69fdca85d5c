-- ===== src/Log/Macros.antt =====
-- The macros of fluent-bit/flb_log.h that write a message, where FLB_HAVE_TRACE is defined, and those
-- that ask whether it would be cut. Printing is code outside the header.
use my_repo.Base.{
  ℕ, ◌≤◌, ◌<◌, ◌≡◌, ◌⊎◌, refl, inl, inr, Bool, true, false, Option, none, some, arith, leb,
  if◌then◌else◌, Bool-cases,
}
use my_repo.Log.{log_check, log_info, log_trace}

abbrev pub log_error : ℕ
log_error = 1

abbrev pub log_warn : ℕ
log_warn = 2

abbrev pub log_debug : ℕ
log_debug = 4

abbrev pub log_help : ℕ
log_help = 6

abbrev pub log_idebug : ℕ
log_idebug = 10

-- A call of `flb_log_print` or `flb_log_is_truncated`: the level, and whether it names the place in
-- the code.
pub record Call : Type 0 where
  pub level : ℕ
  pub located : Bool

abbrev pub call : ℕ → Bool → Call
call level located = record { level = level; located = located }

unfoldable pub flb_helper : Option Call
flb_helper = some (call log_help false)

unfoldable pub flb_idebug : Option Call
flb_idebug = some (call log_idebug false)

unfoldable pub flb_idebug_is_truncated : (log_is_truncated : Call → ℕ) → ℕ
flb_idebug_is_truncated log_is_truncated = log_is_truncated (call log_idebug false)

abbrev pub threshold : (worker : Option ℕ) → ℕ
threshold none = log_info
threshold (some level) = level

check_threshold : (worker : Option ℕ) (l : ℕ) → log_check worker l ≡ leb l (threshold worker)
unfolding log_check
check_threshold none l = ground arith
check_threshold (some level) l = ground arith

module _ (worker : Option ℕ) where
  unfoldable pub flb_error : Option Call
  flb_error = if log_check worker log_error then some (call log_error false) else none

  unfoldable pub flb_error_is_truncated : (log_is_truncated : Call → ℕ) → ℕ
  flb_error_is_truncated log_is_truncated =
      if log_check worker log_error then log_is_truncated (call log_error false) else 0

  unfoldable pub flb_warn : Option Call
  flb_warn = if log_check worker log_warn then some (call log_warn false) else none

  unfoldable pub flb_warn_is_truncated : (log_is_truncated : Call → ℕ) → ℕ
  flb_warn_is_truncated log_is_truncated =
      if log_check worker log_warn then log_is_truncated (call log_warn false) else 0

  unfoldable pub flb_info : Option Call
  flb_info = if log_check worker log_info then some (call log_info false) else none

  unfoldable pub flb_info_is_truncated : (log_is_truncated : Call → ℕ) → ℕ
  flb_info_is_truncated log_is_truncated =
      if log_check worker log_info then log_is_truncated (call log_info false) else 0

  unfoldable pub flb_debug : Option Call
  flb_debug = if log_check worker log_debug then some (call log_debug false) else none

  unfoldable pub flb_debug_is_truncated : (log_is_truncated : Call → ℕ) → ℕ
  flb_debug_is_truncated log_is_truncated =
      if log_check worker log_debug then log_is_truncated (call log_debug false) else 0

  unfoldable pub flb_trace : Option Call
  flb_trace = if log_check worker log_trace then some (call log_trace true) else none

  unfoldable pub flb_trace_is_truncated : (log_is_truncated : Call → ℕ) → ℕ
  flb_trace_is_truncated log_is_truncated =
      if log_check worker log_trace then log_is_truncated (call log_trace true) else 0

  -- A macro and its question agree on the level, and both pass exactly up to the threshold.
  abbrev pub Passes :
      (c : Call) (macro : Option Call) (question : (Call → ℕ) → ℕ) → (Call → ℕ) → Type 0
  Passes c macro question f =
      ((c.level ≤ threshold worker) × (macro ≡ some c) × (question f ≡ f c))
      ⊎ ((threshold worker < c.level) × (macro ≡ none) × (question f ≡ 0))

  passes :
      (c : Call) (f : Call → ℕ)
      → Passes c
          (if log_check worker c.level then some c else none)
          (λ g. if log_check worker c.level then g c else 0)
          f
  passes c f =
      let same : log_check worker c.level ≡ leb c.level (threshold worker) =
        check_threshold worker c.level in
      elim (Bool-cases (leb c.level (threshold worker))) [
        | inl low ↦ inl (ground arith, rw (same, low) refl, rw (same, low) refl)
        | inr high ↦ inr (ground arith, rw (same, high) refl, rw (same, high) refl)
      ]

  -- Each macro of a level writes its message exactly if the level is at most that of the worker, or
  -- that of FLB_LOG_INFO where there is no worker; and its `_is_truncated` asks then, with the same
  -- level and place, and answers 0 otherwise.
  pub log_macros :
      (f : Call → ℕ)
      → Passes (call 1 false) flb_error flb_error_is_truncated f
        × Passes (call 2 false) flb_warn flb_warn_is_truncated f
        × Passes (call 3 false) flb_info flb_info_is_truncated f
        × Passes (call 4 false) flb_debug flb_debug_is_truncated f
        × Passes (call 5 true) flb_trace flb_trace_is_truncated f
  unfolding flb_error flb_error_is_truncated flb_warn flb_warn_is_truncated flb_info
      flb_info_is_truncated flb_debug flb_debug_is_truncated flb_trace flb_trace_is_truncated
  log_macros f = (
    passes (call 1 false) f,
    passes (call 2 false) f,
    passes (call 3 false) f,
    passes (call 4 false) f,
    passes (call 5 true) f,
  )
