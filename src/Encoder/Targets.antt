-- ===== src/Encoder/Targets.antt =====
-- Which of the three fields an operation of the encoder touches, and what it does when one fails.
use my_repo.Base.{ℕ, ◌≡◌, ◌≢◌, refl, false, ==_ne, ◌==◌}
use my_repo.Encoder.{
  Encoder, dispatch, DynamicField, Result, invalid_argument, Target, metadata, body, root, get, put,
  get_field, begin_map, commit_map, rollback_map, begin_array, commit_array, rollback_array,
}

-- The number of a target.
abbrev pub number : Target → ℕ
number root = 1
number metadata = 2
number body = 3

module _ {F V : Type 0} (ops : DynamicField F V) where
  -- The operation `op` of the encoder does `f` to the target's field, and refuses other numbers.
  abbrev pub Does : (Encoder F → ℕ → Result × Encoder F) → (F → Result × F) → Type 0
  Does op f =
      (context : Encoder F)
      → ((t : Target)
          → op context (number t) ≡ ((f (get context t)).0, put context t ((f (get context t)).1)))
        × ((n : ℕ) → ((t : Target) → n ≢ number t) → op context n ≡ (invalid_argument, context))

  dispatch-number :
      (f : F → Result × F) (context : Encoder F) (t : Target)
      → dispatch ops f context (number t)
        ≡ ((f (get context t)).0, put context t ((f (get context t)).1))
  unfolding get_field
  dispatch-number f context metadata = refl
  dispatch-number f context body = refl
  dispatch-number f context root = refl

  dispatch_other :
      (f : F → Result × F) (context : Encoder F) (n : ℕ)
      → ((t : Target) → n ≢ number t)
      → dispatch ops f context n ≡ (invalid_argument, context)
  unfolding get_field
  dispatch_other f context n ne =
      let a : (n == 2) ≡ false = ==_ne n 2 (ne metadata) in
      let b : (n == 3) ≡ false = ==_ne n 3 (ne body) in
      let c : (n == 1) ≡ false = ==_ne n 1 (ne root) in rw (dispatch, get_field, a, b, c) refl

  -- Each of the six operations on maps and arrays does to the field with the given number what the
  -- operation of the same name does to a field, returns its result and leaves the two other fields
  -- as they are; for any other number it returns FLB_EVENT_ENCODER_ERROR_INVALID_ARGUMENT and changes
  -- nothing.
  pub dispatch_lem :
      Does (begin_map ops) ops.begin_map
      × Does (commit_map ops) ops.commit_map
      × Does (rollback_map ops) ops.rollback_map
      × Does (begin_array ops) ops.begin_array
      × Does (commit_array ops) ops.commit_array
      × Does (rollback_array ops) ops.rollback_array
  unfolding begin_map commit_map rollback_map begin_array commit_array rollback_array
  dispatch_lem = (
    λ c. (dispatch-number ops.begin_map c, dispatch_other ops.begin_map c),
    λ c. (dispatch-number ops.commit_map c, dispatch_other ops.commit_map c),
    λ c. (dispatch-number ops.rollback_map c, dispatch_other ops.rollback_map c),
    λ c. (dispatch-number ops.begin_array c, dispatch_other ops.begin_array c),
    λ c. (dispatch-number ops.commit_array c, dispatch_other ops.commit_array c),
    λ c. (dispatch-number ops.rollback_array c, dispatch_other ops.rollback_array c),
  )
