-- ===== src/Encoder.antt =====
-- The encoder of log events: the operations on one of its three fields of
-- fluent-bit/flb_log_event_encoder_primitives.h, and the replacement of a field's content of the
-- body, metadata and root macros. What a field does is code outside the headers.
pub mod Targets
pub mod ValueTypes
pub mod Values
pub mod Macros
pub mod Calls
mod Tests
use my_repo.Base.{ℕ, Option, none, some, ◌==◌, if◌then◌else◌}

-- The codes FLB_EVENT_ENCODER_SUCCESS to FLB_EVENT_ENCODER_ERROR_INVALID_VALUE_TYPE.
pub data Result : Type 0 where
  success unspecified allocation_error invalid_context invalid_argument : Result
  serialization_failure invalid_value_type : Result

abbrev pub root_target : ℕ
root_target = 1

abbrev pub metadata_target : ℕ
metadata_target = 2

abbrev pub body_target : ℕ
body_target = 3

pub record Encoder (F : Type 0) : Type 0 where
  pub metadata : F
  pub body : F
  pub root : F

pub data Target : Type 0 where
  metadata body root : Target

abbrev pub get : {F : Type 0} → Encoder F → Target → F
get context metadata = context.metadata
get context body = context.body
get context root = context.root

abbrev pub put : {F : Type 0} → Encoder F → Target → F → Encoder F
put context metadata field = record context { metadata = field }
put context body field = record context { body = field }
put context root field = record context { root = field }

-- `none` is FLB_EVENT_ENCODER_ERROR_INVALID_ARGUMENT, with no field.
unfoldable pub get_field : (target_field : ℕ) → Option Target
get_field target_field =
    if target_field == metadata_target
    then some metadata
    else if target_field == body_target
    then some body
    else if target_field == root_target
    then some root
    else none

-- What `flb_log_event_encoder_dynamic_field_*` do with a field, and what
-- `flb_log_event_encoder_append_*`, which are given a value and the number of a field, do with the
-- whole encoder.
pub record DynamicField (F V : Type 0) : Type 0 where
  pub begin_map : F → Result × F
  pub commit_map : F → Result × F
  pub rollback_map : F → Result × F
  pub begin_array : F → Result × F
  pub commit_array : F → Result × F
  pub rollback_array : F → Result × F
  pub reset : F → Result × F
  pub flush : F → Result × F
  pub append : Encoder F → (target_field : ℕ) → V → Result × Encoder F

module _ {F V : Type 0} (ops : DynamicField F V) where
  -- An operation of the field on one of the three.
  abbrev pub on : (F → Result × F) → Encoder F → Target → Result × Encoder F
  on op context target =
      let (result, field) = op (get context target) in (result, put context target field)

  abbrev pub dispatch : (F → Result × F) → Encoder F → (target_field : ℕ) → Result × Encoder F
  dispatch op context target_field = elim (get_field target_field) [
    | none ↦ (invalid_argument, context)
    | some target ↦ on op context target
  ]

  unfoldable pub begin_map : Encoder F → (target_field : ℕ) → Result × Encoder F
  unfolding get_field
  begin_map context target_field = dispatch ops.begin_map context target_field

  unfoldable pub commit_map : Encoder F → (target_field : ℕ) → Result × Encoder F
  unfolding get_field
  commit_map context target_field = dispatch ops.commit_map context target_field

  unfoldable pub rollback_map : Encoder F → (target_field : ℕ) → Result × Encoder F
  unfolding get_field
  rollback_map context target_field = dispatch ops.rollback_map context target_field

  unfoldable pub begin_array : Encoder F → (target_field : ℕ) → Result × Encoder F
  unfolding get_field
  begin_array context target_field = dispatch ops.begin_array context target_field

  unfoldable pub commit_array : Encoder F → (target_field : ℕ) → Result × Encoder F
  unfolding get_field
  commit_array context target_field = dispatch ops.commit_array context target_field

  unfoldable pub rollback_array : Encoder F → (target_field : ℕ) → Result × Encoder F
  unfolding get_field
  rollback_array context target_field = dispatch ops.rollback_array context target_field

  -- The next call, if the one before it succeeded.
  abbrev pub and_then : Result × Encoder F → (Encoder F → Result × Encoder F) → Result × Encoder F
  and_then (success, context) next = next context
  and_then (unspecified, context) next = (unspecified, context)
  and_then (allocation_error, context) next = (allocation_error, context)
  and_then (invalid_context, context) next = (invalid_context, context)
  and_then (invalid_argument, context) next = (invalid_argument, context)
  and_then (serialization_failure, context) next = (serialization_failure, context)
  and_then (invalid_value_type, context) next = (invalid_value_type, context)

  -- `flb_log_event_encoder_set_*_from_msgpack_object` and `_from_raw_msgpack`: for the body and the
  -- metadata, and for the root, with which the two others are emptied too.
  unfoldable pub set_body : Encoder F → V → Result × Encoder F
  set_body context value =
      and_then (and_then (on ops.reset context body) (λ e. ops.append e body_target value))
        (λ e. on ops.flush e body)

  unfoldable pub set_metadata : Encoder F → V → Result × Encoder F
  set_metadata context value =
      and_then (and_then (on ops.reset context metadata) (λ e. ops.append e metadata_target value))
        (λ e. on ops.flush e metadata)

  unfoldable pub set_root : Encoder F → V → Result × Encoder F
  set_root context value =
      and_then
        (and_then
          (and_then (and_then (on ops.reset context metadata) (λ e. on ops.reset e body))
            (λ e. on ops.reset e root))
          (λ e. ops.append e root_target value))
        (λ e. on ops.flush e root)
