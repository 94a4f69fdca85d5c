-- ===== src/Encoder/Macros.antt =====
-- The macros of fluent-bit/flb_log_event_encoder_body_macros.h, _metadata_macros.h and
-- _root_macros.h that stand for an operation on one field.
use my_repo.Base.{ℕ, ◌≡◌, refl}
use my_repo.Encoder.{
  Encoder, Result, DynamicField, on, metadata, body, root, metadata_target, body_target,
  root_target, begin_map, commit_map, rollback_map, begin_array, commit_array, rollback_array,
}

-- A function `flb_log_event_encoder_append_*` of fluent-bit/flb_log_event_encoder_primitives.h that
-- appends one value to a field, with its arguments for the value.
pub data Append : Type 0 where
  binary_length : ℕ → Append
  binary_body : ℕ → ℕ → Append
  ext_length : ℕ → ℕ → Append
  ext_body : ℕ → ℕ → Append
  string_length : ℕ → Append
  string_body : ℕ → ℕ → Append
  int8 : ℕ → Append
  int16 : ℕ → Append
  int32 : ℕ → Append
  int64 : ℕ → Append
  uint8 : ℕ → Append
  uint16 : ℕ → Append
  uint32 : ℕ → Append
  uint64 : ℕ → Append
  double : ℕ → Append
  boolean : ℕ → Append
  character : ℕ → Append
  binary : ℕ → ℕ → Append
  string : ℕ → ℕ → Append
  ext : ℕ → ℕ → ℕ → Append
  cstring : ℕ → Append
  null : Append
  msgpack_object : ℕ → Append
  raw_msgpack : ℕ → ℕ → Append
  timestamp : ℕ → Append
  legacy_timestamp : ℕ → Append
  forward_v1_timestamp : ℕ → Append
  fluent_bit_v1_timestamp : ℕ → Append
  fluent_bit_v2_timestamp : ℕ → Append

module _ {F : Type 0} (append : Append → Encoder F → (target_field : ℕ) → Result × Encoder F) where
  -- The 29 macros `flb_log_event_encoder_append_body_*`.
  unfoldable pub append_body : Append → Encoder F → Result × Encoder F
  append_body value context = append value context body_target

  -- The 29 macros `flb_log_event_encoder_append_metadata_*`.
  unfoldable pub append_metadata : Append → Encoder F → Result × Encoder F
  append_metadata value context = append value context metadata_target

  -- The 29 macros `flb_log_event_encoder_append_root_*`.
  unfoldable pub append_root : Append → Encoder F → Result × Encoder F
  append_root value context = append value context root_target

module _ {F V : Type 0} (ops : DynamicField F V) where
  unfoldable pub body_begin_map : Encoder F → Result × Encoder F
  body_begin_map context = on ops ops.begin_map context body

  unfoldable pub body_begin_array : Encoder F → Result × Encoder F
  body_begin_array context = on ops ops.begin_array context body

  unfoldable pub body_commit_map : Encoder F → Result × Encoder F
  body_commit_map context = on ops ops.commit_map context body

  unfoldable pub body_commit_array : Encoder F → Result × Encoder F
  body_commit_array context = on ops ops.commit_array context body

  unfoldable pub body_rollback_map : Encoder F → Result × Encoder F
  body_rollback_map context = on ops ops.rollback_map context body

  unfoldable pub body_rollback_array : Encoder F → Result × Encoder F
  body_rollback_array context = on ops ops.rollback_array context body

  unfoldable pub metadata_begin_map : Encoder F → Result × Encoder F
  metadata_begin_map context = on ops ops.begin_map context metadata

  unfoldable pub metadata_begin_array : Encoder F → Result × Encoder F
  metadata_begin_array context = on ops ops.begin_array context metadata

  unfoldable pub metadata_commit_map : Encoder F → Result × Encoder F
  metadata_commit_map context = on ops ops.commit_map context metadata

  unfoldable pub metadata_commit_array : Encoder F → Result × Encoder F
  metadata_commit_array context = on ops ops.commit_array context metadata

  unfoldable pub metadata_rollback_map : Encoder F → Result × Encoder F
  metadata_rollback_map context = on ops ops.rollback_map context metadata

  unfoldable pub metadata_rollback_array : Encoder F → Result × Encoder F
  metadata_rollback_array context = on ops ops.rollback_array context metadata

  unfoldable pub root_begin_map : Encoder F → Result × Encoder F
  root_begin_map context = on ops ops.begin_map context root

  unfoldable pub root_begin_array : Encoder F → Result × Encoder F
  root_begin_array context = on ops ops.begin_array context root

  unfoldable pub root_commit_map : Encoder F → Result × Encoder F
  root_commit_map context = on ops ops.commit_map context root

  unfoldable pub root_commit_array : Encoder F → Result × Encoder F
  root_commit_array context = on ops ops.commit_array context root

  unfoldable pub root_rollback_map : Encoder F → Result × Encoder F
  root_rollback_map context = on ops ops.rollback_map context root

  unfoldable pub root_rollback_array : Encoder F → Result × Encoder F
  root_rollback_array context = on ops ops.rollback_array context root

  -- The macros of a field do what the function of the same name does for the number of the field.
  abbrev Agree :
      (macro : Encoder F → Result × Encoder F) → (Encoder F → ℕ → Result × Encoder F) → ℕ → Type 0
  Agree macro function target = (context : Encoder F) → macro context ≡ function context target

  body_macros :
      Agree body_begin_map (begin_map ops) body_target
      × Agree body_begin_array (begin_array ops) body_target
      × Agree body_commit_map (commit_map ops) body_target
      × Agree body_commit_array (commit_array ops) body_target
      × Agree body_rollback_map (rollback_map ops) body_target
      × Agree body_rollback_array (rollback_array ops) body_target
  unfolding begin_map begin_array commit_map commit_array rollback_map rollback_array body_begin_map
      body_begin_array body_commit_map body_commit_array body_rollback_map body_rollback_array
  body_macros = (λ c. refl, λ c. refl, λ c. refl, λ c. refl, λ c. refl, λ c. refl)

  metadata_macros :
      Agree metadata_begin_map (begin_map ops) metadata_target
      × Agree metadata_begin_array (begin_array ops) metadata_target
      × Agree metadata_commit_map (commit_map ops) metadata_target
      × Agree metadata_commit_array (commit_array ops) metadata_target
      × Agree metadata_rollback_map (rollback_map ops) metadata_target
      × Agree metadata_rollback_array (rollback_array ops) metadata_target
  unfolding begin_map begin_array commit_map commit_array rollback_map rollback_array
      metadata_begin_map metadata_begin_array metadata_commit_map metadata_commit_array
      metadata_rollback_map metadata_rollback_array
  metadata_macros = (λ c. refl, λ c. refl, λ c. refl, λ c. refl, λ c. refl, λ c. refl)

  root_macros :
      Agree root_begin_map (begin_map ops) root_target
      × Agree root_begin_array (begin_array ops) root_target
      × Agree root_commit_map (commit_map ops) root_target
      × Agree root_commit_array (commit_array ops) root_target
      × Agree root_rollback_map (rollback_map ops) root_target
      × Agree root_rollback_array (rollback_array ops) root_target
  unfolding begin_map begin_array commit_map commit_array rollback_map rollback_array root_begin_map
      root_begin_array root_commit_map root_commit_array root_rollback_map root_rollback_array
  root_macros = (λ c. refl, λ c. refl, λ c. refl, λ c. refl, λ c. refl, λ c. refl)
