-- ===== src/Encoder/Calls.antt =====
-- The macros of fluent-bit/flb_log_event_encoder.h and flb_log_event_encoder_primitives.h that call a
-- variadic function of the encoder with any number of values, and close the list of arguments.
pub mod Typing
mod Tests
use my_repo.Base.{ℕ, List, [], ◌∷◌, ◌++◌}
use my_repo.Encoder.ValueTypes.{Arg}
use my_repo.Encoder.Values.{
  value_list_terminator, string_length_value, string_body_value, binary_length_value,
  binary_body_value, ext_length_value, ext_body_value, timestamp_value, legacy_timestamp_value,
  forward_v1_timestamp_value, fluent_bit_v1_timestamp_value, null_value, char_value, int8_value,
  int16_value, int32_value, int64_value, uint8_value, uint16_value, uint32_value, uint64_value,
  double_value, boolean_value, msgpack_object_value, msgpack_raw_value, string_value, binary_value,
  ext_value, cstring_value,
}

-- A use of one of the macros.
pub data Value : Type 0 where
  string_length : ℕ → Value
  string_body : ℕ → ℕ → Value
  binary_length : ℕ → Value
  binary_body : ℕ → ℕ → Value
  ext_length : ℕ → ℕ → Value
  ext_body : ℕ → ℕ → Value
  timestamp : ℕ → Value
  legacy_timestamp : ℕ → Value
  forward_v1_timestamp : ℕ → Value
  fluent_bit_v1_timestamp : ℕ → Value
  null : Value
  char : ℕ → Value
  int8 : ℕ → Value
  int16 : ℕ → Value
  int32 : ℕ → Value
  int64 : ℕ → Value
  uint8 : ℕ → Value
  uint16 : ℕ → Value
  uint32 : ℕ → Value
  uint64 : ℕ → Value
  double : ℕ → Value
  boolean : ℕ → Value
  msgpack_object : ℕ → Value
  msgpack_raw : ℕ → ℕ → Value
  string binary : ℕ → ℕ → Value
  ext : ℕ → ℕ → ℕ → ℕ → Value
  cstring : ℕ → Value

module _ (strlen : ℕ → ℕ) where
  unfoldable pub expand : Value → List Arg
  unfolding string_length_value string_body_value binary_length_value binary_body_value
      ext_length_value ext_body_value timestamp_value legacy_timestamp_value
      forward_v1_timestamp_value fluent_bit_v1_timestamp_value null_value char_value int8_value
      int16_value int32_value int64_value uint8_value uint16_value uint32_value uint64_value
      double_value boolean_value msgpack_object_value msgpack_raw_value string_value binary_value
      ext_value cstring_value
  expand (Value.string_length length) = string_length_value length
  expand (Value.string_body buffer length) = string_body_value buffer length
  expand (Value.binary_length length) = binary_length_value length
  expand (Value.binary_body buffer length) = binary_body_value buffer length
  expand (Value.ext_length type_ length) = ext_length_value type_ length
  expand (Value.ext_body buffer length) = ext_body_value buffer length
  expand (Value.timestamp value) = timestamp_value value
  expand (Value.legacy_timestamp value) = legacy_timestamp_value value
  expand (Value.forward_v1_timestamp value) = forward_v1_timestamp_value value
  expand (Value.fluent_bit_v1_timestamp value) = fluent_bit_v1_timestamp_value value
  expand Value.null = null_value
  expand (Value.char value) = char_value value
  expand (Value.int8 value) = int8_value value
  expand (Value.int16 value) = int16_value value
  expand (Value.int32 value) = int32_value value
  expand (Value.int64 value) = int64_value value
  expand (Value.uint8 value) = uint8_value value
  expand (Value.uint16 value) = uint16_value value
  expand (Value.uint32 value) = uint32_value value
  expand (Value.uint64 value) = uint64_value value
  expand (Value.double value) = double_value value
  expand (Value.boolean value) = boolean_value value
  expand (Value.msgpack_object value) = msgpack_object_value value
  expand (Value.msgpack_raw buffer length) = msgpack_raw_value buffer length
  expand (string buffer length) = string_value buffer length
  expand (binary buffer length) = binary_value buffer length
  expand (ext type_there type_ buffer length) = ext_value type_there type_ buffer length
  expand (cstring buffer) = cstring_value strlen buffer

  unfoldable pub expand_all : List Value → List Arg
  unfolding expand
  expand_all [] = []
  expand_all (v ∷ vs) = expand v ++ expand_all vs

  -- The arguments that a variadic function is called with.
  abbrev pub arguments : List Value → List Arg
  arguments vs = expand_all vs ++ value_list_terminator

  -- `unsafe` is `flb_log_event_encoder_append_values_unsafe`.
  unfoldable pub append_values :
      {C R : Type 0} → (unsafe : C → ℕ → List Arg → R) → C → (field : ℕ) → List Value → R
  unfolding expand_all value_list_terminator
  append_values unsafe context field values = unsafe context field (arguments values)

  -- `unsafe` is the function `flb_log_event_encoder_append_*_values_unsafe` for the field.
  unfoldable pub append_metadata_values :
      {C R : Type 0} → (unsafe : C → List Arg → R) → C → List Value → R
  unfolding expand_all value_list_terminator
  append_metadata_values unsafe context values = unsafe context (arguments values)

  unfoldable pub append_body_values :
      {C R : Type 0} → (unsafe : C → List Arg → R) → C → List Value → R
  unfolding expand_all value_list_terminator
  append_body_values unsafe context values = unsafe context (arguments values)

  unfoldable pub append_root_values :
      {C R : Type 0} → (unsafe : C → List Arg → R) → C → List Value → R
  unfolding expand_all value_list_terminator
  append_root_values unsafe context values = unsafe context (arguments values)
