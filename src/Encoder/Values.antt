-- ===== src/Encoder/Values.antt =====
-- The macros FLB_LOG_EVENT_*_VALUE of fluent-bit/flb_log_event_encoder.h, which make arguments of the
-- variadic functions of the encoder. A value is the pattern of 64 digits of a number in two's complement, of a pointer or of a double.
use my_repo.Base.{ℕ, List, [], ◌∷◌, ◌++◌}
use my_repo.Encoder.ValueTypes.{
  int, unsigned_int, int32, uint32, int64, uint64, size, pointer, double, Arg, cast,
  terminator_value_type, string_length_value_type, string_body_value_type, binary_length_value_type,
  binary_body_value_type, ext_length_value_type, ext_body_value_type, null_value_type,
  char_value_type, int8_value_type, int16_value_type, int32_value_type, int64_value_type,
  uint8_value_type, uint16_value_type, uint32_value_type, uint64_value_type, double_value_type,
  boolean_value_type, msgpack_object_value_type, msgpack_raw_value_type, timestamp_value_type,
  legacy_timestamp_value_type, forward_v1_timestamp_value_type, fluent_bit_v1_timestamp_value_type,
}

unfoldable pub value_list_terminator : List Arg
value_list_terminator = cast int terminator_value_type ∷ []

unfoldable pub string_length_value : (length : ℕ) → List Arg
string_length_value length = cast int string_length_value_type ∷ cast size length ∷ []

unfoldable pub string_body_value : (buffer length : ℕ) → List Arg
string_body_value buffer length =
    cast int string_body_value_type ∷ cast pointer buffer ∷ cast size length ∷ []

unfoldable pub binary_length_value : (length : ℕ) → List Arg
binary_length_value length = cast int binary_length_value_type ∷ cast size length ∷ []

unfoldable pub binary_body_value : (buffer length : ℕ) → List Arg
binary_body_value buffer length =
    cast int binary_body_value_type ∷ cast pointer buffer ∷ cast size length ∷ []

unfoldable pub ext_length_value : (type_ length : ℕ) → List Arg
ext_length_value type_ length =
    cast int ext_length_value_type ∷ cast int type_ ∷ cast size length ∷ []

unfoldable pub ext_body_value : (buffer length : ℕ) → List Arg
ext_body_value buffer length =
    cast int ext_body_value_type ∷ cast pointer buffer ∷ cast size length ∷ []

unfoldable pub timestamp_value : (value : ℕ) → List Arg
timestamp_value value = cast int timestamp_value_type ∷ cast pointer value ∷ []

unfoldable pub legacy_timestamp_value : (value : ℕ) → List Arg
legacy_timestamp_value value = cast int legacy_timestamp_value_type ∷ cast pointer value ∷ []

unfoldable pub forward_v1_timestamp_value : (value : ℕ) → List Arg
forward_v1_timestamp_value value =
    cast int forward_v1_timestamp_value_type ∷ cast pointer value ∷ []

unfoldable pub fluent_bit_v1_timestamp_value : (value : ℕ) → List Arg
fluent_bit_v1_timestamp_value value =
    cast int fluent_bit_v1_timestamp_value_type ∷ cast pointer value ∷ []

unfoldable pub null_value : List Arg
null_value = cast int null_value_type ∷ []

unfoldable pub char_value : (value : ℕ) → List Arg
char_value value = cast int char_value_type ∷ cast int value ∷ []

unfoldable pub int8_value : (value : ℕ) → List Arg
int8_value value = cast int int8_value_type ∷ cast int value ∷ []

unfoldable pub int16_value : (value : ℕ) → List Arg
int16_value value = cast int int16_value_type ∷ cast int value ∷ []

unfoldable pub int32_value : (value : ℕ) → List Arg
int32_value value = cast int int32_value_type ∷ cast int32 value ∷ []

unfoldable pub int64_value : (value : ℕ) → List Arg
int64_value value = cast int int64_value_type ∷ cast int64 value ∷ []

unfoldable pub uint8_value : (value : ℕ) → List Arg
uint8_value value = cast int uint8_value_type ∷ cast unsigned_int value ∷ []

unfoldable pub uint16_value : (value : ℕ) → List Arg
uint16_value value = cast int uint16_value_type ∷ cast unsigned_int value ∷ []

unfoldable pub uint32_value : (value : ℕ) → List Arg
uint32_value value = cast int uint32_value_type ∷ cast uint32 value ∷ []

unfoldable pub uint64_value : (value : ℕ) → List Arg
uint64_value value = cast int uint64_value_type ∷ cast uint64 value ∷ []

unfoldable pub double_value : (value : ℕ) → List Arg
double_value value = cast int double_value_type ∷ cast double value ∷ []

unfoldable pub boolean_value : (value : ℕ) → List Arg
boolean_value value = cast int boolean_value_type ∷ cast int value ∷ []

unfoldable pub msgpack_object_value : (value : ℕ) → List Arg
msgpack_object_value value = cast int msgpack_object_value_type ∷ cast pointer value ∷ []

unfoldable pub msgpack_raw_value : (buffer length : ℕ) → List Arg
msgpack_raw_value buffer length =
    cast int msgpack_raw_value_type ∷ cast pointer buffer ∷ cast size length ∷ []

unfoldable pub string_value : (buffer length : ℕ) → List Arg
unfolding string_length_value string_body_value
string_value buffer length = string_length_value length ++ string_body_value buffer length

unfoldable pub binary_value : (buffer length : ℕ) → List Arg
unfolding binary_length_value binary_body_value
binary_value buffer length = binary_length_value length ++ binary_body_value buffer length

-- The body of the macro names `type`, not the parameter `type_`: what that name stands for where the
-- macro is used is `type_there`.
unfoldable pub ext_value : (type_there type_ buffer length : ℕ) → List Arg
unfolding ext_length_value ext_body_value
ext_value type_there type_ buffer length =
    ext_length_value type_there length ++ ext_body_value buffer length

unfoldable pub cstring_value : (strlen : ℕ → ℕ) (buffer : ℕ) → List Arg
unfolding string_value
cstring_value strlen buffer = string_value buffer (strlen buffer)
