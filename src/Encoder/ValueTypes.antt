-- ===== src/Encoder/ValueTypes.antt =====
-- The numbers FLB_LOG_EVENT_*_VALUE_TYPE of fluent-bit/flb_log_event_encoder.h, and arguments of
-- variadic functions with the types that they are cast to.
use my_repo.Base.{ℕ, ◌%◌, ◌^◌}

-- The types that the arguments are cast to, on a host of 64 digits.
pub data CType : Type 0 where
  int unsigned_int int32 uint32 int64 uint64 size pointer double : CType

abbrev pub width : CType → ℕ
width int = 32
width unsigned_int = 32
width int32 = 32
width uint32 = 32
width _ = 64

-- An argument of a call of a variadic function.
pub record Arg : Type 0 where
  pub type_of : CType
  pub bits : ℕ

abbrev pub cast : CType → ℕ → Arg
cast t value = record { type_of = t; bits = value % 2 ^ width t }

abbrev pub terminator_value_type : ℕ
terminator_value_type = 0

abbrev pub string_length_value_type : ℕ
string_length_value_type = 1

abbrev pub string_body_value_type : ℕ
string_body_value_type = 2

abbrev pub binary_length_value_type : ℕ
binary_length_value_type = 3

abbrev pub binary_body_value_type : ℕ
binary_body_value_type = 4

abbrev pub ext_length_value_type : ℕ
ext_length_value_type = 5

abbrev pub ext_body_value_type : ℕ
ext_body_value_type = 6

abbrev pub null_value_type : ℕ
null_value_type = 7

abbrev pub char_value_type : ℕ
char_value_type = 8

abbrev pub int8_value_type : ℕ
int8_value_type = 9

abbrev pub int16_value_type : ℕ
int16_value_type = 10

abbrev pub int32_value_type : ℕ
int32_value_type = 11

abbrev pub int64_value_type : ℕ
int64_value_type = 12

abbrev pub uint8_value_type : ℕ
uint8_value_type = 13

abbrev pub uint16_value_type : ℕ
uint16_value_type = 14

abbrev pub uint32_value_type : ℕ
uint32_value_type = 15

abbrev pub uint64_value_type : ℕ
uint64_value_type = 16

abbrev pub double_value_type : ℕ
double_value_type = 17

abbrev pub boolean_value_type : ℕ
boolean_value_type = 18

abbrev pub msgpack_object_value_type : ℕ
msgpack_object_value_type = 19

abbrev pub msgpack_raw_value_type : ℕ
msgpack_raw_value_type = 20

abbrev pub timestamp_value_type : ℕ
timestamp_value_type = 21

abbrev pub legacy_timestamp_value_type : ℕ
legacy_timestamp_value_type = 22

abbrev pub forward_v1_timestamp_value_type : ℕ
forward_v1_timestamp_value_type = 23

abbrev pub fluent_bit_v1_timestamp_value_type : ℕ
fluent_bit_v1_timestamp_value_type = 24

abbrev pub fluent_bit_v2_timestamp_value_type : ℕ
fluent_bit_v2_timestamp_value_type = 25
