-- ===== src/Wire.antt =====
-- The conversions between field values and wire values: the first `switch` of
-- `lwpb_encoder_add_field` (src/lwpb/core/encoder.c) and of `lwpb_encoder2_add_field`
-- (src/lwpb/core/encoder2.c), `field_wire_type` and the conversion `switch` of
-- `lwpb_decoder_decode` (src/lwpb/core/decoder.c). A number is the bit pattern of its C type.
pub mod ZigZag
pub mod RoundTrip
use lwpb.Common.{
  ℕ, ◌+◌, ◌-◌, ◌*◌, ◌/◌, ◌%◌, ◌^◌, Option, none, some, ltb, ◌==◌, if◌then◌else◌, bit_xor,
}
use lwpb.Types.{
  FieldType, double, float, int64, uint64, int32, fixed64, fixed32, bool, string, group, message,
  bytes, uint32, enum, sfixed32, sfixed64, sint32, sint64, Value, word32, word64, block, Ptr,
  read_word32, read_word64, read_block, WireValue, Run, ret, fault, ◌>>=◌, wt_varint, wt_64bit,
  wt_string, wt_32bit,
}
use mathlib.Core.Option

-- `(u64_t) x` for an `int` x: the sign is extended.
unfoldable pub sign_extend : ℕ → ℕ
sign_extend x = if ltb x (2 ^ 31) then x else x + (2 ^ 64 - 2 ^ 32)

-- `x >> 31` and `x >> 63` on signed numbers: all bits are the sign.
abbrev pub sign32 : ℕ → ℕ
sign32 x = if ltb x (2 ^ 31) then 0 else 2 ^ 32 - 1

abbrev pub sign64 : ℕ → ℕ
sign64 x = if ltb x (2 ^ 63) then 0 else 2 ^ 64 - 1

-- `(u32_t) ((x << 1) ^ (x >> 31))` and `(u64_t) ((x << 1) ^ (x >> 63))`
unfoldable pub zig_zag32 : ℕ → ℕ
zig_zag32 x = bit_xor (x * 2 % 2 ^ 32) (sign32 x)

unfoldable pub zig_zag64 : ℕ → ℕ
zig_zag64 x = bit_xor (x * 2 % 2 ^ 64) (sign64 x)

-- `(v >> 1) ^ -((s32_t) (v & 1))`: the negated bit is converted to 64 bits.
unfoldable pub un_zig_zag : ℕ → ℕ
un_zig_zag v = bit_xor (v / 2) (if v % 2 == 0 then 0 else 2 ^ 64 - 1)

-- The wire value of an encoder, by the member that was stored; with it goes the wire type. The
-- member is `unset` where the value's member that is read was not stored.
pub data WireOut : Type 0 where
  varint_out : ℕ → WireOut
  int64_out : ℕ → WireOut
  string_out : Ptr → ℕ → WireOut
  int32_out : ℕ → WireOut
  unset : WireOut

abbrev number_out : (ℕ → WireOut) → Option ℕ → WireOut
number_out f none = unset
number_out f (some x) = f x

abbrev pub block_out : Option (Ptr × ℕ) → WireOut
block_out none = unset
block_out (some (p, n)) = string_out p n

-- A group has no case in the `switch`.
unfoldable pub encode_value : FieldType → Value → WireOut
encode_value double v = number_out int64_out (read_word64 v)
encode_value float v = number_out int32_out (read_word32 v)
encode_value int32 v = number_out (λ x. varint_out (sign_extend x)) (read_word32 v)
encode_value uint32 v = number_out varint_out (read_word32 v)
encode_value sint32 v = number_out (λ x. varint_out (zig_zag32 x)) (read_word32 v)
encode_value int64 v = number_out varint_out (read_word64 v)
encode_value uint64 v = number_out varint_out (read_word64 v)
encode_value sint64 v = number_out (λ x. varint_out (zig_zag64 x)) (read_word64 v)
encode_value fixed32 v = number_out int32_out (read_word32 v)
encode_value fixed64 v = number_out int64_out (read_word64 v)
encode_value sfixed32 v = number_out int32_out (read_word32 v)
encode_value sfixed64 v = number_out int64_out (read_word64 v)
encode_value bool v = number_out (λ x. varint_out (sign_extend x)) (read_word32 v)
encode_value enum v = number_out (λ x. varint_out (sign_extend x)) (read_word32 v)
encode_value string v = block_out (read_block v)
encode_value bytes v = block_out (read_block v)
encode_value message v = block_out (read_block v)
encode_value group v = unset

abbrev pub wire_type_out : WireOut → ℕ
wire_type_out (varint_out x) = wt_varint
wire_type_out (int64_out x) = wt_64bit
wire_type_out (string_out p n) = wt_string
wire_type_out (int32_out x) = wt_32bit
wire_type_out unset = wt_varint

-- `field_wire_type`; it returns nothing for a group.
unfoldable pub field_wire_type : FieldType → Run ℕ
field_wire_type double = ret wt_64bit
field_wire_type float = ret wt_32bit
field_wire_type int32 = ret wt_varint
field_wire_type int64 = ret wt_varint
field_wire_type uint32 = ret wt_varint
field_wire_type uint64 = ret wt_varint
field_wire_type sint32 = ret wt_varint
field_wire_type sint64 = ret wt_varint
field_wire_type fixed32 = ret wt_32bit
field_wire_type fixed64 = ret wt_64bit
field_wire_type sfixed32 = ret wt_32bit
field_wire_type sfixed64 = ret wt_64bit
field_wire_type bool = ret wt_varint
field_wire_type enum = ret wt_varint
field_wire_type string = ret wt_string
field_wire_type bytes = ret wt_string
field_wire_type message = ret wt_string
field_wire_type group = fault

-- What the decoder hands on of a wire value; `none` is the case of a message, which opens a frame.
unfoldable pub decode_value : FieldType → WireValue → Option Value
decode_value double w = some (word64 w.word)
decode_value float w = some (word32 (w.word % 2 ^ 32))
decode_value int32 w = some (word32 (w.word % 2 ^ 32))
decode_value int64 w = some (word64 w.word)
decode_value uint32 w = some (word32 (w.word % 2 ^ 32))
decode_value uint64 w = some (word64 w.word)
decode_value sint32 w = some (word32 (un_zig_zag w.word % 2 ^ 32))
decode_value sint64 w = some (word64 (un_zig_zag w.word))
decode_value fixed32 w = some (word32 (w.word % 2 ^ 32))
decode_value fixed64 w = some (word64 w.word)
decode_value sfixed32 w = some (word32 (w.word % 2 ^ 32))
decode_value sfixed64 w = some (word64 w.word)
decode_value bool w = some (word32 (w.word % 2 ^ 32))
decode_value enum w = some (word32 (w.word % 2 ^ 32))
decode_value string w = some (block w.ptr w.word)
decode_value bytes w = some (block w.ptr w.word)
decode_value message w = none
decode_value group w = none

-- Stores into `union wire_value`: 8 bytes, the low 4 bytes, a length and a pointer.
abbrev pub set_word : WireValue → ℕ → WireValue
set_word w x = record w { word = x }

abbrev pub set_int32 : WireValue → ℕ → WireValue
set_int32 w x = record w { word = w.word / 2 ^ 32 * 2 ^ 32 + x }
