-- ===== src/Wire/RoundTrip.antt =====
-- Field values through their wire values and back.
use lwpb.Common.{◌^◌, ◌<◌, ◌≡◌, refl, some, arith}
use lwpb.Types.{
  FieldType, double, float, int64, uint64, int32, fixed64, fixed32, bool, string, group, message,
  bytes, uint32, enum, sfixed32, sfixed64, sint32, sint64, Value, word32, word64, block,
  read_word32, read_word64, read_block, WireValue, ret,
}
use lwpb.Wire.{
  WireOut, varint_out, int64_out, string_out, int32_out, unset, encode_value, wire_type_out,
  field_wire_type, decode_value, set_word, set_int32,
}
use lwpb.Wire.ZigZag.{
  un_zig_zag-zig_zag32, un_zig_zag-zig_zag64, zig_zag32-lt, zig_zag64-lt, sign_extend_lem,
}

abbrev IsWord32 : Value → Type 0
IsWord32 (word32 x) = x < 2 ^ 32
IsWord32 _ = ⊥

abbrev IsWord64 : Value → Type 0
IsWord64 (word64 x) = x < 2 ^ 64
IsWord64 _ = ⊥

abbrev IsBlock : Value → Type 0
IsBlock (block p n) = n < 2 ^ 64
IsBlock _ = ⊥

-- The values that a field of a type other than a message or a group may have.
abbrev pub IsValueOf : FieldType → Value → Type 0
IsValueOf double v = IsWord64 v
IsValueOf float v = IsWord32 v
IsValueOf int64 v = IsWord64 v
IsValueOf uint64 v = IsWord64 v
IsValueOf int32 v = IsWord32 v
IsValueOf fixed64 v = IsWord64 v
IsValueOf fixed32 v = IsWord32 v
IsValueOf bool v = IsWord32 v
IsValueOf string v = IsBlock v
IsValueOf group v = ⊥
IsValueOf message v = ⊥
IsValueOf bytes v = IsBlock v
IsValueOf uint32 v = IsWord32 v
IsValueOf enum v = IsWord32 v
IsValueOf sfixed32 v = IsWord32 v
IsValueOf sfixed64 v = IsWord64 v
IsValueOf sint32 v = IsWord32 v
IsValueOf sint64 v = IsWord64 v

-- The decoder's union after it has read a wire value over an older one.
unfoldable pub load_out : WireValue → WireOut → WireValue
load_out w (varint_out x) = set_word w x
load_out w (int64_out x) = set_word w x
load_out w (string_out p n) = record { word = n; ptr = p }
load_out w (int32_out x) = set_int32 w x
load_out w unset = w

-- The numbers of a wire value fit their C types.
abbrev pub IsOut : WireOut → Type 0
IsOut (varint_out x) = x < 2 ^ 64
IsOut (int64_out x) = x < 2 ^ 64
IsOut (string_out p n) = n < 2 ^ 64
IsOut (int32_out x) = x < 2 ^ 32
IsOut unset = ⊥

-- For each field type but message and group, and a value of the type: what the decoder hands on is
-- the value that the encoder was given, whatever the decoder's wire value held before.
pub decode_value-encode_value :
    (t : FieldType) (v : Value) (w : WireValue)
    → IsValueOf t v
    → decode_value t (load_out w (encode_value t v)) ≡ some v
unfolding decode_value load_out encode_value read_word32 read_word64 read_block
decode_value-encode_value double (word64 x) w h = refl
decode_value-encode_value float (word32 x) w h = ground arith
decode_value-encode_value int64 (word64 x) w h = refl
decode_value-encode_value uint64 (word64 x) w h = refl
decode_value-encode_value int32 (word32 x) w h = rw (sign_extend_lem x h).1
decode_value-encode_value fixed64 (word64 x) w h = refl
decode_value-encode_value fixed32 (word32 x) w h = ground arith
decode_value-encode_value bool (word32 x) w h = rw (sign_extend_lem x h).1
decode_value-encode_value string (block p n) w h = refl
decode_value-encode_value bytes (block p n) w h = refl
decode_value-encode_value uint32 (word32 x) w h = ground arith
decode_value-encode_value enum (word32 x) w h = rw (sign_extend_lem x h).1
decode_value-encode_value sfixed32 (word32 x) w h = ground arith
decode_value-encode_value sfixed64 (word64 x) w h = refl
decode_value-encode_value sint32 (word32 x) w h = rw (un_zig_zag-zig_zag32 x h)
decode_value-encode_value sint64 (word64 x) w h = rw (un_zig_zag-zig_zag64 x h)
decode_value-encode_value _ v w h = absurd h

pub encode_value-IsOut : (t : FieldType) (v : Value) → IsValueOf t v → IsOut (encode_value t v)
unfolding encode_value read_word32 read_word64 read_block
encode_value-IsOut double (word64 x) h = h
encode_value-IsOut float (word32 x) h = h
encode_value-IsOut int64 (word64 x) h = h
encode_value-IsOut uint64 (word64 x) h = h
encode_value-IsOut int32 (word32 x) h = (sign_extend_lem x h).0
encode_value-IsOut fixed64 (word64 x) h = h
encode_value-IsOut fixed32 (word32 x) h = h
encode_value-IsOut bool (word32 x) h = (sign_extend_lem x h).0
encode_value-IsOut string (block p n) h = h
encode_value-IsOut bytes (block p n) h = h
encode_value-IsOut uint32 (word32 x) h = omega arith
encode_value-IsOut enum (word32 x) h = (sign_extend_lem x h).0
encode_value-IsOut sfixed32 (word32 x) h = h
encode_value-IsOut sfixed64 (word64 x) h = h
encode_value-IsOut sint32 (word32 x) h = omega (arith, zig_zag32-lt x h)
encode_value-IsOut sint64 (word64 x) h = zig_zag64-lt x h
encode_value-IsOut _ v h = absurd h

-- For each field type but message and group, and a value of the type: the wire type that the encoder
-- writes is the one that the decoder's `field_wire_type` has for the type.
pub field_wire_type-encode_value :
    (t : FieldType) (v : Value)
    → IsValueOf t v
    → field_wire_type t ≡ ret (wire_type_out (encode_value t v))
unfolding field_wire_type encode_value read_word32 read_word64 read_block
field_wire_type-encode_value double (word64 x) h = refl
field_wire_type-encode_value float (word32 x) h = refl
field_wire_type-encode_value int64 (word64 x) h = refl
field_wire_type-encode_value uint64 (word64 x) h = refl
field_wire_type-encode_value int32 (word32 x) h = refl
field_wire_type-encode_value fixed64 (word64 x) h = refl
field_wire_type-encode_value fixed32 (word32 x) h = refl
field_wire_type-encode_value bool (word32 x) h = refl
field_wire_type-encode_value string (block p n) h = refl
field_wire_type-encode_value bytes (block p n) h = refl
field_wire_type-encode_value uint32 (word32 x) h = refl
field_wire_type-encode_value enum (word32 x) h = refl
field_wire_type-encode_value sfixed32 (word32 x) h = refl
field_wire_type-encode_value sfixed64 (word64 x) h = refl
field_wire_type-encode_value sint32 (word32 x) h = refl
field_wire_type-encode_value sint64 (word64 x) h = refl
field_wire_type-encode_value _ v h = absurd h
