-- ===== src/Socket/Framing.antt =====
-- What `send_request` and `send_response` of src/lwpb/rpc/socket_helper.c send, and what
-- `parse_request` makes of it.
use lwpb.Common.{ℕ, ◌^◌, ◌≤◌, ◌<◌, refl, arith, List, [], ◌∷◌, ◌++◌, length, length-append, take}
use lwpb.Types.{MsgDesc, Value, word32, block, outside, is_packed_repeated, read_word32, read_block}
use lwpb.Varint.Spec.{varint}
use lwpb.Wire.{encode_value, wire_type_out, string_out}
use lwpb.Copy.{length-take}
use lwpb.Encoder.{field_key}
use lwpb.Encoder.Field.{field_bytes}
use lwpb.Decoder.{find_field}
use lwpb.Decoder.Field.{IsKnown, bytes_of}
use lwpb.Message.{Fields, message_bytes, IsMessage}
use lwpb.Socket.{
  header_schema, header, header_type, header_service, header_method, header_type_desc,
  header_service_desc, header_method_desc, request_type, response_type,
}
use lwpb.Socket.Names.{chars, length-chars}

-- A name as the value of a field.
abbrev pub text : List ℕ → Value
text name = block (outside name) (length (chars name))

abbrev pub request_fields : List ℕ → List ℕ → Fields
request_fields service method =
    (header_type, word32 request_type)
    ∷ (header_service, text service)
    ∷ (header_method, text method)
    ∷ []

abbrev pub response_fields : Fields
response_fields = (header_type, word32 response_type) ∷ []

header_desc : MsgDesc
header_desc = record { fields = header_type_desc ∷ header_service_desc ∷ header_method_desc ∷ [] }

header_type-IsKnown : IsKnown header_schema header header_type
unfolding find_field is_packed_repeated
header_type-IsKnown = record {
  desc = _;
  has = refl;
  found = refl;
  small = omega arith;
  unpacked = refl;
}

header_service-IsKnown : IsKnown header_schema header header_service
unfolding find_field is_packed_repeated
header_service-IsKnown = record {
  desc = _;
  has = refl;
  found = refl;
  small = omega arith;
  unpacked = refl;
}

header_method-IsKnown : IsKnown header_schema header header_method
unfolding find_field is_packed_repeated
header_method-IsKnown = record {
  desc = _;
  has = refl;
  found = refl;
  small = omega arith;
  unpacked = refl;
}

pub request-IsMessage :
    (service method : List ℕ)
    → length (chars service) < 2 ^ 64
    → length (chars method) < 2 ^ 64
    → IsMessage header_schema header (request_fields service method)
unfolding encode_value read_word32 read_block
request-IsMessage service method small small' = (
  header_type-IsKnown,
  omega arith,
  tt,
  (
    header_service-IsKnown,
    small,
    length-chars service,
    (header_method-IsKnown, small', length-chars method, tt),
  ),
)

pub response-IsMessage : IsMessage header_schema header response_fields
unfolding encode_value read_word32
response-IsMessage = (header_type-IsKnown, omega arith, tt, tt)

text_short :
    (number : ℕ) (name : List ℕ)
    → length (chars name)
      ≤ length (field_bytes number (string_out (outside name) (length (chars name))))
unfolding field_bytes
text_short number name =
    let n = length (chars name) in
    let key = varint (field_key (wire_type_out (string_out (outside name) n)) number) in
    omega (
      arith,
      length-append key (varint n ++ take n name),
      length-append (varint n) (take n name),
      length-take n name (length-chars name),
    )

-- A header is longer than the names in it.
pub names_short :
    (service method : List ℕ)
    → (length (chars service) ≤ length (message_bytes (request_fields service method)))
      × (length (chars method) ≤ length (message_bytes (request_fields service method)))
unfolding message_bytes encode_value read_word32 read_block
names_short service method =
    let one = bytes_of header_type (word32 request_type) in
    let two = bytes_of header_service (text service) in
    let three = bytes_of header_method (text method) in
    omega (
      arith,
      length-append one (two ++ (three ++ [])),
      length-append two (three ++ []),
      length-append three [],
      text_short 2 service,
      text_short 3 method,
    )
