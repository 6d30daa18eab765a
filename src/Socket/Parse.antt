-- ===== src/Socket/Parse.antt =====
-- `parse_request` of src/lwpb/rpc/socket_helper.c on a whole message and on a part of one.
pub mod Sent
use lwpb.Common.{
  ℕ, zero, suc, ◌+◌, ◌-◌, ◌*◌, ◌/◌, ◌%◌, ◌^◌, ◌≤◌, ◌<◌, ◌≡◌, refl, ap, sym, ◌∙◌, arith, true, false,
  Option, none, some, List, [], ◌∷◌, ◌++◌, length, length-append, take, All, ltb-true, ltb-false,
  lt_or_ge, inl, inr, leb-true, ==_true, get_elem?,
}
use lwpb.Types.{
  err_ok, Run, ret, ◌>>=◌, Value, word32, block, inside, outside, read_word32, read_block,
  WireValue,
}
use lwpb.Buf.{Memory}
use lwpb.Varint.Spec.{varint, groups, Holds, Holds-append}
use lwpb.Wire.{encode_value, wire_type_out, string_out, sign_extend}
use lwpb.Copy.{fetch, load, load-Holds}
use lwpb.Encoder.{field_key}
use lwpb.Encoder.Field.{payload, field_bytes}
use lwpb.Decoder.Field.{bytes_of, value_pos}
use lwpb.Message.{Fields, message_bytes, IsMessage}
use lwpb.Message.Decode.{events, decode_lem}
use lwpb.Socket.{
  Block, bytes_block, MethodDesc, send_request, send_response, Services, ServiceDesc, header_schema,
  header, header_type, header_service, header_method, request_type, response_type, magic, net_bytes,
  net_word, word_at, pre_header, HeaderInfo, header_handlers, header_field_handler, take_type,
  take_service, take_method, parse_request, parse_ok, parse_end_of_buf, or_old,
}
use lwpb.Socket.Names.{
  chars, has_end, take-chars, length-chars, first_method, first_service, AreNamed, IsListed,
  find_method_lem, find_service_lem, first_service-AreNamed,
}
use lwpb.Socket.Framing.{
  text, request_fields, response_fields, request-IsMessage, response-IsMessage, names_short,
}
use lwpb.Socket.Send.{send_request_lem, send_response_lem}

word_at_lem :
    (m : Memory) (p v : ℕ)
    → Holds m p (net_bytes v)
    → p + 4 ≤ m.size
    → v < 2 ^ 32
    → word_at m p ≡ ret v
unfolding fetch
word_at_lem m p v at inner small =
    let same : v / 2 ^ 24 % 256 * 2 ^ 24
          + v / 2 ^ 16 % 256 * 2 ^ 16
          + v / 2 ^ 8 % 256 * 2 ^ 8
          + v % 256
        ≡ v =
      omega arith in
    rw (leb-true (p + 4) m.size inner, load-Holds m p (net_bytes v) at, same) refl

-- What stands in front of a message: the pre-header and the header.
abbrev pub heading : Fields → ℕ → List ℕ
heading xs msg_len = pre_header (length (message_bytes xs)) msg_len ++ message_bytes xs

module _ (services : Services) (m : Memory) (small : m.size < 2 ^ 64) where
  module _ (p header_len msg_len : ℕ) (at : Holds m p (pre_header header_len msg_len)) where
    first_word : Holds m p (net_bytes magic)
    first_word =
        (Holds-append m p (net_bytes magic) (net_bytes header_len ++ net_bytes msg_len) at).0

    words : Holds m (p + 4) (net_bytes header_len ++ net_bytes msg_len)
    words = (Holds-append m p (net_bytes magic) (net_bytes header_len ++ net_bytes msg_len) at).1

    second_word : Holds m (p + 4) (net_bytes header_len)
    second_word = (Holds-append m (p + 4) (net_bytes header_len) (net_bytes msg_len) words).0

    third_word : Holds m (p + 8) (net_bytes msg_len)
    third_word =
        let e : p + 4 + 4 ≡ p + 8 = omega arith in
        rw e at (Holds-append m (p + 4) (net_bytes header_len) (net_bytes msg_len) words).1

  -- The three words of a pre-header.
  module _ (p header_len msg_len : ℕ) (at : Holds m p (pre_header header_len msg_len))
      (inner : p + 12 ≤ m.size) where
    word_at-magic : word_at m p ≡ ret magic
    word_at-magic =
        word_at_lem m p magic (first_word p header_len msg_len at) (omega arith) (omega arith)

    word_at_header_len : header_len < 2 ^ 32 → word_at m (p + 4) ≡ ret header_len
    word_at_header_len small_header =
        word_at_lem m (p + 4) header_len (second_word p header_len msg_len at) (omega arith)
          small_header

    word_at_msg_len : msg_len < 2 ^ 32 → word_at m (p + 8) ≡ ret msg_len
    word_at_msg_len small_msg =
        word_at_lem m (p + 8) msg_len (third_word p header_len msg_len at) (omega arith) small_msg

  -- The result for a complete message, whatever stands behind it.
  pub parse_heading :
      (xs : Fields) (p len msg_len : ℕ) (garbage : WireValue) (info : HeaderInfo)
      (list : Option (List ℕ))
      → IsMessage header_schema header xs
      → Holds m p (heading xs msg_len)
      → p + 12 + length (message_bytes xs) ≤ m.size
      → length (message_bytes xs) + 12 + msg_len ≤ len
      → length (message_bytes xs) < 2 ^ 32
      → msg_len < 2 ^ 32
      → parse_request services m p len garbage info list ≡ (
          events (header_handlers services m) header header_schema (p + 12) xs (
            ret (record {
              msg_type = 0;
              service_desc = none;
              method_desc = none;
              header_len = length (message_bytes xs) + 12;
              msg_len = msg_len;
              service_list = list;
            }))
          >>= λ info'. ret (parse_ok, info'))
  unfolding parse_request header_handlers
  parse_heading xs p len msg_len garbage info list good at inner whole short short' =
      let bs = message_bytes xs in
      let parts = Holds-append m p (pre_header (length bs) msg_len) bs at in
      rw
        (
          ltb-false len 12 (omega arith),
          word_at-magic p (length bs) msg_len parts.0 (omega arith),
          word_at_header_len p (length bs) msg_len parts.0 (omega arith) short,
          word_at_msg_len p (length bs) msg_len parts.0 (omega arith) short',
          ltb-false len (length bs + 12 + msg_len) whole,
          decode_lem (header_handlers services m) header header_schema m xs (p + 12) (length bs)
              garbage _ good inner small parts.1 refl,
        )
        refl

  -- For a header and a message of fewer than 2^32 bytes each: while fewer bytes have been received
  -- than pre-header, header and message take together, and the first twelve of them, once they are
  -- there, are the pre-header that `send_request` writes for those lengths, `parse_request` returns
  -- PARSE_ERR_END_OF_BUF.
  pub parse_request_incomplete :
      (p len header_len msg_len : ℕ) (garbage : WireValue) (info : HeaderInfo)
      (list : Option (List ℕ))
      → (12 ≤ len → Holds m p (pre_header header_len msg_len))
      → len < header_len + 12 + msg_len
      → p + len ≤ m.size
      → header_len < 2 ^ 32
      → msg_len < 2 ^ 32
      → (info' : HeaderInfo) × (parse_request services m p len garbage info list
          ≡ ret (parse_end_of_buf, info'))
  unfolding parse_request
  parse_request_incomplete p len header_len msg_len garbage info list at short inner small_header
        small_msg =
      elim (lt_or_ge len 12) [
        | inl few ↦ (info, rw (ltb-true len 12 few) refl)
        | inr enough ↦ (
          record info { header_len = header_len + 12; msg_len = msg_len },
          rw
              (
                ltb-false len 12 enough,
                word_at-magic p header_len msg_len (at enough) (omega arith),
                word_at_header_len p header_len msg_len (at enough) (omega arith) small_header,
                word_at_msg_len p header_len msg_len (at enough) (omega arith) small_msg,
                ltb-true len (header_len + 12 + msg_len) short,
              )
              refl,
        )
      ]
