-- ===== src/Socket.antt =====
-- The framing of the socket transports, src/lwpb/rpc/socket_helper.c, with the descriptors of
-- socket_protocol_pb2.c. A service descriptor is a position in the table of all services; a name is
-- the object that its pointer points to. What a function sends is the list of its calls of `send`.
pub mod Client
pub mod Framing
pub mod Names
pub mod Parse
pub mod Send
pub mod Server
pub mod System
use lwpb.Common.{
  ℕ, zero, suc, ◌+◌, ◌-◌, ◌*◌, ◌/◌, ◌%◌, ◌^◌, Bool, true, false, not, ◌&&◌, Option, none, some,
  List, [], ◌∷◌, ◌++◌, ◌==◌, ltb, leb, get_elem?, if◌then◌else◌,
}
use lwpb.Types.{
  Err, err_ok, err_cancel, err_unknown_field, err_invalid_field, err_end_of_buf, err_mem,
  err_net_init, Run, ret, fault, ◌>>=◌, ◌>>◌, require, some_or_fault, Schema, MsgDesc, FieldDesc,
  FieldRef, same_field, optional, required, enum, string, Value, read_word32, read_block, Ptr,
  inside, outside, WireValue,
}
use lwpb.Buf.{Memory}
use lwpb.Copy.{fetch, load, str_len}
use lwpb.Encoder.{Encoder, start, finish}
use lwpb.Encoder.Typed.{add_enum, add_string}
use lwpb.Decoder.{Handlers, decode}
use lwpb.Rpc.{Method}

-- `struct lwpb_method_desc` with its name and the service that it belongs to.
pub record MethodDesc : Type 0 where
  pub service : ℕ
  pub method : Method
  pub name : List ℕ

-- `struct lwpb_service_desc`: `num_methods` is the length of the list.
pub record ServiceDesc : Type 0 where
  pub methods : List MethodDesc
  pub name : List ℕ

-- All service descriptors of the program.
abbrev pub Services : Type 0
Services = List ServiceDesc

-- The descriptors of the header message.
abbrev pub header_type_desc : FieldDesc
header_type_desc = record {
  number = 1;
  label = required;
  typ = enum;
  is_packed = false;
  msg_desc = none;
}

abbrev pub header_service_desc : FieldDesc
header_service_desc = record {
  number = 2;
  label = optional;
  typ = string;
  is_packed = false;
  msg_desc = none;
}

abbrev pub header_method_desc : FieldDesc
header_method_desc = record {
  number = 3;
  label = optional;
  typ = string;
  is_packed = false;
  msg_desc = none;
}

abbrev pub header_schema : Schema
header_schema =
    record { fields = header_type_desc ∷ header_service_desc ∷ header_method_desc ∷ [] } ∷ []

-- `socket_protocol_Header` and the pointers to its fields.
abbrev pub header : ℕ
header = 0

abbrev pub header_type : FieldRef
header_type = record { owner = 0; index = 0; desc = header_type_desc }

abbrev pub header_service : FieldRef
header_service = record { owner = 0; index = 1; desc = header_service_desc }

abbrev pub header_method : FieldRef
header_method = record { owner = 0; index = 2; desc = header_method_desc }

-- SOCKET_PROTOCOL_REQUEST and SOCKET_PROTOCOL_RESPONSE
abbrev pub request_type : ℕ
request_type = 0

abbrev pub response_type : ℕ
response_type = 1

-- PROTOCOL_MAGIC
abbrev pub magic : ℕ
magic = 0xdeadbeaf

-- sizeof(struct pre_header)
abbrev pub pre_header_size : ℕ
pre_header_size = 12

-- The bytes of `htonl(v)` in memory, where `v` is cut to 32 bits.
abbrev pub net_bytes : ℕ → List ℕ
net_bytes v = v / 2 ^ 24 % 256 ∷ v / 2 ^ 16 % 256 ∷ v / 2 ^ 8 % 256 ∷ v % 256 ∷ []

-- `ntohl` of four bytes in memory.
abbrev pub net_word : List ℕ → Run ℕ
net_word (a ∷ b ∷ c ∷ d ∷ []) = ret (a * 2 ^ 24 + b * 2 ^ 16 + c * 2 ^ 8 + d)
net_word _ = fault

-- What a call of `send` gets: bytes, or a pointer with a length.
pub data Block : Type 0 where
  bytes_block : List ℕ → Block
  buffer_block : Option ℕ → ℕ → Block

abbrev pub pre_header : ℕ → ℕ → List ℕ
pre_header header_len msg_len = net_bytes magic ++ (net_bytes header_len ++ net_bytes msg_len)

-- What both functions send. The header is built in a local array of 128 bytes that holds what was
-- there before, and the results of the encoder are dropped.
abbrev header_size : ℕ
header_size = 128

abbrev frame_blocks : Memory → ℕ → Option ℕ → ℕ → List Block
frame_blocks m len buf buf_len =
    bytes_block (pre_header len buf_len)
    ∷ bytes_block (load m 0 len)
    ∷ buffer_block buf buf_len
    ∷ []

unfoldable pub send_request : Services → Memory → MethodDesc → Option ℕ → ℕ → Run (List Block)
send_request services local method req_buf req_len = do
  service ← some_or_fault (get_elem? services method.service)
  e ← start local header 0 header_size
  (_, m1, e1) ← add_enum header_schema local e header_type request_type
  (_, m2, e2) ← add_string header_schema m1 e1 header_service service.name
  (_, m3, e3) ← add_string header_schema m2 e2 header_method method.name
  len ← finish e3
  ret (frame_blocks m3 len req_buf req_len)

unfoldable pub send_response : Memory → Option ℕ → ℕ → Run (List Block)
send_response local res_buf res_len = do
  e ← start local header 0 header_size
  (_, m1, e1) ← add_enum header_schema local e header_type response_type
  len ← finish e1
  ret (frame_blocks m1 len res_buf res_len)

-- `struct protocol_header_info`. Descriptors that were found stand with what they point to.
pub record HeaderInfo : Type 0 where
  pub msg_type : ℕ
  pub service_desc : Option ServiceDesc
  pub method_desc : Option MethodDesc
  pub header_len : ℕ
  pub msg_len : ℕ
  pub service_list : Option (List ℕ)

-- `strncmp(a, b, n) == 0` for `a` in memory and an object of bytes: both are read up to the first
-- difference or a common 0.
unfoldable pub str_n_equal : Memory → ℕ → List ℕ → ℕ → Run Bool
str_n_equal m p bs zero = ret true
str_n_equal m p [] (suc n) = fault
str_n_equal m p (b ∷ bs) (suc n) =
    let rest = str_n_equal m (p + 1) bs n in
    require (ltb p m.size)
    >> (if m.byte p == b then (if b == 0 then ret true else rest) else ret false)

-- `value->string.len == strlen(name)` and then `strncmp` of as many characters.
unfoldable pub is_named : Memory → Ptr × ℕ → List ℕ → Run Bool
is_named m (inside p, len) name =
    str_len name >>= λ n. if len == n then str_n_equal m p name len else ret false
is_named m (outside bs, len) name = fault

-- The loop over the service list, up to the NULL at its end.
unfoldable pub find_service : Services → Memory → Ptr × ℕ → List ℕ → Run (Option ServiceDesc)
find_service services m str [] = ret none
find_service services m str (s ∷ rest) = some_or_fault (get_elem? services s) >>= λ service.
    is_named m str service.name >>= λ found.
    if found then ret (some service) else find_service services m str rest

unfoldable pub find_method : Memory → Ptr × ℕ → List MethodDesc → Run (Option MethodDesc)
find_method m str [] = ret none
find_method m str (method ∷ rest) = is_named m str method.name >>= λ found.
    if found then ret (some method) else find_method m str rest

abbrev pub or_old : {A : Type 0} → Option A → Option A → Option A
or_old none old = old
or_old (some x) old = some x

-- `value->enum_` and `value->string`, where `value` must not be NULL.
abbrev enum_of : Option Value → Run ℕ
enum_of none = fault
enum_of (some v) = some_or_fault (read_word32 v)

abbrev string_of : Option Value → Run (Ptr × ℕ)
string_of none = fault
string_of (some v) = some_or_fault (read_block v)

module _ (services : Services) (m : Memory) where
  unfoldable pub take_type : FieldRef → Option Value → HeaderInfo → Run HeaderInfo
  take_type field v info =
      if same_field field header_type
      then (enum_of v >>= λ x. ret (record info { msg_type = x }))
      else ret info

  unfoldable pub take_service : FieldRef → Option Value → HeaderInfo → Run HeaderInfo
  take_service field v info = elim info.service_list [
    | none ↦ ret info
    | some list ↦
        if same_field field header_service
        then (string_of v >>= λ str. find_service services m str list >>= λ found.
            ret (record info { service_desc = or_old found info.service_desc }))
        else ret info
  ]

  unfoldable pub take_method : FieldRef → Option Value → HeaderInfo → Run HeaderInfo
  take_method field v info = elim info.service_list [
    | none ↦ ret info
    | some list ↦ elim info.service_desc [
      | none ↦ ret info
      | some service ↦
          if same_field field header_method
          then (string_of v >>= λ str. find_method m str service.methods >>= λ found.
              ret (record info { method_desc = or_old found info.method_desc }))
          else ret info
    ]
  ]

  -- `parse_request_field_handler`
  unfoldable pub header_field_handler :
      Option ℕ → FieldRef → Option Value → Run HeaderInfo → Run HeaderInfo
  header_field_handler none field v r = r
  header_field_handler (some msg) field v r =
      if msg == header
      then (r >>= take_type field v >>= take_service field v >>= take_method field v)
      else r

  unfoldable pub header_handlers : Handlers (Run HeaderInfo)
  header_handlers = record { msg_start = none; msg_end = none; field = some header_field_handler }

-- The numbers that `parse_request` returns: PARSE_ERR_OK, PARSE_ERR_END_OF_BUF and
-- PARSE_ERR_INVALID_MAGIC, or an `lwpb_err_t` as its number.
abbrev pub parse_ok : ℕ
parse_ok = 0

abbrev pub parse_end_of_buf : ℕ
parse_end_of_buf = 1

abbrev pub parse_invalid_magic : ℕ
parse_invalid_magic = 2

abbrev pub err_number : Err → ℕ
err_number err_ok = 0
err_number err_cancel = 1
err_number err_unknown_field = 2
err_number err_invalid_field = 3
err_number err_end_of_buf = 4
err_number err_mem = 5
err_number err_net_init = 6

-- A word of the pre-header.
abbrev word_at : Memory → ℕ → Run ℕ
word_at m p = fetch m (inside p) 4 >>= net_word

-- `parse_request` on `len` bytes at `p`, with what `info` and the decoder's variable hold before.
unfoldable pub parse_request :
    Services → Memory → ℕ → ℕ → WireValue → HeaderInfo → Option (List ℕ) → Run (ℕ × HeaderInfo)
parse_request services m p len garbage info list =
    if ltb len pre_header_size
    then ret (parse_end_of_buf, info)
    else (word_at m p >>= λ word.
        if not (word == magic)
        then ret (parse_invalid_magic, info)
        else (word_at m (p + 4) >>= λ header_len. word_at m (p + 8) >>= λ msg_len.
            let info' : HeaderInfo = record info {
              header_len = header_len + pre_header_size;
              msg_len = msg_len;
            } in
            if ltb len (header_len + pre_header_size + msg_len)
            then ret (parse_end_of_buf, info')
            else (decode (header_handlers services m) m header header_schema (p + pre_header_size)
                  header_len garbage
                  (ret (record info' {
                    msg_type = 0;
                    service_desc = none;
                    method_desc = none;
                    service_list = list;
                  }))
                >>= λ (e, r, used). r >>= λ info''. ret (err_number e, info''))))
