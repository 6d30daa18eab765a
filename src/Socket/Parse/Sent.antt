-- ===== src/Socket/Parse/Sent.antt =====
-- `parse_request` of src/lwpb/rpc/socket_helper.c on what `send_request` and `send_response` send.
use lwpb.Common.{
  ℕ, ◌+◌, ◌^◌, ◌≤◌, ◌<◌, ◌≡◌, refl, ap, arith, true, Option, none, some, List, [], ◌∷◌, ◌++◌,
  length, length-append, take, All, get_elem?,
}
use lwpb.Types.{
  ret, ◌>>=◌, Value, word32, block, inside, outside, read_word32, read_block, WireValue,
}
use lwpb.Buf.{Memory}
use lwpb.Varint.Spec.{varint, groups, Holds, Holds-append}
use lwpb.Wire.{encode_value, string_out, sign_extend}
use lwpb.Encoder.{field_key}
use lwpb.Encoder.Field.{field_bytes}
use lwpb.Decoder.Field.{bytes_of}
use lwpb.Message.{message_bytes}
use lwpb.Message.Decode.{events}
use lwpb.Socket.{
  Block, bytes_block, MethodDesc, send_request, send_response, Services, ServiceDesc, header_schema,
  header, header_type, header_service, header_method, request_type, response_type, pre_header,
  HeaderInfo, header_handlers, header_field_handler, take_type, take_service, take_method,
  parse_request, parse_ok, or_old,
}
use lwpb.Socket.Names.{
  chars, has_end, take-chars, first_method, first_service, AreNamed, IsListed, find_method_lem,
  find_service_lem, first_service-AreNamed,
}
use lwpb.Socket.Framing.{
  text, request_fields, response_fields, request-IsMessage, response-IsMessage, names_short,
}
use lwpb.Socket.Send.{send_request_lem, send_response_lem}
use lwpb.Socket.Parse.{heading, parse_heading}

or_none : {A : Type 0} (x : Option A) → or_old x none ≡ x
or_none none = refl
or_none (some x) = refl

pub response_length : length (message_bytes response_fields) ≡ 2
unfolding message_bytes field_bytes encode_value read_word32 field_key varint groups sign_extend
response_length = refl

-- The state of the field handler behind a header.
abbrev pub found_info : ℕ → Option ServiceDesc → List ℕ → ℕ → ℕ → List ℕ → HeaderInfo
found_info typ service method header_len msg_len list = record {
  msg_type = typ;
  service_desc = service;
  method_desc = elim service [ none ↦ none | some s ↦ first_method method s.methods ];
  header_len = header_len;
  msg_len = msg_len;
  service_list = some list;
}

module _ (services : Services) (m : Memory) (small : m.size < 2 ^ 64) where
  -- What a name in the header is when it is delivered: the characters stand behind their length.
  text_at :
      (p number : ℕ) (name : List ℕ)
      → Holds m p (field_bytes number (string_out (outside name) (length (chars name))))
      → p + length (field_bytes number (string_out (outside name) (length (chars name)))) ≤ m.size
      → let n = length (chars name) in
        let q = p + length (varint (field_key 2 number)) + length (varint n) in
        Holds m q (chars name) × (q + n ≤ m.size)
  unfolding field_bytes
  text_at p number name at inner =
      let n = length (chars name) in
      let key = varint (field_key 2 number) in
      let value = Holds-append m p key (varint n ++ take n name) at in
      let block = Holds-append m (p + length key) (varint n) (take n name) value.1 in
      let total = length-append key (varint n ++ take n name) in
      let total' = length-append (varint n) (take n name) in
      let same = take-chars name in
      let size : length (take n name) ≡ n = ap (λ (l : List ℕ). length l) same in
      (rw same at block.1, omega (arith, total, total', size))

  -- From the service on: the method is looked up among the methods of the service, if there is one.
  method_events :
      (found : Option ServiceDesc) (v : Option Value) (q : ℕ) (name list : List ℕ)
      (header_len msg_len : ℕ)
      → Holds m q name
      → q + length name ≤ m.size
      → ((s : ServiceDesc) → found ≡ some s → AreNamed s.methods)
      → let w = some (block (inside q) (length name)) in
        (take_method services m header_service v (record {
          msg_type = request_type;
          service_desc = or_old found none;
          method_desc = none;
          header_len = header_len;
          msg_len = msg_len;
          service_list = some list;
        })
          >>= take_type services m header_method w
          >>= take_service services m header_method w
          >>= take_method services m header_method w)
        ≡ ret (found_info request_type found name header_len msg_len list)
  unfolding take_type take_service take_method read_block
  method_events none v q name list header_len msg_len at inner named = refl
  method_events (some s) v q name list header_len msg_len at inner named =
      rw
        (
          find_method_lem m q name at inner s.methods (named s refl),
          or_none (first_method name s.methods),
        )
        refl

  request_events :
      (service method : List ℕ) (p header_len msg_len : ℕ) (list : List ℕ)
      → All (IsListed services) list
      → Holds m p (message_bytes (request_fields service method))
      → p + length (message_bytes (request_fields service method)) ≤ m.size
      → events (header_handlers services m) header header_schema p (request_fields service method) (
          ret (record {
            msg_type = 0;
            service_desc = none;
            method_desc = none;
            header_len = header_len;
            msg_len = msg_len;
            service_list = some list;
          }))
        ≡ ret (
            found_info request_type
              (first_service services (chars service) list)
              (chars method)
              header_len
              msg_len
              list)
  unfolding header_handlers header_field_handler take_type take_service take_method message_bytes
      encode_value read_word32 read_block
  request_events service method p header_len msg_len list listed at inner =
      let one = bytes_of header_type (word32 request_type) in
      let two = bytes_of header_service (text service) in
      let three = bytes_of header_method (text method) in
      let total = length-append one (two ++ (three ++ [])) in
      let total' = length-append two (three ++ []) in
      let total'' = length-append three [] in
      let at1 = Holds-append m p one (two ++ (three ++ [])) at in
      let at2 = Holds-append m (p + length one) two (three ++ []) at1.1 in
      let at3 = Holds-append m (p + length one + length two) three [] at2.1 in
      let (here, fits) = text_at (p + length one) 2 service at2.0 (omega arith) in
      let (here', fits') = text_at (p + length one + length two) 3 method at3.0 (omega arith) in
      rw (find_service_lem m _ (chars service) here fits services list listed) (
        method_events (first_service services (chars service) list) none _ (chars method) list
          header_len msg_len here' fits'
          (λ s found. first_service-AreNamed services (chars service) list s listed found))

  parse_request-heading :
      (service method : List ℕ) (p len msg_len : ℕ) (garbage : WireValue) (info : HeaderInfo)
      (list : List ℕ)
      → All (IsListed services) list
      → Holds m p (heading (request_fields service method) msg_len)
      → length (message_bytes (request_fields service method)) + 12 + msg_len ≤ len
      → p + len ≤ m.size
      → length (message_bytes (request_fields service method)) ≤ 128
      → msg_len < 2 ^ 32
      → parse_request services m p len garbage info (some list)
        ≡ ret (
          parse_ok,
          found_info request_type
              (first_service services (chars service) list)
              (chars method)
              (length (message_bytes (request_fields service method)) + 12)
              msg_len
              list,
        )
  parse_request-heading service method p len msg_len garbage info list listed at whole inner short
        short' =
      let xs = request_fields service method in
      let bs = message_bytes xs in
      let names = names_short service method in
      let parts = Holds-append m p (pre_header (length bs) msg_len) bs at in
      rw
        (
          parse_heading services m small xs p len msg_len garbage info (some list)
              (request-IsMessage service method (omega (arith, names.0)) (omega (arith, names.1)))
              at (omega arith) whole (omega arith) short',
          request_events service method (p + 12) (length bs + 12) msg_len list listed parts.1
              (omega arith),
        )
        refl

  -- Let `send_request` be called with an array of 128 bytes, for a method of a known service, both
  -- with names that end and a header of at most 128 bytes, and let it send a pre-header and a
  -- header. On a memory below 2^64 bytes that holds both, and where the received length covers them
  -- and the message of the announced length below 2^32, `parse_request` returns PARSE_ERR_OK with
  -- the lengths that were sent, the first listed service with the name of the service, and the first
  -- method of that service with the name of the method, whatever follows. The listed services are
  -- known and all names end.
  pub parse_request-send_request :
      (local : Memory) (method : MethodDesc) (service : ServiceDesc) (buf : Option ℕ)
      (p len msg_len : ℕ) (garbage : WireValue) (info : HeaderInfo) (list pre hd : List ℕ)
      (rest : List Block)
      → local.size ≡ 128
      → get_elem? services method.service ≡ some service
      → has_end service.name ≡ true
      → has_end method.name ≡ true
      → length (message_bytes (request_fields service.name method.name)) ≤ 128
      → send_request services local method buf msg_len
        ≡ ret (bytes_block pre ∷ bytes_block hd ∷ rest)
      → All (IsListed services) list
      → Holds m p (pre ++ hd)
      → length hd + 12 + msg_len ≤ len
      → p + len ≤ m.size
      → msg_len < 2 ^ 32
      → parse_request services m p len garbage info (some list)
        ≡ ret (
          parse_ok,
          found_info request_type
              (first_service services (chars service.name) list)
              (chars method.name)
              (length hd + 12)
              msg_len
              list,
        )
  parse_request-send_request local method service buf p len msg_len garbage info list pre hd rest
        size has ends ends' fits sent listed at whole inner short =
      let xs = request_fields service.name method.name in
      let e = send_request_lem local size services method service buf msg_len has ends ends' fits in
      let e1 : pre_header (length (message_bytes xs)) msg_len ≡ pre = cc in
      let e2 : message_bytes xs ≡ hd = cc in
      let at' = rw (← e1, ← e2) at at in
      rw (← e2) (
        parse_request-heading service.name method.name p len msg_len garbage info list listed at'
          (rw e2 whole) inner fits short)

  response_events :
      (p header_len msg_len : ℕ)
      → events (header_handlers services m) header header_schema p response_fields (
          ret (record {
            msg_type = 0;
            service_desc = none;
            method_desc = none;
            header_len = header_len;
            msg_len = msg_len;
            service_list = none;
          }))
        ≡ ret (record {
          msg_type = response_type;
          service_desc = none;
          method_desc = none;
          header_len = header_len;
          msg_len = msg_len;
          service_list = none;
        })
  unfolding header_handlers header_field_handler take_type take_service take_method read_word32
  response_events p header_len msg_len = refl

  -- On what `send_response` has sent, with its message, `parse_request` finds the type and the lengths.
  pub parse_request-send_response :
      (local : Memory) (buf : Option ℕ) (p len msg_len : ℕ) (garbage : WireValue)
      (info : HeaderInfo) (pre hd : List ℕ) (rest : List Block)
      → local.size ≡ 128
      → send_response local buf msg_len ≡ ret (bytes_block pre ∷ bytes_block hd ∷ rest)
      → Holds m p (pre ++ hd)
      → length hd + 12 + msg_len ≤ len
      → p + len ≤ m.size
      → msg_len < 2 ^ 32
      → parse_request services m p len garbage info none
        ≡ ret (
          parse_ok,
          record {
            msg_type = response_type;
            service_desc = none;
            method_desc = none;
            header_len = length hd + 12;
            msg_len = msg_len;
            service_list = none;
          },
        )
  parse_request-send_response local buf p len msg_len garbage info pre hd rest size sent at whole
        inner short =
      let bs = message_bytes response_fields in
      let e = send_response_lem local size buf msg_len (omega (arith, response_length)) in
      let e1 : pre_header (length bs) msg_len ≡ pre = cc in
      let e2 : bs ≡ hd = cc in
      let at' = rw (← e1, ← e2) at at in
      let whole' = rw (← e2) at whole in
      let result =
        parse_heading services m small response_fields p len msg_len garbage info none
          response-IsMessage at' (omega arith) whole' (omega (arith, response_length)) short in
      rw (← e2, result, response_events (p + 12) (length bs + 12) msg_len) refl
