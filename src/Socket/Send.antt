-- ===== src/Socket/Send.antt =====
-- What `send_request` and `send_response` of src/lwpb/rpc/socket_helper.c send.
use lwpb.Common.{
  ℕ, ◌+◌, ◌-◌, ◌%◌, ◌^◌, ◌≤◌, ◌≡◌, refl, ◌∙◌, arith, true, Option, none, some, List, [], ◌∷◌,
  length, length-append, get_elem?, leb-true,
}
use lwpb.Types.{Run, ret, ◌>>=◌}
use lwpb.Buf.{Memory, Buf, IsBuf, room, buf_init, buf_used, advance, advance-advance}
use lwpb.Varint.Spec.{store, store-append, Holds-store}
use lwpb.Copy.{load-Holds}
use lwpb.Encoder.{Encoder, start, finish, frame_buf, add_field}
use lwpb.Encoder.Field.{in_message, IsBuf-store, room-advance}
use lwpb.Encoder.Typed.{add_enum, add_string}
use lwpb.Decoder.Field.{bytes_of}
use lwpb.Message.{Fields, message_bytes, IsMessage, add_known_field}
use lwpb.Socket.{
  MethodDesc, ServiceDesc, Services, header_schema, header, pre_header, frame_blocks, Block,
  bytes_block, buffer_block, send_request, send_response,
}
use lwpb.Socket.Names.{has_end, str_len_lem}
use lwpb.Socket.Framing.{
  request_fields, response_fields, request-IsMessage, names_short, response-IsMessage,
}

-- A pre-header, a header and a message.
abbrev pub frame_of : Fields → Option ℕ → ℕ → List Block
frame_of xs buf len =
    let bs = message_bytes xs in
    bytes_block (pre_header (length bs) len) ∷ bytes_block bs ∷ buffer_block buf len ∷ []

abbrev local_buf : Buf
local_buf = record { base = 0; pos = 0; end = 128 }

module _ (local : Memory) (size : local.size ≡ 128) where
  local-IsBuf : IsBuf local local_buf
  local-IsBuf = omega arith

  start_lem : start local header 0 128 ≡ ret (in_message local_buf none header [])
  unfolding start buf_init
  start_lem = rw (leb-true 128 local.size (omega arith)) refl

  -- One field after another, without a look at the result.
  abbrev add_all :
      (Memory → Encoder → Run (List Block)) → Memory → Encoder → Fields → Run (List Block)
  add_all k m e [] = k m e
  add_all k m e ((field, v) ∷ xs) =
      add_field header_schema m e field v >>= λ (_, m', e'). add_all k m' e' xs

  add_all_lem :
      (k : Memory → Encoder → Run (List Block)) (xs : Fields) (m : Memory) (b : Buf)
      → IsMessage header_schema header xs
      → IsBuf m b
      → length (message_bytes xs) ≤ room b
      → add_all k m (in_message b none header []) xs
        ≡ k
            (store m b.pos (message_bytes xs))
            (in_message (advance b (length (message_bytes xs))) none header [])
  unfolding message_bytes
  add_all_lem k [] m b good ok fits =
      let z : b.pos + 0 ≡ b.pos = omega arith in unfold store advance in rw z refl
  add_all_lem k ((field, v) ∷ xs) m b (known, val, o, good) ok fits =
      let bs = bytes_of field v in
      let total = length-append bs (message_bytes xs) in
      let rest =
        add_all_lem k xs (store m b.pos bs) (advance b (length bs)) good
          (IsBuf-store m b bs ok (omega arith)) (rw room-advance (omega arith)) in
      rw
        (
          add_known_field header_schema header none [] field v m b known val o ok (omega arith),
          rest,
          store-append m b.pos bs (message_bytes xs),
          total,
          ← advance-advance b (length bs) (length (message_bytes xs)),
        )
        (unfold advance in refl)

  -- The end of both functions, where the fields have been added.
  send_fields :
      (xs : Fields) (buf : Option ℕ) (len : ℕ)
      → length (message_bytes xs) ≤ 128
      → (finish (in_message (advance local_buf (length (message_bytes xs))) none header []) >>= λ n.
          ret (frame_blocks (store local 0 (message_bytes xs)) n buf len))
        ≡ ret (frame_of xs buf len)
  unfolding finish advance frame_buf buf_used
  send_fields xs buf len fits =
      let bs = message_bytes xs in
      let b = advance local_buf (length bs) in
      let used : (0 + length bs + 2 ^ 64 - 0) % 2 ^ 64 ≡ length bs = omega arith in
      rw (used, load-Holds (store local 0 bs) 0 bs (Holds-store local 0 bs)) refl

  -- The end of both functions.
  abbrev sent : Option ℕ → ℕ → Memory → Encoder → Run (List Block)
  sent buf len m e = finish e >>= λ n. ret (frame_blocks m n buf len)

  pub send_response_lem :
      (buf : Option ℕ) (len : ℕ)
      → length (message_bytes response_fields) ≤ 128
      → send_response local buf len ≡ ret (frame_of response_fields buf len)
  unfolding send_response add_enum
  send_response_lem buf len fits =
      let all =
        add_all_lem (sent buf len) response_fields local local_buf response-IsMessage local-IsBuf
          fits in
      rw start_lem (all ∙ send_fields response_fields buf len fits)

  pub send_request_lem :
      (services : Services) (method : MethodDesc) (service : ServiceDesc) (buf : Option ℕ) (len : ℕ)
      → get_elem? services method.service ≡ some service
      → has_end service.name ≡ true
      → has_end method.name ≡ true
      → length (message_bytes (request_fields service.name method.name)) ≤ 128
      → send_request services local method buf len
        ≡ ret (frame_of (request_fields service.name method.name) buf len)
  unfolding send_request add_enum add_string
  send_request_lem services method service buf len has ends ends' fits =
      let xs = request_fields service.name method.name in
      let short = names_short service.name method.name in
      let all =
        add_all_lem (sent buf len) xs local local_buf
          (request-IsMessage service.name method.name (omega (arith, short.0))
            (omega (arith, short.1)))
          local-IsBuf fits in
      rw (has, start_lem, str_len_lem service.name ends, str_len_lem method.name ends')
        (all ∙ send_fields xs buf len fits)
