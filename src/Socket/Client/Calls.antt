-- ===== src/Socket/Client/Calls.antt =====
-- Calls and responses of src/lwpb/rpc/socket_client.c.
use lwpb.Common.{
  ℕ, ◌+◌, ◌-◌, ◌%◌, ◌^◌, ◌≤◌, ◌<◌, ◌≡◌, ◌≢◌, refl, true, Option, some, List, ◌∷◌, ◌++◌, length,
  get_elem?, ==_false,
}
use lwpb.Types.{err_ok, ret}
use lwpb.Buf.{Memory}
use lwpb.Varint.Spec.{Holds}
use lwpb.Message.{message_bytes}
use lwpb.Rpc.{RequestHandler, ResponseHandler, DoneHandler, client_handler, release}
use lwpb.Socket.{Services, ServiceDesc, MethodDesc, Block, bytes_block, send_response}
use lwpb.Socket.Names.{has_end}
use lwpb.Socket.Framing.{request_fields}
use lwpb.Socket.Send.{frame_of, send_request_lem}
use lwpb.Socket.Parse.Sent.{parse_request-send_response}
use lwpb.Socket.System.{System, Locals, send_blocks}
use lwpb.Socket.Client.{SocketClient, handle_data, client_transport_call}

module _ {W : Type 0} (sys : System W) (services : Services) (locals : Locals) (s : SocketClient W)
    (fd : ℕ) (method : MethodDesc) where
  -- On a connected socket client, where the buffer is allocated and the request handler succeeds,
  -- and for a method of a known service with names that end and a header of at most 128 bytes,
  -- `transport_call` returns LWPB_ERR_OK, keeps the method for the response, sends pre-header,
  -- header and the request message, and releases the buffer.
  pub client_transport_call-send :
      (request : RequestHandler W) (response : ResponseHandler W) (done : DoneHandler W)
      (service : ServiceDesc) (w w1 w2 : W) (req : Option ℕ) (len len' : ℕ)
      → locals.header_bytes.size ≡ 128
      → s.socket ≡ some fd
      → s.allocator.alloc_buf w ≡ (err_ok, req, len, w1)
      → request method.method method.method.req_desc req len w1 ≡ (err_ok, len', w2)
      → get_elem? services method.service ≡ some service
      → has_end service.name ≡ true
      → has_end method.name ≡ true
      → length (message_bytes (request_fields service.name method.name)) ≤ 128
      → client_transport_call sys services locals s (client_handler request response done) method w
        ≡ ret (
          err_ok,
          record s { last_method = some method },
          release s.allocator req
              (send_blocks sys fd (frame_of (request_fields service.name method.name) req len') w2),
        )
  unfolding client_transport_call client_handler
  client_transport_call-send request response done service w w1 w2 req len len' size connected alloc
        encoded has ends ends' fits =
      let sent =
        send_request_lem locals.header_bytes size services method service req len' has ends ends'
          fits in
      simp (client_transport_call, connected, alloc, encoded, sent) refl

  -- Let a socket client that waits for the response of a method receive bytes, and let its buffer
  -- then begin with what `send_response` has sent for a response of fewer than 2^32 bytes, complete
  -- with its message, in a memory below 2^64 bytes. Then `handle_data` calls the client's response
  -- handler once, with that method and the message behind the header, keeps the position behind the
  -- bytes received, and does not call the done handler.
  pub handle_data-response :
      (request : RequestHandler W) (response : ResponseHandler W) (done : DoneHandler W)
      (local : Memory) (buf n msg_len : ℕ) (server_buf : Option ℕ) (pre hd : List ℕ)
      (rest : List Block) (w w1 : W)
      → s.client ≡ some (client_handler request response done)
      → s.last_method ≡ some method
      → s.buf ≡ some buf
      → sys.recv fd (some (buf + s.pos)) ((s.len + 2 ^ 64 - s.pos) % 2 ^ 64) w ≡ (n, w1)
      → n ≢ 0
      → local.size ≡ 128
      → send_response local server_buf msg_len ≡ ret (bytes_block pre ∷ bytes_block hd ∷ rest)
      → (sys.memory w1).size < 2 ^ 64
      → Holds (sys.memory w1) buf (pre ++ hd)
      → length hd + 12 + msg_len ≤ s.pos + n
      → buf + (s.pos + n) ≤ (sys.memory w1).size
      → msg_len < 2 ^ 32
      → let (e, w2) =
          response method.method method.method.res_desc
            (some (buf + (length hd + 12)))
            msg_len
            w1 in
        handle_data sys services locals s fd w ≡ ret (record s { pos = s.pos + n }, w2)
  unfolding handle_data client_handler
  handle_data-response request response done local buf n msg_len server_buf pre hd rest w w1
        has_client called has_buf received some_bytes size sent small at whole inner short =
      let parsed =
        parse_request-send_response services (sys.memory w1) small local server_buf buf (s.pos + n)
          msg_len locals.wire locals.info pre hd rest size sent at whole inner short in
      simp (has_buf, received, ==_false n 0 some_bytes, parsed, has_client, called) refl
