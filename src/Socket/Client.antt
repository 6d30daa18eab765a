-- ===== src/Socket/Client.antt =====
-- src/lwpb/rpc/socket_client.c and include/lwpb/rpc/socket_client.h. `pos` is kept as its distance
-- from `buf`; debug output is left out.
pub mod Calls
use lwpb.Common.{
  ℕ, ◌+◌, ◌-◌, ◌%◌, ◌^◌, Bool, true, false, not, Option, none, some, List, [], ◌∷◌, ◌==◌,
  if◌then◌else◌,
}
use lwpb.Types.{Err, err_ok, err_net_init, Run, ret, fault, abort, ◌>>=◌, some_or_fault}
use lwpb.Rpc.{Client, Allocator, release, free_any, with_handler, rpc_not_connected}
use lwpb.Socket.{Services, MethodDesc, parse_request, parse_ok, send_request}
use lwpb.Socket.System.{System, Locals, make_nonblock, send_blocks, pointer_plus}

-- `struct lwpb_transport_socket_client`; `last_method` is `none` before the first call.
pub record SocketClient (W : Type 0) : Type 0 where
  pub allocator : Allocator W
  pub client : Option (Client W)
  pub socket : Option ℕ
  pub buf : Option ℕ
  pub pos : ℕ
  pub len : ℕ
  pub last_method : Option MethodDesc

-- `lwpb_transport_socket_client_init`. What it does not set keeps what it was.
unfoldable pub socket_client_init : {W : Type 0} → Allocator W → ℕ → ℕ → SocketClient W
socket_client_init default_allocator pos len = record {
  allocator = default_allocator;
  client = none;
  socket = none;
  buf = none;
  pos = pos;
  len = len;
  last_method = none;
}

module _ {W : Type 0} where
  -- `transport_register_client` and `transport_register_server`.
  unfoldable pub client_register_client : SocketClient W → Client W → Run (SocketClient W)
  client_register_client s c = elim s.client [
    | some other ↦ abort
    | none ↦ ret (record s { client = some c })
  ]

  -- `lwpb_transport_free_buf(transport, req_buf)` where the pointer is not NULL.
  abbrev pub freed : SocketClient W → Option ℕ → W → W
  freed s buf w = release s.allocator buf w

module _ {W : Type 0} (sys : System W) where
  -- `handle_data`: a complete response goes to the response handler, whose result is dropped.
  unfoldable pub handle_data : Services → Locals → SocketClient W → ℕ → W → Run (SocketClient W × W)
  handle_data services locals s fd w =
      let (n, w1) = sys.recv fd (pointer_plus s.buf s.pos) ((s.len + 2 ^ 64 - s.pos) % 2 ^ 64) w in
      if n == 0
      then abort
      else (let s' : SocketClient W = record s { pos = s.pos + n } in
          some_or_fault s.buf >>= λ buf.
          parse_request services (sys.memory w1) buf s'.pos locals.wire locals.info none
          >>= λ (code, info).
              if code == parse_ok
              then (some_or_fault s.client >>= λ client. some_or_fault s.last_method >>= λ method.
                  with_handler client.response_handler (λ response.
                    let (e, w2) =
                      response method.method method.method.res_desc (some (buf + info.header_len))
                        info.msg_len w1 in
                    ret (s', w2)))
              else ret (s', w1))

  -- `transport_call`. The result of `send_request` is not looked at.
  unfoldable pub client_transport_call :
      Services
      → Locals
      → SocketClient W
      → Client W
      → MethodDesc
      → W
      → Run (Err × SocketClient W × W)
  client_transport_call services locals s client method w = elim s.socket [
    | none ↦
        with_handler client.done_handler
          (λ done. ret (err_ok, s, done method.method rpc_not_connected w))
    | some fd ↦
        (let (e, req, req_len, w1) = s.allocator.alloc_buf w in
          elim e [
            | err_ok ↦ with_handler client.request_handler (λ request.
                let (e', req_len', w2) =
                  request method.method method.method.req_desc req req_len w1 in
                elim e' [
                  | err_ok ↦
                      (send_request services locals.header_bytes method req req_len' >>= λ blocks.
                      ret (
                        err_ok,
                        record s { last_method = some method },
                        freed s req (send_blocks sys fd blocks w2),
                      ))
                  | other ↦ ret (other, s, freed s req w2)
                ])
            | other ↦ ret (other, s, freed s req w1)
          ])
  ]

  unfoldable pub connect_socket : SocketClient W → ℕ → W → Run (Err × SocketClient W × W)
  connect_socket s fd w =
      let s' = record s { socket = some fd } in
      let (reused, w1) = sys.setsockopt fd w in
      let (connected, w2) = sys.connect fd w1 in
      if not reused
      then ret (err_net_init, s', sys.freeaddrinfo w1)
      else (if not connected
          then ret (err_net_init, s', sys.freeaddrinfo w2)
          else (make_nonblock sys fd w2 >>= λ w3. ret (err_ok, s', sys.freeaddrinfo w3)))

  -- `lwpb_transport_socket_client_open`. When getaddrinfo fails, `res` is freed that was never set.
  unfoldable pub socket_client_open : SocketClient W → W → Run (Err × SocketClient W × W)
  socket_client_open s w = elim s.socket [
    | some fd ↦ ret (err_ok, s, w)
    | none ↦
        (let (e, buf, len, w1) = s.allocator.alloc_buf w in
          let s1 : SocketClient W = record s { buf = buf; len = len } in
          let s2 : SocketClient W = record s1 { pos = 0 } in
          elim e [
            | err_ok ↦
                (let (resolved, w2) = sys.getaddrinfo w1 in
                  if not resolved
                  then fault
                  else (let (socket, w3) = sys.new_socket w2 in
                      elim socket [
                        | none ↦ ret (err_net_init, s2, sys.freeaddrinfo w3)
                        | some fd ↦ connect_socket s2 fd w3
                      ]))
            | other ↦ ret (other, s1, w1)
          ])
  ]

  -- `lwpb_transport_socket_client_close`. `socket == -1` at its end does nothing.
  unfoldable pub socket_client_close : SocketClient W → W → SocketClient W × W
  socket_client_close s w = elim s.socket [
    | none ↦ (s, w)
    | some fd ↦ (s, sys.close fd (free_any s.allocator s.buf w))
  ]

  -- `lwpb_transport_socket_client_update`; without a socket it returns no value.
  unfoldable pub client_update :
      Services → Locals → SocketClient W → W → Run (Option Err × SocketClient W × W)
  client_update services locals s w = elim s.socket [
    | none ↦ ret (none, s, w)
    | some fd ↦
        (let (selected, w1) = sys.select (fd + 1) (fd ∷ []) w in
          elim selected [
            | none ↦ abort
            | some [] ↦ ret (some err_ok, s, w1)
            | some (x ∷ xs) ↦
                (handle_data services locals s fd w1 >>= λ (s', w2). ret (some err_ok, s', w2))
          ])
  ]
