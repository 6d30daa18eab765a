-- ===== src/Socket/Server.antt =====
-- src/lwpb/rpc/socket_server.c and include/lwpb/rpc/socket_server.h: the table of connections and
-- its handlers. `conn->pos` is kept as its distance from `conn->buf`; `num_conns` is the bit pattern
-- of an `int`. Debug output is left out.
pub mod Serve
pub mod Table
use lwpb.Common.{
  ℕ, zero, suc, ◌+◌, ◌-◌, ◌%◌, ◌^◌, Bool, true, false, not, ◌&&◌, ◌||◌, Option, none, some, List,
  [], ◌∷◌, ◌++◌, ◌==◌, if◌then◌else◌,
}
use lwpb.Types.{
  Err, err_ok, err_net_init, Run, ret, fault, abort, ◌>>=◌, ◌>>◌, assert, some_or_fault,
}
use lwpb.Rpc.{Server, Client, Allocator, Direct, Method, free_any, with_handler}
use lwpb.Rpc
use lwpb.Socket.{Services, bytes_block, HeaderInfo, parse_request, parse_ok, send_response}
use lwpb.Socket.System.{System, Locals, make_nonblock, send_blocks, pointer_plus}

-- `struct lwpb_socket_server_conn`
pub record Conn : Type 0 where
  pub index : ℕ
  pub socket : Option ℕ
  pub buf : Option ℕ
  pub pos : ℕ
  pub len : ℕ

-- A registered server with its `service_list`, `none` for NULL.
pub record Registered (W : Type 0) : Type 0 where
  pub server : Server W
  pub service_list : Option (List ℕ)

-- `struct lwpb_transport_socket_server`
pub record SocketServer (W : Type 0) : Type 0 where
  pub allocator : Allocator W
  pub server : Option (Registered W)
  pub socket : Option ℕ
  pub num_conns : ℕ
  pub conns : List Conn

-- `num_conns++` and `num_conns--`
abbrev pub one_more : ℕ → ℕ
one_more n = (n + 1) % 2 ^ 32

abbrev pub one_less : ℕ → ℕ
one_less n = (n + 2 ^ 32 - 1) % 2 ^ 32

-- `lwpb_transport_socket_server_init`. The pointer and the length of a connection's buffer keep
-- what they were.
unfoldable pub fresh_conn : ℕ → ℕ → ℕ → Conn
fresh_conn index pos len = record { index = index; socket = none; buf = none; pos = pos; len = len }

unfoldable pub socket_server_init : {W : Type 0} → Allocator W → ℕ → ℕ → SocketServer W
unfolding fresh_conn
socket_server_init default_allocator pos len = record {
  allocator = default_allocator;
  server = none;
  socket = none;
  num_conns = 0;
  conns =
      fresh_conn 0 pos len
      ∷ fresh_conn 1 pos len
      ∷ fresh_conn 2 pos len
      ∷ fresh_conn 3 pos len
      ∷ [];
}

-- The characters of "No more connections allowed\n", with the 0 behind them.
abbrev pub refusal : List ℕ
refusal =
    78 ∷ 111 ∷ 32 ∷ 109 ∷ 111 ∷ 114 ∷ 101 ∷ 32 ∷ 99 ∷ 111 ∷ 110 ∷ 110 ∷ 101 ∷ 99 ∷ 116 ∷ 105 ∷ 111
    ∷ 110 ∷ 115 ∷ 32 ∷ 97 ∷ 108 ∷ 108 ∷ 111 ∷ 119 ∷ 101 ∷ 100 ∷ 10 ∷ 0 ∷ []

-- FD_ISSET
abbrev pub is_set : List ℕ → ℕ → Bool
is_set [] fd = false
is_set (x ∷ xs) fd = (x == fd) || is_set xs fd

-- The sockets of the open connections, in order.
abbrev pub open_sockets : List Conn → List ℕ
open_sockets [] = []
open_sockets (c ∷ cs) = elim c.socket [ none ↦ open_sockets cs | some fd ↦ fd ∷ open_sockets cs ]

-- `high`: the listening socket, then each socket that is put into the set.
abbrev pub last_socket : ℕ → List ℕ → ℕ
last_socket high [] = high
last_socket high (fd ∷ fds) = last_socket fd fds

module _ {W : Type 0} (sys : System W) where
  -- A connection that gets the socket; its buffer is allocated once.
  unfoldable pub occupy : Allocator W → ℕ → Conn → W → Conn × W
  occupy a fd c w = elim c.buf [
    | none ↦
        (let (e, buf, len, w') = a.alloc_buf w in
          (record c { socket = some fd; buf = buf; len = len; pos = 0 }, w'))
    | some p ↦ (record c { socket = some fd; pos = 0 }, w)
  ]

  -- The loop of `handle_new_connection`: the first connection without a socket takes it.
  unfoldable pub take_slot : Allocator W → ℕ → List Conn → W → Option (List Conn × W)
  take_slot a fd [] w = none
  take_slot a fd (c ∷ cs) w = elim c.socket [
    | none ↦ (let (c', w') = occupy a fd c w in some (c' ∷ cs, w'))
    | some other ↦ elim (take_slot a fd cs w) [ none ↦ none | some (cs', w') ↦ some (c ∷ cs', w') ]
  ]

  unfoldable pub handle_new_connection : SocketServer W → ℕ → W → Run (SocketServer W × W)
  handle_new_connection s listener w =
      let (socket, w1) = sys.accept listener w in
      elim socket [
        | none ↦ ret (s, w1)
        | some fd ↦
            (make_nonblock sys fd w1 >>= λ w2. elim (take_slot s.allocator fd s.conns w2) [
              | some (conns, w3) ↦
                  ret (record s { conns = conns; num_conns = one_more s.num_conns }, w3)
              | none ↦ ret (s, sys.close fd (sys.send fd (bytes_block refusal) w2))
            ])
      ]

  -- `close_connection`: the connection, `num_conns` and the world.
  unfoldable pub close_connection : Conn → ℕ → ℕ → W → Conn × ℕ × W
  close_connection c fd num w = (record c { socket = none }, one_less num, sys.close fd w)

  -- From the call of the server's handler to the end of `handle_connection`. The errors of the
  -- allocator and of the handler are dropped.
  unfoldable pub answer : Locals → SocketServer W → Registered W → ℕ → ℕ → HeaderInfo → W → Run W
  answer locals s r fd buf info w =
      let (e, res, res_len, w1) = s.allocator.alloc_buf w in
      some_or_fault info.method_desc >>= λ method. with_handler r.server.call_handler (λ call.
        let m = method.method in
        let (e', res_len', w2) =
          call m m.req_desc (some (buf + info.header_len)) info.msg_len m.res_desc res res_len w1 in
        send_response locals.header_bytes res res_len' >>= λ blocks.
        ret (free_any s.allocator res (send_blocks sys fd blocks w2)))

  -- `handle_connection`
  unfoldable pub handle_connection :
      Services → Locals → SocketServer W → Conn → ℕ → ℕ → W → Run (Conn × ℕ × W)
  handle_connection services locals s c fd num w =
      let (n, w1) = sys.recv fd (pointer_plus c.buf c.pos) ((c.len + 2 ^ 64 - c.pos) % 2 ^ 64) w in
      if n == 0
      then ret (close_connection c fd num w1)
      else (let c' : Conn = record c { pos = c.pos + n } in
          some_or_fault s.server >>= λ r. some_or_fault c.buf >>= λ buf.
          parse_request services (sys.memory w1) buf c'.pos locals.wire locals.info r.service_list
          >>= λ (code, info).
              if code == parse_ok
              then (answer locals s r fd buf info w1 >>= λ w2. ret (c', num, w2))
              else ret (c', num, w1))

  -- The loop over the active connections, and its body.
  unfoldable pub handle_ready :
      Services → Locals → SocketServer W → List ℕ → Conn → ℕ → W → Run (Conn × ℕ × W)
  handle_ready services locals s ready c num w = elim c.socket [
    | none ↦ ret (c, num, w)
    | some fd ↦
        if is_set ready fd then handle_connection services locals s c fd num w else ret (c, num, w)
  ]

  unfoldable pub handle_connections :
      Services → Locals → SocketServer W → List ℕ → List Conn → ℕ → W → Run (List Conn × ℕ × W)
  handle_connections services locals s ready [] num w = ret ([], num, w)
  handle_connections services locals s ready (c ∷ cs) num w =
      handle_ready services locals s ready c num w >>= λ (c', num', w').
      handle_connections services locals s ready cs num' w' >>= λ (cs', num'', w'').
      ret (c' ∷ cs', num'', w'')

  -- What follows `select`, where these sockets are ready.
  unfoldable pub serve_ready :
      Services → Locals → SocketServer W → ℕ → List ℕ → W → Run (Option Err × SocketServer W × W)
  serve_ready services locals s listener [] w = ret (some err_ok, s, w)
  serve_ready services locals s listener (x ∷ xs) w =
      (if is_set (x ∷ xs) listener then handle_new_connection s listener w else ret (s, w))
      >>= λ (s1, w1).
          handle_connections services locals s1 (x ∷ xs) s1.conns s1.num_conns w1
          >>= λ (conns, num, w2).
              ret (some err_ok, record s1 { conns = conns; num_conns = num }, w2)

  -- `lwpb_transport_socket_server_update`; without a listening socket it returns no value.
  unfoldable pub update :
      Services → Locals → SocketServer W → W → Run (Option Err × SocketServer W × W)
  update services locals s w = elim s.socket [
    | none ↦ ret (none, s, w)
    | some listener ↦
        (let fds = open_sockets s.conns in
          let (selected, w1) = sys.select (last_socket listener fds + 1) (listener ∷ fds) w in
          elim selected [
            | none ↦ abort
            | some ready ↦ serve_ready services locals s listener ready w1
          ])
  ]

  unfoldable pub close_one : Conn → ℕ → W → Conn × ℕ × W
  close_one c num w = elim c.socket [ none ↦ (c, num, w) | some fd ↦ close_connection c fd num w ]

  unfoldable pub close_all : List Conn → ℕ → W → List Conn × ℕ × W
  close_all [] num w = ([], num, w)
  close_all (c ∷ cs) num w =
      let (c', num', w') = close_one c num w in
      let (cs', num'', w'') = close_all cs num' w' in (c' ∷ cs', num'', w'')

  -- `lwpb_transport_socket_server_close`. `socket == -1` at its end does nothing.
  unfoldable pub socket_server_close : SocketServer W → W → SocketServer W × W
  socket_server_close s w = elim s.socket [
    | none ↦ (s, w)
    | some listener ↦
        (let (conns, num, w') = close_all s.conns s.num_conns w in
          (record s { conns = conns; num_conns = num }, sys.close listener w'))
  ]

  -- `lwpb_transport_socket_server_open`. When getaddrinfo fails, `res` is freed that was never set.
  unfoldable pub bind_socket : SocketServer W → ℕ → W → Run (Err × SocketServer W × W)
  bind_socket s fd w =
      let s' = record s { socket = some fd } in
      let (reused, w1) = sys.setsockopt fd w in
      if not reused
      then ret (err_net_init, s', sys.freeaddrinfo w1)
      else (make_nonblock sys fd w1 >>= λ w2.
          let (bound, w3) = sys.bind fd w2 in
          let (listening, w4) = sys.listen fd w3 in
          if not bound
          then ret (err_net_init, s', sys.freeaddrinfo w3)
          else (if not listening
              then ret (err_net_init, s', sys.freeaddrinfo (sys.close fd w4))
              else ret (err_ok, s', sys.freeaddrinfo w4)))

  unfoldable pub socket_server_open : SocketServer W → W → Run (Err × SocketServer W × W)
  socket_server_open s w = elim s.socket [
    | some fd ↦ ret (err_ok, s, w)
    | none ↦
        (let (resolved, w1) = sys.getaddrinfo w in
          if not resolved
          then fault
          else (let (socket, w2) = sys.new_socket w1 in
              elim socket [
                | none ↦ ret (err_net_init, s, sys.freeaddrinfo w2)
                | some fd ↦ bind_socket s fd w2
              ]))
  ]

module _ {W : Type 0} where
  -- `transport_register_server` and `transport_register_client`.
  unfoldable pub server_register_server : SocketServer W → Registered W → Run (SocketServer W)
  server_register_server s r = elim s.server [
    | some other ↦ abort
    | none ↦ ret (record s { server = some r })
  ]

  unfoldable pub server_register_client : SocketServer W → Client W → Run (SocketServer W)
  server_register_client s client = abort

  abbrev server_of : Option (Registered W) → Option (Server W)
  server_of none = none
  server_of (some r) = some r.server

  -- `transport_call`, which is that of the direct transport.
  unfoldable pub server_transport_call : SocketServer W → Client W → Method → W → Run (Err × W)
  server_transport_call s client method w =
      Rpc.transport_call
        (record { allocator = s.allocator; client = none; server = server_of s.server }) client
        method w
