-- ===== src/Socket/Server/Serve.antt =====
-- `handle_connection` of src/lwpb/rpc/socket_server.c on a request that `send_request` has sent, and
-- the two functions that open and close the server.
use lwpb.Common.{
  ℕ, ◌+◌, ◌-◌, ◌%◌, ◌^◌, ◌≤◌, ◌<◌, ◌≡◌, ◌≢◌, refl, arith, true, not, Option, none, some, List, [],
  ◌∷◌, ◌++◌, length, All, get_elem?, ==_false,
}
use lwpb.Types.{Err, err_ok, ret, fault}
use lwpb.Buf.{Memory}
use lwpb.Varint.Spec.{Holds}
use lwpb.Message.{message_bytes}
use lwpb.Rpc.{CallHandler}
use lwpb.Ensures.{OnReturn, OnReturn-if, OnReturn-each, OnReturn-map}
use lwpb.Socket.{Services, ServiceDesc, MethodDesc, Block, bytes_block, send_request}
use lwpb.Socket.Names.{chars, has_end, first_service, first_method, IsListed}
use lwpb.Socket.Framing.{request_fields, response_fields}
use lwpb.Socket.Send.{frame_of, send_response_lem}
use lwpb.Socket.Parse.Sent.{found_info, parse_request-send_request, response_length}
use lwpb.Socket.System.{System, Locals, make_nonblock, send_blocks}
use lwpb.Socket.Server.{
  Conn, SocketServer, answer, handle_connection, socket_server_open, bind_socket,
}

-- What a connection's buffer holds, up to its position, begins with a request that `send_request`
-- has sent, and the server is registered with a list of services.
pub record IsRequest (services : Services) (m : Memory) (local : Memory) (method : MethodDesc)
    (service : ServiceDesc) (client_buf : Option ℕ) (buf pos req_len : ℕ) (list pre hd : List ℕ)
    (rest : List Block) : Type 0 where
  pub small : m.size < 2 ^ 64
  pub local_size : local.size ≡ 128
  pub has : get_elem? services method.service ≡ some service
  pub ends : has_end service.name ≡ true
  pub method_ends : has_end method.name ≡ true
  pub fits : length (message_bytes (request_fields service.name method.name)) ≤ 128
  pub sent :
      send_request services local method client_buf req_len
      ≡ ret (bytes_block pre ∷ bytes_block hd ∷ rest)
  pub listed : All (IsListed services) list
  pub at : Holds m buf (pre ++ hd)
  pub whole : length hd + 12 + req_len ≤ pos
  pub inner : buf + pos ≤ m.size
  pub req_small : req_len < 2 ^ 32

module _ {W : Type 0} (sys : System W) (services : Services) (locals : Locals) (s : SocketServer W)
    (call : CallHandler W) (list : List ℕ) (c : Conn) (fd num buf n : ℕ) (w w1 : W) (local : Memory)
    (method : MethodDesc) (service : ServiceDesc) (client_buf : Option ℕ) (req_len : ℕ)
    (pre hd : List ℕ) (rest : List Block) where
  -- The connection receives `n` bytes, and then its buffer begins with a request.
  pub record IsReceived : Type 0 where
    pub registered :
        s.server
        ≡ some (record { server = record { call_handler = some call }; service_list = some list })
    pub has_buf : c.buf ≡ some buf
    pub received : sys.recv fd (some (buf + c.pos)) ((c.len + 2 ^ 64 - c.pos) % 2 ^ 64) w ≡ (n, w1)
    pub some_bytes : n ≢ 0
    pub request :
        IsRequest services
          (sys.memory w1)
          local
          method
          service
          client_buf
          buf
          (c.pos + n)
          req_len
          list
          pre
          hd
          rest
    pub locals_size : locals.header_bytes.size ≡ 128

  -- Let a connection of the socket server, which is registered with a server that has a call handler
  -- and a list of services, receive bytes, and let its buffer then begin with a complete request of
  -- fewer than 2^32 bytes that `send_request` has sent, in a memory below 2^64 bytes: for a method
  -- of a known service, with names that end in a 0 byte and a header of at most 128 bytes; let the
  -- listed services and their methods be known and have names that end. If the service and the
  -- method are found by their names in the list, and the allocator gives a response buffer,
  -- `handle_connection` calls the server's handler once, with the found method, the message behind
  -- the header and that buffer, sends what `send_response` sends for the handler's result, releases
  -- the buffer, and keeps the connection open with its position behind the bytes received.
  pub handle_connection-answer :
      (sd : ServiceDesc) (md : MethodDesc) (res res_len : ℕ) (w2 : W)
      → IsReceived
      → first_service services (chars service.name) list ≡ some sd
      → first_method (chars method.name) sd.methods ≡ some md
      → s.allocator.alloc_buf w1 ≡ (err_ok, some res, res_len, w2)
      → let m = md.method in
        let (e', res_len', w3) =
          call m m.req_desc
            (some (buf + (length hd + 12)))
            req_len
            m.res_desc
            (some res)
            res_len
            w2 in
        handle_connection sys services locals s c fd num w
        ≡ ret (
          record c { pos = c.pos + n },
          num,
          s.allocator.free_buf res
              (send_blocks sys fd (frame_of response_fields (some res) res_len') w3),
        )
  unfolding handle_connection answer
  handle_connection-answer sd md res res_len w2 r first_s first_m alloc =
      let q = r.request in
      let m = md.method in
      let (e', res_len', w3) =
        call m m.req_desc (some (buf + (length hd + 12))) req_len m.res_desc (some res) res_len
          w2 in
      let parsed =
        parse_request-send_request services (sys.memory w1) q.small local method service client_buf
          buf (c.pos + n) req_len locals.wire locals.info list pre hd rest q.local_size q.has q.ends
          q.method_ends q.fits q.sent q.listed q.at q.whole q.inner q.req_small in
      let parsed' = rw first_s at parsed in
      simp
        (
          r.has_buf,
          r.received,
          ==_false n 0 r.some_bytes,
          r.registered,
          parsed',
          first_m,
          alloc,
          send_response_lem locals.header_bytes r.locals_size (some res) res_len'
              (omega (arith, response_length)),
        )
        refl

  -- Let a connection of the socket server, which is registered with a server that has a call handler
  -- and a list of services, receive bytes, and let its buffer then begin with a complete request of
  -- fewer than 2^32 bytes that `send_request` has sent, in a memory below 2^64 bytes: for a method
  -- of a known service, with names that end in a 0 byte and a header of at most 128 bytes; let the
  -- listed services and their methods be known and have names that end. If the service is not found
  -- in the list, or the method not in the service, `handle_connection` runs into undefined
  -- behaviour: it follows a NULL method descriptor.
  pub unknown_method-fault :
      IsReceived
      → (found_info 0
          (first_service services (chars service.name) list)
          (chars method.name)
          0
          0
          []).method_desc
        ≡ none
      → handle_connection sys services locals s c fd num w ≡ fault
  unfolding handle_connection answer
  unknown_method-fault r unknown =
      let q = r.request in
      let parsed =
        parse_request-send_request services (sys.memory w1) q.small local method service client_buf
          buf (c.pos + n) req_len locals.wire locals.info list pre hd rest q.local_size q.has q.ends
          q.method_ends q.fits q.sent q.listed q.at q.whole q.inner q.req_small in
      simp (r.has_buf, r.received, ==_false n 0 r.some_bytes, r.registered, parsed)
        (simp unknown refl)

-- A server that has a socket.
abbrev HasSocket : {W : Type 0} → ℕ → Err × SocketServer W × W → Type 0
HasSocket fd (e, s, w) = s.socket ≡ some fd

bind_socket-HasSocket :
    {W : Type 0} (sys : System W) (s : SocketServer W) (fd : ℕ) (w : W)
    → OnReturn (HasSocket fd) (bind_socket sys s fd w)
unfolding bind_socket
bind_socket-HasSocket sys s fd w =
    let (reused, w1) = sys.setsockopt fd w in
    OnReturn-if (HasSocket fd) (not reused) _ _ refl (
      OnReturn-each (HasSocket fd) (make_nonblock sys fd w1) _ (λ w2.
        let (bound, w3) = sys.bind fd w2 in
        let (listening, w4) = sys.listen fd w3 in
        OnReturn-if (HasSocket fd) (not bound) _ _ refl
          (OnReturn-if (HasSocket fd) (not listening) _ _ refl refl)))

-- Let getaddrinfo and the creation of the socket succeed. If `lwpb_transport_socket_server_open` on
-- a closed server returns, with LWPB_ERR_OK or with an error, a second call returns LWPB_ERR_OK and
-- does nothing.
pub socket_server_open-again :
    {W : Type 0} (sys : System W) (s : SocketServer W) (fd : ℕ) (w w1 w2 : W)
    → s.socket ≡ none
    → sys.getaddrinfo w ≡ (true, w1)
    → sys.new_socket w1 ≡ (some fd, w2)
    → OnReturn
        (λ (e, s', w'). (w'' : W) → socket_server_open sys s' w'' ≡ ret (err_ok, s', w''))
        (socket_server_open sys s w)
unfolding socket_server_open
socket_server_open-again sys s fd w w1 w2 closed resolved made =
    simp (socket_server_open, closed, resolved, made)
      (OnReturn-map (HasSocket fd) _ (bind_socket sys s fd w2)
        (λ (e, s', w') h w''. simp (socket_server_open, h) refl)
        (bind_socket-HasSocket sys s fd w2))
