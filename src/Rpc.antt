-- ===== src/Rpc.antt =====
-- src/lwpb/rpc/client.c, server.c, transport.c and direct.c: a client, a server and the transport
-- that calls the server directly. `W` is the state of the world that handlers and allocator act on;
-- a buffer is a handle, `none` for NULL. Handlers do not change the client or the transport.
pub mod Buffers
use lwpb.Common.{ℕ, Bool, true, false, Option, none, some}
use lwpb.Types.{Err, err_ok, err_mem, Run, ret, fault, ◌>>=◌, ◌>>◌, assert}

-- `struct lwpb_method_desc`, by its messages.
pub record Method : Type 0 where
  pub req_desc : ℕ
  pub res_desc : ℕ

-- `lwpb_rpc_result_t`
pub data RpcResult : Type 0 where
  rpc_ok rpc_not_connected rpc_failed : RpcResult

module _ (W : Type 0) where
  -- The handlers get the method, message descriptors, buffers and their lengths. The request and
  -- the call handler return the new length of the buffer that they fill.
  abbrev pub RequestHandler : Type 0
  RequestHandler = Method → ℕ → Option ℕ → ℕ → W → Err × ℕ × W

  abbrev pub ResponseHandler : Type 0
  ResponseHandler = Method → ℕ → Option ℕ → ℕ → W → Err × W

  abbrev pub DoneHandler : Type 0
  DoneHandler = Method → RpcResult → W → W

  abbrev pub CallHandler : Type 0
  CallHandler = Method → ℕ → Option ℕ → ℕ → ℕ → Option ℕ → ℕ → W → Err × ℕ × W

  -- `struct lwpb_client`
  pub record Client : Type 0 where
    pub request_handler : Option RequestHandler
    pub response_handler : Option ResponseHandler
    pub done_handler : Option DoneHandler

  -- `struct lwpb_server`
  pub record Server : Type 0 where
    pub call_handler : Option CallHandler

  -- `struct lwpb_allocator_funs`: the error, the buffer (`none` for
  -- NULL) and its length; the release of a buffer, and what it does with NULL.
  pub record Allocator : Type 0 where
    pub alloc_buf : W → Err × Option ℕ × ℕ × W
    pub free_buf : ℕ → W → W
    pub free_null : W → W

  -- `struct lwpb_transport_direct`
  pub record Direct : Type 0 where
    pub allocator : Allocator
    pub client : Option Client
    pub server : Option Server

abbrev missing : {A : Type 0} → Option A → Bool
missing none = true
missing (some x) = false

abbrev present : {A : Type 0} → Option A → Bool
present none = false
present (some x) = true

-- A call of a function pointer, which must not be NULL.
abbrev pub with_handler : {A : Type 0} {B : Type 0} → Option A → (A → Run B) → Run B
with_handler none f = fault
with_handler (some h) f = f h

module _ {W : Type 0} where
  -- `default_alloc_buf`, where `malloc` returns a handle or NULL.
  unfoldable pub default_alloc_buf : (ℕ → W → Option ℕ × W) → W → Err × Option ℕ × ℕ × W
  default_alloc_buf malloc w =
      let (buf, w') = malloc 1024 w in
      elim buf [ none ↦ (err_mem, none, 1024, w') | some p ↦ (err_ok, some p, 1024, w') ]

  -- `lwpb_transport_direct_init`, with the allocator that `lwpb_transport_init` sets.
  unfoldable pub transport_direct_init : Allocator W → Direct W
  transport_direct_init default_allocator = record {
    allocator = default_allocator;
    client = none;
    server = none;
  }

  unfoldable pub transport_set_allocator : Direct W → Allocator W → Direct W
  transport_set_allocator direct a = record direct { allocator = a }

  -- `lwpb_client_handler`
  unfoldable pub client_handler : RequestHandler W → ResponseHandler W → DoneHandler W → Client W
  client_handler request response done = record {
    request_handler = some request;
    response_handler = some response;
    done_handler = some done;
  }

  -- `lwpb_server_handler`
  unfoldable pub server_handler : CallHandler W → Server W
  server_handler call = record { call_handler = some call }

  unfoldable pub register_client : Direct W → Client W → Run (Direct W)
  register_client direct client =
      assert (missing direct.client) >> ret (record direct { client = some client })

  unfoldable pub register_server : Direct W → Server W → Run (Direct W)
  register_server direct server =
      assert (missing direct.server) >> ret (record direct { server = some server })

  -- `lwpb_client_init` and `lwpb_server_init` with the transport's registration.
  unfoldable pub client_init : Direct W → Run (Direct W)
  client_init direct =
      register_client direct
        (record { request_handler = none; response_handler = none; done_handler = none })

  unfoldable pub server_init : Direct W → Run (Direct W)
  server_init direct = register_server direct (record { call_handler = none })

  abbrev pub transport_alloc_buf : Allocator W → W → Err × Option ℕ × ℕ × W
  transport_alloc_buf a w = a.alloc_buf w

  abbrev pub transport_free_buf : Allocator W → ℕ → W → W
  transport_free_buf a p w = a.free_buf p w

  -- `transport_cancel`, which does nothing, and `lwpb_client_cancel`.
  unfoldable pub transport_cancel : Direct W → Client W → W → W
  transport_cancel direct client w = w

  unfoldable pub client_cancel : Direct W → Client W → W → W
  client_cancel direct client w = transport_cancel direct client w

  -- `lwpb_transport_free_buf` on a pointer that may be NULL.
  abbrev pub free_any : Allocator W → Option ℕ → W → W
  free_any a none w = a.free_null w
  free_any a (some p) w = transport_free_buf a p w

  -- `if (buf) lwpb_transport_free_buf(transport, buf)`
  abbrev pub release : Allocator W → Option ℕ → W → W
  release a none w = w
  release a (some p) w = transport_free_buf a p w

  -- `ret = call_handler(...)` and what follows it.
  unfoldable pub serve :
      Client W → Server W → Method → Option ℕ → ℕ → Option ℕ → ℕ → W → Run (Err × W)
  serve client server method req req_len res res_len w = with_handler server.call_handler (λ call.
      let (e, res_len', w') =
        call method method.req_desc req req_len method.res_desc res res_len w in
      with_handler client.done_handler (λ done. elim e [
        | err_ok ↦ with_handler client.response_handler (λ response.
            let (e', w'') = response method method.res_desc res res_len' w' in
            ret (e', done method rpc_ok w''))
        | other ↦ ret (other, done method rpc_failed w')
      ]))

  -- From the request handler to the label `out`.
  unfoldable pub exchange :
      Option (Server W) → Client W → Method → Option ℕ → ℕ → Option ℕ → ℕ → W → Run (Err × W)
  exchange server client method req req_len res res_len w =
      with_handler client.request_handler (λ request.
        let (e, req_len', w') = request method method.req_desc req req_len w in
        elim e [
          | err_ok ↦ elim server [
            | none ↦
                with_handler client.done_handler
                  (λ done. ret (err_ok, done method rpc_not_connected w'))
            | some s ↦ serve client s method req req_len' res res_len w'
          ]
          | other ↦ ret (other, w')
        ])

  -- `transport_call`: the buffers are released on every way out.
  unfoldable pub transport_call : Direct W → Client W → Method → W → Run (Err × W)
  transport_call direct client method w =
      let a = direct.allocator in
      let (e, req, req_len, w1) = transport_alloc_buf a w in
      elim e [
        | err_ok ↦
            (let (e', res, res_len, w2) = transport_alloc_buf a w1 in
              elim e' [
                | err_ok ↦
                    (exchange direct.server client method req req_len res res_len w2 >>= λ (r, w3).
                    ret (r, release a res (release a req w3)))
                | other ↦ ret (other, release a res (release a req w2))
              ])
        | other ↦ ret (other, release a req w1)
      ]

  -- `lwpb_client_call`
  unfoldable pub client_call : Direct W → Client W → Method → W → Run (Err × W)
  client_call direct client method w =
      assert (present client.request_handler)
      >> (assert (present client.response_handler)
          >> (assert (present client.done_handler) >> transport_call direct client method w))
