-- ===== src/Rpc/Buffers.antt =====
-- The direct transport keeps no buffer: what it allocates for a call it releases.
use lwpb.Common.{ℕ, ◌+◌, ◌-◌, ◌≡◌, ◌∙◌, arith, Option, none, some}
use lwpb.Types.{Err, ret}
use lwpb.Ensures.{Returns, Returns-err, Returns-bind}
use lwpb.Rpc.{
  Method, RpcResult, rpc_ok, rpc_failed, rpc_not_connected, RequestHandler, ResponseHandler,
  DoneHandler, CallHandler, Client, Server, Allocator, Direct, client_handler, server_handler,
  release, serve, exchange, transport_call, client_call,
}

-- The number of buffers that an allocation adds.
abbrev pub buffers : Option ℕ → ℕ
buffers none = 0
buffers (some p) = 1

-- `live` counts the allocator's buffers in use: allocating and releasing move the count.
abbrev pub Counts : {W : Type 0} → (W → ℕ) → Allocator W → Type 0
Counts {W} live a =
    ((w : W) → live (a.alloc_buf w).3 ≡ live w + buffers (a.alloc_buf w).1)
    × ((p : ℕ) (w : W) → live (a.free_buf p w) ≡ live w - 1)

-- A registered server with its handler, or none.
abbrev pub served : {W : Type 0} → Option (CallHandler W) → Option (Server W)
served none = none
served (some call) = some (server_handler call)

module _ {W : Type 0} (live : W → ℕ) (request : RequestHandler W) (response : ResponseHandler W)
    (done : DoneHandler W) where
  -- The client's handlers release as many buffers as they allocate.
  abbrev pub BalancedClient : Type 0
  BalancedClient =
      ((m : Method) (d : ℕ) (buf : Option ℕ) (n : ℕ) (w : W)
        → live (request m d buf n w).2 ≡ live w)
      × ((m : Method) (d : ℕ) (buf : Option ℕ) (n : ℕ) (w : W)
          → live (response m d buf n w).1 ≡ live w)
      × ((m : Method) (r : RpcResult) (w : W) → live (done m r w) ≡ live w)

  -- And so does the server's.
  abbrev pub BalancedServer : Option (CallHandler W) → Type 0
  BalancedServer none = Unit {0}
  BalancedServer (some call) =
      (m : Method) (d : ℕ) (q : Option ℕ) (n d' : ℕ) (r : Option ℕ) (k : ℕ) (w : W)
      → live (call m d q n d' r k w).2 ≡ live w

  abbrev pub Same : W → Err × W → Type 0
  Same w r = live r.1 ≡ live w

  abbrev client : Client W
  client = client_handler request response done

  serve-Same :
      (call : CallHandler W) (m : Method) (q : Option ℕ) (n : ℕ) (r : Option ℕ) (k : ℕ) (w0 w : W)
      → BalancedClient
      → BalancedServer (some call)
      → live w ≡ live w0
      → Returns (Same w0) (serve client (server_handler call) m q n r k w)
  unfolding serve client_handler server_handler
  serve-Same call m q n r k w0 w (req_ok, res_ok, done_ok) call_ok same =
      let reply = call m m.req_desc q n m.res_desc r k w in
      let after = response m m.res_desc r reply.1 reply.2 in
      let called : live reply.2 ≡ live w0 = call_ok m m.req_desc q n m.res_desc r k w ∙ same in
      Returns-err (Same w0) reply.0 _ (λ e. ret (e, done m rpc_failed reply.2))
        (done_ok m rpc_ok after.1 ∙ res_ok m m.res_desc r reply.1 reply.2 ∙ called)
        (λ _. done_ok m rpc_failed reply.2 ∙ called)

  exchange-Same :
      (server : Option (CallHandler W)) (m : Method) (q : Option ℕ) (n : ℕ) (r : Option ℕ) (k : ℕ)
      (w : W)
      → BalancedClient
      → BalancedServer server
      → Returns (Same w) (exchange (served server) client m q n r k w)
  unfolding exchange client_handler
  exchange-Same none m q n r k w (req_ok, res_ok, done_ok) s =
      let sent = request m m.req_desc q n w in
      Returns-err (Same w) sent.0 _ (λ e. ret (e, sent.2))
        (done_ok m rpc_not_connected sent.2 ∙ req_ok m m.req_desc q n w)
        (λ _. req_ok m m.req_desc q n w)
  exchange-Same (some call) m q n r k w (req_ok, res_ok, done_ok) s =
      let sent = request m m.req_desc q n w in
      Returns-err (Same w) sent.0 _ (λ e. ret (e, sent.2))
        (serve-Same call m q sent.1 r k w sent.2 (req_ok, res_ok, done_ok) s
          (req_ok m m.req_desc q n w))
        (λ _. req_ok m m.req_desc q n w)

  release-live :
      (a : Allocator W) (buf : Option ℕ) (w : W)
      → Counts live a
      → live (release a buf w) ≡ live w - buffers buf
  release-live a none w c = omega arith
  release-live a (some p) w c = c.1 p w

  transport_call-live :
      (direct : Direct W) (server : Option (CallHandler W)) (m : Method) (w : W)
      → direct.server ≡ served server
      → Counts live direct.allocator
      → BalancedClient
      → BalancedServer server
      → Returns (Same w) (transport_call direct client m w)
  unfolding transport_call
  transport_call-live direct server m w at counts c s =
      let a = direct.allocator in
      let first = a.alloc_buf w in
      let second = a.alloc_buf first.3 in
      let one = counts.0 w in
      let two = counts.0 first.3 in
      Returns-err (Same w) first.0 _ (λ e. ret (e, release a first.1 first.3))
        (Returns-err (Same w) second.0 _
          (λ e. ret (e, release a second.1 (release a first.1 second.3)))
          (rw at (
            Returns-bind (Same second.3) (Same w) _ _
              (exchange-Same server m first.1 first.2 second.1 second.2 second.3 c s)
              (λ r same. both a first.1 second.1 w r.1 counts (omega arith))))
          (λ _. both a first.1 second.1 w second.3 counts (omega arith)))
        (λ _. omega (arith, release-live a first.1 first.3 counts))
    where
      both :
          (a : Allocator W) (p q : Option ℕ) (w w' : W)
          → Counts live a
          → live w' ≡ live w + buffers p + buffers q
          → live (release a q (release a p w')) ≡ live w
      both a p q w w' counts e =
          omega (arith, release-live a q (release a p w') counts, release-live a p w' counts)

  -- Let `live` count the allocator's buffers, so that an allocation adds one if it yields a buffer
  -- and a release takes one away, and let the client's handlers and the server's, if a server is
  -- registered, leave the count as it is. Then `lwpb_client_call` through the direct transport
  -- returns, and the count is what it was, whatever errors occur.
  pub client_call-live :
      (direct : Direct W) (server : Option (CallHandler W)) (m : Method) (w : W)
      → direct.server ≡ served server
      → Counts live direct.allocator
      → BalancedClient
      → BalancedServer server
      → Returns (Same w) (client_call direct client m w)
  unfolding client_call client_handler
  client_call-live direct server m w at counts c s =
      transport_call-live direct server m w at counts c s
