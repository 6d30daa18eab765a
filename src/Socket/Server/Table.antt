-- ===== src/Socket/Server/Table.antt =====
-- The table of connections of src/lwpb/rpc/socket_server.c: what every function keeps.
use lwpb.Common.{
  ℕ, suc, ◌+◌, ◌-◌, ◌%◌, ◌^◌, ◌≤◌, ◌<◌, ◌≡◌, refl, ap, arith, Option, none, some, List, [], ◌∷◌,
  ◌==◌, length, All, if◌then◌else◌, inl, inr, ◌⊎◌,
}
use lwpb.Types.{Err, ret, abort, some_or_fault}
use lwpb.Ensures.{OnReturn, OnReturn-each, OnReturn-bind, OnReturn-if, OnReturn-option}
use lwpb.Rpc.{Allocator}
use lwpb.Socket.{Services, bytes_block, parse_request, parse_ok}
use lwpb.Socket.System.{System, Locals, make_nonblock, pointer_plus}
use lwpb.Socket.Server.{
  Conn, SocketServer, one_more, is_set, occupy, take_slot, handle_new_connection, close_connection,
  answer, handle_connection, handle_ready, handle_connections, serve_ready, update, close_one,
  close_all, socket_server_close, refusal, open_sockets, last_socket,
}

-- 1 for an open connection.
abbrev pub count : Conn → ℕ
count c = elim c.socket [ none ↦ 0 | some fd ↦ 1 ]

abbrev pub open_count : List Conn → ℕ
open_count [] = 0
open_count (c ∷ cs) = count c + open_count cs

-- An open connection's position lies in its buffer.
abbrev pub IsConn : Conn → Type 0
IsConn c = (c.len < 2 ^ 64) × ((fd : ℕ) → c.socket ≡ some fd → c.pos ≤ c.len)

-- Four connections, of which `num` are open.
abbrev pub IsTable : List Conn → ℕ → Type 0
IsTable conns num = (length conns ≡ 4) × (num ≡ open_count conns) × All IsConn conns

open_count-le : (cs : List Conn) → open_count cs ≤ length cs
open_count-le [] = omega arith
open_count-le (c ∷ cs) = ground (arith, open_count-le cs)

-- What the system and the allocator promise: no more bytes than asked for, and sizes below 2^64.
pub record IsSystem {W : Type 0} (sys : System W) (a : Allocator W) : Type 0 where
  pub recv_le : (fd : ℕ) (p : Option ℕ) (n : ℕ) (w : W) → (sys.recv fd p n w).0 ≤ n
  pub alloc_small : (w : W) → (a.alloc_buf w).2 < 2 ^ 64

Option-cases : {A : Type 0} (o : Option A) → (o ≡ none) ⊎ ((x : A) × (o ≡ some x))
Option-cases none = inl refl
Option-cases (some x) = inr (x, refl)

module _ {W : Type 0} (sys : System W) where
  -- The results of a function on one connection, where `k` others are counted.
  abbrev Kept : ℕ → Conn × ℕ × W → Type 0
  Kept k (c, num, w) = IsConn c × (num ≡ count c + k)

  close_connection-Kept :
      (c : Conn) (fd num k : ℕ) (w : W)
      → num ≡ suc k
      → num ≤ 4
      → IsConn c
      → Kept k (close_connection sys c fd num w)
  unfolding close_connection
  close_connection-Kept c fd num k w same small ok = ((ok.0, λ fd' e. cc), omega arith)

  handle_connection-Kept :
      (services : Services) (locals : Locals) (s : SocketServer W) (c : Conn) (fd num k : ℕ) (w : W)
      → IsSystem sys s.allocator
      → c.socket ≡ some fd
      → num ≡ suc k
      → num ≤ 4
      → IsConn c
      → OnReturn (Kept k) (handle_connection sys services locals s c fd num w)
  unfolding handle_connection
  handle_connection-Kept services locals s c fd num k w env is_open same small ok =
      let asked = (c.len + 2 ^ 64 - c.pos) % 2 ^ 64 in
      let (n, w1) = sys.recv fd (pointer_plus c.buf c.pos) asked w in
      let fits = ok.1 fd is_open in
      let less = env.recv_le fd (pointer_plus c.buf c.pos) asked w in
      let one : count c ≡ 1 = rw is_open refl in
      let c' : Conn = record c { pos = c.pos + n } in
      let kept : (w' : W) → Kept k (c', num, w') =
        λ w'. ((ok.0, λ fd' e. omega arith), omega arith) in
      OnReturn-if (Kept k) (n == 0) _ _ (close_connection-Kept c fd num k w1 same small ok) (
        OnReturn-each (Kept k) (some_or_fault s.server) _ (λ r.
          OnReturn-each (Kept k) (some_or_fault c.buf) _ (λ buf.
            OnReturn-each (Kept k)
              (parse_request services (sys.memory w1) buf c'.pos locals.wire locals.info
                r.service_list)
              _
              (λ (code, info).
                OnReturn-if (Kept k) (code == parse_ok) _ _
                  (OnReturn-each (Kept k) (answer sys locals s r fd buf info w1) _ kept)
                  (kept w1)))))

  handle_ready-Kept :
      (services : Services) (locals : Locals) (s : SocketServer W) (ready : List ℕ) (c : Conn)
      (num k : ℕ) (w : W)
      → IsSystem sys s.allocator
      → num ≡ count c + k
      → num ≤ 4
      → IsConn c
      → OnReturn (Kept k) (handle_ready sys services locals s ready c num w)
  unfolding handle_ready
  handle_ready-Kept services locals s ready c num k w env same small ok =
      OnReturn-option (Kept k) c.socket (ret (c, num, w))
        (λ fd.
          if is_set ready fd
          then handle_connection sys services locals s c fd num w
          else ret (c, num, w))
        (λ e. (ok, same))
        (λ fd e.
          let one : count c ≡ 1 = rw e refl in
          OnReturn-if (Kept k) (is_set ready fd) _ _
            (handle_connection-Kept services locals s c fd num k w env e (omega arith) small ok)
            (ok, same))

  -- The results of a function on a list of connections, where `k` others are counted.
  abbrev AllKept : ℕ → List Conn → List Conn × ℕ × W → Type 0
  AllKept k cs (cs', num, w) =
      (length cs' ≡ length cs) × (num ≡ open_count cs' + k) × All IsConn cs'

  handle_connections-AllKept :
      (services : Services) (locals : Locals) (s : SocketServer W) (ready : List ℕ) (cs : List Conn)
      (num k : ℕ) (w : W)
      → IsSystem sys s.allocator
      → num ≡ open_count cs + k
      → length cs + k ≤ 4
      → All IsConn cs
      → OnReturn (AllKept k cs) (handle_connections sys services locals s ready cs num w)
  unfolding handle_connections
  handle_connections-AllKept services locals s ready [] num k w env same small ok = (refl, same, tt)
  handle_connections-AllKept services locals s ready (c ∷ cs) num k w env same small (ok, oks) =
      let few = open_count-le cs in
      OnReturn-bind (Kept (open_count cs + k)) (AllKept k (c ∷ cs))
        (handle_ready sys services locals s ready c num w) _
        (handle_ready-Kept services locals s ready c num (open_count cs + k) w env (omega arith)
          (ground arith) ok)
        (λ (c', num', w') (ok', same').
          OnReturn-bind (AllKept (count c' + k) cs) (AllKept k (c ∷ cs))
            (handle_connections sys services locals s ready cs num' w') _
            (handle_connections-AllKept services locals s ready cs num' (count c' + k) w' env
              (omega arith) (ground arith) oks)
            (λ (cs', num'', w'') (len, same'', oks'). (ap suc len, omega arith, (ok', oks'))))

  -- The table with a connection more, if there was one without a socket.
  abbrev Taken : List Conn → Option (List Conn × W) → Type 0
  Taken cs none = Unit {0}
  Taken cs (some (cs', w)) =
      (length cs' ≡ length cs) × (open_count cs' ≡ suc (open_count cs)) × All IsConn cs'

  occupy-IsConn :
      (a : Allocator W) (fd : ℕ) (c : Conn) (w : W)
      → IsSystem sys a
      → IsConn c
      → IsConn (occupy sys a fd c w).0 × (count (occupy sys a fd c w).0 ≡ 1)
  unfolding occupy
  occupy-IsConn a fd c w env ok = elim (Option-cases c.buf) [
    | inl e ↦ simp (occupy, e) (((env.alloc_small w, λ fd' h. omega arith), refl))
    | inr (p, e) ↦ simp (occupy, e) (((ok.0, λ fd' h. omega arith), refl))
  ]

  Taken-cons :
      (c : Conn) (cs : List Conn) (r : Option (List Conn × W))
      → IsConn c
      → Taken cs r
      → Taken (c ∷ cs) (elim r [ none ↦ none | some (cs', w') ↦ some (c ∷ cs', w') ])
  Taken-cons c cs none ok h = tt
  Taken-cons c cs (some (cs', w')) ok (len, more, oks) = (ap suc len, omega arith, (ok, oks))

  take_slot-Taken :
      (a : Allocator W) (fd : ℕ) (cs : List Conn) (w : W)
      → IsSystem sys a
      → All IsConn cs
      → Taken cs (take_slot sys a fd cs w)
  unfolding take_slot
  take_slot-Taken a fd [] w env ok = tt
  take_slot-Taken a fd (c ∷ cs) w env (ok, oks) = elim (Option-cases c.socket) [
    | inl e ↦
        let (ok', one) = occupy-IsConn a fd c w env ok in
        let zero_before : count c ≡ 0 = rw e refl in simp e (refl, omega arith, (ok', oks))
    | inr (fd', e) ↦
        simp e (Taken-cons c cs (take_slot sys a fd cs w) ok (take_slot-Taken a fd cs w env oks))
  ]

  abbrev IsServerTable : SocketServer W → Type 0
  IsServerTable s = IsTable s.conns s.num_conns

  -- The table is right, and the allocator is the one before.
  abbrev SameAllocator : SocketServer W → SocketServer W × W → Type 0
  SameAllocator s (s', w) = IsServerTable s' × (s'.allocator ≡ s.allocator)

  seated :
      (s : SocketServer W) (fd : ℕ) (w : W) (r : Option (List Conn × W))
      → IsServerTable s
      → Taken s.conns r
      → OnReturn (SameAllocator s) (elim r [
        | some (conns, w') ↦ ret (record s { conns = conns; num_conns = one_more s.num_conns }, w')
        | none ↦ ret (s, sys.close fd (sys.send fd (bytes_block refusal) w))
      ])
  seated s fd w none table taken = (table, refl)
  seated s fd w (some (conns, w')) (len, num, ok) (len', more, ok') =
      let few = open_count-le conns in ((omega arith, omega arith, ok'), refl)

  handle_new_connection-IsTable :
      (s : SocketServer W) (listener : ℕ) (w : W)
      → IsSystem sys s.allocator
      → IsServerTable s
      → OnReturn (SameAllocator s) (handle_new_connection sys s listener w)
  unfolding handle_new_connection
  handle_new_connection-IsTable s listener w env table =
      let (socket, w1) = sys.accept listener w in
      OnReturn-option (SameAllocator s) socket (ret (s, w1)) _ (λ e. (table, refl))
        (λ fd e. OnReturn-each (SameAllocator s) (make_nonblock sys fd w1) _ (λ w2.
          seated s fd w2 (take_slot sys s.allocator fd s.conns w2) table
            (take_slot-Taken s.allocator fd s.conns w2 env table.2)))

  Tabled : Option Err × SocketServer W × W → Type 0
  Tabled (e, s, w) = IsTable s.conns s.num_conns

  serve_ready-IsTable :
      (services : Services) (locals : Locals) (s : SocketServer W) (listener : ℕ) (ready : List ℕ)
      (w : W)
      → IsSystem sys s.allocator
      → IsServerTable s
      → OnReturn Tabled (serve_ready sys services locals s listener ready w)
  unfolding serve_ready Tabled
  serve_ready-IsTable services locals s listener [] w env table = table
  serve_ready-IsTable services locals s listener (x ∷ xs) w env table =
      let ready = x ∷ xs in
      OnReturn-bind (SameAllocator s) Tabled
        (if is_set ready listener then handle_new_connection sys s listener w else ret (s, w)) _
        (OnReturn-if (SameAllocator s) (is_set ready listener) _ _
          (handle_new_connection-IsTable s listener w env table) (table, refl))
        (λ (s1, w1) ((len, num, ok), same).
          OnReturn-bind (AllKept 0 s1.conns) Tabled
            (handle_connections sys services locals s1 ready s1.conns s1.num_conns w1) _
            (handle_connections-AllKept services locals s1 ready s1.conns s1.num_conns 0 w1
              (rw same env) (omega arith) (omega arith) ok)
            (λ (conns, num', w2) (len', num'', ok'). (omega arith, omega arith, ok')))

  -- The table of the socket server has four connections, `num_conns` is the number of those that are
  -- open, and an open connection's position lies in its buffer. If `recv` yields no more bytes than
  -- asked for and the allocator's sizes are below 2^64, `lwpb_transport_socket_server_update` keeps
  -- this whenever it returns, whatever the sockets and the server's handler do.
  pub update-IsTable :
      (services : Services) (locals : Locals) (s : SocketServer W) (w : W)
      → IsSystem sys s.allocator
      → IsTable s.conns s.num_conns
      → OnReturn (λ (e, s', w'). IsTable s'.conns s'.num_conns) (update sys services locals s w)
  unfolding update Tabled
  update-IsTable services locals s w env table =
      OnReturn-option Tabled s.socket (ret (none, s, w)) _ (λ e. table)
        (λ listener e.
          let fds = open_sockets s.conns in
          let (selected, w1) = sys.select (last_socket listener fds + 1) (listener ∷ fds) w in
          OnReturn-option Tabled selected abort
            (λ ready. serve_ready sys services locals s listener ready w1) (λ e'. tt)
            (λ ready e'. serve_ready-IsTable services locals s listener ready w1 env table))

  -- The sockets are closed, the first one first.
  abbrev pub close_each : List ℕ → W → W
  close_each [] w = w
  close_each (fd ∷ fds) w = close_each fds (sys.close fd w)

  close_all-world :
      (cs : List Conn) (num : ℕ) (w : W)
      → (close_all sys cs num w).2 ≡ close_each (open_sockets cs) w
  unfolding close_all close_one close_connection
  close_all-world [] num w = refl
  close_all-world (c ∷ cs) num w = elim (Option-cases c.socket) [
    | inl e ↦ rw e (close_all-world cs num w)
    | inr (fd, e) ↦ rw e (close_all-world cs _ (sys.close fd w))
  ]

  close_one-IsConn :
      (c : Conn) (num k : ℕ) (w : W)
      → num ≡ count c + k
      → num ≤ 4
      → IsConn c
      → let (c', num', w') = close_one sys c num w in (count c' ≡ 0) × (num' ≡ k) × IsConn c'
  unfolding close_one close_connection
  close_one-IsConn c num k w same small ok = elim (Option-cases c.socket) [
    | inl e ↦
        let none_open : count c ≡ 0 = rw e refl in
        simp (close_one, e) (rw e refl, omega arith, (ok.0, λ fd' h. cc))
    | inr (fd, e) ↦
        let one : count c ≡ 1 = rw e refl in
        simp (close_one, e) (refl, omega arith, (ok.0, λ fd' h. cc))
  ]

  close_all-IsTable :
      (cs : List Conn) (num k : ℕ) (w : W)
      → num ≡ open_count cs + k
      → num ≤ 4
      → All IsConn cs
      → let (cs', num', w') = close_all sys cs num w in
        (length cs' ≡ length cs) × (num' ≡ k) × (open_count cs' ≡ 0) × All IsConn cs'
  unfolding close_all
  close_all-IsTable [] num k w same small ok = (refl, omega arith, refl, tt)
  close_all-IsTable (c ∷ cs) num k w same small (ok, oks) =
      let (c', num', w') = close_one sys c num w in
      let (closed, same', ok') =
        close_one-IsConn c num (open_count cs + k) w (omega arith) small ok in
      let (len, same'', all_closed, oks') =
        close_all-IsTable cs num' k w' same' (omega arith) oks in
      (ap suc len, same'', omega arith, (ok', oks'))

  -- `lwpb_transport_socket_server_close` on a server with a listening socket and a right table
  -- closes the sockets of all open connections, in their order, and then the listening socket, and
  -- does nothing else to the world; it keeps the table right, so that `num_conns` is 0, but it
  -- leaves the listening socket set.
  pub socket_server_close-IsTable :
      (s : SocketServer W) (listener : ℕ) (w : W)
      → s.socket ≡ some listener
      → IsTable s.conns s.num_conns
      → let (s', w') = socket_server_close sys s w in
        IsTable s'.conns s'.num_conns
        × (s'.num_conns ≡ 0)
        × (s'.socket ≡ some listener)
        × (w' ≡ sys.close listener (close_each (open_sockets s.conns) w))
  unfolding socket_server_close
  socket_server_close-IsTable s listener w e (len, num, ok) =
      let few = open_count-le s.conns in
      let (len', num', closed, ok') =
        close_all-IsTable s.conns s.num_conns 0 w (omega arith) (omega arith) ok in
      simp (socket_server_close, e)
        (
          (omega arith, omega arith, ok'),
          num',
          refl,
          ap (sys.close listener) (close_all-world s.conns s.num_conns w),
        )
