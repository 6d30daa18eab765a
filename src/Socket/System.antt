-- ===== src/Socket/System.antt =====
-- The operating system's calls that src/lwpb/rpc/socket_server.c and socket_client.c make, as a
-- parameter: each acts on the state of the world `W`. A socket is a number, `none` for -1.
use lwpb.Common.{ℕ, ◌+◌, Bool, Option, none, some, List, [], ◌∷◌}
use lwpb.Types.{Run, ret, ◌>>◌, assert}
use lwpb.Buf.{Memory}
use lwpb.Socket.{Block, HeaderInfo}
use lwpb.Types.{WireValue}

-- What stands in memory is a function of the world. `recv` yields the number of bytes, 0 for a
-- closed connection or an error; `select` gets the sockets, the highest of them plus 1, and yields
-- those that are ready, `none` for an error. The other tests say whether the call succeeded.
pub record System (W : Type 0) : Type 0 where
  pub memory : W → Memory
  pub accept : ℕ → W → Option ℕ × W
  pub recv : ℕ → Option ℕ → ℕ → W → ℕ × W
  pub send : ℕ → Block → W → W
  pub close : ℕ → W → W
  pub select : ℕ → List ℕ → W → Option (List ℕ) × W
  pub nonblock : ℕ → W → Bool × W
  pub getaddrinfo : W → Bool × W
  pub freeaddrinfo : W → W
  pub new_socket : W → Option ℕ × W
  pub setsockopt : ℕ → W → Bool × W
  pub bind : ℕ → W → Bool × W
  pub listen : ℕ → W → Bool × W
  pub connect : ℕ → W → Bool × W

-- What local variables hold before they are set.
pub record Locals : Type 0 where
  pub header_bytes : Memory
  pub info : HeaderInfo
  pub wire : WireValue

module _ {W : Type 0} (sys : System W) where
  -- `make_nonblock`
  unfoldable pub make_nonblock : ℕ → W → Run W
  make_nonblock fd w = let (ok, w') = sys.nonblock fd w in assert ok >> ret w'

  unfoldable pub send_blocks : ℕ → List Block → W → W
  send_blocks fd [] w = w
  send_blocks fd (b ∷ bs) w = send_blocks fd bs (sys.send fd b w)

-- A pointer moved by some bytes.
abbrev pub pointer_plus : Option ℕ → ℕ → Option ℕ
pointer_plus none n = none
pointer_plus (some p) n = some (p + n)
