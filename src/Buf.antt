-- ===== src/Buf.antt =====
-- src/lwpb/core/buf.c and the memory that it points into. An address is a position in one data
-- object of `size` bytes; a pointer may stand at most at its end.
use lwpb.Common.{
  ℕ, ◌+◌, ◌-◌, ◌%◌, ◌^◌, ◌≤◌, ◌<◌, ◌≡◌, arith, ◌==◌, ltb, leb, if◌then◌else◌, ltb-true, ltb-false,
}
use lwpb.Types.{Run, ret, fault}

pub record Memory : Type 0 where
  pub size : ℕ
  pub byte : ℕ → ℕ

-- `*p`
unfoldable pub read : Memory → ℕ → Run ℕ
read m p = if ltb p m.size then ret (m.byte p) else fault

-- The memory after `*p = b`.
unfoldable pub put : Memory → ℕ → ℕ → Memory
put m p b = record m { byte = λ q. if q == p then b else m.byte q }

-- `*p = b`
unfoldable pub write : Memory → ℕ → ℕ → Run Memory
write m p b = if ltb p m.size then ret (put m p b) else fault

-- `struct lwpb_buf`
pub record Buf : Type 0 where
  pub base : ℕ
  pub pos : ℕ
  pub end : ℕ

-- `lwpb_buf_init`: `&buf->base[len]` must not point past the end of the object.
unfoldable pub buf_init : Memory → ℕ → ℕ → Run Buf
buf_init m p len =
    if leb (p + len) m.size then ret (record { base = p; pos = p; end = p + len }) else fault

-- `lwpb_buf_used` and `lwpb_buf_left`: a pointer difference, converted to `size_t`.
unfoldable pub buf_used : Buf → ℕ
buf_used b = (b.pos + 2 ^ 64 - b.base) % 2 ^ 64

unfoldable pub buf_left : Buf → ℕ
buf_left b = (b.end + 2 ^ 64 - b.pos) % 2 ^ 64

-- `buf->pos += n`
unfoldable pub advance : Buf → ℕ → Buf
advance b n = record b { pos = b.pos + n }

-- A buffer that lies in its object, with its position inside.
pub record IsBuf (m : Memory) (b : Buf) : Type 0 where
  pub base_le : b.base ≤ b.pos
  pub pos_le : b.pos ≤ b.end
  pub end_le : b.end ≤ m.size
  pub small : m.size < 2 ^ 64

-- The bytes that are left, where the position has not passed the end.
abbrev pub room : Buf → ℕ
room b = b.end - b.pos

pub buf_left-eq-room : (m : Memory) (b : Buf) → IsBuf m b → buf_left b ≡ room b
unfolding buf_left
buf_left-eq-room m b v = omega arith

pub buf_used_lem : (m : Memory) (b : Buf) → IsBuf m b → buf_used b ≡ b.pos - b.base
unfolding buf_used
buf_used_lem m b v = omega arith

pub read_lem : (m : Memory) (p : ℕ) → p < m.size → read m p ≡ ret (m.byte p)
unfolding read
read_lem m p h = rw (ltb-true p m.size h)

pub read_past : (m : Memory) (p : ℕ) → m.size ≤ p → read m p ≡ fault
unfolding read
read_past m p h = rw (ltb-false p m.size h)

pub write_lem : (m : Memory) (p b : ℕ) → p < m.size → write m p b ≡ ret (put m p b)
unfolding write
write_lem m p b h = rw (ltb-true p m.size h)

pub IsBuf-advance : (m : Memory) (b : Buf) (n : ℕ) → IsBuf m b → n ≤ room b → IsBuf m (advance b n)
unfolding advance
IsBuf-advance m b n v h = omega arith

-- Only the size of the memory matters.
pub IsBuf-resize : (m m' : Memory) (b : Buf) → m'.size ≡ m.size → IsBuf m b → IsBuf m' b
IsBuf-resize m m' b e v = omega arith

pub IsBuf-put-advance :
    (m : Memory) (b : Buf) (x : ℕ) → IsBuf m b → b.pos < b.end → IsBuf (put m b.pos x) (advance b 1)
unfolding put advance
IsBuf-put-advance m b x v h = omega arith

pub advance-advance : (b : Buf) (n k : ℕ) → advance (advance b n) k ≡ advance b (n + k)
unfolding advance
advance-advance b n k = let e : b.pos + n + k ≡ b.pos + (n + k) = omega arith in rw e
