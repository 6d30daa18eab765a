-- ===== src/Fixed/RoundTrip.antt =====
-- Reading back what the fixed-size encoders wrote.
use lwpb.Common.{
  ℕ, zero, suc, ◌+◌, ◌*◌, ◌/◌, ◌%◌, ◌^◌, ◌≤◌, ◌<◌, ◌≡◌, refl, ap, ◌∙◌, arith, List, [], ◌∷◌, length,
  bit_or, Bool-cases, ltb, inl, inr, ltb-false, All,
}
use lwpb.Common.Bits.{bit_or_fields, bit_or_comm}
use lwpb.Types.{ret, err_ok}
use lwpb.Buf.{Memory, Buf, IsBuf, room, advance, read_lem, read_past, buf_left-eq-room}
use lwpb.Fixed.{decode_32bit, decode_64bit_loop, decode_64bit}
use lwpb.Fixed.Laws.{bytes32, bytes64}
use lwpb.Varint.Spec.{Holds}

or_four :
    (b0 b1 b2 b3 : ℕ)
    → b0 < 256
    → b1 < 256
    → b2 < 256
    → bit_or (bit_or (bit_or b0 (b1 * 2 ^ 8)) (b2 * 2 ^ 16)) (b3 * 2 ^ 24)
      ≡ b0 + b1 * 2 ^ 8 + b2 * 2 ^ 16 + b3 * 2 ^ 24
or_four b0 b1 b2 b3 h0 h1 h2 =
    rw (bit_or_fields 8 b1 b0 h0, bit_or_fields 16 b2 (b0 + b1 * 2 ^ 8) (omega arith))
      (bit_or_fields 24 b3 (b0 + b1 * 2 ^ 8 + b2 * 2 ^ 16) (omega arith))

plus_plus : (p i j : ℕ) → p + i + j ≡ p + (i + j)
plus_plus p i j = omega arith

-- On a well-formed buffer with four bytes left that hold a 32-bit number lowest byte first,
-- `lwpb_decode_32bit` returns the number and moves by four.
pub decode_32bit_lem :
    (m : Memory) (b : Buf) (v : ℕ)
    → IsBuf m b
    → v < 2 ^ 32
    → Holds m b.pos (bytes32 v)
    → 4 ≤ room b
    → decode_32bit m b ≡ ret (err_ok, advance b 4, v)
unfolding decode_32bit
decode_32bit_lem m b v ok h at fits =
    rw
      (
        buf_left-eq-room m b ok,
        ltb-false (room b) 4 fits,
        read_lem m b.pos (omega arith),
        read_lem m (b.pos + 1) (omega arith),
        read_lem m (b.pos + 2) (omega arith),
        read_lem m (b.pos + 3) (omega arith),
        at.0,
        at.1.0,
        rw (plus_plus b.pos 1 1) at at.1.1.0,
        rw (plus_plus b.pos 1 1, plus_plus b.pos 2 1) at at.1.1.1.0,
        or_four (v % 256) (v / 2 ^ 8 % 256) (v / 2 ^ 16 % 256) (v / 2 ^ 24 % 256) (omega arith)
            (omega arith) (omega arith),
      )
      (ap (λ (t : ℕ). ret (err_ok, advance b 4, t)) (omega arith))

ret_value : (x y : ℕ) → ret x ≡ ret y → x ≡ y
ret_value x y e = cc

push_byte :
    (x byte : ℕ) → x < 2 ^ 56 → byte < 256 → bit_or (x * 2 ^ 8 % 2 ^ 64) byte ≡ byte + x * 2 ^ 8
push_byte x byte h k =
    let e : x * 2 ^ 8 % 2 ^ 64 ≡ x * 2 ^ 8 = omega arith in
    rw (e, bit_or_comm (x * 2 ^ 8) byte) (bit_or_fields 8 x byte k)

-- The number that bytes stand for, lowest byte first.
from_bytes : List ℕ → ℕ
from_bytes [] = 0
from_bytes (x ∷ xs) = x + from_bytes xs * 2 ^ 8

-- The loop reads the lowest byte last.
decode_64bit_loop_lowest :
    (n : ℕ) (m : Memory) (p x y : ℕ)
    → p < m.size
    → decode_64bit_loop n m (p + 1) x ≡ ret y
    → decode_64bit_loop (suc n) m p x ≡ ret (bit_or (y * 2 ^ 8 % 2 ^ 64) (m.byte p))
unfolding decode_64bit_loop
decode_64bit_loop_lowest zero m p x y h e =
    let z : p + 0 ≡ p = omega arith in
    let same : x ≡ y = ret_value x y e in rw (z, read_lem m p h, same)
decode_64bit_loop_lowest (suc n) m p x y h e = elim (Bool-cases (ltb (p + suc n) m.size)) [
  | inl here ↦
      let z : p + 1 + n ≡ p + suc n = omega arith in
      let r = read_lem m (p + suc n) (ground arith) in
      rw r (
        decode_64bit_loop_lowest n m p (bit_or (x * 2 ^ 8 % 2 ^ 64) (m.byte (p + suc n))) y h
          (rw (z, r) at e))
  | inr past ↦
      let z : p + 1 + n ≡ p + suc n = omega arith in
      cc (rw (z, read_past m (p + suc n) (ground arith)) at e)
]

decode_64bit_loop_lem :
    (bs : List ℕ) (m : Memory) (p : ℕ)
    → All (λ x. x < 256) bs
    → from_bytes bs < 2 ^ 64
    → p + length bs ≤ m.size
    → Holds m p bs
    → decode_64bit_loop (length bs) m p 0 ≡ ret (from_bytes bs)
unfolding from_bytes
decode_64bit_loop_lem [] m p small fits le at = unfold decode_64bit_loop in refl
decode_64bit_loop_lem (x ∷ xs) m p small fits le at =
    decode_64bit_loop_lowest (length xs) m p 0 (from_bytes xs) (omega arith)
      (decode_64bit_loop_lem xs m (p + 1) small.1 (omega arith) (omega arith) at.1)
    ∙ rw (at.0, push_byte (from_bytes xs) x (omega arith) small.0)

-- On a well-formed buffer with eight bytes left that hold a 64-bit number lowest byte first,
-- `lwpb_decode_64bit` returns the number and moves by eight.
pub decode_64bit_lem :
    (m : Memory) (b : Buf) (v : ℕ)
    → IsBuf m b
    → v < 2 ^ 64
    → Holds m b.pos (bytes64 v)
    → 8 ≤ room b
    → decode_64bit m b ≡ ret (err_ok, advance b 8, v)
unfolding decode_64bit
decode_64bit_lem m b v ok h at fits =
    let sum : from_bytes (bytes64 v) ≡ v = unfold from_bytes in omega arith in
    let e : decode_64bit_loop 8 m b.pos 0 ≡ ret v =
      decode_64bit_loop_lem (bytes64 v) m b.pos (omega arith) (omega arith) (omega arith) at
      ∙ ap ret sum in
    rw (buf_left-eq-room m b ok, ltb-false (room b) 8 fits, e)
