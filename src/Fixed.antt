-- ===== src/Fixed.antt =====
-- Fixed-size integers, little endian: `encode_32bit` and `encode_64bit` of src/lwpb/core/encoder.c,
-- `lwpb_encode_32bit` and `lwpb_encode_64bit` of src/lwpb/core/encoder2.c, `lwpb_decode_32bit` and
-- `lwpb_decode_64bit` of src/lwpb/core/decoder.c.
pub mod Laws
pub mod RoundTrip
use lwpb.Common.{
  ℕ, zero, suc, ◌+◌, ◌*◌, ◌/◌, ◌%◌, ◌^◌, ◌<◌, ◌++◌, Option, none, some, List, [], ◌∷◌, ltb,
  if◌then◌else◌, bit_and, bit_or,
}
use lwpb.Types.{Run, ret, ◌>>=◌, Err, err_ok, err_end_of_buf}
use lwpb.Buf.{Memory, Buf, read, write, buf_left, advance}

-- Assignments to consecutive bytes, `p[0] = ...; p[1] = ...;`
unfoldable pub write_all : Memory → ℕ → List ℕ → Run Memory
write_all m p [] = ret m
write_all m p (x ∷ xs) = write m p x >>= λ m'. write_all m' (p + 1) xs

-- `(value) & 0xff, (value >> 8) & 0xff, (value >> 16) & 0xff, (value >> 24) & 0xff`
abbrev pub four_bytes : ℕ → List ℕ
four_bytes v =
    bit_and v 0xff
    ∷ bit_and (v / 2 ^ 8) 0xff
    ∷ bit_and (v / 2 ^ 16) 0xff
    ∷ bit_and (v / 2 ^ 24) 0xff
    ∷ []

unfoldable pub encode_32bit : Memory → Buf → ℕ → Run (Err × Memory × Buf)
encode_32bit m b v =
    if ltb (buf_left b) 4
    then ret (err_end_of_buf, m, b)
    else (write_all m b.pos (four_bytes v) >>= λ m'. ret (err_ok, m', advance b 4))

-- `value >>= 32` stands between the two halves.
unfoldable pub encode_64bit : Memory → Buf → ℕ → Run (Err × Memory × Buf)
encode_64bit m b v =
    if ltb (buf_left b) 8
    then ret (err_end_of_buf, m, b)
    else (write_all m b.pos (four_bytes v ++ four_bytes (v / 2 ^ 32)) >>= λ m'.
        ret (err_ok, m', advance b 8))

-- `none` is the buffer NULL.
unfoldable pub encode_32bit2 : Memory → Option ℕ → ℕ → Run (ℕ × Memory)
encode_32bit2 m none v = ret (4, m)
encode_32bit2 m (some p) v = write_all m p (four_bytes v) >>= λ m'. ret (4, m')

unfoldable pub encode_64bit2 : Memory → Option ℕ → ℕ → Run (ℕ × Memory)
encode_64bit2 m none v = ret (8, m)
encode_64bit2 m (some p) v =
    write_all m p (four_bytes v ++ four_bytes (v / 2 ^ 32)) >>= λ m'. ret (8, m')

-- The function leaves `*value` alone when it fails; here the result is 0 then.
unfoldable pub decode_32bit : Memory → Buf → Run (Err × Buf × ℕ)
decode_32bit m b = if ltb (buf_left b) 4 then ret (err_end_of_buf, b, 0) else do
  b0 ← read m b.pos
  b1 ← read m (b.pos + 1)
  b2 ← read m (b.pos + 2)
  b3 ← read m (b.pos + 3)
  ret (err_ok, advance b 4, bit_or (bit_or (bit_or b0 (b1 * 2 ^ 8)) (b2 * 2 ^ 16)) (b3 * 2 ^ 24))

-- `for (i = 7; i >= 0; i--) *value = (*value << 8) | buf->pos[i]`, with `left` rounds left.
unfoldable pub decode_64bit_loop : ℕ → Memory → ℕ → ℕ → Run ℕ
decode_64bit_loop zero m p value = ret value
decode_64bit_loop (suc left) m p value =
    read m (p + left) >>= λ byte. decode_64bit_loop left m p (bit_or (value * 2 ^ 8 % 2 ^ 64) byte)

unfoldable pub decode_64bit : Memory → Buf → Run (Err × Buf × ℕ)
decode_64bit m b =
    if ltb (buf_left b) 8
    then ret (err_end_of_buf, b, 0)
    else (decode_64bit_loop 8 m b.pos 0 >>= λ value. ret (err_ok, advance b 8, value))
