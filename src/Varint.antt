-- ===== src/Varint.antt =====
-- Base-128 integers: `encode_varint` of src/lwpb/core/encoder.c, `lwpb_encode_varint` of
-- src/lwpb/core/encoder2.c and `lwpb_decode_varint` of src/lwpb/core/decoder.c.
-- Each loop makes at most ten rounds on a 64-bit number, and runs on fuel.
pub mod Spec
pub mod Encode
pub mod Decode
pub mod Errors
pub mod RoundTrip
use lwpb.Common.{
  ℕ, zero, suc, ◌+◌, ◌*◌, ◌/◌, ◌%◌, ◌^◌, ◌<◌, Bool, true, false, not, ◌&&◌, Option, none, some,
  List, [], ◌∷◌, ltb, leb, ◌==◌, if◌then◌else◌, bit_and, bit_or,
}
use lwpb.Types.{Run, ret, fault, stuck, ◌>>=◌, ◌>>◌, require, Err, err_ok, err_end_of_buf}
use lwpb.Buf.{Memory, Buf, read, write, put, buf_left, advance}

abbrev pub IsU64 : ℕ → Type 0
IsU64 v = v < 2 ^ 64

-- The byte that both encoders store for the lowest seven bits of `v`.
unfoldable pub varint_byte : ℕ → ℕ
varint_byte v = if ltb 127 v then bit_or 0x80 (bit_and v 0x7f) else bit_and v 0x7f

-- The `do` loop of `encode_varint`.
unfoldable pub encode_loop : ℕ → Memory → Buf → ℕ → Run (Err × Memory × Buf)
encode_loop zero m b v = stuck
encode_loop (suc fuel) m b v =
    if ltb (buf_left b) 1
    then ret (err_end_of_buf, m, b)
    else (write m b.pos (varint_byte v) >>= λ m'.
        let rest = encode_loop fuel m' (advance b 1) (v / 128) in
        if v / 128 == 0 then ret (err_ok, m', advance b 1) else rest)

unfoldable pub encode_varint : Memory → Buf → ℕ → Run (Err × Memory × Buf)
encode_varint m b v = encode_loop 10 m b v

-- `if (buf) *buf++ = b`, where `none` is the pointer NULL.
unfoldable pub put_next : Memory → Option ℕ → ℕ → Run (Memory × Option ℕ)
put_next m none b = ret (m, none)
put_next m (some p) b = write m p b >>= λ m'. ret (m', some (p + 1))

-- The loop of `lwpb_encode_varint`, which returns the length and the memory.
unfoldable pub encode2_loop : ℕ → Memory → Option ℕ → ℕ → ℕ → Run (ℕ × Memory)
unfolding put_next
encode2_loop zero m buf v len = stuck
encode2_loop (suc fuel) m buf v len = put_next m buf (varint_byte v) >>= λ (m', buf').
    let rest = encode2_loop fuel m' buf' (v / 128) (len + 1) in
    if v / 128 == 0 then ret (len + 1, m') else rest

unfoldable pub encode_varint2 : Memory → Option ℕ → ℕ → Run (ℕ × Memory)
encode_varint2 m buf v = encode2_loop 10 m buf v 0

-- `*varint |= (u64_t) (byte & 0x7f) << bitpos`, for a shift that C defines.
unfoldable pub add_group : ℕ → ℕ → ℕ → ℕ
add_group acc byte bitpos = bit_or acc (bit_and byte 0x7f * 2 ^ bitpos % 2 ^ 64)

-- What follows the loop of `lwpb_decode_varint`: the last group, shifted by less than 64.
unfoldable pub decode_last : Memory → Buf → ℕ → ℕ → Run (Err × Buf × ℕ)
decode_last m b bitpos acc = read m b.pos >>= λ byte.
    require (ltb bitpos 64) >> ret (err_ok, advance b 1, add_group acc byte bitpos)

-- The loop of `lwpb_decode_varint`. `buf->end - buf->pos < 2` is a signed comparison.
unfoldable pub decode_loop : ℕ → Memory → Buf → ℕ → ℕ → Run (Err × Buf × ℕ)
decode_loop zero m b bitpos acc = stuck
decode_loop (suc fuel) m b bitpos acc = read m b.pos >>= λ byte.
    let acc' = add_group acc byte bitpos in
    let rest = decode_loop fuel m (advance b 1) (bitpos + 7) acc' in
    if not (bit_and byte 0x80 == 0) && ltb bitpos 64
    then (if ltb b.end (b.pos + 2) then ret (err_end_of_buf, b, acc') else rest)
    else decode_last m b bitpos acc

unfoldable pub decode_varint : Memory → Buf → Run (Err × Buf × ℕ)
decode_varint m b = decode_loop 11 m b 0 0
