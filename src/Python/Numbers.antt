-- ===== src/Python/Numbers.antt =====
-- The numbers of python/encoder.c and python/decoder.c, written and read back.
use lwpb.Common.{
  ℕ, ◌+◌, ◌-◌, ◌%◌, ◌^◌, ◌≤◌, ◌<◌, ◌≡◌, refl, arith, none, some, List, length, leb-true,
}
use lwpb.Types.{ret, inside}
use lwpb.Buf.{Memory, Buf, IsBuf, buf_init, buf_used, advance}
use lwpb.Copy.{fetch, load-Holds}
use lwpb.Varint.Spec.{varint, length-varint, store, Holds-store, size-store}
use lwpb.Varint.Encode.{encode_varint2_lem}
use lwpb.Varint.RoundTrip.{decode_varint_lem}
use lwpb.Varint.{IsU64}
use lwpb.Fixed.Laws.{bytes32, bytes64, encode_32bit2_lem, encode_64bit2_lem}
use lwpb.Fixed.RoundTrip.{decode_32bit_lem, decode_64bit_lem}
use lwpb.Python.Objects.{pos, of_signed}
use lwpb.Python.Encoder.{encoder_encode_varint, encoder_encode_32bit, encoder_encode_64bit, scratch}
use lwpb.Python.Decoder.{decoder_decode_varint, decoder_decode_32bit, decoder_decode_64bit}

-- The bytes that were written are taken from the array.
fetch-store :
    (m : Memory) (bs : List ℕ)
    → length bs ≤ m.size
    → fetch (store m 0 bs) (inside 0) (length bs) ≡ ret bs
unfolding fetch
fetch-store m bs fits =
    rw
      (
        leb-true (0 + length bs) (store m 0 bs).size (omega (arith, size-store m 0 bs)),
        load-Holds (store m 0 bs) 0 bs (Holds-store m 0 bs),
      )
      refl

module _ (byte : ℕ → ℕ) (m : Memory) (p v : ℕ) where
  encode_varint_string : IsU64 v → encoder_encode_varint byte v ≡ ret (varint v)
  unfolding encoder_encode_varint
  encode_varint_string h =
      let short = length-varint v in
      rw (encode_varint2_lem (scratch byte) 0 v h (omega arith))
        (fetch-store (scratch byte) (varint v) (omega arith))

  encode_32bit_string : encoder_encode_32bit byte v ≡ ret (bytes32 v)
  unfolding encoder_encode_32bit
  encode_32bit_string =
      rw (encode_32bit2_lem (scratch byte) 0 v (omega arith))
        (fetch-store (scratch byte) (bytes32 v) (omega arith))

  encode_64bit_string : encoder_encode_64bit byte v ≡ ret (bytes64 v)
  unfolding encoder_encode_64bit
  encode_64bit_string =
      rw (encode_64bit2_lem (scratch byte) 0 v (omega arith))
        (fetch-store (scratch byte) (bytes64 v) (omega arith))

  decode_varint_string :
      IsU64 v
      → p + length (varint v) ≤ m.size
      → decoder_decode_varint (store m p (varint v)) p (length (varint v))
        ≡ ret (some (some (of_signed 64 v), length (varint v)), none)
  unfolding decoder_decode_varint buf_init buf_used advance
  decode_varint_string h fits =
      let short = length-varint v in
      let m' = store m p (varint v) in
      let kept = size-store m p (varint v) in
      let n = length (varint v) in
      let b : Buf = record { base = p; pos = p; end = p + n } in
      let used : (p + n + 2 ^ 64 - p) % 2 ^ 64 ≡ n = omega arith in
      rw
        (
          leb-true (p + n) m'.size (omega arith),
          decode_varint_lem m' b v h (Holds-store m p (varint v)) (omega arith) (omega arith),
          used,
        )
        refl

  decode_32bit_string :
      v < 2 ^ 32
      → m.size < 2 ^ 64
      → p + 4 ≤ m.size
      → decoder_decode_32bit (store m p (bytes32 v)) p 4 ≡ ret (some (some (pos v), 4), none)
  unfolding decoder_decode_32bit buf_init buf_used advance
  decode_32bit_string h size fits =
      let m' = store m p (bytes32 v) in
      let kept = size-store m p (bytes32 v) in
      let b : Buf = record { base = p; pos = p; end = p + 4 } in
      let ok : IsBuf m' b = omega arith in
      let used : (p + 4 + 2 ^ 64 - p) % 2 ^ 64 ≡ 4 = omega arith in
      rw
        (
          leb-true (p + 4) m'.size (omega arith),
          decode_32bit_lem m' b v ok h (Holds-store m p (bytes32 v)) (omega arith),
          used,
        )
        refl

  decode_64bit_string :
      v < 2 ^ 64
      → m.size < 2 ^ 64
      → p + 8 ≤ m.size
      → decoder_decode_64bit (store m p (bytes64 v)) p 8
        ≡ ret (some (some (of_signed 64 v), 8), none)
  unfolding decoder_decode_64bit buf_init buf_used advance
  decode_64bit_string h size fits =
      let m' = store m p (bytes64 v) in
      let kept = size-store m p (bytes64 v) in
      let b : Buf = record { base = p; pos = p; end = p + 8 } in
      let ok : IsBuf m' b = omega arith in
      let used : (p + 8 + 2 ^ 64 - p) % 2 ^ 64 ≡ 8 = omega arith in
      rw
        (
          leb-true (p + 8) m'.size (omega arith),
          decode_64bit_lem m' b v ok h (Holds-store m p (bytes64 v)) (omega arith),
          used,
        )
        refl

-- For 64-bit v and 32-bit w, and a memory below 2^64 bytes with room for ten bytes at p:
-- `Encoder.encode_varint` and `encode_64bit` of the Python bindings return a string for v, and
-- `encode_32bit` one for w; where such a string is stored at p, `Decoder.decode_varint`,
-- `decode_64bit` and `decode_32bit` use all of it and return, for the first two, the number whose
-- bit pattern as a signed 64-bit one is v, which is v below 2^63 and negative else, and for the
-- third w.
pub decode-encode :
    (byte : ℕ → ℕ) (m : Memory) (p v w : ℕ)
    → v < 2 ^ 64
    → w < 2 ^ 32
    → m.size < 2 ^ 64
    → p + 10 ≤ m.size
    → ((s : List ℕ) × (encoder_encode_varint byte v ≡ ret s)
        × (decoder_decode_varint (store m p s) p (length s)
            ≡ ret (some (some (of_signed 64 v), length s), none)))
      × ((s : List ℕ) × (encoder_encode_64bit byte v ≡ ret s)
          × (decoder_decode_64bit (store m p s) p (length s)
              ≡ ret (some (some (of_signed 64 v), length s), none)))
      × ((s : List ℕ) × (encoder_encode_32bit byte w ≡ ret s)
          × (decoder_decode_32bit (store m p s) p (length s)
              ≡ ret (some (some (pos w), length s), none)))
decode-encode byte m p v w small small32 size fits =
    let short = length-varint v in
    (
      (
        varint v,
        encode_varint_string byte m p v small,
        decode_varint_string byte m p v small (omega arith),
      ),
      (
        bytes64 v,
        encode_64bit_string byte m p v,
        decode_64bit_string byte m p v small size (omega arith),
      ),
      (
        bytes32 w,
        encode_32bit_string byte m p w,
        decode_32bit_string byte m p w small32 size (omega arith),
      ),
    )
