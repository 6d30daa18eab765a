-- ===== src/Tests/Numbers.antt =====
-- Runs of the number encodings, of the values and of their wire values.
use lwpb.Common.{◌≤◌, ◌≡◌, refl, arith, some, [], ◌∷◌, length}
use lwpb.Types.{err_ok, ret, fault, sint32, word32}
use lwpb.Buf.{Memory, Buf, IsBuf}
use lwpb.Varint.{encode_varint, decode_varint}
use lwpb.Varint.Spec.{groups, varint}
use lwpb.Varint.Encode.{stored, encode_varint_lem}
use lwpb.Varint.Decode.{Decoded, decode_varint-Decoded}
use lwpb.Varint.Errors.{RunsOut, decode_varint_truncated, decode_varint_overlong}
use lwpb.Varint.RoundTrip.{decode_varint-encode_varint}
use lwpb.Wire.{decode_value, encode_value}
use lwpb.Wire.RoundTrip.{load_out, decode_value-encode_value}
use lwpb.Tests.{mem, buf, garbage}

buf-IsBuf : IsBuf mem buf
buf-IsBuf = omega arith

varint_fits : length (varint 300) ≤ 64
unfolding varint groups
varint_fits = omega arith

decode_varint-encode_varint_example :
    (m : Memory) × (b : Buf) × (encode_varint mem buf 300 ≡ ret (err_ok, m, b))
    × (decode_varint m buf ≡ ret (err_ok, b, 300))
decode_varint-encode_varint_example =
    decode_varint-encode_varint mem buf 300 buf-IsBuf (omega arith) varint_fits

encode_varint_lem_example : encode_varint mem buf 300 ≡ stored mem buf (varint 300)
encode_varint_lem_example = encode_varint_lem mem buf 300 buf-IsBuf (omega arith)

decode_varint-Decoded_example : Decoded mem buf 11 (decode_varint mem buf)
decode_varint-Decoded_example = decode_varint-Decoded mem buf

decode_value-encode_value_example :
    decode_value sint32 (load_out garbage (encode_value sint32 (word32 0xfffffffe)))
    ≡ some (word32 0xfffffffe)
decode_value-encode_value_example =
    decode_value-encode_value sint32 (word32 0xfffffffe) garbage (omega arith)

-- A memory of continuation bytes only.
abbrev ones : Memory
ones = record { size = 20; byte = λ p. 0xff }

decode_varint_truncated_example :
    RunsOut (decode_varint ones (record { base = 0; pos = 0; end = 3 }))
decode_varint_truncated_example =
    decode_varint_truncated ones (record { base = 0; pos = 0; end = 3 }) 0xff (0xff ∷ 0xff ∷ [])
      (omega arith) (omega arith) (omega arith) refl (omega arith)

decode_varint_overlong_example : decode_varint ones (record { base = 0; pos = 0; end = 20 }) ≡ fault
decode_varint_overlong_example =
    decode_varint_overlong ones (record { base = 0; pos = 0; end = 20 })
      (0xff ∷ 0xff ∷ 0xff ∷ 0xff ∷ 0xff ∷ 0xff ∷ 0xff ∷ 0xff ∷ 0xff ∷ 0xff ∷ []) (omega arith) refl
      (omega arith) (omega arith) (omega arith)
