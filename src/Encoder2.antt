-- ===== src/Encoder2.antt =====
-- The stackless encoder of src/lwpb/core/encoder2.c. A call writes a field at a pointer, or, at
-- the pointer NULL (`none`), only computes its length.
pub mod Field
pub mod Nested
use lwpb.Common.{ℕ, ◌+◌, Bool, true, false, not, ◌||◌, Option, none, some, if◌then◌else◌}
use lwpb.Types.{
  Err, err_ok, Run, ret, fault, ◌>>=◌, ◌>>◌, assert, FieldDesc, Value, Ptr, is_message,
  is_packed_repeated,
}
use lwpb.Buf.{Memory}
use lwpb.Varint.{encode_varint2}
use lwpb.Fixed.{encode_32bit2, encode_64bit2}
use lwpb.Wire.{WireOut, varint_out, int64_out, string_out, int32_out, unset, wire_type_out}
use lwpb.Copy.{mem_move, mem_copy}
use lwpb.Encoder.{field_key, choose_out}

-- `struct lwpb_encoder2`; `lwpb_encoder2_init` stores nothing in it.
pub record Encoder2 : Type 0 where
  pub packed : Bool

unfoldable pub start2 : Encoder2 → Encoder2
start2 e = record { packed = false }

unfoldable pub packed_start2 : Encoder2 → FieldDesc → Run (Err × Encoder2)
packed_start2 e d =
    assert (is_packed_repeated d)
    >> (assert (not e.packed) >> ret (err_ok, record { packed = true }))

unfoldable pub packed_end2 : Encoder2 → Run (Err × Encoder2)
packed_end2 e = assert e.packed >> ret (err_ok, record { packed = false })

-- `if (buf) buf += size`
abbrev pub skip : Option ℕ → ℕ → Option ℕ
skip none n = none
skip (some p) n = some (p + n)

-- `if (buf)` the bytes of a block are copied there.
unfoldable pub copy_block : Memory → FieldDesc → Option ℕ → Ptr → ℕ → Run Memory
copy_block m d none p n = ret m
copy_block m d (some dest) p n =
    if is_message d.typ || is_packed_repeated d then mem_move m dest p n else mem_copy m dest p n

-- The second `switch`, which returns the length of the value and the memory.
unfoldable pub write_value2 : Memory → FieldDesc → WireOut → Option ℕ → Run (ℕ × Memory)
write_value2 m d (varint_out x) buf = encode_varint2 m buf x
write_value2 m d (int64_out x) buf = encode_64bit2 m buf x
write_value2 m d (int32_out x) buf = encode_32bit2 m buf x
write_value2 m d unset buf = fault
write_value2 m d (string_out p n) buf = encode_varint2 m buf n >>= λ (size, m').
    copy_block m' d (skip buf size) p n >>= λ m''. ret (size + n, m'')

-- `lwpb_encoder2_add_field`
unfoldable pub add_field2 : Memory → Encoder2 → FieldDesc → Value → Option ℕ → Run (ℕ × Memory)
add_field2 m e d v buf =
    let out = choose_out e.packed d v in
    if e.packed
    then write_value2 m d out buf
    else (encode_varint2 m buf (field_key (wire_type_out out) d.number) >>= λ (size, m').
        write_value2 m' d out (skip buf size) >>= λ (len, m''). ret (size + len, m''))
