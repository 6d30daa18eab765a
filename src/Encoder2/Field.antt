-- ===== src/Encoder2/Field.antt =====
-- `lwpb_encoder2_add_field` writes what the stack encoder writes, and counts as it writes.
use lwpb.Common.{
  ℕ, ◌+◌, ◌≤◌, ◌≡◌, refl, arith, List, ◌++◌, length, length-append, take, false, none, some, ◌||◌,
}
use lwpb.Types.{Run, ret, FieldDesc, Value, inside, outside, is_message, is_packed_repeated}
use lwpb.Buf.{Memory, Buf, room}
use lwpb.Varint.{IsU64}
use lwpb.Varint.Spec.{varint, store, size-store, store-append}
use lwpb.Varint.Encode.{encode_varint2_lem, encode_varint2_count}
use lwpb.Fixed.{encode_32bit2, encode_64bit2}
use lwpb.Fixed.Laws.{encode_32bit2_lem, encode_64bit2_lem}
use lwpb.Wire.{WireOut, varint_out, int64_out, string_out, int32_out, unset, wire_type_out}
use lwpb.Wire.RoundTrip.{IsOut}
use lwpb.Copy.{copy_outside, length-take}
use lwpb.Encoder.{field_key, choose_out}
use lwpb.Encoder.Field.{payload, IsOutside, field_bytes, field_key-lt, wire_type_out-lt}
use lwpb.Encoder2.{Encoder2, write_value2, add_field2, copy_block}

-- What a call returns that stores the bytes at `p`.
abbrev wrote : Memory → ℕ → List ℕ → Run (ℕ × Memory)
wrote m p bs = ret (length bs, store m p bs)

write_string2 :
    (m : Memory) (d : FieldDesc) (bs : List ℕ) (n p : ℕ)
    → IsU64 n
    → n ≤ length bs
    → p + length (varint n ++ take n bs) ≤ m.size
    → write_value2 m d (string_out (outside bs) n) (some p) ≡ wrote m p (varint n ++ take n bs)
unfolding write_value2 copy_block
write_string2 m d bs n p small h fits =
    let total = length-append (varint n) (take n bs) in
    let part = length-take n bs h in
    let room : p + length (varint n) + n ≤ (store m p (varint n)).size =
      omega (arith, size-store m p (varint n)) in
    let len : length (varint n) + n ≡ length (varint n ++ take n bs) = omega arith in
    rw (
      encode_varint2_lem m p n small (omega arith),
      copy_outside (is_message d.typ || is_packed_repeated d) (store m p (varint n))
          (p + length (varint n)) bs n h room,
      store-append m p (varint n) (take n bs),
      len,
    )

write_value2_lem :
    (m : Memory) (d : FieldDesc) (out : WireOut) (p : ℕ)
    → IsOut out
    → IsOutside out
    → p + length (payload out) ≤ m.size
    → write_value2 m d out (some p) ≡ wrote m p (payload out)
unfolding write_value2
write_value2_lem m d (varint_out x) p small o fits = encode_varint2_lem m p x small fits
write_value2_lem m d (int64_out x) p small o fits = encode_64bit2_lem m p x fits
write_value2_lem m d (int32_out x) p small o fits = encode_32bit2_lem m p x fits
write_value2_lem m d (string_out (outside bs) n) p small o fits =
    write_string2 m d bs n p small o fits
write_value2_lem m d (string_out (inside q) n) p small o fits = absurd o
write_value2_lem m d unset p small o fits = absurd o

write_value2_count :
    (m : Memory) (d : FieldDesc) (out : WireOut)
    → IsOut out
    → IsOutside out
    → write_value2 m d out none ≡ ret (length (payload out), m)
unfolding write_value2 copy_block encode_64bit2 encode_32bit2
write_value2_count m d (varint_out x) small o = encode_varint2_count m x small
write_value2_count m d (int64_out x) small o = refl
write_value2_count m d (int32_out x) small o = refl
write_value2_count m d (string_out (outside bs) n) small o =
    let len : length (varint n) + n ≡ length (varint n ++ take n bs) =
      omega (arith, length-append (varint n) (take n bs), length-take n bs o) in
    rw (encode_varint2_count m n small, len)
write_value2_count m d (string_out (inside q) n) small o = absurd o
write_value2_count m d unset small o = absurd o

abbrev wrote_count : ℕ → Memory → Run (ℕ × Memory)
wrote_count n m = ret (n, m)

abbrev pub unpacked : Encoder2
unpacked = record { packed = false }

module _ (m : Memory) (d : FieldDesc) (v : Value) where
  abbrev pub out2 : WireOut
  out2 = choose_out false d v

  key-IsU64 : IsU64 (field_key (wire_type_out out2) d.number)
  key-IsU64 = omega (arith, field_key-lt (wire_type_out out2) d.number (wire_type_out-lt out2))

  -- At a pointer with room for key and value of a value that fits its type and, if it is a block,
  -- lies in an object of its own, `lwpb_encoder2_add_field` stores these bytes and returns their
  -- number.
  pub add_field2_lem :
      (p : ℕ)
      → IsOut out2
      → IsOutside out2
      → p + length (field_bytes d.number out2) ≤ m.size
      → add_field2 m unpacked d v (some p) ≡ wrote m p (field_bytes d.number out2)
  unfolding add_field2 field_bytes
  add_field2_lem p small o fits =
      let key = varint (field_key (wire_type_out out2) d.number) in
      let total = length-append key (payload out2) in
      let inner : p + length key + length (payload out2) ≤ (store m p key).size =
        omega (arith, size-store m p key) in
      rw (
        encode_varint2_lem m p (field_key (wire_type_out out2) d.number) key-IsU64 (omega arith),
        write_value2_lem (store m p key) d out2 (p + length key) small o inner,
        store-append m p key (payload out2),
        total,
      )

  -- At NULL, for a value that fits its type and, if it is a block, lies in an object of its own,
  -- `lwpb_encoder2_add_field` returns the number of bytes of key and value and stores nothing.
  pub add_field2_count :
      IsOut out2
      → IsOutside out2
      → add_field2 m unpacked d v none ≡ ret (length (field_bytes d.number out2), m)
  unfolding add_field2 field_bytes
  add_field2_count small o =
      let key = varint (field_key (wire_type_out out2) d.number) in
      rw (
        encode_varint2_count m (field_key (wire_type_out out2) d.number) key-IsU64,
        write_value2_count m d out2 small o,
        length-append key (payload out2),
      )
