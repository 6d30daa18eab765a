-- ===== src/Struct/RoundTrip.antt =====
-- Values through `lwpb_encoder_add_field` and `lwpb_struct_decoder_decode`
-- (src/lwpb/core/encoder.c, src/lwpb/utils/struct_decoder.c).
use lwpb.Common.{ℕ, ◌-◌, ◌<◌, ◌≡◌, arith, none, some, [], length, get_elem?}
use lwpb.Types.{err_ok, ret, Schema, WireValue}
use lwpb.Buf.{Memory, Buf, IsBuf, room, advance}
use lwpb.Varint.Spec.{store, size-store, Holds-store}
use lwpb.Encoder.Field.{in_message}
use lwpb.Decoder.{Handlers}
use lwpb.Message.{message_bytes, IsMessage, add_fields, add_fields_lem}
use lwpb.Struct.{StructMap, Maps, StructFrame, StructState, struct_decode}
use lwpb.Struct.Message.{Slots, fields_of, filled, IsMapped, struct_decode_lem}

-- Take values with the fields of a struct map that take them: each is the first entry for its
-- descriptor, has the size of its type (a string at least 1), and lies, at the next index of its
-- field, which is below 2^31 - 1, inside the target object; the fields are a message that the
-- encoder may write. If a well-formed buffer has room for one byte more than their encodings, adding
-- them one by one succeeds, and `lwpb_struct_decoder_decode` on the bytes written returns
-- LWPB_ERR_OK and their number, and stores in the target each value in order: numbers in little
-- endian, bytes cut to the size of the entry, strings cut and ended by a 0.
pub struct_decode-add_fields :
    {U : Type 0} (h : Handlers U) (schema : Schema) (maps : Maps) (struct_map : StructMap)
    (map base : ℕ) (xs : Slots) (old : ℕ → StructFrame) (m target : Memory) (b : Buf)
    (garbage : WireValue) (user : U)
    → get_elem? maps map ≡ some struct_map
    → IsMapped struct_map map base target.size none 0 xs
    → IsMessage schema struct_map.msg_desc (fields_of xs)
    → IsBuf m b
    → length (message_bytes (fields_of xs)) < room b
    → (m' : Memory) × (b' : Buf) × (s : StructState U) × (add_fields schema m
          (in_message b none struct_map.msg_desc [])
          (fields_of xs)
        ≡ ret (err_ok, m', in_message b' none struct_map.msg_desc []))
      × (struct_decode maps m' h schema old map base target b.pos (b'.pos - b.pos) garbage user
          ≡ ret (err_ok, s, b'.pos - b.pos))
      × (s.target ≡ filled base none 0 xs target)
struct_decode-add_fields h schema maps struct_map map base xs old m target b garbage user has mapped
      good ok fits =
    let bs = message_bytes (fields_of xs) in
    let m' = store m b.pos bs in
    let b' = advance b (length bs) in
    let size = size-store m b.pos bs in
    let e : b'.pos - b.pos ≡ length bs = unfold advance in omega arith in
    let (s, run, t, _) =
      struct_decode_lem maps m' (omega (arith, ok.small)) h schema struct_map map base has xs old
        target b.pos (b'.pos - b.pos) garbage user mapped good (Holds-store m b.pos bs) e
        (omega (arith, ok.end_le)) in
    (
      m',
      b',
      s,
      add_fields_lem schema struct_map.msg_desc none [] (fields_of xs) m b good ok (omega arith),
      run,
      t,
    )
