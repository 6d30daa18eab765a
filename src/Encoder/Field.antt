-- ===== src/Encoder/Field.antt =====
-- `lwpb_encoder_add_field`: what it appends to the current frame.
use lwpb.Common.{
  ℕ, zero, suc, ◌+◌, ◌-◌, ◌*◌, ◌%◌, ◌^◌, ◌≤◌, ◌<◌, ◌≡◌, ◌≢◌, ◌⊎◌, refl, ap, ◌∙◌, sym, arith, List,
  [], ◌∷◌, ◌++◌, length, length-append, take, get_elem?, true, false, Option, some, ◌&&◌, ◌||◌,
  ◌==◌, ltb, leb, ltb-true, ltb-false,
}
use lwpb.Common.Bits.{bit_or_fields, bit_or-lt}
use lwpb.Types.{
  Err, err_ok, err_unknown_field, Run, ret, Schema, MsgDesc, FieldDesc, FieldRef, Value, inside,
  outside, is_message, is_packed_repeated, find_desc_lem,
}
use lwpb.Buf.{
  Memory, Buf, IsBuf, room, advance, buf_left-eq-room, IsBuf-advance, IsBuf-resize, advance-advance,
}
use lwpb.Varint.{IsU64}
use lwpb.Varint.Spec.{varint, store, size-store, store-append}
use lwpb.Varint.Encode.{stored_fits, encode_varint_lem}
use lwpb.Fixed.Laws.{bytes32, bytes64, encode_32bit_lem, encode_64bit_lem, stored_whole_fits}
use lwpb.Wire.{WireOut, varint_out, int64_out, string_out, int32_out, unset, wire_type_out}
use lwpb.Wire.RoundTrip.{IsOut}
use lwpb.Copy.{copy_outside, length-take}
use lwpb.Encoder.{
  Encoder, Frame, write_value, write_field, field_key, search_field, check_field, check_member,
  add_field, top, frame_buf, choose_out,
}

-- The bytes of a wire value whose string, if it is one, lies in another object.
abbrev pub payload : WireOut → List ℕ
payload (varint_out x) = varint x
payload (int64_out x) = bytes64 x
payload (string_out (inside p) n) = varint n
payload (string_out (outside bs) n) = varint n ++ take n bs
payload (int32_out x) = bytes32 x
payload unset = []

abbrev pub IsOutside : WireOut → Type 0
IsOutside (string_out (inside p) n) = ⊥
IsOutside (string_out (outside bs) n) = n ≤ length bs
IsOutside unset = ⊥
IsOutside _ = Unit {0}

-- The bytes of a field outside packed mode: key and value.
unfoldable pub field_bytes : ℕ → WireOut → List ℕ
field_bytes number out = varint (field_key (wire_type_out out) number) ++ payload out

-- Success, with the bytes stored at the position.
abbrev pub done : Memory → Buf → List ℕ → Run (Err × Memory × Buf)
done m b bs = ret (err_ok, store m b.pos bs, advance b (length bs))

-- One store after another.
pub done-append :
    (m : Memory) (b : Buf) (xs ys : List ℕ)
    → done (store m b.pos xs) (advance b (length xs)) ys ≡ done m b (xs ++ ys)
done-append m b xs ys =
    rw
      (store-append m b.pos xs ys, length-append xs ys, ← advance-advance b (length xs) (length ys))
      (unfold advance in refl)

pub IsBuf-store :
    (m : Memory) (b : Buf) (bs : List ℕ)
    → IsBuf m b
    → length bs ≤ room b
    → IsBuf (store m b.pos bs) (advance b (length bs))
IsBuf-store m b bs ok h =
    IsBuf-resize m (store m b.pos bs) (advance b (length bs)) (size-store m b.pos bs)
      (IsBuf-advance m b (length bs) ok h)

pub room-advance : (b : Buf) (n : ℕ) → room (advance b n) ≡ room b - n
unfolding advance
room-advance b n = omega arith

-- A block from another object: its length, then its bytes.
write_string :
    (m : Memory) (b : Buf) (d : FieldDesc) (bs : List ℕ) (n : ℕ)
    → IsBuf m b
    → IsU64 n
    → n ≤ length bs
    → length (varint n ++ take n bs) ≤ room b
    → write_value m b d (string_out (outside bs) n) ≡ done m b (varint n ++ take n bs)
unfolding write_value
write_string m b d bs n ok small h fits =
    let total = length-append (varint n) (take n bs) in
    let part = length-take n bs h in
    let m' = store m b.pos (varint n) in
    let b' = advance b (length (varint n)) in
    let ok' = IsBuf-store m b (varint n) ok (omega arith) in
    let space : n ≤ room b' = rw room-advance (omega arith) in
    let tail : b'.pos + n ≤ m'.size = omega arith in
    rw
      (
        encode_varint_lem m b n ok small,
        stored_fits m b (varint n) (omega arith),
        buf_left-eq-room m' b' ok',
        ltb-false (room b') n space,
        copy_outside (is_message d.typ || is_packed_repeated d) m' b'.pos bs n h tail,
      )
      (ap (λ (k : ℕ). ret (err_ok, store m' b'.pos (take n bs), advance b' k)) (sym part)
        ∙ done-append m b (varint n) (take n bs))

pub write_value_lem :
    (m : Memory) (b : Buf) (d : FieldDesc) (out : WireOut)
    → IsBuf m b
    → IsOut out
    → IsOutside out
    → length (payload out) ≤ room b
    → write_value m b d out ≡ done m b (payload out)
unfolding write_value
write_value_lem m b d (varint_out x) ok small o fits =
    encode_varint_lem m b x ok small ∙ stored_fits m b (varint x) fits
write_value_lem m b d (int64_out x) ok small o fits =
    encode_64bit_lem m b x ok ∙ stored_whole_fits m b (bytes64 x) fits
write_value_lem m b d (int32_out x) ok small o fits =
    encode_32bit_lem m b x ok ∙ stored_whole_fits m b (bytes32 x) fits
write_value_lem m b d (string_out (outside bs) n) ok small o fits =
    write_string m b d bs n ok small o fits
write_value_lem m b d (string_out (inside p) n) ok small o fits = absurd o
write_value_lem m b d unset ok small o fits = absurd o

pub field_key-lt : (wt number : ℕ) → wt < 8 → field_key wt number < 2 ^ 32
unfolding field_key
field_key-lt wt number h = bit_or-lt 32 wt (number * 2 ^ 3 % 2 ^ 32) (omega arith) (omega arith)

-- For a wire type below 8 and a field number below 2^29, the key is the wire type plus eight times
-- the number.
pub field_key_lem :
    (wt number : ℕ) → wt < 8 → number < 2 ^ 29 → field_key wt number ≡ wt + number * 8
unfolding field_key
field_key_lem wt number h k =
    let e : number * 2 ^ 3 % 2 ^ 32 ≡ number * 2 ^ 3 = omega arith in
    rw e (bit_or_fields 3 number wt h)

pub wire_type_out-lt : (out : WireOut) → wire_type_out out < 8
wire_type_out-lt (varint_out x) = omega arith
wire_type_out-lt (int64_out x) = omega arith
wire_type_out-lt (string_out p n) = omega arith
wire_type_out-lt (int32_out x) = omega arith
wire_type_out-lt unset = omega arith

-- Key and value, where there is room for both.
pub write_field_lem :
    (m : Memory) (b : Buf) (d : FieldDesc) (out : WireOut)
    → IsBuf m b
    → IsOut out
    → IsOutside out
    → length (field_bytes d.number out) ≤ room b
    → write_field m b false d out ≡ done m b (field_bytes d.number out)
unfolding write_field field_bytes
write_field_lem m b d out ok small o fits =
    let key = field_key (wire_type_out out) d.number in
    let total = length-append (varint key) (payload out) in
    let key_fits : IsU64 key =
      omega (arith, field_key-lt (wire_type_out out) d.number (wire_type_out-lt out)) in
    rw (encode_varint_lem m b key ok key_fits, stored_fits m b (varint key) (omega arith))
      (write_value_lem (store m b.pos (varint key)) (advance b (length (varint key))) d out
          (IsBuf-store m b (varint key) ok (omega arith)) small o (rw room-advance (omega arith))
        ∙ done-append m b (varint key) (payload out))

-- The check of `lwpb_encoder_add_field` finds exactly the fields of the current message.
search_field_lem :
    (left i owner : ℕ) (field : FieldRef)
    → search_field left i owner field
      ≡ (field.owner == owner && (leb i field.index && ltb field.index (i + left)))
unfolding search_field
search_field_lem zero i owner field = ground arith
search_field_lem (suc left) i owner field =
    ground (arith, search_field_lem left (i + 1) owner field)

-- A field of the current message.
abbrev pub IsFieldOf : Schema → ℕ → FieldRef → Type 0
IsFieldOf schema owner field =
    (d : MsgDesc) × (get_elem? schema owner ≡ some d)
    × (field.owner ≡ owner)
    × (field.index < length d.fields)

pub check_member_ok :
    (schema : Schema) (owner : ℕ) (field : FieldRef)
    → IsFieldOf schema owner field
    → check_member schema (some owner) field ≡ ret err_ok
unfolding check_member
check_member_ok schema owner field (d, has, same, below) =
    let found : search_field (length d.fields) 0 owner field ≡ true =
      search_field_lem (length d.fields) 0 owner field ∙ ground arith in
    rw (find_desc_lem schema owner d has, found)

-- Outside packed mode, the check of `lwpb_encoder_add_field` answers LWPB_ERR_UNKNOWN_FIELD for a
-- field of another message type and for one whose index is past the fields of the current one.
pub check_member_unknown :
    (schema : Schema) (owner : ℕ) (field : FieldRef) (d : MsgDesc)
    → get_elem? schema owner ≡ some d
    → (field.owner ≢ owner) ⊎ (length d.fields ≤ field.index)
    → check_member schema (some owner) field ≡ ret err_unknown_field
unfolding check_member
check_member_unknown schema owner field d has other =
    let absent : search_field (length d.fields) 0 owner field ≡ false =
      search_field_lem (length d.fields) 0 owner field ∙ ground arith in
    rw (find_desc_lem schema owner d has, absent)

-- An encoder in a message of type `owner`.
abbrev pub in_message : Buf → Option FieldRef → ℕ → List Frame → Encoder
in_message b fd owner fs = record {
  stack = record { buf = some b; field_desc = fd; msg_desc = some owner } ∷ fs;
  packed = false;
}

-- For a field of the current message outside packed mode, with a value that fits its type and, if it
-- is a block, lies in an object of its own: where the buffer is well formed and has room for key and
-- value, `lwpb_encoder_add_field` succeeds, stores exactly these bytes at the position, and moves it
-- behind them.
pub add_field_lem :
    (schema : Schema) (m : Memory) (b : Buf) (fd : Option FieldRef) (owner : ℕ) (fs : List Frame)
    (field : FieldRef) (v : Value)
    → IsFieldOf schema owner field
    → IsBuf m b
    → let out = choose_out false field.desc v in
      let bs = field_bytes field.desc.number out in
      IsOut out
      → IsOutside out
      → length bs ≤ room b
      → add_field schema m (in_message b fd owner fs) field v
        ≡ ret (err_ok, store m b.pos bs, in_message (advance b (length bs)) fd owner fs)
unfolding add_field top check_field frame_buf
add_field_lem schema m b fd owner fs field v mem ok small o fits = rw (
  ltb-true 0 (suc (length fs)) (omega arith),
  check_member_ok schema owner field mem,
  write_field_lem m b field.desc (choose_out false field.desc v) ok small o fits,
)
