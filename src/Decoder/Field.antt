-- ===== src/Decoder/Field.antt =====
-- A turn of the decoder on a field that the encoder has written.
use lwpb.Common.{
  ℕ, ◌+◌, ◌/◌, ◌%◌, ◌^◌, ◌≤◌, ◌<◌, ◌≡◌, refl, arith, false, Option, some, List, ◌∷◌, ◌++◌, ◌==◌,
  length, length-append, take, ◌&&◌, bit_and, get_elem?, ltb-false, leb-true,
}
use lwpb.Common.Bits.{bit_and_mask}
use lwpb.Types.{
  err_ok, ret, Schema, MsgDesc, FieldRef, FieldType, double, float, int64, uint64, int32, fixed64,
  fixed32, bool, string, bytes, uint32, enum, sfixed32, sfixed64, sint32, sint64,
  is_packed_repeated, Value, word32, word64, block, read_word32, read_word64, read_block, inside,
  outside, WireValue, wt_string, find_desc_lem,
}
use lwpb.Buf.{Memory, Buf, IsBuf, room, buf_left-eq-room, advance, IsBuf-advance, advance-advance}
use lwpb.Varint.{IsU64}
use lwpb.Varint.Spec.{varint, Holds, Holds-append}
use lwpb.Varint.RoundTrip.{decode_varint_lem}
use lwpb.Fixed.RoundTrip.{decode_32bit_lem, decode_64bit_lem}
use lwpb.Wire.{
  WireOut, varint_out, int64_out, string_out, int32_out, unset, wire_type_out, encode_value,
  decode_value,
}
use lwpb.Wire.RoundTrip.{IsOut, IsValueOf, load_out, decode_value-encode_value, encode_value-IsOut}
use lwpb.Copy.{length-take}
use lwpb.Encoder.{field_key}
use lwpb.Encoder.Field.{
  payload, IsOutside, field_bytes, field_key_lem, field_key-lt, wire_type_out-lt,
}
use lwpb.Decoder.{
  or_else, Handlers, Frame, State, go, find_field, look_up, read_key, take_block, read_wire,
  call_field, dispatch, after_wire, field_turn,
}

-- What the decoder's union points to, where the field's value starts at `p`.
abbrev pub placed : ℕ → WireOut → WireOut
placed p (string_out q n) = string_out (inside (p + length (varint n))) n
placed p out = out

-- The value that the field handler gets: a block is handed out where it stands.
abbrev pub delivered : ℕ → Value → Value
delivered p (block q n) = block (inside (p + length (varint n))) n
delivered p v = v

encode_value-delivered :
    (t : FieldType) (p : ℕ) (v : Value)
    → IsValueOf t v
    → (encode_value t (delivered p v) ≡ placed p (encode_value t v)) × IsValueOf t (delivered p v)
unfolding encode_value read_word32 read_word64 read_block
encode_value-delivered double p (word64 x) h = (refl, h)
encode_value-delivered float p (word32 x) h = (refl, h)
encode_value-delivered int64 p (word64 x) h = (refl, h)
encode_value-delivered uint64 p (word64 x) h = (refl, h)
encode_value-delivered int32 p (word32 x) h = (refl, h)
encode_value-delivered fixed64 p (word64 x) h = (refl, h)
encode_value-delivered fixed32 p (word32 x) h = (refl, h)
encode_value-delivered bool p (word32 x) h = (refl, h)
encode_value-delivered string p (block q n) h = (refl, h)
encode_value-delivered bytes p (block q n) h = (refl, h)
encode_value-delivered uint32 p (word32 x) h = (refl, h)
encode_value-delivered enum p (word32 x) h = (refl, h)
encode_value-delivered sfixed32 p (word32 x) h = (refl, h)
encode_value-delivered sfixed64 p (word64 x) h = (refl, h)
encode_value-delivered sint32 p (word32 x) h = (refl, h)
encode_value-delivered sint64 p (word64 x) h = (refl, h)
encode_value-delivered _ p v h = absurd h

module _ (m : Memory) (b : Buf) (w : WireValue) (ok : IsBuf m b) where
  read_block_lem :
      (bs : List ℕ) (n : ℕ)
      → IsU64 n
      → n ≤ length bs
      → Holds m b.pos (varint n ++ take n bs)
      → length (varint n ++ take n bs) ≤ room b
      → read_wire m b wt_string w
        ≡ ret (
          err_ok,
          advance b (length (varint n ++ take n bs)),
          record { word = n; ptr = inside (b.pos + length (varint n)) },
        )
  unfolding read_wire take_block advance
  read_block_lem bs n small h at fits =
      let total = length-append (varint n) (take n bs) in
      let part = length-take n bs h in
      let b' = advance b (length (varint n)) in
      let e : b.pos + length (varint n) + n ≡ b.pos + length (varint n ++ take n bs) =
        omega arith in
      rw
        (
          decode_varint_lem m b n small (Holds-append m b.pos (varint n) (take n bs) at).0
              (omega arith) ok.end_le,
          buf_left-eq-room m b' (IsBuf-advance m b (length (varint n)) ok (omega arith)),
        )
        (rw (
          ltb-false (room b') n (omega arith),
          leb-true (b.pos + length (varint n) + n) m.size (omega (arith, ok.end_le)),
          e,
        ))

  -- The wire value behind a key.
  pub read_wire_lem :
      (out : WireOut)
      → IsOut out
      → IsOutside out
      → Holds m b.pos (payload out)
      → length (payload out) ≤ room b
      → read_wire m b (wire_type_out out) w
        ≡ ret (err_ok, advance b (length (payload out)), load_out w (placed b.pos out))
  unfolding read_wire load_out
  read_wire_lem (varint_out x) small o at fits =
      rw (decode_varint_lem m b x small at (omega arith) ok.end_le)
  read_wire_lem (int64_out x) small o at fits = rw (decode_64bit_lem m b x ok small at fits)
  read_wire_lem (int32_out x) small o at fits = rw (decode_32bit_lem m b x ok small at fits)
  read_wire_lem (string_out (outside bs) n) small o at fits = read_block_lem bs n small o at fits
  read_wire_lem (string_out (inside p) n) small o at fits = absurd o
  read_wire_lem unset small o at fits = absurd o

  -- The key of any field: where no descriptor has the number, the old field stays.
  pub read_key_lem :
      (schema : Schema) (owner : ℕ) (d : MsgDesc) (number : ℕ) (found old : Option FieldRef)
      (out : WireOut)
      → get_elem? schema owner ≡ some d
      → find_field d.fields 0 owner number ≡ found
      → number < 2 ^ 29
      → let key = varint (field_key (wire_type_out out) number) in
        Holds m b.pos key
        → length key ≤ room b
        → read_key m schema (record { buf = b; msg_desc = some owner }) false old
          ≡ ret (record {
            status = err_ok;
            buf = advance b (length key);
            wire_type = wire_type_out out;
            field = or_else found old;
          })
  unfolding read_key look_up
  read_key_lem schema owner d number found old out has look small at fits =
      let wt = wire_type_out out in
      let e = field_key_lem wt number (wire_type_out-lt out) small in
      let lt = field_key-lt wt number (wire_type_out-lt out) in
      let low : bit_and (field_key wt number) 7 ≡ wt =
        rw (bit_and_mask 3 (field_key wt number), e) (omega (arith, wire_type_out-lt out)) in
      let high : field_key wt number / 2 ^ 3 % 2 ^ 32 ≡ number =
        rw e (omega (arith, wire_type_out-lt out)) in
      rw (
        decode_varint_lem m b (field_key wt number) (omega arith) at (omega arith) ok.end_le,
        find_desc_lem schema owner d has,
        high,
        look,
        low,
      )

-- A field that a message descriptor has under its number, outside packed mode.
pub record IsKnown (schema : Schema) (owner : ℕ) (field : FieldRef) : Type 0 where
  pub desc : MsgDesc
  pub has : get_elem? schema owner ≡ some desc
  pub found : find_field desc.fields 0 owner field.desc.number ≡ some field
  pub small : field.desc.number < 2 ^ 29
  pub unpacked : is_packed_repeated field.desc ≡ false

-- The bytes of a value of the field, its key first.
abbrev pub bytes_of : FieldRef → Value → List ℕ
bytes_of field v = field_bytes field.desc.number (encode_value field.desc.typ v)

-- Where the value of a field starts that starts at `p`.
abbrev pub value_pos : ℕ → FieldRef → Value → ℕ
value_pos p field v =
    p
    + length (varint (field_key (wire_type_out (encode_value field.desc.typ v)) field.desc.number))

module _ {S : Type 0} (h : Handlers S) (m : Memory) (root : ℕ) (schema : Schema) (owner : ℕ) where
  -- The state in which the field handler has been called with the value.
  abbrev pub handled : State S → Buf → List Frame → FieldRef → Value → WireValue → State S
  handled s b fs field v w = record s {
    stack = record { buf = advance b (length (bytes_of field v)); msg_desc = some owner } ∷ fs;
    field_desc = some field;
    wire = w;
    user =
        call_field h.field (some owner) field (some (delivered (value_pos b.pos field v) v)) s.user;
  }

  pub field_turn_lem :
      (s : State S) (b : Buf) (fs : List Frame) (field : FieldRef) (v : Value)
      → s.packed ≡ false
      → IsKnown schema owner field
      → IsValueOf field.desc.typ v
      → IsOutside (encode_value field.desc.typ v)
      → IsBuf m b
      → Holds m b.pos (bytes_of field v)
      → length (bytes_of field v) ≤ room b
      → (w : WireValue) × (field_turn h m root schema s
            (record { buf = b; msg_desc = some owner })
            fs
          ≡ ret (go (handled s b fs field v w)))
  unfolding field_turn field_bytes after_wire dispatch
  field_turn_lem s b fs field v mode known val o ok at fits =
      let out = encode_value field.desc.typ v in
      let key = varint (field_key (wire_type_out out) field.desc.number) in
      let total = length-append key (payload out) in
      let parts = Holds-append m b.pos key (payload out) at in
      let b' = advance b (length key) in
      let ok' = IsBuf-advance m b (length key) ok (omega arith) in
      let w = load_out s.wire (placed (value_pos b.pos field v) out) in
      let here : b'.pos ≡ value_pos b.pos field v = unfold advance in refl in
      let (same, val') = encode_value-delivered field.desc.typ (value_pos b.pos field v) v val in
      let seen : decode_value field.desc.typ w ≡ some (delivered (value_pos b.pos field v) v) =
        rw (← same) (
          decode_value-encode_value field.desc.typ (delivered (value_pos b.pos field v) v) s.wire
            val') in
      let not_packed : (wire_type_out out == wt_string && is_packed_repeated field.desc) ≡ false =
        ground (arith, known.unpacked) in
      (
        w,
        rw
            (
              mode,
              read_key_lem m b s.wire ok schema owner known.desc field.desc.number (some field)
                  s.field_desc out known.has known.found known.small parts.0 (omega arith),
              read_wire_lem m b' s.wire ok' out (encode_value-IsOut field.desc.typ v val) o
                  (unfold advance in parts.1) (unfold advance in omega arith),
              here,
              not_packed,
              seen,
            )
            (rw (mode, advance-advance b (length key) (length (payload out)), total, here)),
      )
