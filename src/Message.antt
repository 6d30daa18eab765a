-- ===== src/Message.antt =====
-- Whole messages of fields that are neither packed nor messages: what a program does that adds
-- them one by one with `lwpb_encoder_add_field` (src/lwpb/core/encoder.c), and the bytes it gets.
pub mod Decode
pub mod Tree
use lwpb.Common.{
  ℕ, zero, suc, ◌+◌, ◌-◌, ◌^◌, ◌≤◌, ◌<◌, ◌≡◌, refl, ap, sym, ◌∙◌, arith, Bool, true, false, Option,
  none, some, List, [], ◌∷◌, ◌++◌, length, length-append, ◌==◌, get_elem?, if◌then◌else◌,
  Bool-cases, inl, inr,
}
use lwpb.Types.{
  Err, err_ok, Run, ret, ◌>>=◌, Schema, MsgDesc, FieldDesc, FieldRef, Value, is_packed_repeated,
}
use lwpb.Buf.{Memory, Buf, IsBuf, room, advance, advance-advance}
use lwpb.Varint.Spec.{store, size-store, store-append}
use lwpb.Wire.{encode_value}
use lwpb.Wire.RoundTrip.{IsValueOf, encode_value-IsOut}
use lwpb.Encoder.{Encoder, Frame, add_field, choose_out}
use lwpb.Encoder.Field.{
  IsOutside, IsFieldOf, in_message, add_field_lem, IsBuf-store, room-advance, field_bytes,
}
use lwpb.Decoder.{find_field}
use lwpb.Decoder.Field.{IsKnown, bytes_of}

abbrev pub Fields : Type 0
Fields = List (FieldRef × Value)

-- The fields' bytes, one after another.
unfoldable pub message_bytes : Fields → List ℕ
message_bytes [] = []
message_bytes ((field, v) ∷ xs) = bytes_of field v ++ message_bytes xs

-- Fields of the message, each with a value of its type; blocks lie in objects of their own.
abbrev pub IsMessage : Schema → ℕ → Fields → Type 0
IsMessage schema owner [] = Unit {0}
IsMessage schema owner ((field, v) ∷ xs) =
    IsKnown schema owner field
    × IsValueOf field.desc.typ v
    × IsOutside (encode_value field.desc.typ v)
    × IsMessage schema owner xs

-- One call of `lwpb_encoder_add_field` for each field, up to the first error.
unfoldable pub add_fields : Schema → Memory → Encoder → Fields → Run (Err × Memory × Encoder)
add_fields schema m e [] = ret (err_ok, m, e)
add_fields schema m e ((field, v) ∷ xs) = add_field schema m e field v >>= λ (err, m', e').
    elim err [ err_ok ↦ add_fields schema m' e' xs | other ↦ ret (other, m', e') ]

-- What the decoder finds under a number is a field of the message.
find_field_lem :
    (ds : List FieldDesc) (i owner number : ℕ) (field : FieldRef)
    → find_field ds i owner number ≡ some field
    → (field.owner ≡ owner) × (field.index < i + length ds)
unfolding find_field
find_field_lem [] i owner number field h = cc
find_field_lem (d ∷ ds) i owner number field h = elim (Bool-cases (d.number == number)) [
  | inl same ↦
      let here : record { owner = owner; index = i; desc = d } ≡ field = cc (rw same at h) in
      (sym (ap (λ (f : FieldRef). f.owner) here), rw (← here) (omega arith))
  | inr other ↦
      let there = find_field_lem ds (i + 1) owner number field (rw other at h) in
      (there.0, omega (arith, there.1))
]

pub known-IsFieldOf :
    (schema : Schema) (owner : ℕ) (field : FieldRef)
    → IsKnown schema owner field
    → IsFieldOf schema owner field
known-IsFieldOf schema owner field k =
    let (o, i) = find_field_lem k.desc.fields 0 owner field.desc.number field k.found in
    (k.desc, k.has, o, omega arith)

-- One field of the message.
pub add_known_field :
    (schema : Schema) (owner : ℕ) (fd : Option FieldRef) (fs : List Frame) (field : FieldRef)
    (v : Value) (m : Memory) (b : Buf)
    → IsKnown schema owner field
    → IsValueOf field.desc.typ v
    → IsOutside (encode_value field.desc.typ v)
    → IsBuf m b
    → length (bytes_of field v) ≤ room b
    → add_field schema m (in_message b fd owner fs) field v
      ≡ ret (
        err_ok,
        store m b.pos (bytes_of field v),
        in_message (advance b (length (bytes_of field v))) fd owner fs,
      )
add_known_field schema owner fd fs field v m b known val o ok fits =
    let plain : choose_out false field.desc v ≡ encode_value field.desc.typ v =
      unfold choose_out in rw known.unpacked in
    let first =
      add_field_lem schema m b fd owner fs field v (known-IsFieldOf schema owner field known) ok in
    let first' = rw plain at first in first' (encode_value-IsOut field.desc.typ v val) o fits

-- Take fields of the message type, each found by its descriptor under its number below 2^29, neither
-- packed nor a message, with a value of its type whose bytes, if it has any, lie in an object of
-- their own. If a well-formed buffer has room for their bytes, adding them one by one succeeds and
-- stores their encodings one after another, with the position behind the last.
pub add_fields_lem :
    (schema : Schema) (owner : ℕ) (fd : Option FieldRef) (fs : List Frame) (xs : Fields)
    (m : Memory) (b : Buf)
    → IsMessage schema owner xs
    → IsBuf m b
    → length (message_bytes xs) ≤ room b
    → add_fields schema m (in_message b fd owner fs) xs
      ≡ ret (
        err_ok,
        store m b.pos (message_bytes xs),
        in_message (advance b (length (message_bytes xs))) fd owner fs,
      )
unfolding add_fields message_bytes
add_fields_lem schema owner fd fs [] m b good ok fits =
    let z : b.pos + 0 ≡ b.pos = omega arith in unfold store advance in rw z
add_fields_lem schema owner fd fs ((field, v) ∷ xs) m b (known, val, o, good) ok fits =
    let bs = bytes_of field v in
    let total = length-append bs (message_bytes xs) in
    let rest =
      add_fields_lem schema owner fd fs xs (store m b.pos bs) (advance b (length bs)) good
        (IsBuf-store m b bs ok (omega arith)) (rw room-advance (omega arith)) in
    rw
      (
        add_known_field schema owner fd fs field v m b known val o ok (omega arith),
        rest,
        store-append m b.pos bs (message_bytes xs),
        total,
        ← advance-advance b (length bs) (length (message_bytes xs)),
      )
      (unfold advance in refl)
