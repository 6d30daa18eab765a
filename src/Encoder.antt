-- ===== src/Encoder.antt =====
-- The stack encoder of src/lwpb/core/encoder.c, over the memory of the output buffer.
-- `encoder->depth` is the number of frames; the top frame stands first.
pub mod Bounds
pub mod Field
pub mod Nested
pub mod Typed
use lwpb.Common.{
  ℕ, zero, suc, ◌+◌, ◌-◌, ◌*◌, ◌%◌, ◌^◌, Bool, true, false, not, ◌&&◌, ◌||◌, Option, none, some,
  List, [], ◌∷◌, ◌==◌, ltb, leb, length, if◌then◌else◌, bit_or,
}
use lwpb.Types.{
  Err, err_ok, err_unknown_field, err_invalid_field, err_end_of_buf, Run, ret, fault, abort, ◌>>=◌,
  ◌>>◌, assert, Schema, MsgDesc, FieldDesc, FieldRef, same_field, is_message, is_packed_repeated,
  Value, block, Ptr, inside, read_block, max_depth, find_desc, wt_string,
}
use lwpb.Buf.{Memory, Buf, buf_init, buf_used, buf_left, advance}
use lwpb.Varint.{encode_varint}
use lwpb.Fixed.{encode_32bit, encode_64bit}
use lwpb.Wire.{
  WireOut, varint_out, int64_out, string_out, int32_out, unset, encode_value, wire_type_out,
  block_out,
}
use lwpb.Copy.{mem_move, mem_copy}

-- `struct lwpb_encoder_stack_frame`. The buffer is `none` while nothing has been stored in it, and
-- the pointers are `none` for NULL.
pub record Frame : Type 0 where
  pub buf : Option Buf
  pub field_desc : Option FieldRef
  pub msg_desc : Option ℕ

-- `struct lwpb_encoder`
pub record Encoder : Type 0 where
  pub stack : List Frame
  pub packed : Bool

-- MSG_RESERVE_BYTES
abbrev pub reserve : ℕ
reserve = 10

-- `&encoder->stack[encoder->depth - 1]`
unfoldable pub top : List Frame → Run Frame
top [] = fault
top (f ∷ fs) = ret f

unfoldable pub frame_buf : Frame → Run Buf
frame_buf f = elim f.buf [ none ↦ fault | some b ↦ ret b ]

unfoldable pub push_stack_frame : List Frame → Frame → Run (List Frame)
push_stack_frame fs f = assert (leb (length fs + 1) max_depth) >> ret (f ∷ fs)

unfoldable pub pop_stack_frame : List Frame → Run (List Frame)
pop_stack_frame [] = abort
pop_stack_frame (f ∷ fs) = assert (ltb 0 (length fs)) >> ret fs

-- `lwpb_encoder_init` sets the depth only.
unfoldable pub init : Bool → Encoder
init packed = record { stack = []; packed = packed }

unfoldable pub start : Memory → ℕ → ℕ → ℕ → Run Encoder
start m msg_desc p len = buf_init m p len >>= λ b. ret (record {
  stack = record { buf = some b; field_desc = none; msg_desc = some msg_desc } ∷ [];
  packed = false;
})

-- `&encoder->stack[0]`
abbrev pub bottom : Frame → List Frame → Frame
bottom f [] = f
bottom f (g ∷ fs) = bottom g fs

-- `lwpb_encoder_finish`; before a message is started, stack[0] holds nothing.
unfoldable pub finish : Encoder → Run ℕ
finish e = elim e.stack [
  | [] ↦ fault
  | f ∷ fs ↦ (frame_buf (bottom f fs) >>= λ b. ret (buf_used b))
]

-- What `lwpb_encoder_nested_start` and `lwpb_encoder_packed_repeated_start` share: the frame is
-- pushed first, and has no buffer when the reserve does not fit.
unfoldable pub open_frame : Memory → Encoder → FieldRef → Option ℕ → Bool → Run (Err × Encoder)
open_frame m e field msg_desc packed = do
  frame ← top e.stack
  fs ←
      push_stack_frame e.stack (record { buf = none; field_desc = some field; msg_desc = msg_desc })
  b ← frame_buf frame
  if ltb (buf_left b) reserve
      then ret (err_end_of_buf, record e { stack = fs })
      else (buf_init m (b.pos + reserve) (buf_left b - reserve) >>= λ nb. ret (
        err_ok,
        record {
          stack = record { buf = some nb; field_desc = some field; msg_desc = msg_desc } ∷ e.stack;
          packed = packed;
        },
      ))

unfoldable pub nested_start : Memory → Encoder → FieldRef → Run (Err × Encoder)
nested_start m e field =
    assert (is_message field.desc.typ) >> open_frame m e field field.desc.msg_desc e.packed

unfoldable pub packed_repeated_start : Memory → Encoder → FieldRef → Run (Err × Encoder)
packed_repeated_start m e field =
    assert (is_packed_repeated field.desc)
    >> (assert (not e.packed) >> open_frame m e field none true)

-- The search for `field_desc` among the fields of the current message, from field `i` on with
-- `left` fields to go.
unfoldable pub search_field : ℕ → ℕ → ℕ → FieldRef → Bool
search_field zero i owner field = false
search_field (suc left) i owner field =
    (field.owner == owner && field.index == i) || search_field left (i + 1) owner field

-- In packed mode the field must be the one of the frame.
unfoldable pub check_same : Option FieldRef → FieldRef → Run Err
check_same none field = abort
check_same (some f) field =
    assert (same_field field f) >> ret (if same_field field f then err_ok else err_invalid_field)

-- Otherwise it must belong to the current message.
unfoldable pub check_member : Schema → Option ℕ → FieldRef → Run Err
check_member schema none field = fault
check_member schema (some m) field = find_desc schema m >>= λ d.
    ret (if search_field (length d.fields) 0 m field then err_ok else err_unknown_field)

-- The checks at the head of `lwpb_encoder_add_field`.
unfoldable pub check_field : Schema → Bool → Frame → FieldRef → Run Err
unfolding check_same check_member
check_field schema true frame field = check_same frame.field_desc field
check_field schema false frame field = check_member schema frame.msg_desc field

-- The second `switch` of `lwpb_encoder_add_field`: the wire value behind the key.
unfoldable pub write_value : Memory → Buf → FieldDesc → WireOut → Run (Err × Memory × Buf)
write_value m b d (varint_out x) = encode_varint m b x
write_value m b d (int64_out x) = encode_64bit m b x
write_value m b d (int32_out x) = encode_32bit m b x
write_value m b d unset = fault
write_value m b d (string_out p n) = encode_varint m b n >>= λ (e, m', b'). elim e [
  | err_ok ↦
      if ltb (buf_left b') n
      then ret (err_end_of_buf, m', b')
      else ((if is_message d.typ || is_packed_repeated d
            then mem_move m' b'.pos p n
            else mem_copy m' b'.pos p n)
          >>= λ m''. ret (err_ok, m'', advance b' n))
  | other ↦ ret (other, m', b')
]

-- `wire_type | (field_desc->number << 3)`, computed in 32 bits.
unfoldable pub field_key : ℕ → ℕ → ℕ
field_key wire_type number = bit_or wire_type (number * 2 ^ 3 % 2 ^ 32)

-- Outside packed mode a packed repeated field is written as a block of bytes.
unfoldable pub choose_out : Bool → FieldDesc → Value → WireOut
choose_out packed d v =
    if not packed && is_packed_repeated d then block_out (read_block v) else encode_value d.typ v

-- Key and value. In packed mode there is no key.
unfoldable pub write_field : Memory → Buf → Bool → FieldDesc → WireOut → Run (Err × Memory × Buf)
write_field m b true d out = write_value m b d out
write_field m b false d out =
    encode_varint m b (field_key (wire_type_out out) d.number) >>= λ (e, m', b'). elim e [
      | err_ok ↦ write_value m' b' d out
      | other ↦ ret (other, m', b')
    ]

abbrev pub set_top : List Frame → Buf → List Frame
set_top [] b = []
set_top (f ∷ fs) b = record f { buf = some b } ∷ fs

-- The encoder after the top frame's buffer has moved.
abbrev pub moved : Encoder → Run (Err × Memory × Buf) → Run (Err × Memory × Encoder)
moved e r = r >>= λ (status, m', b'). ret (status, m', record e { stack = set_top e.stack b' })

-- `lwpb_encoder_add_field`
unfoldable pub add_field :
    Schema → Memory → Encoder → FieldRef → Value → Run (Err × Memory × Encoder)
add_field schema m e field v = do
  assert (ltb 0 (length e.stack))
  frame ← top e.stack
  status ← check_field schema e.packed frame field
  elim status [
    | err_ok ↦
        (frame_buf frame >>= λ b.
        moved e (write_field m b e.packed field.desc (choose_out e.packed field.desc v)))
    | other ↦ ret (other, m, e)
  ]

-- What both functions that end a frame share: the popped frame's bytes are added to its parent.
unfoldable pub close_frame : Schema → Memory → Encoder → Bool → Run (Err × Memory × Encoder)
close_frame schema m e packed = do
  frame ← top e.stack
  fs ← pop_stack_frame e.stack
  b ← frame_buf frame
  elim frame.field_desc [
    | none ↦ fault
    | some field ↦
        add_field schema m (record { stack = fs; packed = packed }) field
          (block (inside b.base) (buf_used b))
  ]

unfoldable pub nested_end : Schema → Memory → Encoder → Run (Err × Memory × Encoder)
nested_end schema m e = close_frame schema m e e.packed

unfoldable pub packed_repeated_end : Schema → Memory → Encoder → Run (Err × Memory × Encoder)
packed_repeated_end schema m e = assert e.packed >> close_frame schema m e false
