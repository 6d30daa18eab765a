-- ===== src/Decoder.antt =====
-- The decoder of src/lwpb/core/decoder.c. `decoder->depth` is the number of frames; the top frame
-- stands first. The handlers are functions on the user's state `S`, `none` for a NULL handler.
-- The loop runs on fuel: a round is a turn of one of the two `while` loops.
pub mod Debug
pub mod Field
pub mod PastEnd
pub mod Reads
pub mod Termination
pub mod Unknown
use lwpb.Common.{
  ℕ, zero, suc, ◌+◌, ◌-◌, ◌*◌, ◌/◌, ◌%◌, ◌^◌, Bool, true, false, not, ◌&&◌, ◌||◌, Option, none,
  some, List, [], ◌∷◌, ◌==◌, ltb, leb, length, if◌then◌else◌, bit_and,
}
use lwpb.Types.{
  Err, err_ok, err_end_of_buf, Run, ret, fault, abort, stuck, ◌>>=◌, ◌>>◌, assert, require, Schema,
  MsgDesc, FieldDesc, FieldRef, is_packed_repeated, Value, Ptr, inside, outside, WireValue,
  max_depth, find_desc, wt_string,
}
use lwpb.Buf.{Memory, Buf, buf_init, buf_used, buf_left, advance}
use lwpb.Varint.{decode_varint}
use lwpb.Fixed.{decode_32bit, decode_64bit}
use lwpb.Wire.{field_wire_type, decode_value, set_word, set_int32}

-- The callbacks: message start, message end and field. The field handler gets the message
-- descriptor, the field and the value, `none` for NULL. The message end handler also gets
-- `decoder->packed`, which the one of python/decoder.c reads.
pub record Handlers (S : Type 0) : Type 0 where
  pub msg_start : Option (ℕ → S → S)
  pub msg_end : Option (Bool → ℕ → S → S)
  pub field : Option (Option ℕ → FieldRef → Option Value → S → S)

-- `lwpb_decoder_init`, `lwpb_decoder_msg_handler` and `lwpb_decoder_field_handler`.
unfoldable pub init : (S : Type 0) → Handlers S
init S = record { msg_start = none; msg_end = none; field = none }

unfoldable pub set_msg_handler :
    {S : Type 0} → Handlers S → Option (ℕ → S → S) → Option (Bool → ℕ → S → S) → Handlers S
set_msg_handler h msg_start msg_end = record h { msg_start = msg_start; msg_end = msg_end }

unfoldable pub set_field_handler :
    {S : Type 0} → Handlers S → Option (Option ℕ → FieldRef → Option Value → S → S) → Handlers S
set_field_handler h field = record h { field = field }

-- `struct lwpb_decoder_stack_frame`
pub record Frame : Type 0 where
  pub buf : Buf
  pub msg_desc : Option ℕ

-- The decoder's stack and mode with the variables of `lwpb_decoder_decode`: `field_desc` and
-- `wire_value` keep what the last field left in them. `user` is the state of the handlers.
pub record State (S : Type 0) : Type 0 where
  pub stack : List Frame
  pub packed : Bool
  pub field_desc : Option FieldRef
  pub wire : WireValue
  pub user : S

module _ {S : Type 0} where
  abbrev pub call : {A : Type 0} → Option (A → S → S) → A → S → S
  call none x s = s
  call (some h) x s = h x s

  abbrev pub call_field :
      Option (Option ℕ → FieldRef → Option Value → S → S)
      → Option ℕ
      → FieldRef
      → Option Value
      → S
      → S
  call_field none m f v s = s
  call_field (some h) m f v s = h m f v s

  -- A handler for a message is called only where the frame has a descriptor.
  abbrev pub notify : Option (ℕ → S → S) → Option ℕ → S → S
  notify h none s = s
  notify h (some m) s = call h m s

  abbrev pub call_end : Option (Bool → ℕ → S → S) → Bool → ℕ → S → S
  call_end none packed m s = s
  call_end (some h) packed m s = h packed m s

  abbrev pub notify_end : Option (Bool → ℕ → S → S) → Bool → Option ℕ → S → S
  notify_end h packed none s = s
  notify_end h packed (some m) s = call_end h packed m s

-- The first field with the number, from field `i` on.
unfoldable pub find_field : List FieldDesc → ℕ → ℕ → ℕ → Option FieldRef
find_field [] i owner number = none
find_field (d ∷ ds) i owner number =
    if d.number == number
    then some (record { owner = owner; index = i; desc = d })
    else find_field ds (i + 1) owner number

abbrev pub or_else : Option FieldRef → Option FieldRef → Option FieldRef
or_else none old = old
or_else (some f) old = some f

-- `number = key >> 3` is cut to 32 bits. Where no field has the number, `field_desc` stays.
unfoldable pub look_up : Schema → Option ℕ → ℕ → Option FieldRef → Run (Option FieldRef)
look_up schema none key old = fault
look_up schema (some m) key old =
    find_desc schema m >>= λ d. ret (or_else (find_field d.fields 0 m (key / 2 ^ 3 % 2 ^ 32)) old)

-- The head of the inner loop: what the key gives, or in packed mode the field's own type.
pub record Key : Type 0 where
  pub status : Err
  pub buf : Buf
  pub wire_type : ℕ
  pub field : Option FieldRef

abbrev pub type_of_field : Option FieldRef → Run ℕ
type_of_field none = fault
type_of_field (some f) = field_wire_type f.desc.typ

unfoldable pub read_key : Memory → Schema → Frame → Bool → Option FieldRef → Run Key
read_key m schema f true old = type_of_field old >>= λ wt.
    ret (record { status = err_ok; buf = f.buf; wire_type = wt; field = old })
read_key m schema f false old = decode_varint m f.buf >>= λ (e, b, key). elim e [
  | err_ok ↦
      (look_up schema f.msg_desc key old >>= λ field.
      ret (record { status = err_ok; buf = b; wire_type = bit_and key 7; field = field }))
  | other ↦ ret (record { status = other; buf = b; wire_type = 0; field = old })
]

-- `wire_value.string.data = pos; pos += len`
unfoldable pub take_block : Memory → Buf → WireValue → Run (Err × Buf × WireValue)
take_block m b w =
    if ltb (buf_left b) w.word
    then ret (err_end_of_buf, b, w)
    else (require (leb (b.pos + w.word) m.size)
        >> ret (err_ok, advance b w.word, record w { ptr = inside b.pos }))

-- The wire value, by the wire type. LWPB_ASSERT(1, ...) in the default case does nothing.
unfoldable pub read_wire : Memory → Buf → ℕ → WireValue → Run (Err × Buf × WireValue)
unfolding take_block
read_wire m b zero w = decode_varint m b >>= λ (e, b', x). ret (e, b', set_word w x)
read_wire m b (suc zero) w = decode_64bit m b >>= λ (e, b', x). ret (e, b', set_word w x)
read_wire m b (suc (suc zero)) w = decode_varint m b >>= λ (e, b', len). elim e [
  | err_ok ↦ take_block m b' (set_word w len)
  | other ↦ ret (other, b', set_word w len)
]
read_wire m b (suc (suc (suc (suc (suc zero))))) w =
    decode_32bit m b >>= λ (e, b', x). ret (e, b', set_int32 w x)
read_wire m b _ w = ret (err_ok, b, w)

-- A turn of a loop: on with a new state, or the end with the status, the handlers' state and the
-- bytes used.
pub data Turn (S : Type 0) : Type 0 where
  go : State S → Turn S
  finished : Err → S → ℕ → Turn S

-- `lwpb_buf_init` of a new frame on the block that a wire value points to.
unfoldable pub block_buf : Memory → WireValue → Run Buf
block_buf m w = elim w.ptr [ inside p ↦ buf_init m p w.word | outside bs ↦ fault ]

module _ {S : Type 0} (h : Handlers S) (m : Memory) (root : ℕ) where
  -- The message start notification behind the label `decode_nested`.
  unfoldable pub enter : State S → State S
  enter s = elim s.stack [
    | [] ↦ s
    | f ∷ fs ↦
        if buf_used f.buf == 0 then record s { user = notify h.msg_start f.msg_desc s.user } else s
  ]

  -- `push_stack_frame` and `goto decode_nested`.
  unfoldable pub open_frame : State S → Option ℕ → Bool → Run (Turn S)
  open_frame s msg packed =
      assert (leb (length s.stack + 1) max_depth)
      >> (block_buf m s.wire >>= λ b. ret (
          go (
            enter (record s {
              stack = record { buf = b; msg_desc = msg } ∷ s.stack;
              packed = packed;
            }))))

  -- The end of the inner loop's body: a packed block, a value, or a message. Its handler is given
  -- the root message's descriptor.
  unfoldable pub dispatch : State S → Option ℕ → ℕ → FieldRef → Run (Turn S)
  dispatch s msg wire_type field =
      if wire_type == wt_string && is_packed_repeated field.desc
      then open_frame s msg true
      else elim (decode_value field.desc.typ s.wire) [
        | some v ↦ ret (go (record s { user = call_field h.field msg field (some v) s.user }))
        | none ↦
            open_frame (record s { user = call_field h.field (some root) field none s.user })
              field.desc.msg_desc s.packed
      ]

  -- What follows a wire value that has been read; fields without a descriptor are skipped.
  unfoldable pub after_wire : State S → Option ℕ → ℕ → Run (Turn S)
  after_wire s msg wire_type = elim s.field_desc [
    | none ↦ ret (go s)
    | some field ↦ dispatch s msg wire_type field
  ]

  -- The body of the inner loop on the top frame `f`.
  unfoldable pub field_turn : Schema → State S → Frame → List Frame → Run (Turn S)
  field_turn schema s f fs = read_key m schema f s.packed s.field_desc >>= λ k. elim k.status [
    | err_ok ↦
        (read_wire m k.buf k.wire_type s.wire >>= λ (e, b, w). elim e [
          | err_ok ↦
              after_wire
                (record s { stack = record f { buf = b } ∷ fs; field_desc = k.field; wire = w })
                f.msg_desc k.wire_type
          | other ↦ ret (finished other s.user 0)
        ])
    | other ↦ ret (finished other s.user 0)
  ]

  -- Behind the inner loop: the message end notification, and the frame is popped.
  unfoldable pub end_turn : State S → Frame → List Frame → Turn S
  end_turn s f [] =
      finished err_ok (notify_end h.msg_end s.packed f.msg_desc s.user) (buf_used f.buf)
  end_turn s f (g ∷ fs) = go (
      enter (record s {
        stack = g ∷ fs;
        packed = false;
        user = notify_end h.msg_end s.packed f.msg_desc s.user;
      }))

  unfoldable pub turn : Schema → State S → Run (Turn S)
  turn schema s = elim s.stack [
    | [] ↦ fault
    | f ∷ fs ↦ if ltb 0 (buf_left f.buf) then field_turn schema s f fs else ret (end_turn s f fs)
  ]

  -- The status, the handlers' state and `*used`.
  unfoldable pub run : ℕ → Schema → State S → Run (Err × S × ℕ)
  run zero schema s = stuck
  run (suc fuel) schema s =
      turn schema s >>= λ t. elim t [ go s' ↦ run fuel schema s' | finished e u n ↦ ret (e, u, n) ]

  -- Enough turns for a memory of `size` bytes and LWPB_MAX_DEPTH frames.
  abbrev pub enough : ℕ
  enough = (m.size + 2) ^ max_depth

  -- `lwpb_decoder_decode` on `len` bytes at `p`, with what `wire_value` holds at its start.
  unfoldable pub decode : Schema → ℕ → ℕ → WireValue → S → Run (Err × S × ℕ)
  decode schema p len garbage user = buf_init m p len >>= λ b. run enough schema (
      enter (record {
        stack = record { buf = b; msg_desc = some root } ∷ [];
        packed = false;
        field_desc = none;
        wire = garbage;
        user = user;
      }))
