-- ===== src/Decoder/Debug.antt =====
-- The debug handlers of src/lwpb/core/decoder.c, which print the message. A call of printf is kept
-- as what it prints; values are bit patterns. The user's state of the decoder is the state of these
-- handlers, or the fault that they ran into.
use lwpb.Common.{
  ℕ, zero, suc, ◌+◌, ◌-◌, ◌%◌, ◌^◌, Bool, true, false, not, Option, none, some, List, [], ◌∷◌, ◌==◌,
  ltb, get_elem?, if◌then◌else◌,
}
use lwpb.Types.{
  WireValue, Err, Schema, ◌>>◌, require, FieldType, double, float, int64, uint64, int32, fixed64,
  fixed32, bool, string, group, message, bytes, uint32, enum, sfixed32, sfixed64, sint32, sint64,
  FieldRef, Value, read_word32, read_word64, read_block, Run, ret, fault, ◌>>=◌, some_or_fault,
}
use lwpb.Buf.{Memory}
use lwpb.Copy.{fetch}
use lwpb.Decoder.{Handlers, decode, set_msg_handler, set_field_handler}
use Prim.Native.String.{String}

-- The output, by the format of each call.
pub data Printed : Type 0 where
  indent_text newline : Printed
  title : List ℕ → Printed
  field_text : List ℕ → String → Printed
  real64 real32 signed32 signed64 unsigned32 unsigned64 char hex : ℕ → Printed
  truth : Bool → Printed

-- The bit pattern of `debug_indent`, an int, and what has been printed, the last call first.
pub record DebugState : Type 0 where
  pub indent : ℕ
  pub printed : List Printed

abbrev pub say : Printed → DebugState → DebugState
say c st = record st { printed = c ∷ st.printed }

-- The loop runs while `i < debug_indent`, on numbers with a sign.
abbrev pub repeat_indent : ℕ → DebugState → DebugState
repeat_indent zero st = st
repeat_indent (suc n) st = repeat_indent n (say indent_text st)

unfoldable pub print_indent : DebugState → DebugState
print_indent st = if ltb st.indent (2 ^ 31) then repeat_indent st.indent st else st

-- The value of a type's macro LWPB_DOUBLE, LWPB_FLOAT, ...
abbrev pub type_number : FieldType → ℕ
type_number double = 1
type_number float = 2
type_number int64 = 3
type_number uint64 = 4
type_number int32 = 5
type_number fixed64 = 6
type_number fixed32 = 7
type_number bool = 8
type_number string = 9
type_number group = 10
type_number message = 11
type_number bytes = 12
type_number uint32 = 13
type_number enum = 14
type_number sfixed32 = 15
type_number sfixed64 = 16
type_number sint32 = 17
type_number sint64 = 18

abbrev pub typ_names : List String
typ_names =
    "(double)" ∷ "(float)" ∷ "(int32)" ∷ "(int64)" ∷ "(uint32)" ∷ "(uint64)" ∷ "(sint32)"
    ∷ "(sint64)" ∷ "(fixed32)" ∷ "(fixed64)" ∷ "(sfixed32)" ∷ "(sfixed64)" ∷ "(bool)" ∷ "(enum)"
    ∷ "(string)" ∷ "(bytes)" ∷ "(message)" ∷ []

-- `typ_names[field_desc->opts.typ]`
unfoldable pub typ_name : FieldType → Run String
typ_name t = some_or_fault (get_elem? typ_names (type_number t))

abbrev pub say_all : (ℕ → Printed) → List ℕ → DebugState → DebugState
say_all f [] st = st
say_all f (b ∷ bs) st = say_all f bs (say (f b) st)

-- The types whose value the `switch` reads.
abbrev pub is_read : FieldType → Bool
is_read message = false
is_read group = false
is_read _ = true

module _ (m : Memory) (msg_name : ℕ → List ℕ) (field_name : FieldRef → List ℕ) where
  abbrev pub print32 : (ℕ → Printed) → Value → DebugState → Run DebugState
  print32 f v st = some_or_fault (read_word32 v) >>= λ x. ret (say (f x) st)

  abbrev pub print64 : (ℕ → Printed) → Value → DebugState → Run DebugState
  print64 f v st = some_or_fault (read_word64 v) >>= λ x. ret (say (f x) st)

  abbrev pub print_bytes : (ℕ → Printed) → Value → DebugState → Run DebugState
  print_bytes f v st =
      some_or_fault (read_block v) >>= λ (p, n). fetch m p n >>= λ bs. ret (say_all f bs st)

  -- The `switch`. The pointer may be NULL only where the value is not read.
  unfoldable pub print_value : FieldType → Value → DebugState → Run DebugState
  print_value double v st = print64 real64 v st
  print_value float v st = print32 real32 v st
  print_value int32 v st = print32 signed32 v st
  print_value sint32 v st = print32 signed32 v st
  print_value sfixed32 v st = print32 signed32 v st
  print_value int64 v st = print64 signed64 v st
  print_value sint64 v st = print64 signed64 v st
  print_value sfixed64 v st = print64 signed64 v st
  print_value uint32 v st = print32 unsigned32 v st
  print_value fixed32 v st = print32 unsigned32 v st
  print_value uint64 v st = print64 unsigned64 v st
  print_value fixed64 v st = print64 unsigned64 v st
  print_value bool v st = print32 (λ x. truth (not (x == 0))) v st
  print_value enum v st = print32 signed32 v st
  print_value string v st = print_bytes char v st
  print_value bytes v st = print_bytes hex v st
  print_value message v st = ret st
  print_value group v st = ret st

  -- `debug_indent` is an int: to go past the greatest or the least one is undefined.
  unfoldable pub debug_msg_start_handler : ℕ → Run DebugState → Run DebugState
  debug_msg_start_handler msg u = u >>= λ st.
      let st' = say (title (msg_name msg)) (print_indent st) in
      require (not (st'.indent == 2 ^ 31 - 1))
      >> ret (record st' { indent = (st'.indent + 1) % 2 ^ 32 })

  unfoldable pub debug_msg_end_handler : Bool → ℕ → Run DebugState → Run DebugState
  debug_msg_end_handler packed msg u = u >>= λ st.
      require (not (st.indent == 2 ^ 31))
      >> ret (record st { indent = (st.indent + (2 ^ 32 - 1)) % 2 ^ 32 })

  unfoldable pub debug_field_handler :
      Option ℕ → FieldRef → Option Value → Run DebugState → Run DebugState
  debug_field_handler msg field value u = do
    st ← u
    type_text ← typ_name field.desc.typ
    st' ← (elim value [
      | none ↦
          if is_read field.desc.typ
          then fault
          else ret (say (field_text (field_name field) type_text) (print_indent st))
      | some v ↦
          print_value field.desc.typ v
            (say (field_text (field_name field) type_text) (print_indent st))
    ])
    ret (say newline st')

  -- `lwpb_decoder_use_debug_handlers`
  unfoldable pub use_debug_handlers : Handlers (Run DebugState) → Handlers (Run DebugState)
  use_debug_handlers h =
      set_field_handler
        (set_msg_handler h (some debug_msg_start_handler) (some debug_msg_end_handler))
        (some debug_field_handler)

  -- `lwpb_decoder_decode` with these handlers, which ends where one of them is undefined.
  unfoldable pub decode_debug :
      Handlers (Run DebugState)
      → Schema
      → ℕ
      → ℕ
      → ℕ
      → WireValue
      → DebugState
      → Run (Err × DebugState × ℕ)
  decode_debug h schema root p len garbage st =
      decode (use_debug_handlers h) m root schema p len garbage (ret st) >>= λ (e, u, used).
      u >>= λ st'. ret (e, st', used)
