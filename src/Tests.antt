-- ===== src/Tests.antt =====
-- Concrete inputs for the runs: two message types, an output buffer of 64 bytes, and handlers that
-- keep a list of what they were called with.
mod Messages
mod Numbers
mod Encoders
mod Services
mod Faults
mod Structs
mod Sockets
mod Python
mod Debug
mod PythonDecoder
use lwpb.Common.{ℕ, Bool, true, false, Option, none, some, List, [], ◌∷◌}
use lwpb.Types.{
  FieldDesc, FieldRef, FieldType, Label, optional, required, repeated, uint64, sint32, string,
  message, MsgDesc, Schema, Value, word32, word64, block, outside, inside, WireValue,
}
use lwpb.Buf.{Memory, Buf}
use lwpb.Decoder.{Handlers}

abbrev pub count_desc : FieldDesc
count_desc = record {
  number = 1;
  label = required;
  typ = uint64;
  is_packed = false;
  msg_desc = none;
}

abbrev pub name_desc : FieldDesc
name_desc = record {
  number = 2;
  label = optional;
  typ = string;
  is_packed = false;
  msg_desc = none;
}

abbrev pub child_desc : FieldDesc
child_desc = record {
  number = 3;
  label = optional;
  typ = message;
  is_packed = false;
  msg_desc = some 1;
}

abbrev pub deltas_desc : FieldDesc
deltas_desc = record {
  number = 4;
  label = repeated;
  typ = sint32;
  is_packed = true;
  msg_desc = none;
}

abbrev pub parent : MsgDesc
parent = record { fields = count_desc ∷ name_desc ∷ child_desc ∷ deltas_desc ∷ [] }

abbrev pub schema : Schema
schema = parent ∷ record { fields = count_desc ∷ [] } ∷ []

abbrev pub count : FieldRef
count = record { owner = 0; index = 0; desc = count_desc }

abbrev pub name : FieldRef
name = record { owner = 0; index = 1; desc = name_desc }

abbrev pub child : FieldRef
child = record { owner = 0; index = 2; desc = child_desc }

abbrev pub deltas : FieldRef
deltas = record { owner = 0; index = 3; desc = deltas_desc }

-- The field of the inner message.
abbrev pub inner_count : FieldRef
inner_count = record { owner = 1; index = 0; desc = count_desc }

abbrev pub mem : Memory
mem = record { size = 64; byte = λ p. 7 }

abbrev pub buf : Buf
buf = record { base = 0; pos = 0; end = 64 }

-- The value 300, and the string "hi".
abbrev pub three_hundred : Value
three_hundred = word64 300

abbrev pub hi : Value
hi = block (outside (104 ∷ 105 ∷ [])) 2

abbrev pub garbage : WireValue
garbage = record { word = 99; ptr = inside 0 }

-- The numbers of the fields that the field handler was called with, the last one first.
abbrev pub log : Handlers (List ℕ)
log = record { msg_start = none; msg_end = none; field = some (λ m f v ns. f.desc.number ∷ ns) }
