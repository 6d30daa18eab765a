-- ===== src/Message/Tree.antt =====
-- Messages with messages inside them, to any depth that the decoder's stack allows: their bytes,
-- and the calls of the handlers of src/lwpb/core/decoder.c that report them.
pub mod Debug
pub mod DebugFault
pub mod Turns
pub mod Decode
pub mod Encode
pub mod Concat
pub mod RoundTrip
use lwpb.Common.{
  false, ℕ, zero, suc, ◌+◌, ◌^◌, ◌≤◌, ◌<◌, ◌≡◌, arith, Option, none, some, List, [], ◌∷◌, ◌++◌,
  length, length-append,
}
use lwpb.Types.{Schema, FieldRef, message, Value}
use lwpb.Varint.Spec.{varint, length-varint}
use lwpb.Wire.{encode_value}
use lwpb.Wire.RoundTrip.{IsValueOf}
use lwpb.Encoder.{field_key}
use lwpb.Encoder.Field.{IsOutside}
use lwpb.Decoder.{Handlers, notify, notify_end, call_field}
use lwpb.Decoder.Field.{IsKnown, bytes_of, value_pos, delivered}

-- A message is a list of entries, each a value or a message.
pub data Tree : Type 0 where
  done : Tree
  leaf : FieldRef → Value → Tree → Tree
  node : FieldRef → Tree → Tree → Tree

-- The key of a message, its length and its bytes.
abbrev pub node_key : FieldRef → List ℕ
node_key field = varint (field_key 2 field.desc.number)

abbrev pub node_bytes : FieldRef → List ℕ → List ℕ
node_bytes field inner = node_key field ++ (varint (length inner) ++ inner)

unfoldable pub tree_bytes : Tree → List ℕ
tree_bytes done = []
tree_bytes (leaf field v rest) = bytes_of field v ++ tree_bytes rest
tree_bytes (node field inner rest) = node_bytes field (tree_bytes inner) ++ tree_bytes rest

-- Each entry is of a field that the message type has, outside packed mode; a value is of its
-- field's type, and a block lies in an object of its own.
abbrev pub IsTree : Schema → ℕ → Tree → Type 0
IsTree schema owner done = Unit {0}
IsTree schema owner (leaf field v rest) =
    IsKnown schema owner field
    × IsValueOf field.desc.typ v
    × IsOutside (encode_value field.desc.typ v)
    × IsTree schema owner rest
IsTree schema owner (node field inner rest) =
    IsKnown schema owner field
    × (field.desc.typ ≡ message)
    × (length (tree_bytes inner) < 2 ^ 64)
    × ((i : ℕ) × (field.desc.msg_desc ≡ some i) × IsTree schema i inner)
    × IsTree schema owner rest

-- No more than `d` messages lie inside each other.
abbrev pub IsShallow : ℕ → Tree → Type 0
IsShallow d done = Unit {0}
IsShallow d (leaf field v rest) = IsShallow d rest
IsShallow zero (node field inner rest) = ⊥
IsShallow (suc d) (node field inner rest) = IsShallow d inner × IsShallow (suc d) rest

-- Where the bytes of a message begin whose entry starts at `p`.
abbrev pub inner_pos : ℕ → FieldRef → Tree → ℕ
inner_pos p field inner = p + length (node_key field) + length (varint (length (tree_bytes inner)))

-- The calls of the handlers for the entries of a message, the first of which starts at `p`. The
-- field handler is called for a message before the start handler, with the root message.
abbrev pub tree_events : {S : Type 0} → Handlers S → ℕ → Option ℕ → ℕ → Tree → S → S
tree_events h root owner p done u = u
tree_events h root owner p (leaf field v rest) u =
    tree_events h root owner (p + length (bytes_of field v)) rest
      (call_field h.field owner field (some (delivered (value_pos p field v) v)) u)
tree_events h root owner p (node field inner rest) u =
    let inner_type = field.desc.msg_desc in
    let started = notify h.msg_start inner_type (call_field h.field (some root) field none u) in
    let ended =
      notify_end h.msg_end false inner_type
        (tree_events h root inner_type (inner_pos p field inner) inner started) in
    tree_events h root owner (p + length (node_bytes field (tree_bytes inner))) rest ended

-- The turns of the decoder for the entries.
abbrev pub turns : Tree → ℕ
turns done = 0
turns (leaf field v rest) = suc (turns rest)
turns (node field inner rest) = suc (turns inner + suc (turns rest))

pub length-node_bytes :
    (field : FieldRef) (bs : List ℕ)
    → length (node_bytes field bs)
      ≡ length (node_key field) + (length (varint (length bs)) + length bs)
length-node_bytes field bs = omega (
  arith,
  length-append (node_key field) (varint (length bs) ++ bs),
  length-append (varint (length bs)) bs,
)
