-- ===== src/Tests/Debug.antt =====
-- The debug handlers on a nested message, and on a message with a value of the type sint32.
use lwpb.Common.{ℕ, sym, ◌≡◌, refl, arith, false, none, List, [], ◌∷◌, length}
use lwpb.Types.{
  FieldDesc, required, sint32, FieldRef, Schema, word32, err_ok, Run, ret, fault,
  is_packed_repeated, read_word32,
}
use lwpb.Buf.{Memory}
use lwpb.Varint.Spec.{groups, varint, store, Holds-store, size-store}
use lwpb.Wire.{encode_value, zig_zag32}
use lwpb.Encoder.{field_key}
use lwpb.Encoder.Field.{field_bytes}
use lwpb.Decoder.{Handlers, find_field}
use lwpb.Decoder.Debug.{DebugState, decode_debug}
use lwpb.Message.Tree.{Tree, done, leaf, tree_bytes, IsTree}
use lwpb.Message.Tree.Debug.{decode-debug}
use lwpb.Message.Tree.DebugFault.{decode-debug_sint}
use lwpb.Tests.{schema, mem, garbage}
use lwpb.Tests.Messages.{one_inside, one_inside-IsTree, one_inside-length, tree_memory}

abbrev msg_name : ℕ → List ℕ
msg_name i = i ∷ []

abbrev field_name : FieldRef → List ℕ
field_name f = f.index ∷ []

-- Handlers that are replaced, and a state in which nothing has been printed.
abbrev no_handlers : Handlers (Run DebugState)
no_handlers = record { msg_start = none; msg_end = none; field = none }

abbrev quiet : DebugState
quiet = record { indent = 0; printed = [] }

decode-debug_example :
    (st : DebugState) × (decode_debug tree_memory msg_name field_name no_handlers schema 0 0 5
        garbage quiet
      ≡ ret (err_ok, st, 5))
    × (st.indent ≡ 0)
decode-debug_example =
    decode-debug tree_memory msg_name field_name no_handlers schema 0 one_inside 0 5 garbage quiet
      one_inside-IsTree (tt, tt) refl (omega (arith, size-store mem 0 (tree_bytes one_inside)))
      (omega (arith, size-store mem 0 (tree_bytes one_inside)))
      (Holds-store mem 0 (tree_bytes one_inside)) (sym one_inside-length) (omega arith)

abbrev delta_desc : FieldDesc
delta_desc = record {
  number = 1;
  label = required;
  typ = sint32;
  is_packed = false;
  msg_desc = none;
}

abbrev delta : FieldRef
delta = record { owner = 0; index = 0; desc = delta_desc }

abbrev deltas : Schema
deltas = record { fields = delta_desc ∷ [] } ∷ []

abbrev one_delta : Tree
one_delta = leaf delta (word32 1) done

one_delta-IsTree : IsTree deltas 0 one_delta
unfolding find_field is_packed_repeated encode_value read_word32
one_delta-IsTree = (
  record {
    desc = record { fields = delta_desc ∷ [] };
    has = refl;
    found = refl;
    small = omega arith;
    unpacked = refl;
  },
  omega arith,
  tt,
  tt,
)

one_delta-length : length (tree_bytes one_delta) ≡ 2
unfolding tree_bytes field_bytes encode_value field_key varint groups is_packed_repeated read_word32
    zig_zag32
one_delta-length = refl

abbrev delta_memory : Memory
delta_memory = store mem 0 (tree_bytes one_delta)

decode-debug_sint_example :
    decode_debug delta_memory msg_name field_name no_handlers deltas 0 0 2 garbage quiet ≡ fault
decode-debug_sint_example =
    decode-debug_sint delta_memory msg_name field_name 0 no_handlers deltas one_delta 0 2 garbage
      quiet one_delta-IsTree tt refl (omega (arith, size-store mem 0 (tree_bytes one_delta)))
      (omega (arith, size-store mem 0 (tree_bytes one_delta)))
      (Holds-store mem 0 (tree_bytes one_delta)) (sym one_delta-length)
