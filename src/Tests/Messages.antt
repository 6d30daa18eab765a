-- ===== src/Tests/Messages.antt =====
-- Whole messages: the theorems of the decoder and of the stack encoder at the inputs of Tests.
use lwpb.Common.{◌-◌, sym, ◌≤◌, ◌≡◌, ◌≢◌, refl, arith, none, [], ◌∷◌, length}
use lwpb.Types.{err_ok, ret, stuck, is_packed_repeated, read_word64, read_block}
use lwpb.Buf.{Memory, Buf, IsBuf, room, advance}
use lwpb.Varint.Spec.{groups, varint, store, Holds-store, size-store}
use lwpb.Wire.{encode_value, varint_out}
use lwpb.Encoder.{add_field, field_key, choose_out}
use lwpb.Encoder.Field.{in_message, field_bytes, add_field_lem}
use lwpb.Decoder.{find_field, decode}
use lwpb.Decoder.Field.{IsKnown}
use lwpb.Decoder.Termination.{decode_ends}
use lwpb.Message.{Fields, message_bytes, IsMessage, add_fields}
use lwpb.Message.Decode.{decode-add_fields}
use lwpb.Message.Tree.{Tree, done, leaf, node, tree_bytes, IsTree}
use lwpb.Message.Tree.Decode.{decode-tree}
use lwpb.Message.Tree.Encode.{add_tree, needs}
use lwpb.Message.Tree.RoundTrip.{decode-add_tree}
use lwpb.Tests.{
  schema, parent, count, inner_count, name, child, mem, buf, three_hundred, hi, garbage, log,
}

abbrev pub two_fields : Fields
two_fields = (count, three_hundred) ∷ (name, hi) ∷ []

pub two_fields-length : length (message_bytes two_fields) ≡ 7
unfolding message_bytes field_bytes encode_value field_key varint groups is_packed_repeated
    read_word64 read_block
two_fields-length = refl

pub count-IsKnown : IsKnown schema 0 count
unfolding find_field is_packed_repeated
count-IsKnown = record {
  desc = parent;
  has = refl;
  found = refl;
  small = omega arith;
  unpacked = refl;
}

name-IsKnown : IsKnown schema 0 name
unfolding find_field is_packed_repeated
name-IsKnown = record {
  desc = parent;
  has = refl;
  found = refl;
  small = omega arith;
  unpacked = refl;
}

pub two_fields-IsMessage : IsMessage schema 0 two_fields
unfolding encode_value read_word64 read_block
two_fields-IsMessage =
    (count-IsKnown, omega arith, tt, (name-IsKnown, omega arith, omega arith, tt))

pub buf-IsBuf : IsBuf mem buf
buf-IsBuf = omega arith

pub two_fields_fit : length (message_bytes two_fields) ≤ room buf
two_fields_fit = rw two_fields-length (omega arith)

decode-add_fields_example :
    (m : Memory) × (b : Buf) × (add_fields schema mem (in_message buf none 0 []) two_fields
      ≡ ret (err_ok, m, in_message b none 0 []))
    × (decode log m 0 schema 0 (b.pos - 0) garbage [] ≡ ret (err_ok, 2 ∷ 1 ∷ [], b.pos - 0))
decode-add_fields_example =
    decode-add_fields log 0 schema mem two_fields buf garbage [] two_fields-IsMessage buf-IsBuf
      two_fields_fit

decode_ends_example : decode log mem 0 schema 0 3 garbage [] ≢ stuck
decode_ends_example = decode_ends log mem 0 schema 0 3 garbage []

-- The memory in which the two fields have been stored.
abbrev filled : Memory
filled = store mem 0 (message_bytes two_fields)

filled-size : filled.size ≡ 64
filled-size = size-store mem 0 (message_bytes two_fields)

add_field_lem_example :
    add_field schema mem (in_message buf none 0 []) count three_hundred
    ≡ ret (
      err_ok,
      store mem 0 (field_bytes 1 (varint_out 300)),
      in_message (advance buf (length (field_bytes 1 (varint_out 300)))) none 0 [],
    )
unfolding choose_out encode_value read_word64 is_packed_repeated
add_field_lem_example =
    add_field_lem schema mem buf none 0 [] count three_hundred (parent, refl, refl, omega arith)
      buf-IsBuf (omega arith) tt count_fits
  where
    count_fits : length (field_bytes 1 (varint_out 300)) ≤ 64
    count_fits = unfold field_bytes field_key varint groups in omega arith

pub one_field-IsMessage : IsMessage schema 1 ((inner_count, three_hundred) ∷ [])
unfolding find_field is_packed_repeated encode_value read_word64
one_field-IsMessage = (
  record {
    desc = record { fields = count.desc ∷ [] };
    has = refl;
    found = refl;
    small = omega arith;
    unpacked = refl;
  },
  omega arith,
  tt,
  tt,
)

-- A message with the count 300 inside it.
abbrev pub one_inside : Tree
one_inside = node child (leaf inner_count three_hundred done) done

pub one_inside-length : length (tree_bytes one_inside) ≡ 5
unfolding tree_bytes field_bytes encode_value field_key varint groups is_packed_repeated read_word64
one_inside-length = refl

pub child-IsKnown : IsKnown schema 0 child
unfolding find_field is_packed_repeated
child-IsKnown = record {
  desc = parent;
  has = refl;
  found = refl;
  small = omega arith;
  unpacked = refl;
}

pub one_inside-IsTree : IsTree schema 0 one_inside
unfolding tree_bytes field_bytes encode_value field_key varint groups is_packed_repeated read_word64
one_inside-IsTree = (child-IsKnown, refl, omega arith, (1, refl, one_field-IsMessage), tt)

abbrev pub tree_memory : Memory
tree_memory = store mem 0 (tree_bytes one_inside)

decode-tree_example : decode log tree_memory 0 schema 0 5 garbage [] ≡ ret (err_ok, 1 ∷ 3 ∷ [], 5)
decode-tree_example =
    decode-tree log tree_memory 0 schema one_inside 0 5 garbage [] one_inside-IsTree (tt, tt)
      (omega (arith, size-store mem 0 (tree_bytes one_inside)))
      (omega (arith, size-store mem 0 (tree_bytes one_inside)))
      (Holds-store mem 0 (tree_bytes one_inside)) (sym one_inside-length)

decode-add_tree_example :
    (m : Memory) × (b : Buf) × (add_tree schema mem (in_message buf none 0 []) one_inside
      ≡ ret (err_ok, m, in_message b none 0 []))
    × (decode log m 0 schema 0 (b.pos - 0) garbage [] ≡ ret (err_ok, 1 ∷ 3 ∷ [], b.pos - 0))
decode-add_tree_example =
    decode-add_tree log 0 schema mem one_inside buf garbage [] one_inside-IsTree (tt, tt) buf-IsBuf
      (omega arith) one_inside_fits
  where
    one_inside_fits : needs one_inside ≤ 64
    one_inside_fits =
        unfold field_bytes encode_value field_key varint groups is_packed_repeated read_word64 in
        omega arith
