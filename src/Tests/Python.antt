-- ===== src/Tests/Python.antt =====
-- Python dicts that are encoded, and a runtime in which every other object is the number it carries.
use lwpb.Common.{ℕ, ◌≡◌, refl, arith, true, false, Option, none, some, List, [], ◌∷◌, length}
use lwpb.Types.{
  FieldDesc, optional, int64, err_ok, ret, fault, Schema, is_packed_repeated, read_word64,
}
use lwpb.Varint.Spec.{varint, groups, store}
use lwpb.Wire.{encode_value}
use lwpb.Encoder.{field_key}
use lwpb.Encoder.Field.{field_bytes}
use lwpb.Encoder2.{Encoder2}
use lwpb.Encoder2.Field.{unpacked}
use lwpb.Decoder.{decode}
use lwpb.Message.Tree.{Tree, done, leaf, node, tree_bytes, IsTree}
use lwpb.Python.{
  type_error, Obj, py_dict, py_str, other_obj, Entries, empty, entry, get_item_string, Runtime,
}
use lwpb.Python.Primitives.{py_to_lwpb}
use lwpb.Python.Encoder.{encoder_encode}
use lwpb.Python.Encoder.Dict.{DictOf, counted}
use lwpb.Python.Encoder.RoundTrip.{decode-encoder_encode}
use lwpb.Python.Encoder.Faults.{nested_scalar-fault, int64-fault}
use lwpb.Tests.{
  schema, parent, count, count_desc, inner_count, child, child_desc, mem, three_hundred, garbage,
  log,
}
use lwpb.Tests.Messages.{count-IsKnown, child-IsKnown, one_field-IsMessage}

abbrev number_of : Obj → Option Obj
number_of (other_obj n) = some (other_obj n)
number_of _ = none

abbrev value_of : Obj → ℕ
value_of (other_obj n) = n
value_of _ = 0

abbrev runtime : Runtime
runtime = record {
  number_int = number_of;
  int_as_long = λ o. some (value_of o);
  number_long = number_of;
  as_unsigned_long_long = λ o. (value_of o, none);
  as_string = λ o. (none, some type_error);
  number_float = number_of;
  float_as_double = value_of;
  to_float = λ x. x;
}

-- The field with index `i` has a name of one byte.
abbrev names : ℕ → ℕ → List ℕ
names owner i = i ∷ []

abbrev inner_dict : Obj
inner_dict = py_dict (entry (0 ∷ []) (other_obj 300) empty)

abbrev dict : Entries
dict = entry (2 ∷ []) inner_dict (entry (0 ∷ []) (other_obj 300) empty)

abbrev tree : Tree
tree = leaf count three_hundred (node child (leaf inner_count three_hundred done) done)

inner_dict-DictOf : DictOf runtime schema names 1 1 inner_dict (leaf inner_count three_hundred done)
unfolding get_item_string is_packed_repeated py_to_lwpb
inner_dict-DictOf = (
  count_desc ∷ [],
  refl,
  (
    refl,
    (
      leaf inner_count three_hundred done,
      done,
      (done, omega arith, refl, (three_hundred, refl, refl)),
      refl,
      refl,
    ),
  ),
)

dict-DictOf : DictOf runtime schema names 2 0 (py_dict dict) tree
unfolding get_item_string is_packed_repeated py_to_lwpb
dict-DictOf =
    let inside : Tree = node child (leaf inner_count three_hundred done) done in
    (
      parent.fields,
      refl,
      (
        refl,
        (
          leaf count three_hundred done,
          inside,
          (done, omega arith, refl, (three_hundred, refl, refl)),
          (
            refl,
            (
              inside,
              done,
              (
                done,
                omega arith,
                refl,
                (1, leaf inner_count three_hundred done, refl, inner_dict-DictOf, refl),
              ),
              refl,
              refl,
            ),
          ),
          refl,
        ),
      ),
    )

tree-IsTree : IsTree schema 0 tree
unfolding tree_bytes field_bytes encode_value field_key varint groups is_packed_repeated read_word64
tree-IsTree = (
  count-IsKnown,
  omega arith,
  tt,
  (child-IsKnown, refl, omega arith, (1, refl, one_field-IsMessage), tt),
)

counted-tree : counted tree ≡ 18
unfolding field_bytes encode_value field_key varint groups is_packed_repeated read_word64
counted-tree = refl

length-tree : length (tree_bytes tree) ≡ 8
unfolding tree_bytes field_bytes encode_value field_key varint groups is_packed_repeated read_word64
length-tree = refl

abbrev fresh : Encoder2
fresh = record { packed = true }

decode-encoder_encode_example :
    (string : List ℕ) × (encoder_encode runtime schema names (λ n. true) 2 fresh dict 0
      ≡ ret (some string, none, unpacked))
    × (decode log (store mem 0 string) 0 schema 0 (length string) garbage []
        ≡ ret (err_ok, 1 ∷ 3 ∷ 1 ∷ [], length string))
decode-encoder_encode_example =
    decode-encoder_encode log runtime schema names (λ n. true) 2 fresh dict 0 tree mem 0 garbage []
      dict-DictOf tree-IsTree (tt, tt) (omega (arith, counted-tree)) refl
      (omega (arith, length-tree)) (omega arith)

-- A message with another one as its only field.
abbrev only_child : Schema
only_child = record { fields = child_desc ∷ [] } ∷ record { fields = count_desc ∷ [] } ∷ []

nested_scalar-fault_example :
    encoder_encode runtime only_child names
      (λ n. true)
      2
      fresh
      (entry (0 ∷ []) (py_str (104 ∷ [])) empty)
      0
    ≡ fault
nested_scalar-fault_example =
    nested_scalar-fault runtime only_child names 0 0 1 child_desc
      (entry (0 ∷ []) (py_str (104 ∷ [])) empty) (py_str (104 ∷ [])) refl
      (unfold get_item_string in refl) refl (unfold is_packed_repeated in refl) refl tt (λ n. true)
      fresh (λ n h. refl)

abbrev big_desc : FieldDesc
big_desc = record { number = 1; label = optional; typ = int64; is_packed = false; msg_desc = none }

abbrev big_schema : Schema
big_schema = record { fields = big_desc ∷ [] } ∷ []

int64-fault_example :
    encoder_encode runtime big_schema names
      (λ n. true)
      1
      fresh
      (entry (0 ∷ []) (other_obj 5) empty)
      0
    ≡ fault
int64-fault_example =
    int64-fault runtime big_schema names (λ n. true) 0 0 fresh big_desc []
      (entry (0 ∷ []) (other_obj 5) empty) (other_obj 5) (other_obj 5) 5 refl
      (unfold get_item_string in refl) (unfold is_packed_repeated in refl) tt tt refl refl
