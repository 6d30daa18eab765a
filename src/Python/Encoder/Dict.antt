-- ===== src/Python/Encoder/Dict.antt =====
-- Which message a Python dict stands for, and how long python/encoder.c takes it to be.
use lwpb.Common.{
  ℕ, zero, suc, ◌+◌, ◌^◌, ◌<◌, ◌≤◌, ◌≡◌, arith, false, none, some, List, [], ◌∷◌, length, get_elem?,
  if◌then◌else◌,
}
use lwpb.Types.{Schema, FieldDesc, FieldRef, Value, is_message, is_packed_repeated, ret}
use lwpb.Varint.Spec.{varint}
use lwpb.Encoder.{field_key}
use lwpb.Decoder.Field.{bytes_of}
use lwpb.Message.Tree.{Tree, done, leaf, node}
use lwpb.Message.Tree.Concat.{concat}
use lwpb.Message.Tree.Encode.{needs}
use lwpb.Python.{Obj, py_dict, Items, nil, cons, Entries, get_item_string, Runtime}
use lwpb.Python.Primitives.{py_to_lwpb}
use lwpb.Python.Encoder.{as_list}

abbrev pub field_at : ℕ → ℕ → FieldDesc → FieldRef
field_at owner i d = record { owner = owner; index = i; desc = d }

-- The entries of a message in the order of its fields: each field that the dict has, outside packed
-- mode, with its values in the order of the list; the values are converted as python/primitives.c
-- does, without an exception, and a dict is a message inside. `fuel` bounds how deep dicts lie.
module _ (rt : Runtime) (schema : Schema) (field_name : ℕ → ℕ → List ℕ) where
  module _ (Nested : ℕ → Obj → Tree → Type 0) where
    abbrev pub ValueOf : FieldRef → Obj → Tree → Tree → Type 0
    ValueOf field pyval rest t =
        if is_message field.desc.typ
        then ((i : ℕ) × (inner : Tree) × (field.desc.msg_desc ≡ some i)
            × Nested i pyval inner
            × (t ≡ node field inner rest))
        else ((v : Value) × (py_to_lwpb rt field.desc.typ pyval ≡ ret (some v, none))
            × (t ≡ leaf field v rest))

    -- The values from value `j` on, of fewer than 2^32.
    abbrev pub ValuesOf : FieldRef → ℕ → Items → Tree → Type 0
    ValuesOf field j nil t = t ≡ done
    ValuesOf field j (cons pyval pyvals) t =
        (rest : Tree) × (j + 1 < 2 ^ 32)
        × ValuesOf field (j + 1) pyvals rest
        × ValueOf field pyval rest t

    -- The values of a field that the dict has, in front of the entries of the fields behind it.
    abbrev pub FieldOf : FieldRef → Obj → (Tree → Type 0) → Tree → Type 0
    FieldOf field pyval Rest t =
        (is_packed_repeated field.desc ≡ false)
        × ((values : Tree) × (rest : Tree) × ValuesOf field 0 (as_list pyval) values
            × Rest rest
            × (t ≡ concat values rest))

    abbrev pub FieldsOf : ℕ → ℕ → List FieldDesc → Entries → Tree → Type 0
    FieldsOf owner i [] dict t = t ≡ done
    FieldsOf owner i (d ∷ ds) dict t = elim (get_item_string dict (field_name owner i)) [
      | none ↦ FieldsOf owner (i + 1) ds dict t
      | some pyval ↦ FieldOf (field_at owner i d) pyval (FieldsOf owner (i + 1) ds dict) t
    ]

  abbrev pub DictOf : ℕ → ℕ → Obj → Tree → Type 0
  DictOf zero msg obj t = ⊥
  DictOf (suc fuel) msg (py_dict dict) t =
      (fields : List FieldDesc) × (get_elem? schema msg ≡ some (record { fields = fields }))
      × FieldsOf (DictOf fuel) msg 0 fields dict t
  DictOf (suc fuel) msg obj t = ⊥

-- What the counting pass adds for the reserves, and for the rest, where the length of a message
-- inside is counted with its reserves.
abbrev pub count_extra : Tree → ℕ
count_extra done = 0
count_extra (leaf field v rest) = count_extra rest
count_extra (node field inner rest) = 10 + count_extra rest

abbrev pub count_plain : Tree → ℕ
count_plain done = 0
count_plain (leaf field v rest) = length (bytes_of field v) + count_plain rest
count_plain (node field inner rest) =
    let n = count_plain inner + count_extra inner in
    length (varint (field_key 2 field.desc.number)) + (length (varint n) + n) + count_plain rest

abbrev pub counted : Tree → ℕ
counted t = count_plain t + count_extra t

-- The length that is counted is room enough.
pub needs-le-counted : (t : Tree) → needs t ≤ counted t
needs-le-counted done = omega arith
needs-le-counted (leaf field v rest) = omega (arith, needs-le-counted rest)
needs-le-counted (node field inner rest) =
    omega (arith, needs-le-counted inner, needs-le-counted rest)

pub count_plain-concat : (t u : Tree) → count_plain (concat t u) ≡ count_plain t + count_plain u
count_plain-concat done u = omega arith
count_plain-concat (leaf field v rest) u = omega (arith, count_plain-concat rest u)
count_plain-concat (node field inner rest) u = omega (arith, count_plain-concat rest u)

pub count_extra-concat : (t u : Tree) → count_extra (concat t u) ≡ count_extra t + count_extra u
count_extra-concat done u = omega arith
count_extra-concat (leaf field v rest) u = count_extra-concat rest u
count_extra-concat (node field inner rest) u = omega (arith, count_extra-concat rest u)
