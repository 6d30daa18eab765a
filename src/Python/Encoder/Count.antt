-- ===== src/Python/Encoder/Count.antt =====
-- The counting pass of `Encoder_encode` (python/encoder.c): nothing is stored, and the length comes
-- out that the message is counted with.
use lwpb.Common.{
  ℕ, zero, suc, ◌+◌, ◌%◌, ◌^◌, ◌<◌, ◌≡◌, refl, ◌∙◌, arith, false, Option, none, some, List, [], ◌∷◌,
  length, inl, inr, Bool-cases,
}
use lwpb.Types.{
  Schema, FieldDesc, FieldRef, Value, block, outside, is_message, is_packed_repeated, find_desc_lem,
  ret,
}
use lwpb.Buf.{Memory}
use lwpb.Varint.Spec.{varint}
use lwpb.Wire.RoundTrip.{IsValueOf, encode_value-IsOut}
use lwpb.Wire.{encode_value}
use lwpb.Encoder.{field_key}
use lwpb.Encoder.Field.{IsOutside}
use lwpb.Encoder2.{add_field2}
use lwpb.Encoder2.Field.{unpacked, add_field2_count}
use lwpb.Encoder2.Nested.{add_message2_count}
use lwpb.Decoder.Field.{bytes_of}
use lwpb.Message.Tree.{Tree, IsTree}
use lwpb.Message.Tree.Concat.{IsTree-concat}
use lwpb.Python.{Obj, py_dict, Items, nil, cons, Entries, get_item_string, Exception, Runtime}
use lwpb.Python.Encoder.{
  add_size, msg_reserve, as_list, encode_values, encode_fields, pyobject_encode,
}
use lwpb.Python.Encoder.Dict.{
  field_at, ValuesOf, FieldsOf, DictOf, count_plain, count_extra, counted, count_plain-concat,
  count_extra-concat,
}
use lwpb.Python.Encoder.Step.{
  Option-cases, message_type, choose_plain, at_state, scalar_value, message_value, one_value,
  absent_field, one_field,
}

count_scalar :
    (m : Memory) (d : FieldDesc) (v : Value)
    → is_packed_repeated d ≡ false
    → IsValueOf d.typ v
    → IsOutside (encode_value d.typ v)
    → add_field2 m unpacked d v none ≡ ret (length (bytes_of (field_at 0 0 d) v), m)
count_scalar m d v plain val o =
    let counting = add_field2_count m d v in
    let counting' = rw (choose_plain d v plain) at counting in
    counting' (encode_value-IsOut d.typ v val) o

module _ (rt : Runtime) (schema : Schema) (field_name : ℕ → ℕ → List ℕ) (m : Memory)
    (ex : Option Exception) where
  -- A dict is counted right.
  abbrev CountsDicts : ℕ → Type 0
  CountsDicts fuel =
      (i : ℕ) (obj : Obj) (t : Tree)
      → DictOf rt schema field_name fuel i obj t
      → IsTree schema i t
      → counted t < 2 ^ 64
      → pyobject_encode rt schema field_name fuel (at_state m ex) i obj none
        ≡ ret (counted t, at_state m ex)

  module _ (fuel : ℕ) (counts : CountsDicts fuel) where
    count_values :
        (owner : ℕ) (field : FieldRef) (j : ℕ) (xs : Items) (t : Tree) (fieldlen extralen : ℕ)
        → ValuesOf rt schema field_name (DictOf rt schema field_name fuel) field j xs t
        → is_packed_repeated field.desc ≡ false
        → IsTree schema owner t
        → fieldlen + count_plain t < 2 ^ 64
        → extralen + count_extra t < 2 ^ 64
        → encode_values rt schema field_name
            (pyobject_encode rt schema field_name fuel)
            (at_state m ex)
            field.desc
            j
            xs
            none
            fieldlen
            extralen
          ≡ ret (some (fieldlen + count_plain t, extralen + count_extra t), at_state m ex)
    count_values owner field j nil t fieldlen extralen same plain good small small' =
        let z : fieldlen + 0 ≡ fieldlen = omega arith in
        let z' : extralen + 0 ≡ extralen = omega arith in
        unfold encode_values in rw (same, z, z') refl
    count_values owner field j (cons x xs) t fieldlen extralen (rest, next, more, value) plain good
          small small' =
        elim (Bool-cases (is_message field.desc.typ)) [
          | inr scalar ↦
              let value' = rw scalar at value in
              let (v, conv, same) = value' in
              let good' = rw same at good in
              let small1 = rw same at small in
              let small2 = rw same at small' in
              let n = length (bytes_of field v) in
              let e : add_size fieldlen n ≡ fieldlen + n = omega arith in
              let a : fieldlen + n + count_plain rest ≡ fieldlen + (n + count_plain rest) =
                omega arith in
              one_value rt schema field_name (pyobject_encode rt schema field_name fuel) m m m ex ex
                field.desc x xs none j fieldlen extralen n v next
                (scalar_value rt schema field_name (pyobject_encode rt schema field_name fuel)
                  (at_state m ex) field.desc x none v scalar conv)
                (count_scalar m field.desc v plain good'.1 good'.2)
              ∙ rw (e, scalar)
                  (count_values owner field (j + 1) xs rest (fieldlen + n) extralen more plain
                      good'.3 (omega arith) small2
                    ∙ rw (same, a) refl)
          | inl is_msg ↦
              let value' = rw is_msg at value in
              let (i, inner, desc, dict, same) = value' in
              let good' = rw same at good in
              let small1 = rw same at small in
              let small2 = rw same at small' in
              let c = counted inner in
              let n = length (varint (field_key 2 field.desc.number)) + (length (varint c) + c) in
              let (i', desc', inner_good) = good'.3 in
              let e : add_size fieldlen n ≡ fieldlen + n = omega arith in
              let e' : add_size extralen msg_reserve ≡ extralen + 10 = omega arith in
              let a : fieldlen + n + count_plain rest ≡ fieldlen + (n + count_plain rest) =
                omega arith in
              let a' : extralen + 10 + count_extra rest ≡ extralen + (10 + count_extra rest) =
                omega arith in
              let same_type : i' ≡ i = cc in
              let here : IsTree schema i inner = rw same_type at inner_good in
              one_value rt schema field_name (pyobject_encode rt schema field_name fuel) m m m ex ex
                field.desc x xs none j fieldlen extralen n (block (outside []) c) next
                (message_value rt schema field_name (pyobject_encode rt schema field_name fuel)
                  (at_state m ex) (at_state m ex) field.desc x none i c is_msg desc
                  (counts i x inner dict here (omega arith)))
                (add_message2_count field.desc (message_type field.desc is_msg) plain m (outside [])
                  c (omega arith))
              ∙ rw (e, is_msg, e')
                  (count_values owner field (j + 1) xs rest (fieldlen + n) (extralen + 10) more
                      plain good'.4 (omega arith) (omega arith)
                    ∙ rw (same, a, a') refl)
        ]

    count_fields :
        (owner i : ℕ) (ds : List FieldDesc) (dict : Entries) (t : Tree) (len extralen : ℕ)
        → FieldsOf rt schema field_name (DictOf rt schema field_name fuel) owner i ds dict t
        → IsTree schema owner t
        → len + count_plain t < 2 ^ 64
        → extralen + count_extra t < 2 ^ 64
        → encode_fields rt schema field_name
            (pyobject_encode rt schema field_name fuel)
            (at_state m ex)
            owner
            i
            ds
            dict
            none
            len
            extralen
          ≡ ret (some (len + count_plain t, extralen + count_extra t), at_state m ex)
    count_fields owner i [] dict t len extralen same good small small' =
        let z : len + 0 ≡ len = omega arith in
        let z' : extralen + 0 ≡ extralen = omega arith in
        unfold encode_fields in rw (same, z, z') refl
    count_fields owner i (d ∷ ds) dict t len extralen fields good small small' =
        elim (Option-cases (get_item_string dict (field_name owner i))) [
          | inl absent ↦
              let fields' = rw (absent, FieldsOf) at fields in
              absent_field rt schema field_name (pyobject_encode rt schema field_name fuel)
                (at_state m ex) owner i d ds dict none len extralen absent
              ∙ count_fields owner (i + 1) ds dict t len extralen fields' good small small'
          | inr (x, found) ↦
              let fields' = rw (found, FieldsOf) at fields in
              let (plain, (values, rest, here, more, same)) = fields' in
              let good' = IsTree-concat schema owner values rest (rw same at good) in
              let plains = count_plain-concat values rest in
              let extras = count_extra-concat values rest in
              let small1 = rw (same, plains) at small in
              let small2 = rw (same, extras) at small' in
              let n = count_plain values in
              let k = count_extra values in
              let z : 0 + n ≡ n = omega arith in
              let e : add_size len n ≡ len + n = omega arith in
              let a : len + n + count_plain rest ≡ len + (n + count_plain rest) = omega arith in
              let a' : extralen + k + count_extra rest ≡ extralen + (k + count_extra rest) =
                omega arith in
              one_field rt schema field_name (pyobject_encode rt schema field_name fuel)
                (at_state m ex) (at_state m ex) owner i d ds dict none len extralen (0 + n)
                (extralen + k) x found plain
                (count_values owner (field_at owner i d) 0 (as_list x) values 0 extralen here plain
                  good'.0 (omega arith) (omega arith))
              ∙ rw (z, e)
                  (count_fields owner (i + 1) ds dict rest (len + n) (extralen + k) more good'.1
                      (omega arith) (omega arith)
                    ∙ rw (same, plains, extras, a, a') refl)
        ]

  pub count_dict : (fuel : ℕ) → CountsDicts fuel
  unfolding pyobject_encode
  count_dict zero i obj t dict good small = absurd dict
  count_dict (suc fuel) i (py_dict entries) t (fields, known, dict) good small =
      let sum : (0 + count_plain t + (0 + count_extra t)) % 2 ^ 64 ≡ counted t = omega arith in
      rw
        (
          find_desc_lem schema i (record { fields = fields }) known,
          count_fields fuel (count_dict fuel) i 0 fields entries t 0 0 dict good (omega arith)
              (omega arith),
          sum,
        )
        refl
  count_dict (suc fuel) i obj t dict good small = absurd dict
