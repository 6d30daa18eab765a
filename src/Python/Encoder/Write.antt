-- ===== src/Python/Encoder/Write.antt =====
-- The writing pass of `Encoder_encode` (python/encoder.c): the message's bytes are stored at the
-- pointer, with no more room than counted.
use lwpb.Common.{
  ℕ, zero, suc, ◌+◌, ◌^◌, ◌≤◌, ◌<◌, ◌≡◌, refl, ap, ◌∙◌, arith, true, false, Option, none, some,
  List, [], ◌∷◌, ◌++◌, length, length-append, inl, inr, Bool-cases,
}
use lwpb.Types.{
  Schema, FieldDesc, FieldRef, Value, block, inside, message, is_message, is_packed_repeated,
  find_desc_lem, ret,
}
use lwpb.Buf.{Memory}
use lwpb.Varint.Spec.{Holds, Holds-store, store, size-store}
use lwpb.Copy.{load-Holds}
use lwpb.Wire.RoundTrip.{IsValueOf, encode_value-IsOut}
use lwpb.Wire.{encode_value}
use lwpb.Encoder.Field.{IsOutside}
use lwpb.Encoder.Nested.{framed_bytes}
use lwpb.Encoder2.{add_field2}
use lwpb.Encoder2.Field.{unpacked, add_field2_lem}
use lwpb.Encoder2.Nested.{add_message2_lem}
use lwpb.Decoder.Field.{bytes_of}
use lwpb.Message.Tree.{Tree, leaf, node, node_bytes, tree_bytes, IsTree}
use lwpb.Message.Tree.Encode.{
  needs, length-node_bytes-le, length-tree_bytes-le, Kept, Kept-trans, Kept-store,
  Holds-Kept-append,
}
use lwpb.Message.Tree.Concat.{concat, tree_bytes-concat, needs-concat, IsTree-concat}
use lwpb.Python.{Obj, py_dict, Items, nil, cons, Entries, get_item_string, Exception, Runtime}
use lwpb.Python.Primitives.{py_to_lwpb}
use lwpb.Python.Encoder.{
  add_size, msg_reserve, as_list, encode_values, encode_fields, pyobject_encode,
}
use lwpb.Python.Encoder.Dict.{field_at, ValuesOf, FieldsOf, DictOf}
use lwpb.Python.Encoder.Step.{
  Option-cases, message_type, choose_plain, at_state, scalar_value, message_value, one_value,
  absent_field, one_field,
}

write_scalar :
    (m : Memory) (field : FieldRef) (v : Value) (p : ℕ)
    → is_packed_repeated field.desc ≡ false
    → IsValueOf field.desc.typ v
    → IsOutside (encode_value field.desc.typ v)
    → p + length (bytes_of field v) ≤ m.size
    → add_field2 m unpacked field.desc v (some p)
      ≡ ret (length (bytes_of field v), store m p (bytes_of field v))
write_scalar m field v p plain val o fits =
    let writing = add_field2_lem m field.desc v p in
    let writing' = rw (choose_plain field.desc v plain) at writing in
    writing' (encode_value-IsOut field.desc.typ v val) o fits

-- A message whose bytes stand ten bytes behind its place.
write_message :
    (m : Memory) (field : FieldRef) (bs : List ℕ) (p : ℕ)
    → field.desc.typ ≡ message
    → is_packed_repeated field.desc ≡ false
    → length bs < 2 ^ 35
    → p + msg_reserve + length bs ≤ m.size
    → Holds m (p + msg_reserve) bs
    → add_field2 m unpacked field.desc (block (inside (p + msg_reserve)) (length bs)) (some p)
      ≡ ret (length (node_bytes field bs), store m p (node_bytes field bs))
unfolding framed_bytes
write_message m field bs p typ plain small fits at =
    let writing =
      add_message2_lem field.desc typ plain m p (p + msg_reserve) (length bs) small (omega arith)
        fits in
    let writing' = rw (load-Holds m (p + msg_reserve) bs at) at writing in writing'

module _ (rt : Runtime) (schema : Schema) (field_name : ℕ → ℕ → List ℕ)
    (ex : Option Exception) where
  -- A dict is written at a pointer, and what stands in front of it is kept.
  abbrev WritesDicts : ℕ → Type 0
  WritesDicts fuel =
      (i : ℕ) (obj : Obj) (t : Tree) (m : Memory) (p : ℕ)
      → DictOf rt schema field_name fuel i obj t
      → IsTree schema i t
      → needs t < 2 ^ 35
      → p + needs t ≤ m.size
      → (m' : Memory) × (pyobject_encode rt schema field_name fuel (at_state m ex) i obj (some p)
          ≡ ret (length (tree_bytes t), at_state m' ex))
        × Holds m' p (tree_bytes t)
        × Kept m m' p

  module _ (fuel : ℕ) where
    -- The loop over the values writes the entries `t`.
    abbrev WritesValues : FieldDesc → ℕ → Items → Tree → Memory → ℕ → ℕ → ℕ → Type 0
    WritesValues d j xs t m p fieldlen extralen =
        (m' : Memory) × (extra : ℕ) × (encode_values rt schema field_name
            (pyobject_encode rt schema field_name fuel) (at_state m ex) d j xs (some p) fieldlen
            extralen
          ≡ ret (some (fieldlen + length (tree_bytes t), extra), at_state m' ex))
        × Holds m' p (tree_bytes t)
        × Kept m m' p

    -- The bytes of one value, and the values behind it.
    then_values :
        (m m1 : Memory) (d : FieldDesc) (x : Obj) (xs : Items) (bs : List ℕ) (rest : Tree)
        (p j fieldlen extralen extralen' : ℕ)
        → fieldlen + length bs < 2 ^ 64
        → Holds m1 p bs
        → Kept m m1 p
        → encode_values rt schema field_name
            (pyobject_encode rt schema field_name fuel)
            (at_state m ex)
            d
            j
            (cons x xs)
            (some p)
            fieldlen
            extralen
          ≡ encode_values rt schema field_name
              (pyobject_encode rt schema field_name fuel)
              (at_state m1 ex)
              d
              (j + 1)
              xs
              (some (p + length bs))
              (add_size fieldlen (length bs))
              extralen'
        → WritesValues d (j + 1) xs rest m1 (p + length bs) (fieldlen + length bs) extralen'
        → (m' : Memory) × (extra : ℕ) × (encode_values rt schema field_name
              (pyobject_encode rt schema field_name fuel)
              (at_state m ex)
              d
              j
              (cons x xs)
              (some p)
              fieldlen
              extralen
            ≡ ret (some (fieldlen + length (bs ++ tree_bytes rest), extra), at_state m' ex))
          × Holds m' p (bs ++ tree_bytes rest)
          × Kept m m' p
    then_values m m1 d x xs bs rest p j fieldlen extralen extralen' small at kept first
          (m', extra, run, at', kept') =
        let e : add_size fieldlen (length bs) ≡ fieldlen + length bs = omega arith in
        let a : fieldlen + length bs + length (tree_bytes rest)
            ≡ fieldlen + length (bs ++ tree_bytes rest) =
          omega (arith, length-append bs (tree_bytes rest)) in
        let whole = Holds-Kept-append m m1 m' p bs (tree_bytes rest) at kept at' kept' in
        let first' = rw e at first in
        (
          m',
          extra,
          first' ∙ run ∙ ap (λ (k : ℕ). ret (some (k, extra), at_state m' ex)) a,
          whole.0,
          whole.1,
        )

    write_leaf :
        (field : FieldRef) (x : Obj) (xs : Items) (v : Value) (rest : Tree) (m : Memory)
        (p j fieldlen extralen : ℕ)
        → j + 1 < 2 ^ 32
        → is_message field.desc.typ ≡ false
        → is_packed_repeated field.desc ≡ false
        → py_to_lwpb rt field.desc.typ x ≡ ret (some v, none)
        → IsValueOf field.desc.typ v
        → IsOutside (encode_value field.desc.typ v)
        → fieldlen + length (bytes_of field v) < 2 ^ 64
        → p + length (bytes_of field v) ≤ m.size
        → WritesValues field.desc
            (j + 1)
            xs
            rest
            (store m p (bytes_of field v))
            (p + length (bytes_of field v))
            (fieldlen + length (bytes_of field v))
            extralen
        → WritesValues field.desc j (cons x xs) (leaf field v rest) m p fieldlen extralen
    unfolding tree_bytes
    write_leaf field x xs v rest m p j fieldlen extralen next scalar plain conv val o small fits
          more =
        let bs = bytes_of field v in
        let first =
          one_value rt schema field_name (pyobject_encode rt schema field_name fuel) m m
            (store m p bs) ex ex field.desc x xs (some p) j fieldlen extralen (length bs) v next
            (scalar_value rt schema field_name (pyobject_encode rt schema field_name fuel)
              (at_state m ex) field.desc x (some p) v scalar conv)
            (write_scalar m field v p plain val o fits) in
        then_values m (store m p bs) field.desc x xs bs rest p j fieldlen extralen extralen small
          (Holds-store m p bs) (Kept-store m p p bs (omega arith)) (rw scalar at first) more

    write_node :
        (field : FieldRef) (x : Obj) (xs : Items) (i : ℕ) (inner rest : Tree) (m m1 : Memory)
        (p j fieldlen extralen : ℕ)
        → j + 1 < 2 ^ 32
        → is_message field.desc.typ ≡ true
        → is_packed_repeated field.desc ≡ false
        → field.desc.msg_desc ≡ some i
        → pyobject_encode rt schema field_name fuel (at_state m ex) i x (some (p + msg_reserve))
          ≡ ret (length (tree_bytes inner), at_state m1 ex)
        → Holds m1 (p + msg_reserve) (tree_bytes inner)
        → Kept m m1 (p + msg_reserve)
        → length (tree_bytes inner) < 2 ^ 35
        → fieldlen + length (node_bytes field (tree_bytes inner)) < 2 ^ 64
        → p + msg_reserve + length (tree_bytes inner) ≤ m.size
        → WritesValues field.desc
            (j + 1)
            xs
            rest
            (store m1 p (node_bytes field (tree_bytes inner)))
            (p + length (node_bytes field (tree_bytes inner)))
            (fieldlen + length (node_bytes field (tree_bytes inner)))
            (add_size extralen msg_reserve)
        → WritesValues field.desc j (cons x xs) (node field inner rest) m p fieldlen extralen
    unfolding tree_bytes
    write_node field x xs i inner rest m m1 p j fieldlen extralen next is_msg plain desc run at kept
          small small' fits more =
        let bs = node_bytes field (tree_bytes inner) in
        let n = length (tree_bytes inner) in
        let m2 = store m1 p bs in
        let below : Kept m m1 p = (kept.0, λ q h. kept.1 q (omega arith)) in
        let first =
          one_value rt schema field_name (pyobject_encode rt schema field_name fuel) m m1 m2 ex ex
            field.desc x xs (some p) j fieldlen extralen (length bs)
            (block (inside (p + msg_reserve)) n) next
            (message_value rt schema field_name (pyobject_encode rt schema field_name fuel)
              (at_state m ex) (at_state m1 ex) field.desc x (some p) i n is_msg desc run)
            (write_message m1 field (tree_bytes inner) p (message_type field.desc is_msg) plain
              small (omega (arith, kept.0)) at) in
        then_values m m2 field.desc x xs bs rest p j fieldlen extralen
          (add_size extralen msg_reserve) small' (Holds-store m1 p bs)
          (Kept-trans m m1 m2 p p (omega arith) below (Kept-store m1 p p bs (omega arith)))
          (rw is_msg at first) more

    module _ (writes : WritesDicts fuel) where
      write_values :
          (owner : ℕ) (field : FieldRef) (xs : Items) (t : Tree) (m : Memory)
          (p j fieldlen extralen : ℕ)
          → ValuesOf rt schema field_name (DictOf rt schema field_name fuel) field j xs t
          → is_packed_repeated field.desc ≡ false
          → IsTree schema owner t
          → needs t < 2 ^ 35
          → fieldlen + needs t < 2 ^ 64
          → p + needs t ≤ m.size
          → WritesValues field.desc j xs t m p fieldlen extralen
      write_values owner field nil t m p j fieldlen extralen same plain good small small' fits =
          let z : fieldlen + 0 ≡ fieldlen = omega arith in
          rw same (
            m,
            extralen,
            (unfold encode_values tree_bytes in rw z refl),
            (unfold tree_bytes in tt),
            (refl, λ q h. refl),
          )
      write_values owner field (cons x xs) t m p j fieldlen extralen (rest, next, more, value) plain
            good small small' fits =
          elim (Bool-cases (is_message field.desc.typ)) [
            | inr scalar ↦
                let value' = rw scalar at value in
                let (v, conv, same) = value' in
                let good' = rw same at good in
                let small1 = rw same at small in
                let small2 = rw same at small' in
                let fits' = rw same at fits in
                let bs = bytes_of field v in
                let size1 = size-store m p bs in
                rw same (
                  write_leaf field x xs v rest m p j fieldlen extralen next scalar plain conv
                    good'.1 good'.2 (omega arith) (omega arith)
                    (write_values owner field xs rest (store m p bs) (p + length bs) (j + 1)
                      (fieldlen + length bs) extralen more plain good'.3 (omega arith) (omega arith)
                      (omega arith)))
            | inl is_msg ↦
                let value' = rw is_msg at value in
                let (i, inner, desc, dict, same) = value' in
                let good' = rw same at good in
                let small1 = rw same at small in
                let small2 = rw same at small' in
                let fits' = rw same at fits in
                let (i', desc', inner_good) = good'.3 in
                let same_type : i' ≡ i = cc in
                let here : IsTree schema i inner = rw same_type at inner_good in
                let short = length-tree_bytes-le inner (omega arith) in
                let whole = length-node_bytes-le field (tree_bytes inner) (omega arith) in
                let (m1, run, at, kept) =
                  writes i x inner m (p + msg_reserve) dict here (omega arith) (omega arith) in
                let bs = node_bytes field (tree_bytes inner) in
                let size1 = size-store m1 p bs in
                rw same (
                  write_node field x xs i inner rest m m1 p j fieldlen extralen next is_msg plain
                    desc run at kept (omega arith) (omega arith) (omega arith)
                    (write_values owner field xs rest (store m1 p bs) (p + length bs) (j + 1)
                      (fieldlen + length bs) (add_size extralen msg_reserve) more plain good'.4
                      (omega arith) (omega arith) (omega (arith, kept.0))))
          ]

      -- The loop over the fields writes the entries `t`.
      abbrev WritesFields : ℕ → ℕ → List FieldDesc → Entries → Tree → Memory → ℕ → ℕ → ℕ → Type 0
      WritesFields owner i ds dict t m p len extralen =
          (m' : Memory) × (extra : ℕ) × (encode_fields rt schema field_name
              (pyobject_encode rt schema field_name fuel) (at_state m ex) owner i ds dict (some p)
              len extralen
            ≡ ret (some (len + length (tree_bytes t), extra), at_state m' ex))
          × Holds m' p (tree_bytes t)
          × Kept m m' p

      -- The values of a field, and the fields behind it.
      then_fields :
          (m : Memory) (owner i : ℕ) (d : FieldDesc) (ds : List FieldDesc) (dict : Entries)
          (x : Obj) (values rest : Tree) (p len extralen : ℕ)
          → get_item_string dict (field_name owner i) ≡ some x
          → is_packed_repeated d ≡ false
          → len + length (tree_bytes values) < 2 ^ 64
          → (written : WritesValues d 0 (as_list x) values m p 0 extralen)
          → WritesFields owner
              (i + 1)
              ds
              dict
              rest
              written.0
              (p + length (tree_bytes values))
              (len + length (tree_bytes values))
              written.1
          → WritesFields owner i (d ∷ ds) dict (concat values rest) m p len extralen
      then_fields m owner i d ds dict x values rest p len extralen found plain small
            (m1, extra, run, at, kept) (m', extra', run', at', kept') =
          let n = length (tree_bytes values) in
          let z : 0 + n ≡ n = omega arith in
          let e : add_size len n ≡ len + n = omega arith in
          let joined = tree_bytes-concat values rest in
          let a : len + n + length (tree_bytes rest)
              ≡ len + length (tree_bytes values ++ tree_bytes rest) =
            omega (arith, length-append (tree_bytes values) (tree_bytes rest)) in
          let whole =
            Holds-Kept-append m m1 m' p (tree_bytes values) (tree_bytes rest) at kept at' kept' in
          let values_run = rw z at run in
          let first =
            one_field rt schema field_name (pyobject_encode rt schema field_name fuel)
              (at_state m ex) (at_state m1 ex) owner i d ds dict (some p) len extralen n extra x
              found plain values_run in
          let first' = rw e at first in
          rw joined (
            m',
            extra',
            first' ∙ run' ∙ ap (λ (k : ℕ). ret (some (k, extra'), at_state m' ex)) a,
            whole.0,
            whole.1,
          )

      write_fields :
          (owner i : ℕ) (ds : List FieldDesc) (dict : Entries) (t : Tree) (m : Memory)
          (p len extralen : ℕ)
          → FieldsOf rt schema field_name (DictOf rt schema field_name fuel) owner i ds dict t
          → IsTree schema owner t
          → needs t < 2 ^ 35
          → len + needs t < 2 ^ 64
          → p + needs t ≤ m.size
          → WritesFields owner i ds dict t m p len extralen
      write_fields owner i [] dict t m p len extralen same good small small' fits =
          let z : len + 0 ≡ len = omega arith in
          rw same (
            m,
            extralen,
            (unfold encode_fields tree_bytes in rw z refl),
            (unfold tree_bytes in tt),
            (refl, λ q h. refl),
          )
      write_fields owner i (d ∷ ds) dict t m p len extralen fields good small small' fits =
          elim (Option-cases (get_item_string dict (field_name owner i))) [
            | inl absent ↦
                let fields' = rw (absent, FieldsOf) at fields in
                let (m', extra, run, at, kept) =
                  write_fields owner (i + 1) ds dict t m p len extralen fields' good small small'
                    fits in
                let first =
                  absent_field rt schema field_name (pyobject_encode rt schema field_name fuel)
                    (at_state m ex) owner i d ds dict (some p) len extralen absent in
                (m', extra, first ∙ run, at, kept)
            | inr (x, found) ↦
                let fields' = rw (found, FieldsOf) at fields in
                let (plain, (values, rest, here, more, same)) = fields' in
                let good' = IsTree-concat schema owner values rest (rw same at good) in
                let parts = needs-concat values rest in
                let small1 = rw (same, parts) at small in
                let small2 = rw (same, parts) at small' in
                let fits' = rw (same, parts) at fits in
                let short = length-tree_bytes-le values (omega arith) in
                let written =
                  write_values owner (field_at owner i d) (as_list x) values m p 0 0 extralen here
                    plain good'.0 (omega arith) (omega arith) (omega arith) in
                let n = length (tree_bytes values) in
                rw same (
                  then_fields m owner i d ds dict x values rest p len extralen found plain
                    (omega arith) written
                    (write_fields owner (i + 1) ds dict rest written.0 (p + n) (len + n) written.1
                      more good'.1 (omega arith) (omega arith) (omega (arith, written.4.0))))
          ]

  pub write_dict : (fuel : ℕ) → WritesDicts fuel
  unfolding pyobject_encode
  write_dict zero i obj t m p dict good small fits = absurd dict
  write_dict (suc fuel) i (py_dict entries) t m p (fields, known, dict) good small fits =
      let z : 0 + length (tree_bytes t) ≡ length (tree_bytes t) = omega arith in
      let (m', extra, run, at, kept) =
        write_fields fuel (write_dict fuel) i 0 fields entries t m p 0 0 dict good small
          (omega arith) fits in
      (m', rw (find_desc_lem schema i (record { fields = fields }) known, run, z) refl, at, kept)
  write_dict (suc fuel) i obj t m p dict good small fits = absurd dict
