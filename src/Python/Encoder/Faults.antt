-- ===== src/Python/Encoder/Faults.antt =====
-- Where `Encoder_encode` (python/encoder.c, python/primitives.c) runs into undefined behaviour.
use lwpb.Common.{
  ℕ, suc, ◌+◌, ◌-◌, ◌%◌, ◌^◌, ◌≤◌, ◌<◌, ◌≡◌, refl, ◌∙◌, arith, true, false, Bool, Option, none,
  some, List, [], ◌∷◌, length, get_elem?, leb-false, ltb-false,
}
use lwpb.Types.{
  Schema, FieldDesc, FieldType, int64, sint64, sfixed64, message, is_message, is_packed_repeated,
  word32, read_word64, block, inside, outside, find_desc_lem, Run, ret, fault,
}
use lwpb.Buf.{Memory}
use lwpb.Varint.Spec.{varint, groups, store, size-store, length-varint-le}
use lwpb.Varint.Encode.{encode_varint2_lem, encode_varint2_count}
use lwpb.Copy.{fetch, mem_move}
use lwpb.Wire.{encode_value, unset}
use lwpb.Encoder.{field_key}
use lwpb.Encoder.Field.{field_key-lt}
use lwpb.Encoder2.{Encoder2, start2, add_field2, write_value2, copy_block}
use lwpb.Encoder2.Field.{unpacked}
use lwpb.Encoder2.Nested.{add_message2_count, choose_message}
use lwpb.Python.{
  Obj, py_bool, py_str, py_list, py_dict, other_obj, nil, cons, Entries, get_item_string, Exception,
  type_error, Runtime,
}
use lwpb.Python.Primitives.{convert_to_long, py_to_lwpb}
use lwpb.Python.Encoder.{
  State, as_list, add_size, minus_one, msg_reserve, field_value, encode_values, encode_field,
  encode_fields, pyobject_encode, encoder_encode, zeros,
}
use lwpb.Python.Encoder.RoundTrip.{get_elem?-lt}
use lwpb.Python.Encoder.Step.{choose_plain, at_state, message_value, one_value, one_field}

-- An object that is neither a list nor a dict.
abbrev pub IsScalar : Obj → Type 0
IsScalar (py_list xs) = ⊥
IsScalar (py_dict d) = ⊥
IsScalar _ = Unit {0}

length-varint-minus_one : length (varint minus_one) ≡ 10
unfolding varint groups
length-varint-minus_one = refl

-- The move of 2^64 - 1 bytes.
move_fault :
    (m : Memory) (dest q : ℕ) → m.size < 2 ^ 63 → mem_move m dest (inside q) minus_one ≡ fault
unfolding mem_move fetch
move_fault m dest q small = rw (leb-false (q + minus_one) m.size (omega arith)) refl

add_message2_fault :
    (m : Memory) (d : FieldDesc) (p q : ℕ)
    → d.typ ≡ message
    → is_packed_repeated d ≡ false
    → m.size < 2 ^ 63
    → p + 15 ≤ m.size
    → add_field2 m unpacked d (block (inside q) minus_one) (some p) ≡ fault
unfolding add_field2 write_value2 copy_block
add_message2_fault m d p q typ plain small fits =
    let key = varint (field_key 2 d.number) in
    let lt = field_key-lt 2 d.number (omega arith) in
    let key_len = length-varint-le (field_key 2 d.number) (omega arith) in
    let m1 = store m p key in
    let size1 = size-store m p key in
    let p1 = p + length key in
    let m2 = store m1 p1 (varint minus_one) in
    let size2 = size-store m1 p1 (varint minus_one) in
    rw
      (
        choose_message d typ plain (inside q) minus_one,
        encode_varint2_lem m p (field_key 2 d.number) (omega arith) (omega arith),
        encode_varint2_lem m1 p1 minus_one (omega arith) (omega (arith, length-varint-minus_one)),
        typ,
        move_fault m2 (p1 + length (varint minus_one)) q (omega arith),
      )
      refl

as_list-scalar : (x : Obj) → IsScalar x → as_list x ≡ cons x nil
as_list-scalar (py_list xs) scalar = absurd scalar
as_list-scalar (py_dict dict) scalar = absurd scalar
as_list-scalar (py_bool b) scalar = refl
as_list-scalar (py_str s) scalar = refl
as_list-scalar (other_obj k) scalar = refl

module _ (rt : Runtime) (schema : Schema) (field_name : ℕ → ℕ → List ℕ) where
  -- What is no dict cannot be a message.
  scalar_message :
      (fuel : ℕ) (m : Memory) (ex : Option Exception) (i : ℕ) (x : Obj) (buf : Option ℕ)
      → IsScalar x
      → pyobject_encode rt schema field_name (suc fuel) (at_state m ex) i x buf
        ≡ ret (minus_one, at_state m (some type_error))
  unfolding pyobject_encode
  scalar_message fuel m ex i (py_list xs) buf scalar = absurd scalar
  scalar_message fuel m ex i (py_dict dict) buf scalar = absurd scalar
  scalar_message fuel m ex i (py_bool b) buf scalar = refl
  scalar_message fuel m ex i (py_str s) buf scalar = refl
  scalar_message fuel m ex i (other_obj k) buf scalar = refl

  module _ (fuel msgnum i : ℕ) (d : FieldDesc) (dict : Entries) (x : Obj)
      (known : get_elem? schema msgnum ≡ some (record { fields = d ∷ [] }))
      (found : get_item_string dict (field_name msgnum 0) ≡ some x) (typ : d.typ ≡ message)
      (plain : is_packed_repeated d ≡ false) (desc : d.msg_desc ≡ some i)
      (scalar : IsScalar x) where
    is_msg : is_message d.typ ≡ true
    is_msg = rw typ refl

    abbrev nested : State → ℕ → Obj → Option ℕ → Run (ℕ × State)
    nested = pyobject_encode rt schema field_name (suc fuel)

    count_values_scalar :
        encode_values rt schema field_name nested (at_state (zeros 0) none) d 0 (as_list x) none 0 0
        ≡ ret (
          some (length (varint (field_key 2 d.number)) + 9, 10),
          at_state (zeros 0) (some type_error),
        )
    unfolding encode_values
    count_values_scalar =
        let k = length (varint (field_key 2 d.number)) in
        let lt = field_key-lt 2 d.number (omega arith) in
        let key_len = length-varint-le (field_key 2 d.number) (omega arith) in
        let n = k + (length (varint minus_one) + minus_one) in
        let e : add_size 0 n ≡ k + 9 = omega (arith, length-varint-minus_one) in
        let first =
          one_value rt schema field_name nested (zeros 0) (zeros 0) (zeros 0) none (some type_error)
            d x nil none 0 0 0 n (block (outside []) minus_one) (omega arith)
            (message_value rt schema field_name nested (at_state (zeros 0) none)
              (at_state (zeros 0) (some type_error)) d x none i minus_one is_msg desc
              (scalar_message fuel (zeros 0) none i x none scalar))
            (add_message2_count d typ plain (zeros 0) (outside []) minus_one (omega arith)) in
        rw (as_list-scalar x scalar) (first ∙ rw (e, is_msg) refl)

    -- The counting pass takes the error for a length, which wraps around.
    count_scalar_message :
        pyobject_encode rt schema field_name
          (suc (suc fuel))
          (at_state (zeros 0) none)
          msgnum
          (py_dict dict)
          none
        ≡ ret (length (varint (field_key 2 d.number)) + 19, at_state (zeros 0) (some type_error))
    unfolding pyobject_encode
    count_scalar_message =
        let k = length (varint (field_key 2 d.number)) in
        let lt = field_key-lt 2 d.number (omega arith) in
        let key_len = length-varint-le (field_key 2 d.number) (omega arith) in
        let e : add_size (add_size 0 (k + 9)) 10 ≡ k + 19 = omega arith in
        let field =
          one_field rt schema field_name nested (at_state (zeros 0) none)
            (at_state (zeros 0) (some type_error)) msgnum 0 d [] dict none 0 0 (k + 9) 10 x found
            plain count_values_scalar in
        rw (find_desc_lem schema msgnum (record { fields = d ∷ [] }) known, field)
          (unfold encode_fields in rw e refl)

    -- The writing pass moves that many bytes.
    write_scalar_message :
        (m : Memory) (ex : Option Exception)
        → m.size < 2 ^ 63
        → 15 ≤ m.size
        → pyobject_encode rt schema field_name
            (suc (suc fuel))
            (at_state m ex)
            msgnum
            (py_dict dict)
            (some 0)
          ≡ fault
    unfolding pyobject_encode encode_values encode_field encode_fields
    write_scalar_message m ex small fits =
        rw
          (
            find_desc_lem schema msgnum (record { fields = d ∷ [] }) known,
            found,
            encode_fields,
            plain,
            as_list-scalar x scalar,
            message_value rt schema field_name nested (at_state m ex) (at_state m (some type_error))
                d x (some 0) i minus_one is_msg desc
                (scalar_message fuel m ex i x (some (0 + msg_reserve)) scalar),
            add_message2_fault m d 0 (0 + msg_reserve) typ plain small (omega arith),
          )
          refl

    -- Let a message type have one field, a message outside packed mode, and let a dict have for it
    -- an object that is neither a list nor a dict. If `calloc` succeeds for less than 32 bytes,
    -- `Encoder.encode` of the Python bindings runs into undefined behaviour: it takes the error of
    -- the inner call for a length, and moves 2^64 - 1 bytes.
    pub nested_scalar-fault :
        (calloc : ℕ → Bool) (enc : Encoder2)
        → ((n : ℕ) → n < 32 → calloc n ≡ true)
        → encoder_encode rt schema field_name calloc (suc (suc fuel)) enc dict msgnum ≡ fault
    unfolding encoder_encode start2
    nested_scalar-fault calloc enc allocated =
        let k = length (varint (field_key 2 d.number)) in
        let lt = field_key-lt 2 d.number (omega arith) in
        let key_len = length-varint-le (field_key 2 d.number) (omega arith) in
        rw
          (
            leb-false (length schema) msgnum (get_elem?-lt schema msgnum known),
            count_scalar_message,
            allocated (k + 19) (omega arith),
            write_scalar_message (zeros (k + 19)) (some type_error) (omega arith) (omega arith),
          )
          refl

-- The signed types of 64 bits.
abbrev pub IsInt64 : FieldType → Type 0
IsInt64 int64 = Unit {0}
IsInt64 sint64 = Unit {0}
IsInt64 sfixed64 = Unit {0}
IsInt64 _ = ⊥

-- No number of type long is out of these bounds.
convert_any :
    (rt : Runtime) (x o : Obj) (l : ℕ)
    → rt.number_int x ≡ some o
    → rt.int_as_long o ≡ some l
    → convert_to_long rt x (2 ^ 63) (2 ^ 63 - 1) ≡ ret (some l, none)
unfolding convert_to_long
convert_any rt x o l number long =
    let top : (2 ^ 63 - 1 + 2 ^ 63) % 2 ^ 64 ≡ 2 ^ 64 - 1 = omega arith in
    rw
      (
        number,
        convert_to_long,
        long,
        ltb-false (2 ^ 64 - 1) ((l + 2 ^ 63) % 2 ^ 64) (omega arith),
        ltb-false ((l + 2 ^ 63) % 2 ^ 64) 0 (omega arith),
      )
      refl

-- 32 bits are stored.
half_stored :
    (rt : Runtime) (t : FieldType) (x o : Obj) (l : ℕ)
    → IsInt64 t
    → rt.number_int x ≡ some o
    → rt.int_as_long o ≡ some l
    → py_to_lwpb rt t x ≡ ret (some (word32 (l % 2 ^ 32)), none)
unfolding py_to_lwpb
half_stored rt int64 x o l wide number long = rw (convert_any rt x o l number long) refl
half_stored rt sint64 x o l wide number long = rw (convert_any rt x o l number long) refl
half_stored rt sfixed64 x o l wide number long = rw (convert_any rt x o l number long) refl
half_stored rt _ x o l wide number long = absurd wide

-- 64 bits are read.
half_read : (t : FieldType) (l : ℕ) → IsInt64 t → encode_value t (word32 l) ≡ unset
unfolding encode_value read_word64
half_read int64 l wide = refl
half_read sint64 l wide = refl
half_read sfixed64 l wide = refl
half_read _ l wide = absurd wide

no_message : (t : FieldType) → IsInt64 t → is_message t ≡ false
no_message int64 wide = refl
no_message sint64 wide = refl
no_message sfixed64 wide = refl
no_message _ wide = absurd wide

-- Let the first field of a message type have a signed type of 64 bits, outside packed mode, and let
-- a dict have for it an object, neither a list nor a dict, that the runtime converts to an int. Then
-- `Encoder.encode` of the Python bindings runs into undefined behaviour: it stores 32 bits of the
-- value and reads 64.
pub int64-fault :
    (rt : Runtime) (schema : Schema) (field_name : ℕ → ℕ → List ℕ) (calloc : ℕ → Bool)
    (fuel msgnum : ℕ) (enc : Encoder2) (d : FieldDesc) (ds : List FieldDesc) (dict : Entries)
    (x o : Obj) (l : ℕ)
    → get_elem? schema msgnum ≡ some (record { fields = d ∷ ds })
    → get_item_string dict (field_name msgnum 0) ≡ some x
    → is_packed_repeated d ≡ false
    → IsInt64 d.typ
    → IsScalar x
    → rt.number_int x ≡ some o
    → rt.int_as_long o ≡ some l
    → encoder_encode rt schema field_name calloc (suc fuel) enc dict msgnum ≡ fault
unfolding encoder_encode start2 pyobject_encode encode_values encode_field encode_fields field_value
    add_field2 write_value2
int64-fault rt schema field_name calloc fuel msgnum enc d ds dict x o l known found plain wide
      scalar number long =
    let lt = field_key-lt 0 d.number (omega arith) in
    rw
      (
        leb-false (length schema) msgnum (get_elem?-lt schema msgnum known),
        find_desc_lem schema msgnum (record { fields = d ∷ ds }) known,
        found,
        encode_fields,
        plain,
        as_list-scalar x scalar,
        no_message d.typ wide,
        half_stored rt d.typ x o l wide number long,
        choose_plain d (word32 (l % 2 ^ 32)) plain,
        half_read d.typ (l % 2 ^ 32) wide,
        encode_varint2_count (zeros 0) (field_key 0 d.number) (omega arith),
      )
      refl
