-- ===== src/Python/Encoder/Step.antt =====
-- One turn of the loops of `pyobject_encode` (python/encoder.c), in either pass.
use lwpb.Common.{
  ◌^◌, ◌<◌, ltb-true, ℕ, ◌+◌, ◌≡◌, ◌⊎◌, refl, arith, true, false, Option, none, some, List, ◌∷◌,
  inl, inr, ltb-false, if◌then◌else◌,
}
use lwpb.Types.{
  Schema, FieldDesc, FieldType, Value, block, message, is_message, is_packed_repeated, Run, ret,
}
use lwpb.Buf.{Memory}
use lwpb.Wire.{encode_value}
use lwpb.Encoder.{choose_out}
use lwpb.Encoder2.{skip, add_field2}
use lwpb.Encoder2.Field.{unpacked}
use lwpb.Python.{Obj, Items, cons, Entries, get_item_string, Exception, Runtime}
use lwpb.Python.Primitives.{py_to_lwpb}
use lwpb.Python.Encoder.{
  State, as_list, add_size, msg_reserve, block_at, field_value, encode_values, encode_field,
  encode_fields,
}

pub Option-cases {ℓ} : {A : Type ℓ} (o : Option A) → (o ≡ none) ⊎ ((a : A) × (o ≡ some a))
Option-cases none = inl refl
Option-cases (some a) = inr (a, refl)

message_lem : (t : FieldType) → is_message t ≡ true → t ≡ message
message_lem message h = refl
message_lem _ h = cc

-- The type of a field that is a message.
pub message_type : (d : FieldDesc) → is_message d.typ ≡ true → d.typ ≡ message
message_type d h = message_lem d.typ h

pub choose_plain :
    (d : FieldDesc) (v : Value)
    → is_packed_repeated d ≡ false
    → choose_out false d v ≡ encode_value d.typ v
unfolding choose_out
choose_plain d v plain = rw plain refl

-- The state outside packed mode.
abbrev pub at_state : Memory → Option Exception → State
at_state m ex = record { memory = m; encoder = unpacked; exception = ex }

module _ (rt : Runtime) (schema : Schema) (field_name : ℕ → ℕ → List ℕ)
    (nested : State → ℕ → Obj → Option ℕ → Run (ℕ × State)) where
  pub scalar_value :
      (st : State) (d : FieldDesc) (x : Obj) (buf : Option ℕ) (v : Value)
      → is_message d.typ ≡ false
      → py_to_lwpb rt d.typ x ≡ ret (some v, none)
      → field_value rt schema field_name nested st d x buf ≡ ret (some v, st)
  unfolding field_value
  scalar_value st d x buf v scalar conv = rw (scalar, conv) refl

  pub message_value :
      (st st' : State) (d : FieldDesc) (x : Obj) (buf : Option ℕ) (i n : ℕ)
      → is_message d.typ ≡ true
      → d.msg_desc ≡ some i
      → nested st i x (skip buf msg_reserve) ≡ ret (n, st')
      → field_value rt schema field_name nested st d x buf
        ≡ ret (some (block (block_at (skip buf msg_reserve)) n), st')
  unfolding field_value
  message_value st st' d x buf i n is_msg desc inner =
      rw (is_msg, desc, inner, ltb-false n 0 (omega arith)) refl

  pub one_value :
      (m m1 m2 : Memory) (ex ex1 : Option Exception) (d : FieldDesc) (x : Obj) (xs : Items)
      (buf : Option ℕ) (j fieldlen extralen n : ℕ) (v : Value)
      → j + 1 < 2 ^ 32
      → field_value rt schema field_name nested (at_state m ex) d x buf
        ≡ ret (some v, at_state m1 ex1)
      → add_field2 m1 unpacked d v buf ≡ ret (n, m2)
      → encode_values rt schema field_name nested
          (at_state m ex)
          d
          j
          (cons x xs)
          buf
          fieldlen
          extralen
        ≡ encode_values rt schema field_name nested
            (at_state m2 ex1)
            d
            (j + 1)
            xs
            (skip buf n)
            (add_size fieldlen n)
            (if is_message d.typ then add_size extralen msg_reserve else extralen)
  unfolding encode_values
  one_value m m1 m2 ex ex1 d x xs buf j fieldlen extralen n v next value written =
      rw (value, written, ltb-true (j + 1) (2 ^ 32) next) refl

  pub plain_field :
      (st : State) (d : FieldDesc) (x : Obj) (buf : Option ℕ) (extralen : ℕ)
      → is_packed_repeated d ≡ false
      → encode_field rt schema field_name nested st d x buf extralen
        ≡ encode_values rt schema field_name nested st d 0 (as_list x) buf 0 extralen
  unfolding encode_field
  plain_field st d x buf extralen plain = rw plain refl

  pub absent_field :
      (st : State) (owner i : ℕ) (d : FieldDesc) (ds : List FieldDesc) (dict : Entries)
      (buf : Option ℕ) (len extralen : ℕ)
      → get_item_string dict (field_name owner i) ≡ none
      → encode_fields rt schema field_name nested st owner i (d ∷ ds) dict buf len extralen
        ≡ encode_fields rt schema field_name nested st owner (i + 1) ds dict buf len extralen
  unfolding encode_fields
  absent_field st owner i d ds dict buf len extralen absent = rw (absent, encode_fields) refl

  pub one_field :
      (st st' : State) (owner i : ℕ) (d : FieldDesc) (ds : List FieldDesc) (dict : Entries)
      (buf : Option ℕ) (len extralen n extra : ℕ) (x : Obj)
      → get_item_string dict (field_name owner i) ≡ some x
      → is_packed_repeated d ≡ false
      → encode_values rt schema field_name nested st d 0 (as_list x) buf 0 extralen
        ≡ ret (some (n, extra), st')
      → encode_fields rt schema field_name nested st owner i (d ∷ ds) dict buf len extralen
        ≡ encode_fields rt schema field_name nested st' owner
            (i + 1)
            ds
            dict
            (skip buf n)
            (add_size len n)
            extra
  unfolding encode_fields
  one_field st st' owner i d ds dict buf len extralen n extra x found plain values =
      rw (found, encode_fields, plain_field st d x buf extralen plain, values) refl
