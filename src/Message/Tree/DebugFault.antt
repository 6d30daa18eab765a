-- ===== src/Message/Tree/DebugFault.antt =====
-- The debug handlers of src/lwpb/core/decoder.c on a message with a value of a type whose name they
-- do not have.
use lwpb.Common.{
  ◌%◌, ◌-◌, Bool, false, ℕ, ◌+◌, ◌^◌, ◌≤◌, ◌<◌, ◌≡◌, ◌∙◌, ap, refl, true, not, ◌==◌, leb, Option,
  none, some, List, length, Bool-cases, inl, inr, get_elem?, if◌then◌else◌,
}
use lwpb.Types.{
  ◌>>◌, FieldType, double, float, int64, uint64, int32, fixed64, fixed32, bool, string, group,
  message, bytes, uint32, enum, sfixed32, sfixed64, sint32, sint64, FieldRef, Schema, Value, Ptr,
  inside, outside, read_word32, read_word64, read_block, Run, ret, fault, abort, stuck, ◌>>=◌,
  some_or_fault, require, WireValue,
}
use lwpb.Buf.{Memory}
use lwpb.Copy.{fetch}
use lwpb.Varint.Spec.{Holds}
use lwpb.Decoder.{Handlers, notify, notify_end, set_msg_handler, set_field_handler}
use lwpb.Decoder.Field.{bytes_of, value_pos, delivered}
use lwpb.Decoder.Debug.{
  Printed, DebugState, say, print_indent, type_number, typ_names, typ_name, is_read, print32,
  print64, print_bytes, print_value, debug_msg_start_handler, debug_msg_end_handler,
  debug_field_handler, use_debug_handlers, decode_debug,
}
use lwpb.Message.Tree.{
  Tree, done, leaf, node, node_bytes, tree_bytes, IsTree, IsShallow, inner_pos, tree_events,
}
use lwpb.Message.Tree.Decode.{decode-tree}
use lwpb.Message.Tree.Debug.{is_sint, has_sint, debug}

-- A run that has returned, or has run into undefined behaviour.
abbrev Defined : {A : Type 0} → Run A → Type 0
Defined (ret a) = Unit {0}
Defined fault = Unit {0}
Defined _ = ⊥

bind-Defined :
    {A B : Type 0} (r : Run A) (f : A → Run B)
    → Defined r
    → ((a : A) → Defined (f a))
    → Defined (r >>= f)
bind-Defined (ret a) f r_def f_def = f_def a
bind-Defined fault f r_def f_def = tt
bind-Defined abort f r_def f_def = absurd r_def
bind-Defined stuck f r_def f_def = absurd r_def

guarded-Defined : (b : Bool) (st : DebugState) → Defined (require b >> ret st)
guarded-Defined true st = tt
guarded-Defined false st = tt

some_or_fault-Defined : {A : Type 0} (o : Option A) → Defined (some_or_fault o)
some_or_fault-Defined none = tt
some_or_fault-Defined (some a) = tt

fetch-Defined : (m : Memory) (p : Ptr) (n : ℕ) → Defined (fetch m p n)
unfolding fetch
fetch-Defined m (inside p) n = elim (Bool-cases (leb (p + n) m.size)) [
  | inl h ↦ rw h tt
  | inr h ↦ rw h tt
]
fetch-Defined m (outside bs) n = elim (Bool-cases (leb n (length bs))) [
  | inl h ↦ rw h tt
  | inr h ↦ rw h tt
]

unnamed : (t : FieldType) → is_sint t ≡ true → typ_name t ≡ fault
unfolding typ_name
unnamed sint32 h = refl
unnamed sint64 h = refl
unnamed _ h = cc

module _ (m : Memory) (msg_name : ℕ → List ℕ) (field_name : FieldRef → List ℕ) where
  abbrev debug_field : Option ℕ → FieldRef → Option Value → Run DebugState → Run DebugState
  debug_field = debug_field_handler m msg_name field_name

  abbrev handlers : Handlers (Run DebugState)
  handlers = debug m msg_name field_name

  print32-Defined :
      (f : ℕ → Printed) (v : Value) (st : DebugState)
      → Defined (print32 m msg_name field_name f v st)
  print32-Defined f v st =
      bind-Defined (some_or_fault (read_word32 v)) _ (some_or_fault-Defined (read_word32 v))
        (λ x. tt)

  print64-Defined :
      (f : ℕ → Printed) (v : Value) (st : DebugState)
      → Defined (print64 m msg_name field_name f v st)
  print64-Defined f v st =
      bind-Defined (some_or_fault (read_word64 v)) _ (some_or_fault-Defined (read_word64 v))
        (λ x. tt)

  print_bytes-Defined :
      (f : ℕ → Printed) (v : Value) (st : DebugState)
      → Defined (print_bytes m msg_name field_name f v st)
  print_bytes-Defined f v st =
      bind-Defined (some_or_fault (read_block v)) _ (some_or_fault-Defined (read_block v))
        (λ (q, n). bind-Defined (fetch m q n) _ (fetch-Defined m q n) (λ bs. tt))

  print_value-Defined :
      (t : FieldType) (v : Value) (st : DebugState)
      → Defined (print_value m msg_name field_name t v st)
  unfolding print_value
  print_value-Defined double v st = print64-Defined Printed.real64 v st
  print_value-Defined float v st = print32-Defined Printed.real32 v st
  print_value-Defined int32 v st = print32-Defined Printed.signed32 v st
  print_value-Defined sint32 v st = print32-Defined Printed.signed32 v st
  print_value-Defined sfixed32 v st = print32-Defined Printed.signed32 v st
  print_value-Defined int64 v st = print64-Defined Printed.signed64 v st
  print_value-Defined sint64 v st = print64-Defined Printed.signed64 v st
  print_value-Defined sfixed64 v st = print64-Defined Printed.signed64 v st
  print_value-Defined uint32 v st = print32-Defined Printed.unsigned32 v st
  print_value-Defined fixed32 v st = print32-Defined Printed.unsigned32 v st
  print_value-Defined uint64 v st = print64-Defined Printed.unsigned64 v st
  print_value-Defined fixed64 v st = print64-Defined Printed.unsigned64 v st
  print_value-Defined bool v st = print32-Defined (λ x. Printed.truth (not (x == 0))) v st
  print_value-Defined enum v st = print32-Defined Printed.signed32 v st
  print_value-Defined string v st = print_bytes-Defined Printed.char v st
  print_value-Defined bytes v st = print_bytes-Defined Printed.hex v st
  print_value-Defined message v st = tt
  print_value-Defined group v st = tt

  -- The handlers keep a state that is defined.
  field-Defined :
      (msg : Option ℕ) (field : FieldRef) (v : Option Value) (u : Run DebugState)
      → Defined u
      → Defined (debug_field msg field v u)
  unfolding debug_field_handler typ_name
  field-Defined msg field v u def = bind-Defined u _ def (λ st.
      bind-Defined (typ_name field.desc.typ) _
        (some_or_fault-Defined (get_elem? typ_names (type_number field.desc.typ)))
        (λ s.
          bind-Defined _ _
            (printed-Defined v (say (Printed.field_text (field_name field) s) (print_indent st)))
            (λ st'. tt)))
    where
      printed-Defined :
          (v : Option Value) (st : DebugState)
          → Defined (elim v [
            | none ↦ if is_read field.desc.typ then fault else ret st
            | some x ↦ print_value m msg_name field_name field.desc.typ x st
          ])
      printed-Defined none st = elim (Bool-cases (is_read field.desc.typ)) [
        | inl h ↦ rw h tt
        | inr h ↦ rw h tt
      ]
      printed-Defined (some x) st = print_value-Defined field.desc.typ x st

  start-Defined :
      (o : Option ℕ) (u : Run DebugState) → Defined u → Defined (notify handlers.msg_start o u)
  unfolding debug_msg_start_handler
  start-Defined none u def = def
  start-Defined (some i) u def = bind-Defined u _ def (λ st.
      let st' = say (Printed.title (msg_name i)) (print_indent st) in
      guarded-Defined (not (st'.indent == 2 ^ 31 - 1))
        (record st' { indent = (st'.indent + 1) % 2 ^ 32 }))

  end-Defined :
      (o : Option ℕ) (u : Run DebugState)
      → Defined u
      → Defined (notify_end handlers.msg_end false o u)
  unfolding debug_msg_end_handler
  end-Defined none u def = def
  end-Defined (some i) u def = bind-Defined u _ def (λ st.
      guarded-Defined (not (st.indent == 2 ^ 31))
        (record st { indent = (st.indent + (2 ^ 32 - 1)) % 2 ^ 32 }))

  -- A value whose type has no name.
  field-fault :
      (msg : Option ℕ) (field : FieldRef) (v : Option Value) (u : Run DebugState)
      → Defined u
      → is_sint field.desc.typ ≡ true
      → debug_field msg field v u ≡ fault
  unfolding debug_field_handler
  field-fault msg field v (ret st) def sint = rw (unnamed field.desc.typ sint) refl
  field-fault msg field v fault def sint = refl
  field-fault msg field v abort def sint = absurd def
  field-fault msg field v stuck def sint = absurd def

  -- No handler takes a fault back.
  start-fault : (o : Option ℕ) → notify handlers.msg_start o fault ≡ fault
  unfolding debug_msg_start_handler
  start-fault none = refl
  start-fault (some i) = refl

  end-fault : (o : Option ℕ) → notify_end handlers.msg_end false o fault ≡ fault
  unfolding debug_msg_end_handler
  end-fault none = refl
  end-fault (some i) = refl

  module _ (root : ℕ) where
    abbrev events : Option ℕ → ℕ → Tree → Run DebugState → Run DebugState
    events o p t u = tree_events handlers root o p t u

    events-fault : (t : Tree) (o : Option ℕ) (p : ℕ) → events o p t fault ≡ fault
    unfolding debug_field_handler
    events-fault done o p = refl
    events-fault (leaf field v rest) o p = events-fault rest o (p + length (bytes_of field v))
    events-fault (node field inner rest) o p =
        rw
          (
            start-fault field.desc.msg_desc,
            events-fault inner field.desc.msg_desc (inner_pos p field inner),
            end-fault field.desc.msg_desc,
          )
          (events-fault rest o (p + length (node_bytes field (tree_bytes inner))))

    events-Defined :
        (t : Tree) (o : Option ℕ) (p : ℕ) (u : Run DebugState)
        → Defined u
        → Defined (events o p t u)
    events-Defined done o p u def = def
    events-Defined (leaf field v rest) o p u def =
        events-Defined rest o (p + length (bytes_of field v)) _
          (field-Defined o field (some (delivered (value_pos p field v) v)) u def)
    events-Defined (node field inner rest) o p u def =
        events-Defined rest o (p + length (node_bytes field (tree_bytes inner))) _ (
          end-Defined field.desc.msg_desc _ (
            events-Defined inner field.desc.msg_desc (inner_pos p field inner) _
              (start-Defined field.desc.msg_desc _ (field-Defined (some root) field none u def))))

    events_sint :
        (t : Tree) (o : Option ℕ) (p : ℕ) (u : Run DebugState)
        → Defined u
        → has_sint t ≡ true
        → events o p t u ≡ fault
    events_sint done o p u def sint = cc
    events_sint (leaf field v rest) o p u def sint = elim (Bool-cases (is_sint field.desc.typ)) [
      | inl here ↦
          ap (events o (p + length (bytes_of field v)) rest)
            (field-fault o field (some (delivered (value_pos p field v) v)) u def here)
          ∙ events-fault rest o (p + length (bytes_of field v))
      | inr there ↦
          events_sint rest o (p + length (bytes_of field v)) _
            (field-Defined o field (some (delivered (value_pos p field v) v)) u def)
            (rw there at sint)
    ]
    events_sint (node field inner rest) o p u def sint =
        let d = field.desc.msg_desc in
        let next = p + length (node_bytes field (tree_bytes inner)) in
        let started = start-Defined d _ (field-Defined (some root) field none u def) in
        elim (Bool-cases (has_sint inner)) [
          | inl here ↦
              ap
                (λ (r : Run DebugState). events o next rest (notify_end handlers.msg_end false d r))
                (events_sint inner d (inner_pos p field inner) _ started here)
              ∙ ap (events o next rest) (end-fault d)
              ∙ events-fault rest o next
          | inr there ↦
              events_sint rest o next _
                (end-Defined d _ (events-Defined inner d (inner_pos p field inner) _ started))
                (rw there at sint)
        ]

    -- Let a memory below 2^64 bytes hold a message at p: its fields are found by their descriptors
    -- under numbers below 2^29, outside packed mode, its values are of their types, and at most 31
    -- messages lie inside each other. If a value in it, or in a message inside it, has the type
    -- sint32 or sint64, `lwpb_decoder_decode` with the debug handlers runs into undefined behaviour:
    -- in the field handler for the first such value, which reads past the table of the types' names,
    -- unless a handler has run into it before.
    pub decode-debug_sint :
        (h : Handlers (Run DebugState)) (schema : Schema) (t : Tree) (p len : ℕ)
        (garbage : WireValue) (st : DebugState)
        → IsTree schema root t
        → IsShallow 31 t
        → has_sint t ≡ true
        → p + len ≤ m.size
        → m.size < 2 ^ 64
        → Holds m p (tree_bytes t)
        → len ≡ length (tree_bytes t)
        → decode_debug m msg_name field_name h schema root p len garbage st ≡ fault
    unfolding decode_debug use_debug_handlers set_msg_handler set_field_handler
    decode-debug_sint h schema t p len garbage st good shallow sint inner small at same =
        rw
          (
            decode-tree handlers m root schema t p len garbage (ret st) good shallow inner small at
                same,
            events_sint t (some root) p _ (start-Defined (some root) (ret st) tt) sint,
            end-fault (some root),
          )
          refl
