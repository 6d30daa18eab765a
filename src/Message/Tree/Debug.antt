-- ===== src/Message/Tree/Debug.antt =====
-- The debug handlers of src/lwpb/core/decoder.c on messages with messages inside them.
use lwpb.Common.{
  ℕ, zero, suc, ◌+◌, ◌-◌, ◌%◌, ◌^◌, ◌≤◌, ◌<◌, ◌≡◌, refl, ap, ◌∙◌, arith, Bool, true, false, ◌||◌,
  Option, none, some, List, [], ◌∷◌, ◌++◌, length, length-append, take, leb-true, ==_false,
}
use lwpb.Types.{
  FieldType, double, float, int64, uint64, int32, fixed64, fixed32, bool, string, message, bytes,
  uint32, enum, sfixed32, sfixed64, sint32, sint64, FieldRef, Schema, Value, word32, word64, block,
  inside, outside, read_word32, read_word64, read_block, Run, ret, ◌>>=◌, err_ok, WireValue,
}
use lwpb.Buf.{Memory}
use lwpb.Varint.Spec.{varint, Holds}
use lwpb.Copy.{fetch, load, length-take}
use lwpb.Wire.{encode_value, wire_type_out}
use lwpb.Encoder.{field_key}
use lwpb.Wire.RoundTrip.{IsValueOf}
use lwpb.Encoder.Field.{IsOutside, payload, field_bytes}
use lwpb.Decoder.{Handlers, notify, notify_end, set_msg_handler, set_field_handler}
use lwpb.Decoder.Field.{bytes_of, value_pos, delivered}
use lwpb.Decoder.Debug.{
  Printed, DebugState, say, repeat_indent, print_indent, typ_name, say_all, print_value,
  debug_msg_start_handler, debug_msg_end_handler, debug_field_handler, use_debug_handlers,
  decode_debug,
}
use lwpb.Message.Tree.{
  Tree, done, leaf, node, node_bytes, tree_bytes, IsTree, IsShallow, inner_pos, tree_events,
  length-node_bytes,
}
use lwpb.Message.Tree.Decode.{decode-tree}
use Prim.Native.String.{String}

-- The types whose numbers are past the end of the table of names.
abbrev pub is_sint : FieldType → Bool
is_sint sint32 = true
is_sint sint64 = true
is_sint _ = false

-- Some value of the message, or of one inside it, has such a type.
abbrev pub has_sint : Tree → Bool
has_sint done = false
has_sint (leaf field v rest) = is_sint field.desc.typ || has_sint rest
has_sint (node field inner rest) = has_sint inner || has_sint rest

-- A step that ends in a state with the same indentation.
abbrev pub Kept : DebugState → Run DebugState → Type 0
Kept st r = (st' : DebugState) × (r ≡ ret st') × (st'.indent ≡ st.indent)

repeat_indent-Kept : (n : ℕ) (st : DebugState) → (repeat_indent n st).indent ≡ st.indent
repeat_indent-Kept zero st = refl
repeat_indent-Kept (suc n) st =
    repeat_indent-Kept n (record st { printed = Printed.indent_text ∷ st.printed })

print_indent-Kept : (st : DebugState) → (print_indent st).indent ≡ st.indent
unfolding print_indent
print_indent-Kept st = ground (arith, repeat_indent-Kept st.indent st)

say_all-Kept :
    (f : ℕ → Printed) (bs : List ℕ) (st : DebugState) → (say_all f bs st).indent ≡ st.indent
say_all-Kept f [] st = refl
say_all-Kept f (b ∷ bs) st = say_all-Kept f bs (say (f b) st)

named : (t : FieldType) → is_sint t ≡ false → (s : String) × (typ_name t ≡ ret s)
unfolding typ_name
named sint32 h = cc
named sint64 h = cc
named _ h = (_, refl)

or-false : (a b : Bool) → (a || b) ≡ false → (a ≡ false) × (b ≡ false)
or-false true b h = cc
or-false false b h = (refl, h)

-- The value stands behind the key.
pub value-fits :
    (field : FieldRef) (v : Value) (p n : ℕ)
    → p + length (bytes_of field v) ≤ n
    → value_pos p field v + length (payload (encode_value field.desc.typ v)) ≤ n
unfolding field_bytes
value-fits field v p n fits =
    let out = encode_value field.desc.typ v in
    omega (
      arith,
      length-append (varint (field_key (wire_type_out out) field.desc.number)) (payload out),
    )

module _ (m : Memory) (msg_name : ℕ → List ℕ) (field_name : FieldRef → List ℕ) where
  print_block :
      (f : ℕ → Printed) (bs : List ℕ) (p n : ℕ) (st : DebugState)
      → n ≤ length bs
      → p + length (varint n ++ take n bs) ≤ m.size
      → Kept st (fetch m (inside (p + length (varint n))) n >>= λ cs. ret (say_all f cs st))
  unfolding fetch
  print_block f bs p n st o fits =
      let part = length-take n bs o in
      let total = length-append (varint n) (take n bs) in
      let q = p + length (varint n) in
      rw (leb-true (q + n) m.size (omega arith))
        (say_all f (load m q n) st, refl, say_all-Kept f (load m q n) st)

  print_value-Kept :
      (t : FieldType) (v : Value) (p : ℕ) (st : DebugState)
      → IsValueOf t v
      → IsOutside (encode_value t v)
      → p + length (payload (encode_value t v)) ≤ m.size
      → Kept st (print_value m msg_name field_name t (delivered p v) st)
  unfolding print_value encode_value read_word32 read_word64 read_block
  print_value-Kept double (word64 x) p st val o fits = (_, refl, refl)
  print_value-Kept float (word32 x) p st val o fits = (_, refl, refl)
  print_value-Kept int64 (word64 x) p st val o fits = (_, refl, refl)
  print_value-Kept uint64 (word64 x) p st val o fits = (_, refl, refl)
  print_value-Kept int32 (word32 x) p st val o fits = (_, refl, refl)
  print_value-Kept fixed64 (word64 x) p st val o fits = (_, refl, refl)
  print_value-Kept fixed32 (word32 x) p st val o fits = (_, refl, refl)
  print_value-Kept bool (word32 x) p st val o fits = (_, refl, refl)
  print_value-Kept uint32 (word32 x) p st val o fits = (_, refl, refl)
  print_value-Kept enum (word32 x) p st val o fits = (_, refl, refl)
  print_value-Kept sfixed32 (word32 x) p st val o fits = (_, refl, refl)
  print_value-Kept sfixed64 (word64 x) p st val o fits = (_, refl, refl)
  print_value-Kept sint32 (word32 x) p st val o fits = (_, refl, refl)
  print_value-Kept sint64 (word64 x) p st val o fits = (_, refl, refl)
  print_value-Kept string (block (outside bs) n) p st val o fits =
      print_block Printed.char bs p n st o fits
  print_value-Kept bytes (block (outside bs) n) p st val o fits =
      print_block Printed.hex bs p n st o fits
  print_value-Kept string (block (inside q) n) p st val o fits = absurd o
  print_value-Kept bytes (block (inside q) n) p st val o fits = absurd o
  print_value-Kept _ v p st val o fits = absurd val

  -- What is printed for a value, and for the start of a message inside.
  value-Kept :
      (msg : Option ℕ) (field : FieldRef) (v : Value) (p : ℕ) (st : DebugState)
      → is_sint field.desc.typ ≡ false
      → IsValueOf field.desc.typ v
      → IsOutside (encode_value field.desc.typ v)
      → p + length (payload (encode_value field.desc.typ v)) ≤ m.size
      → Kept st
          (debug_field_handler m msg_name field_name msg field (some (delivered p v)) (ret st))
  unfolding debug_field_handler
  value-Kept msg field v p st plain val o fits =
      let (s, name) = named field.desc.typ plain in
      let st1 = say (Printed.field_text (field_name field) s) (print_indent st) in
      let (st', run, same) = print_value-Kept field.desc.typ v p st1 val o fits in
      (say Printed.newline st', rw (name, run) refl, same ∙ print_indent-Kept st)

  inner-Kept :
      (msg : Option ℕ) (field : FieldRef) (st : DebugState)
      → field.desc.typ ≡ message
      → Kept st (debug_field_handler m msg_name field_name msg field none (ret st))
  unfolding debug_field_handler
  inner-Kept msg field st typ =
      let plain : is_sint field.desc.typ ≡ false = rw typ refl in
      let (s, name) = named field.desc.typ plain in
      let st1 = say (Printed.field_text (field_name field) s) (print_indent st) in
      (say Printed.newline st1, rw (name, typ) refl, print_indent-Kept st)

  -- The notifications of a message's start and end: what is between them keeps the indentation.
  message-Kept :
      (msg : ℕ) (st : DebugState) (body : Run DebugState → Run DebugState)
      → st.indent + 1 < 2 ^ 31
      → ((st1 : DebugState) → st1.indent ≡ st.indent + 1 → Kept st1 (body (ret st1)))
      → Kept st (
          debug_msg_end_handler m msg_name field_name false msg
            (body (debug_msg_start_handler m msg_name field_name msg (ret st))))
  unfolding debug_msg_start_handler debug_msg_end_handler
  message-Kept msg st body small keeps =
      let st0 = say (Printed.title (msg_name msg)) (print_indent st) in
      let st1 : DebugState = record st0 { indent = (st0.indent + 1) % 2 ^ 32 } in
      let same0 = print_indent-Kept st in
      let (st2, run, same) = keeps st1 (omega arith) in
      let up = ==_false st0.indent (2 ^ 31 - 1) (λ e. omega (arith, e)) in
      let down = ==_false st2.indent (2 ^ 31) (λ e. omega (arith, e)) in
      (
        record st2 { indent = (st2.indent + (2 ^ 32 - 1)) % 2 ^ 32 },
        rw up (rw run (rw down refl)),
        omega (arith, same, print_indent-Kept st),
      )

  abbrev pub debug : Handlers (Run DebugState)
  debug = record {
    msg_start = some (debug_msg_start_handler m msg_name field_name);
    msg_end = some (debug_msg_end_handler m msg_name field_name);
    field = some (debug_field_handler m msg_name field_name);
  }

  tree-Kept :
      (schema : Schema) (root owner : ℕ) (t : Tree) (d p : ℕ) (st : DebugState)
      → IsTree schema owner t
      → IsShallow d t
      → has_sint t ≡ false
      → p + length (tree_bytes t) ≤ m.size
      → st.indent + d < 2 ^ 31
      → Kept st (tree_events debug root (some owner) p t (ret st))
  unfolding tree_bytes
  tree-Kept schema root owner done d p st good shallow plain fits small = (st, refl, refl)
  tree-Kept schema root owner (leaf field v rest) d p st (known, val, o, good) shallow plain fits
        small =
      let bs = bytes_of field v in
      let total = length-append bs (tree_bytes rest) in
      let (scalar, others) = or-false (is_sint field.desc.typ) (has_sint rest) plain in
      let (st1, run, same) =
        value-Kept (some owner) field v (value_pos p field v) st scalar val o
          (value-fits field v p m.size (omega arith)) in
      let (st2, run', same') =
        tree-Kept schema root owner rest d (p + length bs) st1 good shallow others (omega arith)
          (omega (arith, same)) in
      (st2, rw run run', same' ∙ same)
  tree-Kept schema root owner (node field inner rest) zero p st good shallow plain fits small =
      absurd shallow
  tree-Kept schema root owner (node field inner rest) (suc d) p st
        (known, typ, short, (i, desc, inner_good), good) (deep, shallow) plain fits small =
      let bs = node_bytes field (tree_bytes inner) in
      let total = length-append bs (tree_bytes rest) in
      let whole = length-node_bytes field (tree_bytes inner) in
      let (none_inside, others) = or-false (has_sint inner) (has_sint rest) plain in
      let (st1, run, same) = inner-Kept (some root) field st typ in
      let (st2, run', same') =
        message-Kept i st1 (tree_events debug root (some i) (inner_pos p field inner) inner)
          (omega (arith, same))
          (λ st0 below.
            tree-Kept schema root i inner d (inner_pos p field inner) st0 inner_good deep
              none_inside (omega arith) (omega (arith, below, same))) in
      let (st3, run'', same'') =
        tree-Kept schema root owner rest (suc d) (p + length bs) st2 good shallow others
          (omega arith) (omega (arith, same, same')) in
      let body : Option ℕ → Run DebugState → Run DebugState = λ o u.
        tree_events debug root (some owner) (p + length bs) rest (
          notify_end debug.msg_end false o (
            tree_events debug root o (inner_pos p field inner) inner
              (notify debug.msg_start o u))) in
      (
        st3,
        ap
              (λ (o : Option ℕ).
                body o (debug_field_handler m msg_name field_name (some root) field none (ret st)))
              desc
            ∙ ap (body (some i)) run
            ∙ ap (tree_events debug root (some owner) (p + length bs) rest) run'
            ∙ run'',
        same'' ∙ same' ∙ same,
      )

  -- Let a memory below 2^64 bytes hold a message at p: its fields are found by their descriptors
  -- under numbers below 2^29, outside packed mode, its values are of their types, of which none is
  -- sint32 or sint64, and at most 31 messages lie inside each other. If `debug_indent` is not
  -- negative and below 2^31 - 32, `lwpb_decoder_decode` with the debug handlers, which
  -- `lwpb_decoder_use_debug_handlers` puts in place of any others, returns LWPB_ERR_OK and the
  -- message's length; the handlers run into no undefined behaviour, and `debug_indent` is in the end
  -- what it was.
  pub decode-debug :
      (h : Handlers (Run DebugState)) (schema : Schema) (root : ℕ) (t : Tree) (p len : ℕ)
      (garbage : WireValue) (st : DebugState)
      → IsTree schema root t
      → IsShallow 31 t
      → has_sint t ≡ false
      → p + len ≤ m.size
      → m.size < 2 ^ 64
      → Holds m p (tree_bytes t)
      → len ≡ length (tree_bytes t)
      → st.indent + 32 < 2 ^ 31
      → (st' : DebugState) × (decode_debug m msg_name field_name h schema root p len garbage st
          ≡ ret (err_ok, st', len))
        × (st'.indent ≡ st.indent)
  unfolding decode_debug use_debug_handlers set_msg_handler set_field_handler
  decode-debug h schema root t p len garbage st good shallow plain inner small at same below =
      let run =
        decode-tree debug m root schema t p len garbage (ret st) good shallow inner small at same in
      let (st', events, kept) =
        message-Kept root st (tree_events debug root (some root) p t) (omega (arith, below))
          (λ st0 below0.
            tree-Kept schema root root t 31 p st0 good shallow plain (omega arith)
              (omega (arith, below, below0))) in
      (st', rw (run, events) refl, kept)
