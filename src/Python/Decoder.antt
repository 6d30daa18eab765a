-- ===== src/Python/Decoder.antt =====
-- python/decoder.c: the handlers that build a dict, `Decoder.decode`, and the functions for numbers.
-- The handlers work on a context, whose stack of dicts has its top first, or end in a fault.
pub mod Keep
pub mod Field
pub mod Typed
use lwpb.Common.{
  ℕ, ◌+◌, Bool, true, false, Option, none, some, List, [], ◌∷◌, leb, length, if◌then◌else◌,
}
use lwpb.Types.{
  Err, err_ok, err_end_of_buf, is_repeated, FieldRef, Schema, Value, Run, ret, fault, ◌>>=◌,
  some_or_fault, WireValue,
}
use lwpb.Buf.{Memory, Buf, buf_init, buf_used}
use lwpb.Varint.{decode_varint}
use lwpb.Fixed.{decode_32bit, decode_64bit}
use lwpb.Decoder.{Handlers, set_msg_handler, set_field_handler, decode}
use lwpb.Python.{Exception, runtime_error, index_error, system_error}
use lwpb.Python.Objects.{
  ℤ, pos, of_signed, HeapObj, list, dict, Heap, alloc, update, item_of, with_item, with_element,
  lwpb_to_py,
}

-- `DecoderContext` with the heap and the exception that is set.
pub record Context : Type 0 where
  pub stack : List ℕ
  pub heap : Heap
  pub exception : Option Exception

abbrev pub raise : Exception → Context → Context
raise e c = record c { exception = some e }

abbrev pub allocate : HeapObj → Context → ℕ × Context
allocate o c = (c.heap.next, record c { heap = alloc o c.heap })

-- The object at `p` becomes what a call has made of it; without that, a SystemError is set.
abbrev pub become : ℕ → Option HeapObj → Context → Context
become p none c = raise system_error c
become p (some o) c = record c { heap = update p o c.heap }

abbrev pub set_item : ℕ → List ℕ → ℕ → Context → Context
set_item p key v c = become p (with_item (c.heap.object p) key v) c

abbrev pub append : ℕ → ℕ → Context → Context
append p v c = become p (with_element (c.heap.object p) v) c

-- The last element of the context's stack. Without one, the dict's functions read through NULL.
abbrev pub top_of : List ℕ → Run ℕ
top_of [] = fault
top_of (p ∷ ps) = ret p

abbrev pub pop : List ℕ → List ℕ
pop [] = []
pop (p ∷ ps) = ps

module _ (m : Memory) (from_float : ℕ → ℕ) (field_name : FieldRef → List ℕ) where
  unfoldable pub msg_end_handler : Bool → ℕ → Run Context → Run Context
  msg_end_handler packed msg u =
      u >>= λ c. ret (if packed then c else record c { stack = pop c.stack })

  -- `curval`, or a new dict.
  abbrev pub dict_or_new : Option ℕ → Context → ℕ × Context
  dict_or_new (some p) c = (p, c)
  dict_or_new none c = allocate (dict []) c

  -- `pyval`: a converted value, or the dict for a nested message. `none` is NULL.
  abbrev pub dict_for : Bool → FieldRef → ℕ → Context → ℕ × Context
  dict_for true field top c = allocate (dict []) c
  dict_for false field top c = dict_or_new (item_of (c.heap.object top) (field_name field)) c

  abbrev pub py_value : FieldRef → Value → Context → Run (Option ℕ × Context)
  py_value field v c = lwpb_to_py m from_float field.desc.typ v >>= λ (o, e). elim o [
    | some x ↦ (let (p, c') = allocate x c in ret (some p, c'))
    | none ↦ ret (none, record c { exception = e })
  ]

  -- The list under the field's name, which is stored there first if it is missing.
  abbrev pub list_or_new : FieldRef → ℕ → Option ℕ → Context → ℕ × Context
  list_or_new field top (some p) c = (p, c)
  list_or_new field top none c =
      (let (p, c') = allocate (list []) c in (p, set_item top (field_name field) p c'))

  -- `pyval` is appended to that list, or stored under the field's name.
  abbrev pub keep : Bool → FieldRef → ℕ → ℕ → Context → Context
  keep true field top p c =
      (let (xs, c') = list_or_new field top (item_of (c.heap.object top) (field_name field)) c in
        append xs p c')
  keep false field top p c = set_item top (field_name field) p c

  -- With NULL for the value the dict goes on the stack.
  unfoldable pub field_handler : Option ℕ → FieldRef → Option Value → Run Context → Run Context
  field_handler msg field none u = do
    c ← u
    top ← top_of c.stack
    let (p, c') = dict_for (is_repeated field.desc.label) field top c
    let c'' = keep (is_repeated field.desc.label) field top p c'
    ret (record c'' { stack = p ∷ c''.stack })
  field_handler msg field (some v) u = do
    c ← u
    (o, c') ← py_value field v c
    (elim o [
      | none ↦ ret c'
      | some p ↦
          (top_of c'.stack >>= λ top. ret (keep (is_repeated field.desc.label) field top p c'))
    ])

  -- What `Decoder.decode` returns: an object, None, or NULL with an exception.
  pub data Returned : Type 0 where
    object : ℕ → Returned
    none_object : Returned
    null : Returned

  abbrev pub decoder_handlers : Handlers (Run Context) → Handlers (Run Context)
  decoder_handlers h =
      set_field_handler (set_msg_handler h (some (λ msg u. u)) (some msg_end_handler))
        (some field_handler)

  abbrev pub outcome : Err → ℕ → Context → Returned × Context
  outcome err_ok dst c = (object dst, c)
  outcome err_end_of_buf dst c = (none_object, c)
  outcome _ dst c = (null, raise runtime_error c)

  -- `Decoder_decode` on the `len` bytes at `p`.
  unfoldable pub decoder_decode :
      Handlers (Run Context) → Schema → ℕ → ℕ → ℕ → WireValue → Heap → Run (Returned × Context)
  decoder_decode h schema p len msgnum garbage heap =
      if leb (length schema) msgnum
      then ret (null, record { stack = []; heap = heap; exception = some index_error })
      else (let dst = heap.next in
          let context : Context = record {
            stack = dst ∷ [];
            heap = alloc (dict []) heap;
            exception = none;
          } in
          decode (decoder_handlers h) m msgnum schema p len garbage (ret context)
          >>= λ (e, u, used). u >>= λ c. ret (outcome e dst c))

-- The tuple of a number, or None, and the bytes used; `none` for NULL.
abbrev pub Pair : Type 0
Pair = Option (Option ℤ × ℕ) × Option Exception

abbrev pub tuple : (ℕ → ℤ) → Err × Buf × ℕ → Pair
tuple f (err_ok, b, x) = (some (some (f x), buf_used b), none)
tuple f (err_end_of_buf, b, x) = (some (none, 0), none)
tuple f (_, b, x) = (none, some runtime_error)

-- `Decoder_decode_varint`, `Decoder_decode_32bit` and `Decoder_decode_64bit`. PyLong_FromLong takes
-- the 64 bits as a number with a sign.
unfoldable pub decoder_decode_varint : Memory → ℕ → ℕ → Run Pair
decoder_decode_varint m p len =
    buf_init m p len >>= λ b. decode_varint m b >>= λ r. ret (tuple (of_signed 64) r)

unfoldable pub decoder_decode_32bit : Memory → ℕ → ℕ → Run Pair
decoder_decode_32bit m p len = buf_init m p len >>= λ b. decode_32bit m b >>= λ r. ret (tuple pos r)

unfoldable pub decoder_decode_64bit : Memory → ℕ → ℕ → Run Pair
decoder_decode_64bit m p len =
    buf_init m p len >>= λ b. decode_64bit m b >>= λ r. ret (tuple (of_signed 64) r)
