-- ===== src/Python/Encoder.antt =====
-- python/encoder.c: a dict is encoded with the second encoder, first on the buffer NULL to learn how
-- much to allocate, then for real. A message is written ten bytes behind its place, and so is a
-- packed block. Recursion into nested dicts takes fuel.
pub mod Dict
pub mod Step
pub mod Count
pub mod Write
pub mod RoundTrip
pub mod Faults
use lwpb.Common.{
  ℕ, zero, suc, ◌+◌, ◌-◌, ◌%◌, ◌^◌, Bool, true, false, Option, none, some, List, [], ◌∷◌, ltb, leb,
  if◌then◌else◌, length,
}
use lwpb.Types.{
  FieldDesc, Schema, find_desc, Value, block, Ptr, inside, outside, is_message, is_packed_repeated,
  Run, ret, stuck, ◌>>=◌, some_or_fault,
}
use lwpb.Buf.{Memory}
use lwpb.Copy.{fetch}
use lwpb.Varint.{encode_varint2}
use lwpb.Fixed.{encode_32bit2, encode_64bit2}
use lwpb.Encoder2.{Encoder2, start2, packed_start2, packed_end2, skip, add_field2}
use lwpb.Python.{
  Obj, py_bool, py_str, py_list, py_dict, other_obj, Items, nil, cons, Entries, get_item_string,
  Exception, type_error, index_error, memory_error, Runtime,
}
use lwpb.Python.Primitives.{py_to_lwpb}

-- The memory of the buffer, the encoder, and the exception that is set.
pub record State : Type 0 where
  pub memory : Memory
  pub encoder : Encoder2
  pub exception : Option Exception

-- MSG_RESERVE_BYTES
abbrev pub msg_reserve : ℕ
msg_reserve = 10

-- Lengths have type size_t, where -1 is the greatest number.
abbrev pub add_size : ℕ → ℕ → ℕ
add_size a b = (a + b) % 2 ^ 64

abbrev pub minus_one : ℕ
minus_one = 2 ^ 64 - 1

-- The data pointer of a block in the buffer. NULL is a pointer to no bytes.
abbrev pub block_at : Option ℕ → Ptr
block_at none = outside []
block_at (some p) = inside p

abbrev pub raise : State → Option Exception → State
raise st none = st
raise st (some e) = record st { exception = some e }

-- A value that is no list counts as a list of one.
abbrev pub as_list : Obj → Items
as_list (py_list xs) = xs
as_list pyval = cons pyval nil

-- What a piece of `pyobject_encode` returns: a result, or `none` where the function returns -1.
abbrev pub Step : Type 0 → Type 0
Step A = Run (Option A × State)

abbrev pub on_some : {A B : Type 0} → Step A → (A → State → Step B) → Step B
on_some r f = r >>= λ (o, st). elim o [ none ↦ ret (none, st) | some a ↦ f a st ]

-- `return buf ? len : (len + extralen)`
abbrev pub total_len : Option ℕ → ℕ × ℕ → ℕ
total_len none (len, extralen) = add_size len extralen
total_len (some p) (len, extralen) = len

-- The memory that `calloc` hands out, and what stands for memory while there is none.
abbrev pub zeros : ℕ → Memory
zeros n = record { size = n; byte = λ p. 0 }

module _ (rt : Runtime) (schema : Schema) (field_name : ℕ → ℕ → List ℕ) where
  module _ (nested : State → ℕ → Obj → Option ℕ → Run (ℕ × State)) where
    -- The value to encode at `valuebuf`. The test for an error of the recursive call compares a
    -- size_t with 0.
    unfoldable pub field_value : State → FieldDesc → Obj → Option ℕ → Step Value
    field_value st d pyval valuebuf =
        if is_message d.typ
        then (some_or_fault d.msg_desc >>= λ msg.
            nested st msg pyval (skip valuebuf msg_reserve) >>= λ (nestedlen, st'). ret (
              if ltb nestedlen 0
                  then none
                  else some (block (block_at (skip valuebuf msg_reserve)) nestedlen),
              st',
            ))
        else (py_to_lwpb rt d.typ pyval >>= λ (v, e). ret (v, raise st e))

    -- The loop over the values, which returns `fieldlen` and `extralen`. Its counter `j` is an
    -- unsigned int: behind value 2^32 - 1 it is 0 again, and the loop never ends.
    unfoldable pub encode_values : State → FieldDesc → ℕ → Items → Option ℕ → ℕ → ℕ → Step (ℕ × ℕ)
    encode_values st d j nil valuebuf fieldlen extralen = ret (some (fieldlen, extralen), st)
    encode_values st d j (cons pyval rest) valuebuf fieldlen extralen =
        on_some (field_value st d pyval valuebuf) (λ v st'.
          add_field2 st'.memory st'.encoder d v valuebuf >>= λ (valuelen, m).
          if ltb (j + 1) (2 ^ 32)
          then encode_values (record st' { memory = m }) d (j + 1) rest (skip valuebuf valuelen)
              (add_size fieldlen valuelen)
              (if is_message d.typ then add_size extralen msg_reserve else extralen)
          else stuck)

    -- The values of one field. A packed field is written behind the reserve in packed mode, and
    -- then once more as a block.
    unfoldable pub encode_field : State → FieldDesc → Obj → Option ℕ → ℕ → Step (ℕ × ℕ)
    encode_field st d pyval buf extralen =
        if is_packed_repeated d
        then (packed_start2 st.encoder d >>= λ (_, e).
            on_some
              (encode_values (record st { encoder = e }) d 0 (as_list pyval) (skip buf msg_reserve)
                0 (add_size extralen msg_reserve))
              (λ (fieldlen, extra) st'. packed_end2 st'.encoder >>= λ (_, e').
                add_field2 st'.memory e' d (block (block_at (skip buf msg_reserve)) fieldlen) buf
                >>= λ (n, m). ret (some (n, extra), record st' { memory = m; encoder = e' })))
        else encode_values st d 0 (as_list pyval) buf 0 extralen

    -- The loop over the fields of the message type `owner`, from field `i` on, which returns `len`
    -- and `extralen`.
    unfoldable pub encode_fields :
        State → ℕ → ℕ → List FieldDesc → Entries → Option ℕ → ℕ → ℕ → Step (ℕ × ℕ)
    encode_fields st owner i [] dict buf len extralen = ret (some (len, extralen), st)
    encode_fields st owner i (d ∷ ds) dict buf len extralen =
        elim (get_item_string dict (field_name owner i)) [
          | none ↦ encode_fields st owner (i + 1) ds dict buf len extralen
          | some pyval ↦ on_some (encode_field st d pyval buf extralen) (λ (fieldlen, extra) st'.
              encode_fields st' owner (i + 1) ds dict (skip buf fieldlen) (add_size len fieldlen)
                extra)
        ]

  unfoldable pub pyobject_encode : ℕ → State → ℕ → Obj → Option ℕ → Run (ℕ × State)
  pyobject_encode zero st msg obj buf = stuck
  pyobject_encode (suc fuel) st msg (py_dict dict) buf = find_desc schema msg >>= λ d.
      encode_fields (pyobject_encode fuel) st msg 0 d.fields dict buf 0 0 >>= λ (r, st').
      ret (elim r [ none ↦ minus_one | some lens ↦ total_len buf lens ], st')
  pyobject_encode (suc fuel) st msg obj buf = ret (minus_one, raise st (some type_error))

  -- `Encoder_encode` on a dict, where `calloc` may fail: the string or NULL, the exception that is
  -- set, and the encoder. The tests for an error compare a size_t with 0.
  unfoldable pub encoder_encode :
      (ℕ → Bool) → ℕ → Encoder2 → Entries → ℕ → Run (Option (List ℕ) × Option Exception × Encoder2)
  encoder_encode calloc fuel enc dict msgnum =
      if leb (length schema) msgnum
      then ret (none, some index_error, enc)
      else (pyobject_encode fuel
            (record { memory = zeros 0; encoder = start2 enc; exception = none }) msgnum
            (py_dict dict) none
          >>= λ (len0, st0).
              if calloc len0
              then (pyobject_encode fuel
                    (record st0 { memory = zeros len0; encoder = start2 st0.encoder }) msgnum
                    (py_dict dict) (some 0)
                  >>= λ (len1, st1). fetch st1.memory (inside 0) len1 >>= λ string.
                      ret (some string, st1.exception, st1.encoder))
              else ret (none, some memory_error, st0.encoder))

-- `Encoder_encode_varint`, `Encoder_encode_32bit` and `Encoder_encode_64bit`, with an array of 64
-- bytes that holds anything.
abbrev pub scratch : (ℕ → ℕ) → Memory
scratch byte = record { size = 64; byte = byte }

unfoldable pub encoder_encode_varint : (ℕ → ℕ) → ℕ → Run (List ℕ)
encoder_encode_varint byte value =
    encode_varint2 (scratch byte) (some 0) value >>= λ (len, m). fetch m (inside 0) len

unfoldable pub encoder_encode_32bit : (ℕ → ℕ) → ℕ → Run (List ℕ)
encoder_encode_32bit byte value =
    encode_32bit2 (scratch byte) (some 0) value >>= λ (len, m). fetch m (inside 0) len

unfoldable pub encoder_encode_64bit : (ℕ → ℕ) → ℕ → Run (List ℕ)
encoder_encode_64bit byte value =
    encode_64bit2 (scratch byte) (some 0) value >>= λ (len, m). fetch m (inside 0) len
