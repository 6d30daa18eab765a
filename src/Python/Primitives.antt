-- ===== src/Python/Primitives.antt =====
-- The scalars of python/primitives.c.
use lwpb.Common.{ℕ, ◌+◌, ◌-◌, ◌%◌, ◌^◌, Bool, ◌||◌, Option, none, some, ltb, if◌then◌else◌, length}
use lwpb.Types.{
  FieldType, double, float, int64, uint64, int32, fixed64, fixed32, bool, string, group, message,
  bytes, uint32, enum, sfixed32, sfixed64, sint32, sint64, Value, word32, word64, block, outside,
  Run, ret, ◌>>=◌, some_or_fault,
}
use lwpb.Python.{
  Obj, py_bool, py_str, Exception, value_error, overflow_error, runtime_error, Runtime,
}

-- `a < b` on two numbers of type long, given as bit patterns.
abbrev signed_lt : ℕ → ℕ → Bool
signed_lt a b = ltb ((a + 2 ^ 63) % 2 ^ 64) ((b + 2 ^ 63) % 2 ^ 64)

-- What a conversion gives: the value that was stored, or `none` where it returns -1, and the
-- exception that it sets.
abbrev pub Converted : Type 0
Converted = Run (Option Value × Option Exception)

abbrev pub failed : Exception → Converted
failed e = ret (none, some e)

abbrev pub converted : Value → Converted
converted v = ret (some v, none)

module _ (rt : Runtime) where
  -- `convert_to_long`
  unfoldable pub convert_to_long : Obj → ℕ → ℕ → Run (Option ℕ × Option Exception)
  convert_to_long val lobound hibound = elim (rt.number_int val) [
    | none ↦ ret (none, some overflow_error)
    | some o ↦
        (some_or_fault (rt.int_as_long o) >>= λ longval.
        if signed_lt hibound longval || signed_lt longval lobound
        then ret (none, some overflow_error)
        else ret (some longval, none))
  ]

  -- `p->int32 = longval`, if the conversion has succeeded.
  abbrev store_int32 : Run (Option ℕ × Option Exception) → Converted
  store_int32 r =
      r >>= λ (l, e). elim l [ none ↦ ret (none, e) | some x ↦ ret (some (word32 (x % 2 ^ 32)), e) ]

  abbrev to_double : Obj → (ℕ → Value) → Converted
  to_double val f = elim (rt.number_float val) [
    | none ↦ failed value_error
    | some o ↦ converted (f (rt.float_as_double o))
  ]

  -- The 64-bit types without a sign.
  abbrev to_uint64 : Obj → Converted
  to_uint64 val = elim (rt.number_long val) [
    | none ↦ failed value_error
    | some o ↦ (let (x, e) = rt.as_unsigned_long_long o in ret (some (word64 x), e))
  ]

  abbrev to_int64 : Obj → Converted
  to_int64 val = store_int32 (convert_to_long val (2 ^ 63) (2 ^ 63 - 1))

  abbrev to_int32 : Obj → Converted
  to_int32 val = store_int32 (convert_to_long val (2 ^ 64 - 2 ^ 31) (2 ^ 31 - 1))

  abbrev to_uint32 : Obj → Converted
  to_uint32 val = store_int32 (convert_to_long val 0 (2 ^ 32 - 1))

  abbrev to_bool : Obj → Converted
  to_bool (py_bool b) = converted (word32 (if b then 1 else 0))
  to_bool _ = failed value_error

  -- `PyString_AsStringAndSize` encodes a unicode object, and sets an exception for any other one.
  abbrev to_block : Obj → Converted
  to_block (py_str s) = converted (block (outside s) (length s))
  to_block val =
      let (s, e) = rt.as_string val in
      elim s [ none ↦ ret (none, e) | some bs ↦ converted (block (outside bs) (length bs)) ]

  -- `py_to_lwpb`, where LONG_MAX is INT64_MAX.
  unfoldable pub py_to_lwpb : FieldType → Obj → Converted
  py_to_lwpb double val = to_double val word64
  py_to_lwpb float val = to_double val (λ x. word32 (rt.to_float x))
  py_to_lwpb int64 val = to_int64 val
  py_to_lwpb sint64 val = to_int64 val
  py_to_lwpb sfixed64 val = to_int64 val
  py_to_lwpb uint64 val = to_uint64 val
  py_to_lwpb fixed64 val = to_uint64 val
  py_to_lwpb sfixed32 val = to_int32 val
  py_to_lwpb sint32 val = to_int32 val
  py_to_lwpb int32 val = to_int32 val
  py_to_lwpb enum val = to_int32 val
  py_to_lwpb fixed32 val = to_uint32 val
  py_to_lwpb uint32 val = to_uint32 val
  py_to_lwpb bool val = to_bool val
  py_to_lwpb string val = to_block val
  py_to_lwpb bytes val = to_block val
  py_to_lwpb message val = failed runtime_error
  py_to_lwpb group val = failed runtime_error
