-- ===== src/Python.antt =====
-- The Python bindings (python/primitives.c, python/encoder.c, python/decoder.c) on a 64-bit
-- platform under Python 2: the objects that are encoded, as trees, the exceptions that the code
-- sets, and the calls of the Python runtime, which are a parameter. The objects that are built in
-- decoding are in Python.Objects. Reference counts are left out.
pub mod Primitives
pub mod Encoder
pub mod Objects
pub mod Decoder
pub mod Numbers
use lwpb.Common.{ℕ, Bool, true, false, ◌&&◌, Option, none, some, List, [], ◌∷◌, ◌==◌, if◌then◌else◌}

-- An object is a bool, a string, a list, a dict with strings as keys, or another one, which only
-- the runtime looks into.
mutual
  pub data Obj : Type 0 where
    py_bool : Bool → Obj
    py_str : List ℕ → Obj
    py_list : Items → Obj
    py_dict : Entries → Obj
    other_obj : ℕ → Obj

  pub data Items : Type 0 where
    nil : Items
    cons : Obj → Items → Items

  pub data Entries : Type 0 where
    empty : Entries
    entry : List ℕ → Obj → Entries → Entries

pub data Exception : Type 0 where
  type_error value_error overflow_error runtime_error : Exception
  not_implemented_error index_error memory_error system_error : Exception

-- The calls of the runtime that convert objects; `none` is NULL. A number is the bit pattern of its
-- C type. `int_as_long` is the macro PyInt_AS_LONG, which is undefined (`none`) on an object that is
-- no int; PyLong_AsUnsignedLongLong may set an exception beside its result. `as_string` is
-- PyString_AsStringAndSize on an object that is no string. `to_float` is the
-- conversion of a double to a float.
pub record Runtime : Type 0 where
  pub number_int : Obj → Option Obj
  pub int_as_long : Obj → Option ℕ
  pub number_long : Obj → Option Obj
  pub as_unsigned_long_long : Obj → ℕ × Option Exception
  pub as_string : Obj → Option (List ℕ) × Option Exception
  pub number_float : Obj → Option Obj
  pub float_as_double : Obj → ℕ
  pub to_float : ℕ → ℕ

-- Equal strings.
abbrev pub same_str : List ℕ → List ℕ → Bool
same_str [] [] = true
same_str (a ∷ as') (b ∷ bs) = a == b && same_str as' bs
same_str _ _ = false

-- `PyDict_GetItemString`
unfoldable pub get_item_string : Entries → List ℕ → Option Obj
get_item_string empty key = none
get_item_string (entry k v rest) key = if same_str k key then some v else get_item_string rest key
