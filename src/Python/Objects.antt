-- ===== src/Python/Objects.antt =====
-- The objects that python/decoder.c builds: dicts and lists that it shares between the stack of its
-- context and the dicts around them, on a heap, and `lwpb_to_py` of python/primitives.c. Objects are
-- always allocated; their addresses are counted up.
pub mod Typed
use lwpb.Common.{
  ℕ, suc, ◌+◌, ◌-◌, ◌*◌, ◌^◌, Bool, true, false, not, Option, none, some, List, [], ◌∷◌, ◌++◌, ◌==◌,
  ltb, if◌then◌else◌,
}
use lwpb.Types.{
  FieldType, double, float, int64, uint64, int32, fixed64, fixed32, bool, string, group, message,
  bytes, uint32, enum, sfixed32, sfixed64, sint32, sint64, Value, read_word32, read_word64,
  read_block, Run, ret, ◌>>=◌, some_or_fault,
}
use lwpb.Buf.{Memory}
use lwpb.Copy.{fetch}
use lwpb.Python.{Exception, runtime_error, not_implemented_error, system_error, same_str}

-- A Python number; `negsuc n` is -(n + 1).
pub data ℤ : Type 0 where
  pos negsuc : ℕ → ℤ

-- A number with a sign, from its bit pattern.
abbrev pub of_signed : (bits : ℕ) → ℕ → ℤ
of_signed bits x = if ltb (x * 2) (2 ^ bits) then pos x else negsuc (2 ^ bits - 1 - x)

-- A float is the bit pattern of a double.
pub data HeapObj : Type 0 where
  number : ℤ → HeapObj
  real : ℕ → HeapObj
  truth : Bool → HeapObj
  text : List ℕ → HeapObj
  list : List ℕ → HeapObj
  dict : List (List ℕ × ℕ) → HeapObj

pub record Heap : Type 0 where
  pub next : ℕ
  pub object : ℕ → HeapObj

unfoldable pub alloc : HeapObj → Heap → Heap
alloc o heap = record {
  next = suc heap.next;
  object = λ a. if a == heap.next then o else heap.object a;
}

unfoldable pub update : ℕ → HeapObj → Heap → Heap
update p o heap = record heap { object = λ a. if a == p then o else heap.object a }

unfoldable pub find_key : List (List ℕ × ℕ) → List ℕ → Option ℕ
find_key [] key = none
find_key ((k, v) ∷ rest) key = if same_str k key then some v else find_key rest key

unfoldable pub set_key : List (List ℕ × ℕ) → List ℕ → ℕ → List (List ℕ × ℕ)
set_key [] key v = (key, v) ∷ []
set_key ((k, v') ∷ rest) key v =
    if same_str k key then (k, v) ∷ rest else (k, v') ∷ set_key rest key v

-- `PyDict_GetItemString`, which finds nothing in an object that is no dict.
abbrev pub item_of : HeapObj → List ℕ → Option ℕ
item_of (dict entries) key = find_key entries key
item_of _ key = none

-- `PyDict_SetItemString` and `PyList_Append`: what the object becomes, `none` for a SystemError.
abbrev pub with_item : HeapObj → List ℕ → ℕ → Option HeapObj
with_item (dict entries) key v = some (dict (set_key entries key v))
with_item _ key v = none

abbrev pub with_element : HeapObj → ℕ → Option HeapObj
with_element (list xs) v = some (list (xs ++ v ∷ []))
with_element _ v = none

-- `lwpb_to_py` under Python 2, with LP64 types: the new object, or NULL and the exception.
-- `from_float` is the conversion of a float to a double.
abbrev pub Made : Type 0
Made = Run (Option HeapObj × Option Exception)

module _ (m : Memory) (from_float : ℕ → ℕ) where
  abbrev made : HeapObj → Made
  made o = ret (some o, none)

  abbrev from32 : Value → (ℕ → HeapObj) → Made
  from32 v f = some_or_fault (read_word32 v) >>= λ x. made (f x)

  abbrev from64 : Value → (ℕ → HeapObj) → Made
  from64 v f = some_or_fault (read_word64 v) >>= λ x. made (f x)

  -- `PyString_FromStringAndSize` takes the length as a number with a sign.
  abbrev from_block : Value → Made
  from_block v = some_or_fault (read_block v) >>= λ (p, n).
      if ltb n (2 ^ 63)
      then (fetch m p n >>= λ bs. made (text bs))
      else ret (none, some system_error)

  unfoldable pub lwpb_to_py : FieldType → Value → Made
  lwpb_to_py double v = from64 v real
  lwpb_to_py float v = from32 v (λ x. real (from_float x))
  lwpb_to_py int64 v = from64 v (λ x. number (of_signed 64 x))
  lwpb_to_py sint64 v = from64 v (λ x. number (of_signed 64 x))
  lwpb_to_py sfixed64 v = from64 v (λ x. number (of_signed 64 x))
  lwpb_to_py uint64 v = from64 v (λ x. number (pos x))
  lwpb_to_py fixed64 v = from64 v (λ x. number (pos x))
  lwpb_to_py sfixed32 v = from32 v (λ x. number (of_signed 32 x))
  lwpb_to_py sint32 v = from32 v (λ x. number (of_signed 32 x))
  lwpb_to_py int32 v = from32 v (λ x. number (of_signed 32 x))
  lwpb_to_py enum v = from32 v (λ x. number (of_signed 32 x))
  lwpb_to_py fixed32 v = from32 v (λ x. number (pos x))
  lwpb_to_py uint32 v = from32 v (λ x. number (pos x))
  lwpb_to_py bool v = from32 v (λ x. truth (not (x == 0)))
  lwpb_to_py string v = from_block v
  lwpb_to_py bytes v = from_block v
  lwpb_to_py message v = ret (none, some not_implemented_error)
  lwpb_to_py group v = ret (none, some runtime_error)
