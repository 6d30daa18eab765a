-- ===== src/Types.antt =====
-- include/lwpb/core/types.h, src/lwpb/core/private.h and src/lwpb/core/misc.c: error codes, field
-- types, labels and flags, descriptors, the value unions, and what a C function may do.
-- A descriptor pointer is a position in a table of message descriptors.
use lwpb.Common.{
  ℕ, ◌≡◌, ◌%◌, ◌^◌, Bool, true, false, ◌&&◌, Option, none, some, List, ◌==◌, get_elem?,
}
use Prim.Native.String.{String}

-- `lwpb_err_t`.
pub data Err : Type 0 where
  err_ok err_cancel err_unknown_field err_invalid_field err_end_of_buf err_mem err_net_init : Err

unfoldable pub err_text : Err → String
err_text err_ok = "OK"
err_text err_cancel = "Cancelled by user"
err_text err_unknown_field = "Unknown field"
err_text err_invalid_field = "Invalid field"
err_text err_end_of_buf = "End of buffer"
err_text err_mem = "Memory allocation failed"
err_text err_net_init = "Network initialization failed"

-- `fault` is a step that C leaves undefined, such as an access out of bounds, and `abort` is a
-- failed LWPB_ASSERT. `stuck` is no outcome of the program: a loop ran out of
-- fuel, or never ends.
pub data Run {ℓ} (A : Type ℓ) : Type ℓ where
  ret : A → Run A
  fault : Run A
  abort : Run A
  stuck : Run A

infixl 5 ◌>>=◌ ◌>>◌
abbrev pub ◌>>=◌ {ℓ κ} : {A : Type ℓ} {B : Type κ} → Run A → (A → Run B) → Run B
ret a >>= f = f a
fault >>= f = fault
abort >>= f = abort
stuck >>= f = stuck

abbrev pub ◌>>◌ {ℓ} : {B : Type ℓ} → Run (Unit {0}) → Run B → Run B
m >> k = m >>= λ _. k

-- LWPB_ASSERT.
abbrev pub assert : Bool → Run (Unit {0})
assert true = ret tt
assert false = abort

-- What C leaves undefined unless the test holds.
abbrev pub require : Bool → Run (Unit {0})
require true = ret tt
require false = fault

pub data Label : Type 0 where
  optional required repeated : Label

pub data FieldType : Type 0 where
  double float int64 uint64 int32 fixed64 fixed32 bool string group : FieldType
  message bytes uint32 enum sfixed32 sfixed64 sint32 sint64 : FieldType

-- `enum wire_type` holds any number that the key yields, so it is a number here.
abbrev pub wt_varint : ℕ
wt_varint = 0

abbrev pub wt_64bit : ℕ
wt_64bit = 1

abbrev pub wt_string : ℕ
wt_string = 2

abbrev pub wt_32bit : ℕ
wt_32bit = 5

-- `lwpb_field_opts_t` with the flag LWPB_IS_PACKED, and `struct lwpb_field_desc`; `msg_desc` is
-- the position of the message descriptor, `none` for NULL.
pub record FieldDesc : Type 0 where
  pub number : ℕ
  pub label : Label
  pub typ : FieldType
  pub is_packed : Bool
  pub msg_desc : Option ℕ

-- `struct lwpb_msg_desc`: `num_fields` is the length of the list.
pub record MsgDesc : Type 0 where
  pub fields : List FieldDesc

-- All message descriptors of the program.
abbrev pub Schema : Type 0
Schema = List MsgDesc

-- `&msg_desc->fields[index]`, which is a field's identity, with what it points to.
pub record FieldRef : Type 0 where
  pub owner : ℕ
  pub index : ℕ
  pub desc : FieldDesc

-- `a == b` on pointers to field descriptors.
abbrev pub same_field : FieldRef → FieldRef → Bool
same_field a b = (a.owner == b.owner) && (a.index == b.index)

abbrev pub is_repeated : Label → Bool
is_repeated repeated = true
is_repeated _ = false

abbrev pub is_message : FieldType → Bool
is_message message = true
is_message _ = false

-- LWPB_IS_PACKED_REPEATED.
unfoldable pub is_packed_repeated : FieldDesc → Bool
is_packed_repeated f = is_repeated f.label && f.is_packed

-- A pointer to bytes: a position in the memory at hand, or the start of another object, which
-- holds the listed bytes.
pub data Ptr : Type 0 where
  inside : ℕ → Ptr
  outside : List ℕ → Ptr

-- `union lwpb_value`, by the size of the member that was stored last: 4 bytes (float, int32,
-- uint32, bool, enum_), 8 bytes (double, int64, uint64), or a pointer and a length (string,
-- bytes, message). Numbers are bit patterns.
pub data Value : Type 0 where
  word32 : ℕ → Value
  word64 : ℕ → Value
  block : Ptr → ℕ → Value

-- Reading 4 bytes of an 8-byte member gives its low half (little endian). Reading 8 bytes of a
-- 4-byte member, or a number from a pointer, is indeterminate: `none`.
unfoldable pub read_word32 : Value → Option ℕ
read_word32 (word32 x) = some x
read_word32 (word64 x) = some (x % 2 ^ 32)
read_word32 (block p n) = none

unfoldable pub read_word64 : Value → Option ℕ
read_word64 (word32 x) = none
read_word64 (word64 x) = some x
read_word64 (block p n) = none

unfoldable pub read_block : Value → Option (Ptr × ℕ)
read_block (word32 x) = none
read_block (word64 x) = none
read_block (block p n) = some (p, n)

-- `union wire_value`: its first 8 bytes (varint, int64, string.len; int32 is their low half) and
-- the pointer string.data behind them.
pub record WireValue : Type 0 where
  pub word : ℕ
  pub ptr : Ptr

-- LWPB_MAX_DEPTH.
abbrev pub max_depth : ℕ
max_depth = 32

abbrev pub some_or_fault {ℓ} : {A : Type ℓ} → Option A → Run A
some_or_fault none = fault
some_or_fault (some x) = ret x

unfoldable pub find_desc : Schema → ℕ → Run MsgDesc
find_desc schema m = some_or_fault (get_elem? schema m)

pub find_desc_lem :
    (schema : Schema) (m : ℕ) (d : MsgDesc)
    → get_elem? schema m ≡ some d
    → find_desc schema m ≡ ret d
unfolding find_desc
find_desc_lem schema m d h = rw h
