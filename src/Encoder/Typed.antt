-- ===== src/Encoder/Typed.antt =====
-- The typed functions of src/lwpb/core/encoder.c: each stores its argument in a value union and
-- calls `lwpb_encoder_add_field`. Numbers are bit patterns.
use lwpb.Common.{ℕ, List}
use lwpb.Types.{Err, Run, ◌>>=◌, Schema, FieldRef, word32, word64, block, Ptr, outside}
use lwpb.Buf.{Memory}
use lwpb.Copy.{str_len}
use lwpb.Encoder.{Encoder, add_field}

module _ (schema : Schema) (m : Memory) (e : Encoder) (field : FieldRef) where
  unfoldable pub add_double : ℕ → Run (Err × Memory × Encoder)
  add_double x = add_field schema m e field (word64 x)

  unfoldable pub add_float : ℕ → Run (Err × Memory × Encoder)
  add_float x = add_field schema m e field (word32 x)

  unfoldable pub add_int32 : ℕ → Run (Err × Memory × Encoder)
  add_int32 x = add_field schema m e field (word32 x)

  unfoldable pub add_uint32 : ℕ → Run (Err × Memory × Encoder)
  add_uint32 x = add_field schema m e field (word32 x)

  unfoldable pub add_int64 : ℕ → Run (Err × Memory × Encoder)
  add_int64 x = add_field schema m e field (word64 x)

  unfoldable pub add_uint64 : ℕ → Run (Err × Memory × Encoder)
  add_uint64 x = add_field schema m e field (word64 x)

  unfoldable pub add_bool : ℕ → Run (Err × Memory × Encoder)
  add_bool x = add_field schema m e field (word32 x)

  unfoldable pub add_enum : ℕ → Run (Err × Memory × Encoder)
  add_enum x = add_field schema m e field (word32 x)

  -- The string is an object of characters with a 0 among them.
  unfoldable pub add_string : List ℕ → Run (Err × Memory × Encoder)
  add_string str = str_len str >>= λ n. add_field schema m e field (block (outside str) n)

  unfoldable pub add_bytes : Ptr → ℕ → Run (Err × Memory × Encoder)
  add_bytes data_ptr len = add_field schema m e field (block data_ptr len)
