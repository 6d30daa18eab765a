-- ===== src/Tests/PythonDecoder.antt =====
-- The Python bindings' decoder on a nested message whose fields are named by their indices.
use lwpb.Common.{ℕ, ◌+◌, ◌-◌, ◌^◌, ◌≡◌, arith, none, some, List, [], ◌∷◌, length, get_elem?}
use lwpb.Types.{FieldDesc, FieldRef, FieldType, Run, ret}
use lwpb.Varint.Spec.{store}
use lwpb.Decoder.{Handlers}
use lwpb.Python.Objects.{pos, negsuc, number, Heap}
use lwpb.Python.Objects.Typed.{value_of, Kinds, Typed}
use lwpb.Python.Encoder.{encoder_encode_varint, encoder_encode_32bit, encoder_encode_64bit}
use lwpb.Python.Decoder.{
  Context, object, decoder_decode_varint, decoder_decode_32bit, decoder_decode_64bit,
}
use lwpb.Python.Numbers.{decode-encode}
use lwpb.Tests.{mem}

abbrev index_name : FieldRef → List ℕ
index_name f = f.index ∷ []

record Found (ds : List FieldDesc) (k owner : ℕ) (f : FieldRef) : Type 0 where
  pub offset : ℕ
  pub of_owner : f.owner ≡ owner
  pub at : f.index ≡ k + offset
  pub has : get_elem? ds offset ≡ some f.desc

abbrev empty_heap : Heap
empty_heap = record { next = 0; object = λ a. number (pos 0) }

abbrev no_kinds : Kinds
no_kinds = λ a. value_of FieldType.int32

abbrev no_handlers : Handlers (Run Context)
no_handlers = record { msg_start = none; msg_end = none; field = none }

-- 2^64 - 1 is read back as -1.
decode-encode_example :
    ((s : List ℕ) × (encoder_encode_varint (λ a. 0) (2 ^ 64 - 1) ≡ ret s)
      × (decoder_decode_varint (store mem 0 s) 0 (length s)
          ≡ ret (some (some (negsuc 0), length s), none)))
    × ((s : List ℕ) × (encoder_encode_64bit (λ a. 0) (2 ^ 64 - 1) ≡ ret s)
        × (decoder_decode_64bit (store mem 0 s) 0 (length s)
            ≡ ret (some (some (negsuc 0), length s), none)))
    × ((s : List ℕ) × (encoder_encode_32bit (λ a. 0) 300 ≡ ret s)
        × (decoder_decode_32bit (store mem 0 s) 0 (length s)
            ≡ ret (some (some (pos 300), length s), none)))
decode-encode_example =
    decode-encode (λ a. 0) mem 0 (2 ^ 64 - 1) 300 (omega arith) (omega arith) (omega arith)
      (omega arith)
