-- ===== src/Tests/Faults.antt =====
-- Runs of the decoder on a key without a value, and on fields that no descriptor has.
use lwpb.Common.{ℕ, ◌≡◌, refl, arith, none, some, false, List, [], ◌∷◌}
use lwpb.Types.{ret, fault, word64, is_packed_repeated}
use lwpb.Buf.{Memory, IsBuf-resize}
use lwpb.Varint.Spec.{groups, varint, store, size-store, Holds-store}
use lwpb.Wire.{varint_out, decode_value}
use lwpb.Wire.RoundTrip.{load_out}
use lwpb.Encoder.{field_key}
use lwpb.Encoder.Field.{field_bytes}
use lwpb.Decoder.{State, go, find_field, field_turn, decode}
use lwpb.Decoder.PastEnd.{decode_key_only}
use lwpb.Decoder.Unknown.{UnknownAt, passed, unknown_skipped, unknown_reported}
use lwpb.Tests.{schema, parent, count, mem, buf, garbage, log}

abbrev key_only : Memory
key_only = record { size = 1; byte = λ p. 8 }

decode_key_only_example : decode log key_only 0 schema 0 1 garbage [] ≡ fault
decode_key_only_example =
    decode_key_only log key_only 0 schema parent refl 8 (omega arith) (omega arith) 0 garbage []
      refl (omega arith) (omega arith)

-- A field with number 9 and value 5, which `parent` does not have.
abbrev strange : Memory
strange = store mem 0 (field_bytes 9 (varint_out 5))

strange-UnknownAt : UnknownAt log strange 0 schema 0 parent 9 (varint_out 5) buf
unfolding find_field
strange-UnknownAt = (
  refl,
  refl,
  omega arith,
  omega arith,
  tt,
  IsBuf-resize mem strange buf (size-store mem 0 (field_bytes 9 (varint_out 5))) (omega arith),
  Holds-store mem 0 (field_bytes 9 (varint_out 5)),
  unfold field_bytes field_key varint groups in omega arith,
)

abbrev at_start : State (List ℕ)
at_start = record { stack = []; packed = false; field_desc = none; wire = garbage; user = [] }

abbrev after_count : State (List ℕ)
after_count = record {
  stack = [];
  packed = false;
  field_desc = some count;
  wire = garbage;
  user = 1 ∷ [];
}

unknown_skipped_example :
    field_turn log strange 0 schema at_start (record { buf = buf; msg_desc = some 0 }) []
    ≡ ret (go (passed log strange 0 schema 0 parent 9 (varint_out 5) at_start buf []))
unknown_skipped_example =
    unknown_skipped log strange 0 schema 0 parent 9 (varint_out 5) at_start buf [] strange-UnknownAt
      refl refl

unknown_reported_example :
    field_turn log strange 0 schema after_count (record { buf = buf; msg_desc = some 0 }) []
    ≡ ret (
        go (record (passed log strange 0 schema 0 parent 9 (varint_out 5) after_count buf []) {
          user = 1 ∷ 1 ∷ [];
        }))
unfolding decode_value load_out is_packed_repeated
unknown_reported_example =
    unknown_reported log strange 0 schema 0 parent 9 (varint_out 5) after_count buf [] count
      (word64 5) strange-UnknownAt refl refl refl refl
