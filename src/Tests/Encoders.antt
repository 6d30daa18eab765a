-- ===== src/Tests/Encoders.antt =====
-- Runs of nested frames and of the second encoder.
use lwpb.Ensures.{Ensures}
use lwpb.Encoder.Bounds.{encoder_in, Framed, add_field-Within}
use lwpb.Common.{◌≡◌, refl, arith, true, false, none, some, [], ◌∷◌}
use lwpb.Types.{err_ok, err_end_of_buf, ret, is_packed_repeated, read_word64}
use lwpb.Buf.{Buf, IsBuf}
use lwpb.Wire.{encode_value}
use lwpb.Encoder.{nested_start, packed_repeated_start, packed_repeated_end, choose_out, add_field}
use lwpb.Encoder.Field.{in_message}
use lwpb.Encoder.Nested.{
  in_frame, closed, nested_start_full, nested_start_lem, packed_repeated_start_lem,
  packed_repeated_end_lem,
}
use lwpb.Tests.{count, schema, parent, child, deltas, mem, buf, three_hundred}

buf-IsBuf : IsBuf mem buf
buf-IsBuf = omega arith

-- A buffer with nine bytes left.
abbrev short : Buf
short = record { base = 0; pos = 55; end = 64 }

nested_start_full_example :
    nested_start mem (in_message short none 0 []) child
    ≡ ret (
      err_end_of_buf,
      record {
        stack =
            record { buf = none; field_desc = some child; msg_desc = some 1 }
            ∷ (in_message short none 0 []).stack;
        packed = false;
      },
    )
nested_start_full_example =
    nested_start_full mem short child none 0 [] (omega arith) (omega arith) refl (omega arith)

nested_start_lem_example :
    nested_start mem (in_message buf none 0 []) child
    ≡ ret (err_ok, in_frame buf 0 child (some 1) none 0 [] false)
nested_start_lem_example =
    nested_start_lem mem buf child none 0 [] buf-IsBuf (omega arith) refl (omega arith)

packed_repeated_start_lem_example :
    packed_repeated_start mem (in_message buf none 0 []) deltas
    ≡ ret (err_ok, in_frame buf 0 deltas none none 0 [] true)
unfolding is_packed_repeated
packed_repeated_start_lem_example =
    packed_repeated_start_lem mem buf deltas none 0 [] buf-IsBuf (omega arith) refl (omega arith)

packed_repeated_end_lem_example :
    packed_repeated_end schema mem (in_frame buf 5 deltas none none 0 [] true)
    ≡ ret (
      err_ok,
      (closed schema mem buf 5 deltas none none 0 []).0,
      (closed schema mem buf 5 deltas none none 0 []).1,
    )
unfolding is_packed_repeated
packed_repeated_end_lem_example =
    packed_repeated_end_lem schema mem buf 5 deltas none none 0 [] (parent, refl, refl, omega arith)
      buf-IsBuf (omega arith) refl (omega arith)

add_field-Within_example :
    Ensures (Framed mem (record { base = 0; pos = 62; end = 63 }) none (some 0) [] false) (
      add_field schema mem
        (encoder_in (record { base = 0; pos = 62; end = 63 }) none (some 0) [] false)
        count
        three_hundred)
unfolding choose_out encode_value is_packed_repeated read_word64
add_field-Within_example =
    add_field-Within schema mem (record { base = 0; pos = 62; end = 63 }) none (some 0) [] false
      count three_hundred (omega arith) (omega arith)
