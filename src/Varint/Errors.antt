-- ===== src/Varint/Errors.antt =====
-- Inputs that `lwpb_decode_varint` of src/lwpb/core/decoder.c does not decode: encodings that run
-- into the end of the buffer, and encodings of more than ten bytes.
use lwpb.Common.{
  ℕ, zero, suc, ◌+◌, ◌*◌, ◌≤◌, ◌<◌, ◌≡◌, refl, ◌∙◌, arith, List, [], ◌∷◌, length, All,
}
use lwpb.Types.{Run, ret, fault, Err, err_end_of_buf}
use lwpb.Buf.{Memory, Buf, advance}
use lwpb.Varint.{add_group, decode_loop, decode_varint}
use lwpb.Varint.Spec.{Holds}
use lwpb.Varint.Decode.{IsMore, decode_more, decode_stop, decode_too_long}

-- The answer is LWPB_ERR_END_OF_BUF.
abbrev pub RunsOut : Run (Err × Buf × ℕ) → Type 0
RunsOut r = (b' : Buf) × (v : ℕ) × (r ≡ ret (err_end_of_buf, b', v))

decode_loop_truncated :
    (bs : List ℕ) (x fuel : ℕ) (m : Memory) (b : Buf) (bitpos acc : ℕ)
    → All IsMore (x ∷ bs)
    → Holds m b.pos (x ∷ bs)
    → b.pos + length (x ∷ bs) ≡ b.end
    → b.end ≤ m.size
    → length bs ≤ fuel
    → bitpos + 7 * length bs < 64
    → RunsOut (decode_loop (suc fuel) m b bitpos acc)
decode_loop_truncated [] x fuel m b bitpos acc more at e le f k = (
  b,
  add_group acc x bitpos,
  decode_stop fuel m b bitpos acc x at.0 (omega arith) more.0 (omega arith) (omega arith),
)
decode_loop_truncated (y ∷ bs) x zero m b bitpos acc more at e le f k = absurd (omega arith)
decode_loop_truncated (y ∷ bs) x (suc fuel) m b bitpos acc more at e le f k =
    rw
      (decode_more (suc fuel) m b bitpos acc x at.0 (omega arith) more.0 (omega arith)
        (omega arith))
      (decode_loop_truncated bs y fuel m (advance b 1) (bitpos + 7) (add_group acc x bitpos) more.1
        (unfold advance in at.1) (unfold advance in omega arith) (unfold advance in le)
        (omega arith) (omega arith))

-- One to ten continuation bytes up to the end of a buffer inside its object make
-- `lwpb_decode_varint` return LWPB_ERR_END_OF_BUF.
pub decode_varint_truncated :
    (m : Memory) (b : Buf) (x : ℕ) (bs : List ℕ)
    → All IsMore (x ∷ bs)
    → length bs ≤ 9
    → Holds m b.pos (x ∷ bs)
    → b.pos + length (x ∷ bs) ≡ b.end
    → b.end ≤ m.size
    → RunsOut (decode_varint m b)
unfolding decode_varint
decode_varint_truncated m b x bs more n at e le =
    decode_loop_truncated bs x 10 m b 0 0 more at e le (omega arith) (omega arith)

decode_loop_overlong :
    (bs : List ℕ) (fuel : ℕ) (m : Memory) (b : Buf) (bitpos acc : ℕ)
    → All IsMore bs
    → Holds m b.pos bs
    → b.pos + length bs < b.end
    → b.end ≤ m.size
    → length bs ≤ fuel
    → bitpos + 7 * length bs ≡ 70
    → decode_loop (suc fuel) m b bitpos acc ≡ fault
decode_loop_overlong [] fuel m b bitpos acc more at e le f k =
    decode_too_long fuel m b bitpos acc (m.byte b.pos) refl (omega arith) (omega arith)
decode_loop_overlong (y ∷ bs) zero m b bitpos acc more at e le f k = absurd (omega arith)
decode_loop_overlong (y ∷ bs) (suc fuel) m b bitpos acc more at e le f k =
    decode_more (suc fuel) m b bitpos acc y at.0 (omega arith) more.0 (omega arith) (omega arith)
    ∙ decode_loop_overlong bs fuel m (advance b 1) (bitpos + 7) (add_group acc y bitpos) more.1
        (unfold advance in at.1) (unfold advance in omega arith) (unfold advance in le)
        (omega arith) (omega arith)

-- Behind ten continuation bytes with a byte more in a buffer inside its object, `lwpb_decode_varint`
-- runs into undefined behaviour: it shifts a 64-bit number by 70.
pub decode_varint_overlong :
    (m : Memory) (b : Buf) (bs : List ℕ)
    → All IsMore bs
    → length bs ≡ 10
    → Holds m b.pos bs
    → b.pos + 10 < b.end
    → b.end ≤ m.size
    → decode_varint m b ≡ fault
unfolding decode_varint
decode_varint_overlong m b bs more n at e le =
    decode_loop_overlong bs 10 m b 0 0 more at (omega arith) le (omega arith) (omega arith)
