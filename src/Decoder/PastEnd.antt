-- ===== src/Decoder/PastEnd.antt =====
-- `lwpb_decode_varint` compares the position with the end only behind a byte that says that more
-- follow: a message that ends behind a key makes `lwpb_decoder_decode` read past its end.
use lwpb.Common.{
  ℕ, zero, suc, ◌+◌, ◌%◌, ◌^◌, ◌≤◌, ◌<◌, ◌≡◌, refl, ◌∙◌, arith, false, none, some, [], ◌∷◌,
  ltb-true, leb-true, get_elem?, bit_and,
}
use lwpb.Common.Bits.{bit_and_mask}
use lwpb.Types.{err_ok, ret, fault, Schema, MsgDesc, WireValue, max_depth, find_desc_lem}
use lwpb.Buf.{
  Memory, Buf, IsBuf, room, buf_init, buf_used, buf_used_lem, buf_left-eq-room, advance, read_past,
}
use lwpb.Varint.{decode_varint, decode_loop}
use lwpb.Varint.Spec.{varint, groups_last}
use lwpb.Varint.RoundTrip.{decode_varint_lem}
use lwpb.Decoder.{
  Handlers, read_wire, look_up, read_key, field_turn, turn, run, enter, decode, notify,
}
use native.Mathlib.Nat.{one-le-pow}

-- At the end of the object the first read is out of bounds.
decode_varint_past : (m : Memory) (b : Buf) → m.size ≤ b.pos → decode_varint m b ≡ fault
unfolding decode_varint decode_loop
decode_varint_past m b h = rw (read_past m b.pos h)

module _ {S : Type 0} (h : Handlers S) (m : Memory) (root : ℕ) (schema : Schema) (d : MsgDesc)
    (has : get_elem? schema root ≡ some d) (key : ℕ) (last : key < 128)
    (wire_type : key % 8 ≡ 0) where
  run_key :
      (fuel : ℕ) (b : Buf) (w : WireValue) (u : S)
      → 1 ≤ fuel
      → IsBuf m b
      → m.byte b.pos ≡ key
      → b.end ≡ b.pos + 1
      → m.size ≡ b.end
      → run h m root fuel schema (record {
        stack = record { buf = b; msg_desc = some root } ∷ [];
        packed = false;
        field_desc = none;
        wire = w;
        user = u;
      })
        ≡ fault
  unfolding run turn field_turn read_key look_up read_wire
  run_key zero b w u pos ok at end size = absurd (omega arith)
  run_key (suc fuel) b w u pos ok at end size =
      let one : varint key ≡ key ∷ [] = unfold varint in groups_last 9 key last in
      let low : bit_and key 7 ≡ 0 = bit_and_mask 3 key ∙ wire_type in
      let first : decode_varint m b ≡ ret (err_ok, advance b 1, key) = rw one at (
        decode_varint_lem m b key (omega arith) (rw one (at, tt)) (rw one (omega arith))
          ok.end_le) in
      rw (
        buf_left-eq-room m b ok,
        ltb-true 0 (room b) (omega arith),
        first,
        find_desc_lem schema root d has,
        low,
        decode_varint_past m (advance b 1) (unfold advance in omega arith),
      )

  -- On an object that ends behind a key of one byte with wire type 0, `lwpb_decoder_decode` of that
  -- byte as a message with a known descriptor runs into undefined behaviour: it reads the byte
  -- behind the object.
  pub decode_key_only :
      (p : ℕ) (w : WireValue) (u : S)
      → m.byte p ≡ key
      → m.size ≡ p + 1
      → m.size < 2 ^ 64
      → decode h m root schema p 1 w u ≡ fault
  unfolding decode buf_init enter
  decode_key_only p w u at size small =
      let b : Buf = record { base = p; pos = p; end = p + 1 } in
      let ok : IsBuf m b = omega arith in
      let none_used : buf_used b ≡ 0 = buf_used_lem m b ok ∙ omega arith in
      rw (leb-true (p + 1) m.size (omega arith), none_used)
        (run_key ((m.size + 2) ^ max_depth) b w (notify h.msg_start (some root) u)
          (one-le-pow max_depth (m.size + 2) (omega arith)) ok at refl size)
