-- ===== src/Encoder2/Nested.antt =====
-- A message as a field of `lwpb_encoder2_add_field` (src/lwpb/core/encoder2.c): its bytes lie in the
-- buffer, ten bytes or more behind the field's place.
use lwpb.Common.{
  ℕ, ◌+◌, ◌^◌, ◌≤◌, ◌<◌, ◌≡◌, refl, ◌∙◌, arith, ◌++◌, length, length-append, false, none, some,
}
use lwpb.Types.{ret, FieldDesc, message, block, Ptr, inside, is_packed_repeated, read_block}
use lwpb.Buf.{Memory}
use lwpb.Varint.Spec.{varint, length-varint-le, store, size-store, store-append}
use lwpb.Varint.Encode.{encode_varint2_lem, encode_varint2_count}
use lwpb.Wire.{string_out, encode_value}
use lwpb.Copy.{load, length-load, load-store, mem_move_inside}
use lwpb.Encoder.{field_key, choose_out, reserve}
use lwpb.Encoder.Field.{field_key-lt}
use lwpb.Encoder.Nested.{framed_bytes}
use lwpb.Encoder2.{write_value2, add_field2, copy_block}
use lwpb.Encoder2.Field.{unpacked}

module _ (d : FieldDesc) (typ : d.typ ≡ message) (plain : is_packed_repeated d ≡ false) where
  pub choose_message : (p : Ptr) (n : ℕ) → choose_out false d (block p n) ≡ string_out p n
  unfolding choose_out encode_value read_block
  choose_message p n = rw (plain, typ) refl

  -- At NULL the length is counted.
  pub add_message2_count :
      (m : Memory) (p : Ptr) (n : ℕ)
      → n < 2 ^ 64
      → add_field2 m unpacked d (block p n) none
        ≡ ret (length (varint (field_key 2 d.number)) + (length (varint n) + n), m)
  unfolding add_field2 write_value2 copy_block
  add_message2_count m p n small =
      let lt = field_key-lt 2 d.number (omega arith) in
      rw
        (
          choose_message p n,
          encode_varint2_count m (field_key 2 d.number) (omega arith),
          encode_varint2_count m n small,
        )
        refl

  -- Key, length and bytes are written, although the blocks may overlap.
  pub add_message2_lem :
      (m : Memory) (p q n : ℕ)
      → n < 2 ^ 35
      → p + reserve ≤ q
      → q + n ≤ m.size
      → add_field2 m unpacked d (block (inside q) n) (some p)
        ≡ ret (length (framed_bytes m d q n), store m p (framed_bytes m d q n))
  unfolding add_field2 write_value2 copy_block framed_bytes
  add_message2_lem m p q n small behind fits =
      let key = varint (field_key 2 d.number) in
      let lt = field_key-lt 2 d.number (omega arith) in
      let key_len = length-varint-le (field_key 2 d.number) (omega arith) in
      let n_len = length-varint-le n small in
      let m1 = store m p key in
      let p1 = p + length key in
      let size1 = size-store m p key in
      let m2 = store m1 p1 (varint n) in
      let size2 = size-store m1 p1 (varint n) in
      let same : load m2 q n ≡ load m q n =
        load-store m1 p1 (varint n) q n (omega arith) ∙ load-store m p key q n (omega arith) in
      let len : length key + (length (varint n) + n) ≡ length (key ++ (varint n ++ load m q n)) =
        omega (
          arith,
          length-append key (varint n ++ load m q n),
          length-append (varint n) (load m q n),
          length-load m q n,
        ) in
      rw
        (
          choose_message (inside q) n,
          encode_varint2_lem m p (field_key 2 d.number) (omega arith) (omega arith),
          encode_varint2_lem m1 p1 n (omega arith) (omega arith),
          typ,
          mem_move_inside m2 (p1 + length (varint n)) q n (omega arith) (omega arith),
          same,
          len,
          store-append m p key (varint n ++ load m q n),
          store-append m1 p1 (varint n) (load m q n),
        )
        refl
