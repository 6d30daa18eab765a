-- ===== src/Fixed/Laws.antt =====
-- What the fixed-size encoders write.
use lwpb.Common.{
  ℕ, ◌+◌, ◌/◌, ◌%◌, ◌^◌, ◌≤◌, ◌≡◌, refl, arith, List, [], ◌∷◌, ◌++◌, length, bit_and, Bool-cases,
  ltb, inl, inr, ltb-false, if◌then◌else◌, some,
}
use lwpb.Common.Bits.{bit_and_mask}
use lwpb.Types.{Run, ret, ◌>>=◌, Err, err_ok, err_end_of_buf}
use lwpb.Buf.{Memory, Buf, IsBuf, room, advance, put, write_lem, buf_left, buf_left-eq-room}
use lwpb.Fixed.{four_bytes, write_all, encode_32bit, encode_64bit, encode_32bit2, encode_64bit2}
use lwpb.Varint.Spec.{store}

-- The little-endian bytes of a number.
abbrev pub bytes32 : ℕ → List ℕ
bytes32 v = v % 256 ∷ v / 2 ^ 8 % 256 ∷ v / 2 ^ 16 % 256 ∷ v / 2 ^ 24 % 256 ∷ []

abbrev pub bytes64 : ℕ → List ℕ
bytes64 v = bytes32 v ++ bytes32 (v / 2 ^ 32)

pub write_all_lem :
    (m : Memory) (p : ℕ) (bs : List ℕ)
    → p + length bs ≤ m.size
    → write_all m p bs ≡ ret (store m p bs)
unfolding write_all store
write_all_lem m p [] h = refl
write_all_lem m p (b ∷ bs) h =
    rw (write_lem m p b (omega arith))
      (write_all_lem (put m p b) (p + 1) bs (unfold put in omega arith))

pub mask_byte : (v : ℕ) → bit_and v 0xff ≡ v % 256
mask_byte v = bit_and_mask 8 v

pub four_bytes_lem : (v : ℕ) → four_bytes v ≡ bytes32 v
four_bytes_lem v = simp mask_byte refl

-- All bytes or, where they do not fit, none.
unfoldable pub stored_whole : Memory → Buf → List ℕ → Run (Err × Memory × Buf)
stored_whole m b bs =
    if ltb (room b) (length bs)
    then ret (err_end_of_buf, m, b)
    else ret (err_ok, store m b.pos bs, advance b (length bs))

pub stored_whole_fits :
    (m : Memory) (b : Buf) (bs : List ℕ)
    → length bs ≤ room b
    → stored_whole m b bs ≡ ret (err_ok, store m b.pos bs, advance b (length bs))
unfolding stored_whole
stored_whole_fits m b bs h = rw (ltb-false (room b) (length bs) h)

-- The shape of both encoders: a test of the room, then the stores.
guarded_stores :
    (m : Memory) (b : Buf) (bs : List ℕ)
    → IsBuf m b
    → (if ltb (buf_left b) (length bs)
        then ret (err_end_of_buf, m, b)
        else (write_all m b.pos bs >>= λ m'. ret (err_ok, m', advance b (length bs))))
      ≡ stored_whole m b bs
unfolding stored_whole
guarded_stores m b bs ok =
    rw (buf_left-eq-room m b ok) (elim (Bool-cases (ltb (room b) (length bs))) [
      | inl full ↦ rw full
      | inr fits ↦ rw (fits, write_all_lem m b.pos bs (ground arith))
    ])

-- On a well-formed buffer `encode_32bit` stores the four bytes of the number, lowest first, or,
-- without room for all of them, returns LWPB_ERR_END_OF_BUF and stores nothing.
pub encode_32bit_lem :
    (m : Memory) (b : Buf) (v : ℕ) → IsBuf m b → encode_32bit m b v ≡ stored_whole m b (bytes32 v)
unfolding encode_32bit
encode_32bit_lem m b v ok = simp mask_byte (guarded_stores m b (bytes32 v) ok)

-- On a well-formed buffer `encode_64bit` stores the eight bytes of the number, lowest first, or,
-- without room for all of them, returns LWPB_ERR_END_OF_BUF and stores nothing.
pub encode_64bit_lem :
    (m : Memory) (b : Buf) (v : ℕ) → IsBuf m b → encode_64bit m b v ≡ stored_whole m b (bytes64 v)
unfolding encode_64bit
encode_64bit_lem m b v ok = simp mask_byte (guarded_stores m b (bytes64 v) ok)

pub encode_32bit2_lem :
    (m : Memory) (p v : ℕ)
    → p + 4 ≤ m.size
    → encode_32bit2 m (some p) v ≡ ret (4, store m p (bytes32 v))
unfolding encode_32bit2
encode_32bit2_lem m p v h = simp mask_byte (rw (write_all_lem m p (bytes32 v) h))

pub encode_64bit2_lem :
    (m : Memory) (p v : ℕ)
    → p + 8 ≤ m.size
    → encode_64bit2 m (some p) v ≡ ret (8, store m p (bytes64 v))
unfolding encode_64bit2
encode_64bit2_lem m p v h = simp mask_byte (rw (write_all_lem m p (bytes64 v) h))
