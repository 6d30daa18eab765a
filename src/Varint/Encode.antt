-- ===== src/Varint/Encode.antt =====
-- What the two varint encoders write, on every branch.
use lwpb.Common.{
  ℕ, zero, suc, ◌+◌, ◌-◌, ◌/◌, ◌%◌, ◌^◌, ◌≤◌, ◌<◌, ◌≡◌, refl, ◌∙◌, sym, inl, inr, arith, List, [],
  ◌∷◌, ltb, leb, ◌==◌, if◌then◌else◌, length, take, Bool-cases, none, some, true, false, ltb-true,
  ltb-false, leb-true, leb-false, ==_true, ==_false,
}
use lwpb.Common.Bits.{bit_and_mask, bit_or_fields, bit_or_comm}
use native.Mathlib.Nat.{zero-add}
use lwpb.Types.{Run, ret, Err, err_ok, err_end_of_buf}
use lwpb.Buf.{
  Memory, Buf, IsBuf, room, put, buf_left, buf_left-eq-room, advance, write_lem, IsBuf-put-advance,
}
use lwpb.Varint.{IsU64, varint_byte, encode_loop, encode_varint, encode2_loop, encode_varint2}
use lwpb.Varint.Spec.{groups, groups_last, groups_more, length-groups, varint, store}

pub varint_byte_last : (v : ℕ) → v < 128 → varint_byte v ≡ v
unfolding varint_byte
varint_byte_last v h = ground (arith, bit_and_mask 7 v)

pub varint_byte_more : (v : ℕ) → 128 ≤ v → varint_byte v ≡ v % 128 + 128
unfolding varint_byte
varint_byte_more v h =
    ground (
      arith,
      bit_and_mask 7 v,
      bit_or_comm 0x80 (v % 128),
      bit_or_fields 7 1 (v % 128) (omega arith),
    )

-- Storing the bytes that fit, and LWPB_ERR_END_OF_BUF if some do not.
unfoldable pub stored : Memory → Buf → List ℕ → Run (Err × Memory × Buf)
stored m b bs =
    if leb (length bs) (room b)
    then ret (err_ok, store m b.pos bs, advance b (length bs))
    else ret (err_end_of_buf, store m b.pos (take (room b) bs), advance b (room b))

pub stored_fits :
    (m : Memory) (b : Buf) (bs : List ℕ)
    → length bs ≤ room b
    → stored m b bs ≡ ret (err_ok, store m b.pos bs, advance b (length bs))
unfolding stored
stored_fits m b bs h = rw (leb-true (length bs) (room b) h)

pub stored_over :
    (m : Memory) (b : Buf) (bs : List ℕ)
    → room b < length bs
    → stored m b bs ≡ ret (err_end_of_buf, store m b.pos (take (room b) bs), advance b (room b))
unfolding stored
stored_over m b bs h = rw (leb-false (length bs) (room b) h)

stored_cons :
    (m : Memory) (b : Buf) (x : ℕ) (bs : List ℕ)
    → b.pos < b.end
    → stored (put m b.pos x) (advance b 1) bs ≡ stored m b (x ∷ bs)
unfolding stored advance store
stored_cons m b x bs h =
    let e : b.end - b.pos ≡ suc (b.end - (b.pos + 1)) = omega arith in
    elim (Bool-cases (leb (length bs) (b.end - (b.pos + 1)))) [
      | inl fits ↦
          let f : leb (suc (length bs)) (b.end - b.pos) ≡ true = ground arith in
          let g : b.pos + suc (length bs) ≡ b.pos + 1 + length bs = omega arith in rw (fits, f, g)
      | inr over ↦
          let f : leb (suc (length bs)) (b.end - b.pos) ≡ false = ground arith in
          let g : b.pos + suc (b.end - (b.pos + 1)) ≡ b.pos + 1 + (b.end - (b.pos + 1)) =
            omega arith in
          rw (over, f, e, g)
    ]

stored_none :
    (m : Memory) (b : Buf) (x : ℕ) (bs : List ℕ)
    → room b ≡ 0
    → stored m b (x ∷ bs) ≡ ret (err_end_of_buf, m, b)
unfolding stored advance store
stored_none m b x bs h =
    let f : leb (suc (length bs)) (b.end - b.pos) ≡ false = ground arith in
    let g : b.pos + 0 ≡ b.pos = omega arith in rw (f, h, g)

-- One round with room for a byte, and one without.
encode_loop_step :
    (k : ℕ) (m : Memory) (b : Buf) (v : ℕ)
    → IsBuf m b
    → b.pos < b.end
    → encode_loop (suc k) m b v ≡ (
        if v / 128 == 0
        then ret (err_ok, put m b.pos (varint_byte v), advance b 1)
        else encode_loop k (put m b.pos (varint_byte v)) (advance b 1) (v / 128))
unfolding encode_loop
encode_loop_step k m b v ok h = rw (
  ltb-false (buf_left b) 1 (omega (arith, buf_left-eq-room m b ok)),
  write_lem m b.pos (varint_byte v) (omega arith),
)

encode_loop_full :
    (k : ℕ) (m : Memory) (b : Buf) (v : ℕ)
    → IsBuf m b
    → b.end ≤ b.pos
    → encode_loop (suc k) m b v ≡ ret (err_end_of_buf, m, b)
unfolding encode_loop
encode_loop_full k m b v ok h =
    rw (ltb-true (buf_left b) 1 (omega (arith, buf_left-eq-room m b ok)))

groups_cons : (k v : ℕ) → (x : ℕ) × (xs : List ℕ) × (groups k v ≡ x ∷ xs)
unfolding groups
groups_cons zero v = (v, [], refl)
groups_cons (suc k) v = elim (Bool-cases (ltb v 128)) [
  | inl last ↦ (v, [], rw last)
  | inr more ↦ (v % 128 + 128, groups k (v / 128), rw more)
]

-- A last byte, and a byte with more to follow.
encode_loop_last :
    (k : ℕ) (m : Memory) (b : Buf) (v : ℕ)
    → IsBuf m b
    → b.pos < b.end
    → v < 128
    → encode_loop (suc k) m b v ≡ stored m b (v ∷ [])
encode_loop_last k m b v ok h last =
    encode_loop_step k m b v ok h
    ∙ rw (==_true (v / 128) 0 (omega arith), varint_byte_last v last, ← stored_cons m b v [] h)
        (unfold stored store advance in
          let e : b.pos + 1 + 0 ≡ b.pos + 1 = omega arith in
          rw (leb-true 0 (b.end - (b.pos + 1)) (omega arith), e))

-- No room: nothing is stored.
encode_loop_none :
    (k : ℕ) (m : Memory) (b : Buf) (v : ℕ)
    → IsBuf m b
    → b.end ≤ b.pos
    → encode_loop (suc k) m b v ≡ stored m b (groups k v)
encode_loop_none k m b v ok full =
    let (x, xs, e) = groups_cons k v in
    rw e (encode_loop_full k m b v ok full ∙ sym (stored_none m b x xs (omega arith)))

encode_loop_more :
    (k : ℕ) (m : Memory) (b : Buf) (v : ℕ)
    → IsBuf m b
    → b.pos < b.end
    → 128 ≤ v
    → encode_loop (suc k) (put m b.pos (v % 128 + 128)) (advance b 1) (v / 128)
      ≡ stored (put m b.pos (v % 128 + 128)) (advance b 1) (groups k (v / 128))
    → encode_loop (suc (suc k)) m b v ≡ stored m b (groups (suc k) v)
encode_loop_more k m b v ok h more rest =
    encode_loop_step (suc k) m b v ok h
    ∙ rw (==_false (v / 128) 0 (omega arith), varint_byte_more v more, groups_more k v more)
        (rest ∙ stored_cons m b (v % 128 + 128) (groups k (v / 128)) h)

encode_loop_lem :
    (k : ℕ) (m : Memory) (b : Buf) (v : ℕ)
    → IsBuf m b
    → v < 128 ^ suc k
    → encode_loop (suc k) m b v ≡ stored m b (groups k v)
encode_loop_lem zero m b v ok h = elim (Bool-cases (ltb b.pos b.end)) [
  | inr full ↦ encode_loop_none 0 m b v ok (ground arith)
  | inl free ↦
      rw (groups_last 0 v (omega arith)) (encode_loop_last 0 m b v ok (ground arith) (omega arith))
]
encode_loop_lem (suc k) m b v ok h = elim (Bool-cases (ltb b.pos b.end)) [
  | inr full ↦ encode_loop_none (suc k) m b v ok (ground arith)
  | inl free ↦ elim (Bool-cases (ltb v 128)) [
    | inl last ↦
        rw (groups_last (suc k) v (ground arith))
          (encode_loop_last (suc k) m b v ok (ground arith) (ground arith))
    | inr more ↦ encode_loop_more k m b v ok (ground arith) (ground arith) (
        encode_loop_lem k (put m b.pos (v % 128 + 128)) (advance b 1) (v / 128)
          (IsBuf-put-advance m b (v % 128 + 128) ok (ground arith)) (omega arith))
  ]
]

-- On a well-formed buffer `encode_varint` stores the base-128 encoding of a 64-bit number and
-- succeeds, or, where that does not fit, stores the part that fits, moves to the end and returns
-- LWPB_ERR_END_OF_BUF.
pub encode_varint_lem :
    (m : Memory) (b : Buf) (v : ℕ)
    → IsBuf m b
    → IsU64 v
    → encode_varint m b v ≡ stored m b (varint v)
unfolding encode_varint varint
encode_varint_lem m b v ok h = encode_loop_lem 9 m b v ok (omega arith)

-- Without a buffer `lwpb_encode_varint` only counts.
encode2_loop_count :
    (k : ℕ) (m : Memory) (v len : ℕ)
    → v < 128 ^ suc k
    → encode2_loop (suc k) m none v len ≡ ret (len + length (groups k v), m)
unfolding encode2_loop groups
encode2_loop_count zero m v len h = ground (arith)
encode2_loop_count (suc k) m v len h = ground (arith, encode2_loop_count k m (v / 128) (len + 1))

-- At NULL, `lwpb_encode_varint` returns the length of the base-128 encoding of a 64-bit number and
-- stores nothing.
pub encode_varint2_count :
    (m : Memory) (v : ℕ) → IsU64 v → encode_varint2 m none v ≡ ret (length (varint v), m)
unfolding encode_varint2 varint
encode_varint2_count m v h = encode2_loop_count 9 m v 0 (omega arith) ∙ rw zero-add

encode2_step :
    (k : ℕ) (m : Memory) (p v len : ℕ)
    → p < m.size
    → encode2_loop (suc k) m (some p) v len ≡ (
        if v / 128 == 0
        then ret (len + 1, put m p (varint_byte v))
        else encode2_loop k (put m p (varint_byte v)) (some (p + 1)) (v / 128) (len + 1))
unfolding encode2_loop
encode2_step k m p v len h = rw (write_lem m p (varint_byte v) h)

encode2_loop_last :
    (k : ℕ) (m : Memory) (p v len : ℕ)
    → v < 128
    → p < m.size
    → encode2_loop (suc k) m (some p) v len ≡ ret (len + 1, store m p (v ∷ []))
unfolding store
encode2_loop_last k m p v len last h =
    encode2_step k m p v len h ∙ rw (==_true (v / 128) 0 (omega arith), varint_byte_last v last)

encode2_loop_lem :
    (k : ℕ) (m : Memory) (p v len : ℕ)
    → v < 128 ^ suc k
    → p + length (groups k v) ≤ m.size
    → encode2_loop (suc k) m (some p) v len
      ≡ ret (len + length (groups k v), store m p (groups k v))
encode2_loop_lem zero m p v len h fits =
    let e = groups_last 0 v (omega arith) in
    rw e (encode2_loop_last 0 m p v len (omega arith) (omega (arith, length-groups 0 v)))
encode2_loop_lem (suc k) m p v len h fits = elim (Bool-cases (ltb v 128)) [
  | inl last ↦
      rw (groups_last (suc k) v (ground arith)) (
        encode2_loop_last (suc k) m p v len (ground arith) (omega (arith, length-groups (suc k) v)))
  | inr more ↦
      let x = v % 128 + 128 in
      let e = groups_more k v (ground arith) in
      let fits' : p + suc (length (groups k (v / 128))) ≤ m.size = rw e at fits in
      let rest =
        encode2_loop_lem k (put m p x) (p + 1) (v / 128) (len + 1) (omega arith)
          (unfold put in omega arith) in
      let f : len + suc (length (groups k (v / 128))) ≡ len + 1 + length (groups k (v / 128)) =
        omega arith in
      encode2_step (suc k) m p v len (omega arith)
      ∙ rw (==_false (v / 128) 0 (ground arith), varint_byte_more v (ground arith), e)
          (rest ∙ rw f (unfold store in refl))
]

-- At a pointer with room for the base-128 encoding of a 64-bit number, `lwpb_encode_varint` stores
-- the encoding and returns its length.
pub encode_varint2_lem :
    (m : Memory) (p v : ℕ)
    → IsU64 v
    → p + length (varint v) ≤ m.size
    → encode_varint2 m (some p) v ≡ ret (length (varint v), store m p (varint v))
unfolding encode_varint2 varint
encode_varint2_lem m p v h fits = encode2_loop_lem 9 m p v 0 (omega arith) fits ∙ rw zero-add
