-- ===== src/Varint/Decode.antt =====
-- `lwpb_decode_varint` on any input, well formed or not.
use lwpb.Common.{
  ℕ, zero, suc, ◌+◌, ◌*◌, ◌%◌, ◌^◌, ◌≤◌, ◌<◌, ◌≡◌, refl, ◌∙◌, ◌⊎◌, inl, inr, arith, ltb, ◌==◌,
  if◌then◌else◌, bit_and, Bool-cases, Bool, true, false, not, ◌&&◌, ltb-true, ltb-false, ==_true,
  ==_false,
}
use lwpb.Common.Bits.{bit_and_top, bit_or-lt}
use lwpb.Types.{Run, ret, fault, abort, stuck, Err, err_ok, err_end_of_buf}
use lwpb.Buf.{Memory, Buf, read_lem, read_past, advance}
use lwpb.Varint.{IsU64, add_group, decode_last, decode_loop, decode_varint}

-- A byte with its top bit set, which says that more bytes follow.
abbrev pub IsMore : ℕ → Type 0
IsMore byte = (128 ≤ byte) × (byte < 256)

pub more_test :
    (byte bitpos : ℕ)
    → IsMore byte
    → bitpos < 64
    → (not (bit_and byte 0x80 == 0) && ltb bitpos 64) ≡ true
more_test byte bitpos h k =
    rw (==_false (bit_and byte 0x80) 0 (omega (arith, bit_and_top byte)), ltb-true bitpos 64 k)

pub last_test :
    (byte bitpos : ℕ) → byte < 128 → (not (bit_and byte 0x80 == 0) && ltb bitpos 64) ≡ false
last_test byte bitpos h = rw (==_true (bit_and byte 0x80) 0 (omega (arith, bit_and_top byte)))

test_over :
    (byte bitpos : ℕ) → 64 ≤ bitpos → (not (bit_and byte 0x80 == 0) && ltb bitpos 64) ≡ false
test_over byte bitpos h = rw (ltb-false bitpos 64 h) (and-false (not (bit_and byte 0x80 == 0)))
  where
    and-false : (t : Bool) → (t && false) ≡ false
    and-false true = refl
    and-false false = refl

pub add_group-lt : (acc byte bitpos : ℕ) → IsU64 acc → IsU64 (add_group acc byte bitpos)
unfolding add_group
add_group-lt acc byte bitpos h =
    bit_or-lt 64 acc (bit_and byte 0x7f * 2 ^ bitpos % 2 ^ 64) h (omega arith)

-- A success takes one to `n` bytes, all of them in memory, keeps the buffer's ends, and stays
-- inside them unless it took a single byte that stood outside.
pub record Took (m : Memory) (b : Buf) (n : ℕ) (b' : Buf) (v : ℕ) : Type 0 where
  pub same_base : b'.base ≡ b.base
  pub same_end : b'.end ≡ b.end
  pub forward : b.pos < b'.pos
  pub at_most : b'.pos ≤ b.pos + n
  pub in_memory : b'.pos ≤ m.size
  pub in_buffer : (b'.pos ≤ b.end) ⊎ (b'.pos ≡ b.pos + 1)
  pub fits : IsU64 v

-- An error leaves the position on the byte at which the input ran out.
pub record RanOut (m : Memory) (b : Buf) (n : ℕ) (b' : Buf) (v : ℕ) : Type 0 where
  pub same_base : b'.base ≡ b.base
  pub same_end : b'.end ≡ b.end
  pub forward : b.pos ≤ b'.pos
  pub at_most : b'.pos < b.pos + n
  pub in_memory : b'.pos < m.size
  pub at_end : b.end ≤ b'.pos + 1
  pub fits : IsU64 v

-- What holds of any result. It is no other error, no failed assertion and no endless loop.
abbrev pub Decoded : Memory → Buf → ℕ → Run (Err × Buf × ℕ) → Type 0
Decoded m b n (ret (err_ok, b', v)) = Took m b n b' v
Decoded m b n (ret (err_end_of_buf, b', v)) = RanOut m b n b' v
Decoded m b n (ret (_, b', v)) = ⊥
Decoded m b n fault = Unit {0}
Decoded m b n abort = ⊥
Decoded m b n stuck = ⊥

Took-single :
    (m : Memory) (b : Buf) (bitpos acc n : ℕ)
    → IsU64 acc
    → b.pos < m.size
    → 1 ≤ n
    → Took m b n (advance b 1) (add_group acc (m.byte b.pos) bitpos)
unfolding advance
Took-single m b bitpos acc n h p k = record {
  same_base = refl;
  same_end = refl;
  forward = omega arith;
  at_most = omega arith;
  in_memory = omega arith;
  in_buffer = inr refl;
  fits = add_group-lt acc (m.byte b.pos) bitpos h;
}

decode_last-Decoded :
    (m : Memory) (b : Buf) (bitpos acc n : ℕ)
    → IsU64 acc
    → b.pos < m.size
    → 1 ≤ n
    → Decoded m b n (decode_last m b bitpos acc)
unfolding decode_last advance
decode_last-Decoded m b bitpos acc n h p k =
    rw (read_lem m b.pos p) (elim (Bool-cases (ltb bitpos 64)) [
      | inl y ↦ rw y (Took-single m b bitpos acc n h p k)
      | inr n ↦ rw n tt
    ])

-- One round on a byte in memory.
pub decode_loop_step :
    (fuel : ℕ) (m : Memory) (b : Buf) (bitpos acc : ℕ)
    → b.pos < m.size
    → decode_loop (suc fuel) m b bitpos acc ≡ (
        if not (bit_and (m.byte b.pos) 0x80 == 0) && ltb bitpos 64
        then (if ltb b.end (b.pos + 2)
            then ret (err_end_of_buf, b, add_group acc (m.byte b.pos) bitpos)
            else decode_loop fuel m
                (advance b 1)
                (bitpos + 7)
                (add_group acc (m.byte b.pos) bitpos))
        else decode_last m b bitpos acc)
unfolding decode_loop
decode_loop_step fuel m b bitpos acc h = rw (read_lem m b.pos h)

Took-advance :
    (m : Memory) (b b' : Buf) (n v : ℕ)
    → b.pos + 2 ≤ b.end
    → Took m (advance b 1) n b' v
    → Took m b (suc n) b' v
unfolding advance
Took-advance m b b' n v p h = ground arith

RanOut-advance :
    (m : Memory) (b b' : Buf) (n v : ℕ) → RanOut m (advance b 1) n b' v → RanOut m b (suc n) b' v
unfolding advance
RanOut-advance m b b' n v h = ground arith

Decoded-advance :
    (m : Memory) (b : Buf) (n : ℕ) (r : Run (Err × Buf × ℕ))
    → b.pos + 2 ≤ b.end
    → Decoded m (advance b 1) n r
    → Decoded m b (suc n) r
Decoded-advance m b n (ret (err_ok, b', v)) p h = Took-advance m b b' n v p h
Decoded-advance m b n (ret (err_end_of_buf, b', v)) p h = RanOut-advance m b b' n v h
Decoded-advance m b n (ret (_, b', v)) p h = absurd h
Decoded-advance m b n fault p h = tt
Decoded-advance m b n abort p h = h
Decoded-advance m b n stuck p h = h

decode_loop_past :
    (fuel : ℕ) (m : Memory) (b : Buf) (bitpos acc : ℕ)
    → m.size ≤ b.pos
    → decode_loop (suc fuel) m b bitpos acc ≡ fault
unfolding decode_loop
decode_loop_past fuel m b bitpos acc h = rw (read_past m b.pos h)

RanOut-here :
    (m : Memory) (b : Buf) (n v : ℕ)
    → 1 ≤ n
    → b.pos < m.size
    → b.end < b.pos + 2
    → IsU64 v
    → RanOut m b n b v
RanOut-here m b n v k p e h = ground arith

-- The rounds, with the case of no more rounds left to the caller.
decode_round-Decoded :
    (fuel : ℕ) (m : Memory) (b : Buf) (bitpos acc : ℕ)
    → IsU64 acc
    → (bitpos < 64
        → Decoded m
            (advance b 1)
            fuel
            (decode_loop fuel m (advance b 1) (bitpos + 7) (add_group acc (m.byte b.pos) bitpos)))
    → Decoded m b (suc fuel) (decode_loop (suc fuel) m b bitpos acc)
decode_round-Decoded fuel m b bitpos acc h next = elim (Bool-cases (ltb b.pos m.size)) [
  | inr past ↦ rw (decode_loop_past fuel m b bitpos acc (ground arith)) tt
  | inl here ↦
      let p : b.pos < m.size = ground arith in
      rw (decode_loop_step fuel m b bitpos acc p)
        (elim (Bool-cases (not (bit_and (m.byte b.pos) 0x80 == 0) && ltb bitpos 64)) [
          | inr last ↦ rw last (decode_last-Decoded m b bitpos acc (suc fuel) h p (omega arith))
          | inl more ↦ rw more (elim (Bool-cases (ltb b.end (b.pos + 2))) [
            | inl stop ↦ rw stop (
                RanOut-here m b (suc fuel) (add_group acc (m.byte b.pos) bitpos) (omega arith) p
                  (ground arith) (add_group-lt acc (m.byte b.pos) bitpos h))
            | inr go ↦ rw go (Decoded-advance m b fuel _ (ground arith) (next (ground arith)))
          ])
        ])
]

decode_loop-Decoded :
    (fuel : ℕ) (m : Memory) (b : Buf) (bitpos acc : ℕ)
    → 64 ≤ bitpos + 7 * fuel
    → IsU64 acc
    → Decoded m b (suc fuel) (decode_loop (suc fuel) m b bitpos acc)
decode_loop-Decoded zero m b bitpos acc e h =
    decode_round-Decoded 0 m b bitpos acc h (λ lt. absurd (omega arith))
decode_loop-Decoded (suc fuel) m b bitpos acc e h =
    decode_round-Decoded (suc fuel) m b bitpos acc h (λ lt.
      decode_loop-Decoded fuel m (advance b 1) (bitpos + 7) (add_group acc (m.byte b.pos) bitpos)
        (omega arith) (add_group-lt acc (m.byte b.pos) bitpos h))

-- On any memory and buffer, `lwpb_decode_varint` either runs into undefined behaviour, or succeeds,
-- having moved forward by one to eleven bytes of the memory, within the buffer unless it took a
-- single byte that stood outside, with a 64-bit result, or returns LWPB_ERR_END_OF_BUF with the
-- position on the last byte of the buffer or behind. It returns no other error, and its loop ends.
pub decode_varint-Decoded : (m : Memory) (b : Buf) → Decoded m b 11 (decode_varint m b)
unfolding decode_varint
decode_varint-Decoded m b = decode_loop-Decoded 10 m b 0 0 (omega arith) (omega arith)

-- The round on a byte `x` of each kind.
module _ (fuel : ℕ) (m : Memory) (b : Buf) (bitpos acc x : ℕ) (at : m.byte b.pos ≡ x)
    (p : b.pos < m.size) where
  pub decode_more :
      IsMore x
      → bitpos < 64
      → b.pos + 2 ≤ b.end
      → decode_loop (suc fuel) m b bitpos acc
        ≡ decode_loop fuel m (advance b 1) (bitpos + 7) (add_group acc x bitpos)
  decode_more more k room =
      decode_loop_step fuel m b bitpos acc p
      ∙ rw (at, more_test x bitpos more k, ltb-false b.end (b.pos + 2) room)

  pub decode_stop :
      IsMore x
      → bitpos < 64
      → b.end < b.pos + 2
      → decode_loop (suc fuel) m b bitpos acc ≡ ret (err_end_of_buf, b, add_group acc x bitpos)
  decode_stop more k full =
      decode_loop_step fuel m b bitpos acc p
      ∙ rw (at, more_test x bitpos more k, ltb-true b.end (b.pos + 2) full)

  pub decode_final :
      x < 128
      → bitpos < 64
      → decode_loop (suc fuel) m b bitpos acc ≡ ret (err_ok, advance b 1, add_group acc x bitpos)
  unfolding decode_last
  decode_final last k =
      decode_loop_step fuel m b bitpos acc p
      ∙ rw (at, last_test x bitpos last, read_lem m b.pos p, at, ltb-true bitpos 64 k)

  pub decode_too_long : 64 ≤ bitpos → decode_loop (suc fuel) m b bitpos acc ≡ fault
  unfolding decode_last
  decode_too_long k =
      decode_loop_step fuel m b bitpos acc p
      ∙ rw (at, test_over x bitpos k, read_lem m b.pos p, ltb-false bitpos 64 k)
