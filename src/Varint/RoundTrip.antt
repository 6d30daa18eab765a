-- ===== src/Varint/RoundTrip.antt =====
-- Reading back what the varint encoders wrote.
use lwpb.Common.{
  ℕ, zero, suc, ◌+◌, ◌*◌, ◌/◌, ◌%◌, ◌^◌, ◌≤◌, ◌<◌, ◌≡◌, ap, ◌∙◌, arith, [], ◌∷◌, length, Bool-cases,
  ltb, inl, inr, leb-true,
}
use lwpb.Common.Bits.{bit_and_mask, bit_or_fields}
use lwpb.Types.{ret, err_ok}
use lwpb.Buf.{Memory, Buf, IsBuf, room, advance, advance-advance}
use lwpb.Varint.{IsU64, add_group, decode_loop, decode_varint, encode_varint}
use lwpb.Varint.Spec.{
  groups, groups_last, groups_more, length-groups, varint, Holds, Holds-store, store, size-store,
}
use lwpb.Varint.Encode.{stored, encode_varint_lem}
use lwpb.Varint.Decode.{decode_more, decode_final}
use native.Mathlib.Nat.{div-add-mod}
use native.Mathlib.Numerals.{towards_suc}

-- A group above the bits read so far is added to them.
add_group_lem :
    (acc byte g bitpos : ℕ)
    → byte % 128 ≡ g
    → acc < 2 ^ bitpos
    → IsU64 (g * 2 ^ bitpos)
    → add_group acc byte bitpos ≡ acc + g * 2 ^ bitpos
unfolding add_group
add_group_lem acc byte g bitpos e h fits =
    ground (arith, bit_and_mask 7 byte, bit_or_fields bitpos g acc h)

pow_seven : (s : ℕ) → 2 ^ (s + 7) ≡ 128 * 2 ^ s
pow_seven s = simp towards_suc (omega arith)

-- `w` shifted by `s` is its lowest group shifted by `s`, and the rest shifted by `s + 7`.
split_low : (w s : ℕ) → w * 2 ^ s ≡ w % 128 * 2 ^ s + w / 128 * 2 ^ (s + 7)
split_low w s = omega (
  arith,
  ap (λ (t : ℕ). t * 2 ^ s) (div-add-mod w 128),
  ap (λ (t : ℕ). w / 128 * t) (pow_seven s),
)

below_next : (acc g s : ℕ) → acc < 2 ^ s → g < 128 → acc + g * 2 ^ s < 2 ^ (s + 7)
below_next acc g s h k = rw (pow_seven s) (grind arith)

one-add : (n : ℕ) → 1 + n ≡ suc n
one-add n = omega arith

-- The last group.
decode_loop_last :
    (w fuel : ℕ) (m : Memory) (b : Buf) (bitpos acc : ℕ)
    → w < 128
    → bitpos < 64
    → acc < 2 ^ bitpos
    → IsU64 (acc + w * 2 ^ bitpos)
    → m.byte b.pos ≡ w
    → b.pos < m.size
    → decode_loop (suc fuel) m b bitpos acc ≡ ret (err_ok, advance b 1, acc + w * 2 ^ bitpos)
decode_loop_last w fuel m b bitpos acc hw k ha fits at p =
    decode_final fuel m b bitpos acc w at p hw k
    ∙ rw (add_group_lem acc w w bitpos (omega arith) ha (omega arith))

decode_loop-groups :
    (k w fuel : ℕ) (m : Memory) (b : Buf) (bitpos acc : ℕ)
    → w < 128 ^ suc k
    → k ≤ fuel
    → bitpos + 7 * k < 64
    → acc < 2 ^ bitpos
    → IsU64 (acc + w * 2 ^ bitpos)
    → Holds m b.pos (groups k w)
    → b.pos + length (groups k w) ≤ b.end
    → b.end ≤ m.size
    → decode_loop (suc fuel) m b bitpos acc
      ≡ ret (err_ok, advance b (length (groups k w)), acc + w * 2 ^ bitpos)
decode_loop-groups zero w fuel m b bitpos acc hw f k ha fits at e le =
    let g = groups_last 0 w (omega arith) in
    let at' : Holds m b.pos (w ∷ []) = rw g at at in
    let e' : b.pos + 1 ≤ b.end = rw g at e in
    rw g (
      decode_loop_last w fuel m b bitpos acc (omega arith) (omega arith) ha fits at'.0
        (omega arith))
decode_loop-groups (suc k) w zero m b bitpos acc hw f k' ha fits at e le = absurd (omega arith)
decode_loop-groups (suc k) w (suc fuel) m b bitpos acc hw f k' ha fits at e le =
    elim (Bool-cases (ltb w 128)) [
      | inl last ↦
          let g = groups_last (suc k) w (ground arith) in
          let at' : Holds m b.pos (w ∷ []) = rw g at at in
          let e' : b.pos + 1 ≤ b.end = rw g at e in
          rw g (
            decode_loop_last w (suc fuel) m b bitpos acc (ground arith) (omega arith) ha fits at'.0
              (omega arith))
      | inr more ↦
          let x = w % 128 + 128 in
          let g = groups_more k w (ground arith) in
          let at' : Holds m b.pos (x ∷ groups k (w / 128)) = rw g at at in
          let e' : b.pos + suc (length (groups k (w / 128))) ≤ b.end = rw g at e in
          let n = length-groups k (w / 128) in
          let acc' = acc + w % 128 * 2 ^ bitpos in
          let sum : acc' + w / 128 * 2 ^ (bitpos + 7) ≡ acc + w * 2 ^ bitpos =
            omega (arith, split_low w bitpos) in
          rw g (
            decode_more (suc fuel) m b bitpos acc x at'.0 (omega arith) (omega arith) (omega arith)
              (omega arith)
            ∙ rw (add_group_lem acc x (w % 128) bitpos (omega arith) ha (omega arith)) (
                decode_loop-groups k (w / 128) fuel m (advance b 1) (bitpos + 7) acc' (omega arith)
                  (omega arith) (omega arith) (below_next acc (w % 128) bitpos ha (omega arith))
                  (rw sum fits) (unfold advance in at'.1) (unfold advance in omega arith)
                  (unfold advance in le)
                ∙ rw (
                  sum,
                  advance-advance b 1 (length (groups k (w / 128))),
                  one-add (length (groups k (w / 128))),
                )))
    ]

-- `lwpb_decode_varint` reads a 64-bit number from its encoding, wherever that stands in a buffer
-- inside its object, and moves behind it.
pub decode_varint_lem :
    (m : Memory) (b : Buf) (v : ℕ)
    → IsU64 v
    → Holds m b.pos (varint v)
    → b.pos + length (varint v) ≤ b.end
    → b.end ≤ m.size
    → decode_varint m b ≡ ret (err_ok, advance b (length (varint v)), v)
unfolding decode_varint varint
decode_varint_lem m b v h at e le =
    let z : 0 + v * 2 ^ 0 ≡ v = omega arith in
    decode_loop-groups 9 v 10 m b 0 0 (omega arith) (omega arith) (omega arith) (omega arith)
      (rw z h) at e le
    ∙ rw z

-- For a 64-bit number and a well-formed buffer with room for its encoding, `encode_varint` succeeds,
-- and `lwpb_decode_varint` at the old position reads the number back and stops where the encoder
-- stopped.
pub decode_varint-encode_varint :
    (m : Memory) (b : Buf) (v : ℕ)
    → IsBuf m b
    → IsU64 v
    → length (varint v) ≤ room b
    → (m' : Memory) × (b' : Buf) × (encode_varint m b v ≡ ret (err_ok, m', b'))
      × (decode_varint m' b ≡ ret (err_ok, b', v))
unfolding stored
decode_varint-encode_varint m b v ok h fits =
    let m' = store m b.pos (varint v) in
    (
      m',
      advance b (length (varint v)),
      encode_varint_lem m b v ok h ∙ rw (leb-true (length (varint v)) (room b) fits),
      decode_varint_lem m' b v h (Holds-store m b.pos (varint v)) (omega arith)
          (rw size-store ok.end_le),
    )
