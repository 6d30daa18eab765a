-- ===== src/Decoder/Reads.antt =====
-- How far the decoder's reading functions move: forward, and inside the memory.
use lwpb.Common.{
  ℕ, zero, suc, ◌+◌, ◌*◌, ◌%◌, ◌^◌, ◌≤◌, ◌<◌, ◌≡◌, arith, ◌⊎◌, inl, inr, get_elem?, Bool, true,
  false, Option, none, some, ltb, leb, bit_or, bit_and,
}
use lwpb.Types.{
  Err, err_ok, err_end_of_buf, err_cancel, err_unknown_field, err_invalid_field, err_mem,
  err_net_init, find_desc, some_or_fault, Run, ret, fault, abort, stuck, ◌>>=◌, Schema, FieldRef,
  FieldType, double, float, int64, uint64, int32, fixed64, fixed32, bool, string, group, message,
  bytes, uint32, enum, sfixed32, sfixed64, sint32, sint64, WireValue,
}
use lwpb.Buf.{Memory, Buf, buf_left, advance, read}
use lwpb.Ensures.{Ensures, Ensures-if, Ensures-bind, Ensures-require}
use lwpb.Varint.{decode_varint}
use lwpb.Varint.Decode.{Decoded, decode_varint-Decoded}
use lwpb.Fixed.{decode_32bit, decode_64bit, decode_64bit_loop}
use lwpb.Wire.{field_wire_type, set_word}
use lwpb.Decoder.{Frame, Key, look_up, type_of_field, read_key, take_block, read_wire}

-- The result of reading a part of the input: on success the position has moved forward, inside
-- the memory.
abbrev Forward : Memory → Buf → Err → Buf → Type 0
Forward m b err_ok b' = (b.pos < b'.pos) × (b'.pos ≤ m.size)
Forward m b _ b' = Unit {0}

module _ (m : Memory) (b : Buf) where
  varint-Forward : Ensures (λ r. Forward m b r.0 r.1) (decode_varint m b)
  varint-Forward = from (decode_varint m b) (decode_varint-Decoded m b)
    where
      from : (r : Run (Err × Buf × ℕ)) → Decoded m b 11 r → Ensures (λ r. Forward m b r.0 r.1) r
      from (ret (err_ok, b', v)) d = (d.forward, d.in_memory)
      from (ret (err_end_of_buf, b', v)) d = tt
      from (ret (_, b', v)) d = absurd d
      from fault d = tt
      from abort d = tt
      from stuck d = d

  -- A byte that has been read lies in the memory.
  read-Ensures : (p : ℕ) → Ensures (λ x. p < m.size) (read m p)
  unfolding read
  read-Ensures p = Ensures-if (λ x. p < m.size) (ltb p m.size) _ _ (λ h. ground arith) (λ h. tt)

  fixed32-Forward : Ensures (λ r. Forward m b r.0 r.1) (decode_32bit m b)
  unfolding decode_32bit advance
  fixed32-Forward =
      Ensures-if (λ r. Forward m b r.0 r.1) (ltb (buf_left b) 4) _ _ (λ h. tt)
        (λ h. Ensures-bind _ _ (read m b.pos) _ (read-Ensures b.pos) (λ b0 _ _.
          Ensures-bind _ _ (read m (b.pos + 1)) _ (read-Ensures (b.pos + 1)) (λ b1 _ _.
            Ensures-bind _ _ (read m (b.pos + 2)) _ (read-Ensures (b.pos + 2)) (λ b2 _ _.
              Ensures-bind _ _ (read m (b.pos + 3)) _ (read-Ensures (b.pos + 3))
                (λ b3 _ k. (omega arith, omega arith))))))

  loop64-any :
      (K : Type 0) → K → (left value : ℕ) → Ensures (λ x. K) (decode_64bit_loop left m b.pos value)
  unfolding decode_64bit_loop
  loop64-any K k zero value = k
  loop64-any K k (suc left) value =
      Ensures-bind _ _ (read m (b.pos + left)) _ (read-Ensures (b.pos + left))
        (λ byte _ _. loop64-any K k left (bit_or (value * 2 ^ 8 % 2 ^ 64) byte))

  -- The byte that the loop reads first is the one furthest ahead.
  loop64-Ensures :
      (left value : ℕ)
      → Ensures (λ x. b.pos + left < m.size) (decode_64bit_loop (suc left) m b.pos value)
  unfolding decode_64bit_loop
  loop64-Ensures left value =
      Ensures-bind _ _ (read m (b.pos + left)) _ (read-Ensures (b.pos + left)) (λ byte _ h.
        loop64-any (b.pos + left < m.size) h left (bit_or (value * 2 ^ 8 % 2 ^ 64) byte))

  fixed64-Forward : Ensures (λ r. Forward m b r.0 r.1) (decode_64bit m b)
  unfolding decode_64bit advance
  fixed64-Forward =
      Ensures-if (λ r. Forward m b r.0 r.1) (ltb (buf_left b) 8) _ _ (λ h. tt)
        (λ h.
          Ensures-bind _ _ (decode_64bit_loop 8 m b.pos 0) _ (loop64-Ensures 7 0)
            (λ value _ k. (omega arith, omega arith)))

-- The wire types that say how a value is read.
abbrev pub Known : ℕ → Type 0
Known zero = Unit {0}
Known (suc zero) = Unit {0}
Known (suc (suc zero)) = Unit {0}
Known (suc (suc (suc (suc (suc zero))))) = Unit {0}
Known _ = ⊥

-- A success has not moved back, and it has moved on where the wire type is known.
abbrev pub Moved : Memory → Buf → ℕ → Err → Buf → Type 0
Moved m b wt err_ok b' = (b.pos ≤ b'.pos) × (b'.pos ≤ m.size) × (Known wt → b.pos < b'.pos)
Moved m b wt _ b' = Unit {0}

Forward-Moved :
    (m : Memory) (b : Buf) (wt : ℕ) (e : Err) (b' : Buf) → Forward m b e b' → Moved m b wt e b'
Forward-Moved m b wt err_ok b' h = (omega arith, h.1, λ _. h.0)
Forward-Moved m b wt _ b' h = tt

pub field_wire_type-Known : (t : FieldType) → Ensures Known (field_wire_type t)
unfolding field_wire_type
field_wire_type-Known t = elim t as (λ k. Ensures Known (field_wire_type k)) [
  | double ↦ tt
  | float ↦ tt
  | int64 ↦ tt
  | uint64 ↦ tt
  | int32 ↦ tt
  | fixed64 ↦ tt
  | fixed32 ↦ tt
  | bool ↦ tt
  | string ↦ tt
  | group ↦ tt
  | message ↦ tt
  | bytes ↦ tt
  | uint32 ↦ tt
  | enum ↦ tt
  | sfixed32 ↦ tt
  | sfixed64 ↦ tt
  | sint32 ↦ tt
  | sint64 ↦ tt
]

module _ (m : Memory) (b : Buf) (w : WireValue) where
  abbrev pub WireMoved : ℕ → Err × Buf × WireValue → Type 0
  WireMoved wt r = Moved m b wt r.0 r.1

  take_block-Moved :
      (wt : ℕ) (e : Err) (b' : Buf) (len : ℕ)
      → Forward m b e b'
      → Ensures (WireMoved wt) (elim e [
        | err_ok ↦ take_block m b' (set_word w len)
        | other ↦ ret (other, b', set_word w len)
      ])
  unfolding take_block advance
  take_block-Moved wt err_ok b' len h =
      Ensures-if (WireMoved wt) (ltb (buf_left b') len) _ _ (λ _. tt)
        (λ _.
          Ensures-require (WireMoved wt) (leb (b'.pos + len) m.size) _
            (λ k. (omega arith, ground arith, λ _. omega arith)))
  take_block-Moved wt _ b' len h = tt

  pub read_wire-Moved : (wt : ℕ) → b.pos ≤ m.size → Ensures (WireMoved wt) (read_wire m b wt w)
  unfolding read_wire
  read_wire-Moved zero h =
      Ensures-bind _ _ (decode_varint m b) _ (varint-Forward m b)
        (λ r _ k. Forward-Moved m b 0 r.0 r.1 k)
  read_wire-Moved (suc zero) h =
      Ensures-bind _ _ (decode_64bit m b) _ (fixed64-Forward m b)
        (λ r _ k. Forward-Moved m b 1 r.0 r.1 k)
  read_wire-Moved (suc (suc zero)) h =
      Ensures-bind _ _ (decode_varint m b) _ (varint-Forward m b)
        (λ r _ k. take_block-Moved 2 r.0 r.1 r.2 k)
  read_wire-Moved (suc (suc (suc (suc (suc zero))))) h =
      Ensures-bind _ _ (decode_32bit m b) _ (fixed32-Forward m b)
        (λ r _ k. Forward-Moved m b 5 r.0 r.1 k)
  read_wire-Moved (suc (suc (suc zero))) h = (omega arith, h, λ k. absurd k)
  read_wire-Moved (suc (suc (suc (suc zero)))) h = (omega arith, h, λ k. absurd k)
  read_wire-Moved (suc (suc (suc (suc (suc (suc wt)))))) h = (omega arith, h, λ k. absurd k)

-- Behind the key: in packed mode nothing has been read yet, and the wire type is known.
abbrev pub KeyMoved : Memory → Buf → Key → Type 0
KeyMoved m b k =
    (k.status ≡ err_ok)
    → (b.pos ≤ k.buf.pos) × (k.buf.pos ≤ m.size) × (Known k.wire_type ⊎ (b.pos < k.buf.pos))

module _ (m : Memory) (schema : Schema) (f : Frame) (old : Option FieldRef)
    (inside_memory : f.buf.pos ≤ m.size) where
  find_desc-Ensures : (i : ℕ) → Ensures (λ _. Unit {0}) (find_desc schema i)
  unfolding find_desc
  find_desc-Ensures i =
      elim (get_elem? schema i) as (λ o. Ensures (λ _. Unit {0}) (some_or_fault o)) [
        | some d ↦ tt
        | none ↦ tt
      ]

  look_up-Ensures :
      (msg : Option ℕ) (key : ℕ) → Ensures (λ _. Unit {0}) (look_up schema msg key old)
  unfolding look_up
  look_up-Ensures none key = tt
  look_up-Ensures (some i) key =
      Ensures-bind _ _ (find_desc schema i) _ (find_desc-Ensures i) (λ _ _ _. tt)

  key_found :
      (e : Err) (b : Buf) (key : ℕ)
      → Forward m f.buf e b
      → Ensures (KeyMoved m f.buf) (elim e [
        | err_ok ↦
            (look_up schema f.msg_desc key old >>= λ field.
            ret (record { status = err_ok; buf = b; wire_type = bit_and key 7; field = field }))
        | other ↦ ret (record { status = other; buf = b; wire_type = 0; field = old })
      ])
  key_found err_ok b key h =
      Ensures-bind _ _ (look_up schema f.msg_desc key old) _ (look_up-Ensures f.msg_desc key)
        (λ _ _ _ _. (omega arith, h.1, inr h.0))
  key_found err_end_of_buf b key h = λ e. cc
  key_found err_cancel b key h = λ e. cc
  key_found err_unknown_field b key h = λ e. cc
  key_found err_invalid_field b key h = λ e. cc
  key_found err_mem b key h = λ e. cc
  key_found err_net_init b key h = λ e. cc

  type_of_field-Known : (o : Option FieldRef) → Ensures Known (type_of_field o)
  type_of_field-Known none = tt
  type_of_field-Known (some r) = field_wire_type-Known r.desc.typ

  pub read_key-Moved : (packed : Bool) → Ensures (KeyMoved m f.buf) (read_key m schema f packed old)
  unfolding read_key
  read_key-Moved true =
      Ensures-bind _ _ (type_of_field old) _ (type_of_field-Known old)
        (λ wt _ k _. (omega arith, inside_memory, inl k))
  read_key-Moved false =
      Ensures-bind _ _ (decode_varint m f.buf) _ (varint-Forward m f.buf)
        (λ r _ h. key_found r.0 r.1 r.2 h)
