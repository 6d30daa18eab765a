-- ===== src/Encoder/Bounds.antt =====
-- Where `lwpb_encoder_add_field` writes: bounds on every branch, with errors and full buffers.
use lwpb.Common.{
  ℕ, ◌+◌, ◌≤◌, ◌<◌, ◌≡◌, ◌⊎◌, inl, inr, refl, ◌∙◌, arith, Bool, true, false, ◌||◌, Option, none,
  some, List, [], ◌∷◌, length, take, get_elem?, ltb, leb, if◌then◌else◌, Bool-cases,
}
use lwpb.Types.{
  Err, err_ok, ret, ◌>>=◌, Schema, FieldDesc, FieldRef, Value, Ptr, inside, outside, is_message,
  is_packed_repeated, same_field, find_desc, some_or_fault,
}
use lwpb.Ensures.{
  Ensures, Ensures-if, Ensures-assert, Ensures-require, Ensures-bind, Ensures-err, Ensures-map,
}
use lwpb.Buf.{Memory, Buf, IsBuf, room, advance, put, write, buf_left, buf_left-eq-room}
use lwpb.Varint.{IsU64, encode_varint}
use lwpb.Varint.Spec.{varint, store, size-store, store_outside}
use lwpb.Varint.Encode.{stored, encode_varint_lem}
use lwpb.Fixed.{write_all}
use lwpb.Fixed.Laws.{bytes32, bytes64, stored_whole, encode_32bit_lem, encode_64bit_lem}
use lwpb.Wire.{WireOut, varint_out, int64_out, string_out, int32_out, unset, wire_type_out}
use lwpb.Wire.RoundTrip.{IsOut}
use lwpb.Copy.{fetch, length-load, length-take, mem_move, mem_copy, apart}
use lwpb.Encoder.{
  Encoder, Frame, write_value, write_field, field_key, check_field, check_same, check_member,
  add_field, top, frame_buf, choose_out,
}
use lwpb.Encoder.Field.{field_key-lt, wire_type_out-lt}

-- From `m` and `b` to `m'` and `b'`: the position has moved on inside the buffer, and nothing in
-- front of the old position or behind the end has changed.
pub record Within (m : Memory) (b : Buf) (m' : Memory) (b' : Buf) : Type 0 where
  pub size_same : m'.size ≡ m.size
  pub base_same : b'.base ≡ b.base
  pub end_same : b'.end ≡ b.end
  pub pos_up : b.pos ≤ b'.pos
  pub pos_in : b'.pos ≤ b.end
  pub outside_same : (q : ℕ) → (q < b.pos) ⊎ (b.end ≤ q) → m'.byte q ≡ m.byte q

abbrev pub Stays : Memory → Buf → Err × Memory × Buf → Type 0
Stays m b (e, m', b') = Within m b m' b'

same-Within : (m : Memory) (b : Buf) → IsBuf m b → Within m b m b
same-Within m b ok = record {
  size_same = refl;
  base_same = refl;
  end_same = refl;
  pos_up = omega arith;
  pos_in = ok.pos_le;
  outside_same = λ q h. refl;
}

IsBuf-Within :
    (m : Memory) (b : Buf) (m' : Memory) (b' : Buf) → IsBuf m b → Within m b m' b' → IsBuf m' b'
IsBuf-Within m b m' b' ok w = omega arith

Within-trans :
    (m : Memory) (b : Buf) (m1 : Memory) (b1 : Buf) (m2 : Memory) (b2 : Buf)
    → Within m b m1 b1
    → Within m1 b1 m2 b2
    → Within m b m2 b2
Within-trans m b m1 b1 m2 b2 v w = record {
  size_same = omega arith;
  base_same = omega arith;
  end_same = omega arith;
  pos_up = omega arith;
  pos_in = omega arith;
  outside_same = λ q h. w.outside_same q (ground arith) ∙ v.outside_same q h;
}

-- Some bytes have been stored at the position, which is behind them.
store-Within :
    (m : Memory) (b : Buf) (bs : List ℕ) (n : ℕ)
    → IsBuf m b
    → length bs ≡ n
    → n ≤ room b
    → Within m b (store m b.pos bs) (advance b n)
unfolding advance
store-Within m b bs n ok same fits = record {
  size_same = size-store m b.pos bs;
  base_same = refl;
  end_same = refl;
  pos_up = omega arith;
  pos_in = omega arith;
  outside_same = λ q h. store_outside m b.pos bs q (ground (arith, fits, same));
}

stored-Stays :
    (m : Memory) (b : Buf) (bs : List ℕ) → IsBuf m b → Ensures (Stays m b) (stored m b bs)
unfolding stored
stored-Stays m b bs ok =
    Ensures-if (Stays m b) (leb (length bs) (room b)) _ _
      (λ fits. store-Within m b bs (length bs) ok refl (ground arith))
      (λ over.
        store-Within m b (take (room b) bs) (room b) ok (length-take (room b) bs (ground arith))
          (omega arith))

stored_whole-Stays :
    (m : Memory) (b : Buf) (bs : List ℕ) → IsBuf m b → Ensures (Stays m b) (stored_whole m b bs)
unfolding stored_whole
stored_whole-Stays m b bs ok =
    Ensures-if (Stays m b) (ltb (room b) (length bs)) _ _ (λ over. same-Within m b ok)
      (λ fits. store-Within m b bs (length bs) ok refl (ground arith))

varint-Stays :
    (m : Memory) (b : Buf) (v : ℕ) → IsBuf m b → IsU64 v → Ensures (Stays m b) (encode_varint m b v)
varint-Stays m b v ok small = rw (encode_varint_lem m b v ok small) (stored-Stays m b (varint v) ok)

-- A copy that is defined stores as many bytes as it is told.
write_all-store :
    (m : Memory) (p : ℕ) (bs : List ℕ) → Ensures (λ m'. m' ≡ store m p bs) (write_all m p bs)
unfolding write_all store write
write_all-store m p [] = refl
write_all-store m p (b ∷ bs) = elim (Bool-cases (ltb p m.size)) [
  | inl fits ↦ rw fits (write_all-store (put m p b) (p + 1) bs)
  | inr over ↦ rw over tt
]

fetch-length : (m : Memory) (src : Ptr) (n : ℕ) → Ensures (λ bs. length bs ≡ n) (fetch m src n)
unfolding fetch
fetch-length m (inside p) n =
    Ensures-if (λ (bs : List ℕ). length bs ≡ n) (leb (p + n) m.size) _ _ (λ h. length-load m p n)
      (λ h. tt)
fetch-length m (outside bs) n =
    Ensures-if (λ (l : List ℕ). length l ≡ n) (leb n (length bs)) _ _
      (λ h. length-take n bs (ground arith)) (λ h. tt)

module _ (m : Memory) (b : Buf) (src : Ptr) (n : ℕ) (ok : IsBuf m b) (fits : n ≤ room b) where
  move-Within : Ensures (λ m'. Within m b m' (advance b n)) (mem_move m b.pos src n)
  unfolding mem_move
  move-Within =
      Ensures-bind (λ (bs : List ℕ). length bs ≡ n) (λ m'. Within m b m' (advance b n))
        (fetch m src n) _ (fetch-length m src n)
        (λ bs e same.
          Ensures-map (λ m'. m' ≡ store m b.pos bs) (λ m'. Within m b m' (advance b n))
            (write_all m b.pos bs)
            (λ m' stored_same. rw stored_same (store-Within m b bs n ok same fits))
            (write_all-store m b.pos bs))

  -- Either function, and the position behind the block.
  copy-Stays :
      (overlapping : Bool)
      → Ensures (Stays m b) (
          (if overlapping then mem_move m b.pos src n else mem_copy m b.pos src n) >>= λ m'.
          ret (err_ok, m', advance b n))
  unfolding mem_copy
  copy-Stays overlapping =
      Ensures-bind (λ m'. Within m b m' (advance b n)) (Stays m b)
        (if overlapping then mem_move m b.pos src n else mem_copy m b.pos src n) _
        (Ensures-if (λ m'. Within m b m' (advance b n)) overlapping _ _ (λ e. move-Within)
          (λ e.
            Ensures-require (λ m'. Within m b m' (advance b n)) (apart b.pos src n) _
              (λ e'. move-Within)))
        (λ m' e w. w)

write_value-Stays :
    (m : Memory) (b : Buf) (d : FieldDesc) (out : WireOut)
    → IsBuf m b
    → IsOut out
    → Ensures (Stays m b) (write_value m b d out)
unfolding write_value
write_value-Stays m b d (varint_out x) ok small = varint-Stays m b x ok small
write_value-Stays m b d (int64_out x) ok small =
    rw (encode_64bit_lem m b x ok) (stored_whole-Stays m b (bytes64 x) ok)
write_value-Stays m b d (int32_out x) ok small =
    rw (encode_32bit_lem m b x ok) (stored_whole-Stays m b (bytes32 x) ok)
write_value-Stays m b d unset ok small = tt
write_value-Stays m b d (string_out p n) ok small =
    Ensures-bind (Stays m b) (Stays m b) (encode_varint m b n) _ (varint-Stays m b n ok small)
      (λ (e, m1, b1) eq w.
        let ok1 = IsBuf-Within m b m1 b1 ok w in
        Ensures-err (Stays m b) e _ (λ other. ret (other, m1, b1))
          (λ e'.
            Ensures-if (Stays m b) (ltb (buf_left b1) n) _ _ (λ over. w)
              (λ fits.
                Ensures-map (Stays m1 b1) (Stays m b) _
                  (λ (e2, m2, b2) v. Within-trans m b m1 b1 m2 b2 w v)
                  (copy-Stays m1 b1 p n ok1 (ground (arith, fits, buf_left-eq-room m1 b1 ok1))
                    (is_message d.typ || is_packed_repeated d))))
          (λ x. w))

write_field-Stays :
    (m : Memory) (b : Buf) (packed : Bool) (d : FieldDesc) (out : WireOut)
    → IsBuf m b
    → IsOut out
    → Ensures (Stays m b) (write_field m b packed d out)
unfolding write_field
write_field-Stays m b true d out ok small = write_value-Stays m b d out ok small
write_field-Stays m b false d out ok small =
    let key = field_key (wire_type_out out) d.number in
    let key_small : IsU64 key =
      omega (arith, field_key-lt (wire_type_out out) d.number (wire_type_out-lt out)) in
    Ensures-bind (Stays m b) (Stays m b) (encode_varint m b key) _
      (varint-Stays m b key ok key_small)
      (λ (e, m1, b1) eq w.
        let ok1 = IsBuf-Within m b m1 b1 ok w in
        Ensures-err (Stays m b) e _ (λ other. ret (other, m1, b1))
          (λ e'.
            Ensures-map (Stays m1 b1) (Stays m b) _
              (λ (e2, m2, b2) v. Within-trans m b m1 b1 m2 b2 w v)
              (write_value-Stays m1 b1 d out ok1 small))
          (λ x. w))

-- The checks at the head of `lwpb_encoder_add_field` do not loop.
abbrev Any : {A : Type 0} → A → Type 0
Any x = Unit {0}

some_or_fault-Any : {A : Type 0} (o : Option A) → Ensures Any (some_or_fault o)
some_or_fault-Any none = tt
some_or_fault-Any (some x) = tt

check_same-Any : (fd : Option FieldRef) (field : FieldRef) → Ensures Any (check_same fd field)
unfolding check_same
check_same-Any none field = tt
check_same-Any (some f) field = Ensures-assert Any (same_field field f) _ (λ e. tt)

check_member-Any :
    (schema : Schema) (msg : Option ℕ) (field : FieldRef)
    → Ensures Any (check_member schema msg field)
unfolding check_member find_desc
check_member-Any schema none field = tt
check_member-Any schema (some i) field =
    Ensures-bind Any Any (some_or_fault (get_elem? schema i)) _
      (some_or_fault-Any (get_elem? schema i)) (λ d e t. tt)

check_field-Any :
    (schema : Schema) (packed : Bool) (frame : Frame) (field : FieldRef)
    → Ensures Any (check_field schema packed frame field)
unfolding check_field
check_field-Any schema true frame field = check_same-Any frame.field_desc field
check_field-Any schema false frame field = check_member-Any schema frame.msg_desc field

abbrev pub encoder_in : Buf → Option FieldRef → Option ℕ → List Frame → Bool → Encoder
encoder_in b fd msg fs packed = record {
  stack = record { buf = some b; field_desc = fd; msg_desc = msg } ∷ fs;
  packed = packed;
}

-- The encoder is the same but for the buffer of the top frame, which has stayed within bounds.
abbrev pub Framed :
    Memory → Buf → Option FieldRef → Option ℕ → List Frame → Bool → Err × Memory × Encoder → Type 0
Framed m b fd msg fs packed (status, m', e') =
    (b' : Buf) × (e' ≡ encoder_in b' fd msg fs packed) × Within m b m' b'

-- For any field and any value whose wire value fits its C type, in packed mode or not, on a well-
-- formed buffer of the top frame: `lwpb_encoder_add_field` never runs out of the model's fuel, and
-- whatever it returns, an error or not, every byte in front of the old position and from the end on
-- is as before, the size of the memory and the limits of the buffer are the same, the new position
-- lies between the old one and the end, and nothing else of the encoder has changed.
pub add_field-Within :
    (schema : Schema) (m : Memory) (b : Buf) (fd : Option FieldRef) (msg : Option ℕ)
    (fs : List Frame) (packed : Bool) (field : FieldRef) (v : Value)
    → IsBuf m b
    → IsOut (choose_out packed field.desc v)
    → Ensures
        (Framed m b fd msg fs packed)
        (add_field schema m (encoder_in b fd msg fs packed) field v)
unfolding add_field top frame_buf
add_field-Within schema m b fd msg fs packed field v ok small =
    let e = encoder_in b fd msg fs packed in
    let Goal : Err × Memory × Encoder → Type 0 = Framed m b fd msg fs packed in
    let frame : Frame = record { buf = some b; field_desc = fd; msg_desc = msg } in
    Ensures-assert Goal (ltb 0 (length e.stack)) _ (λ h.
      Ensures-bind Any Goal (check_field schema packed frame field) _
        (check_field-Any schema packed frame field)
        (λ status h' t.
          Ensures-err Goal status _ (λ other. ret (other, m, e))
            (λ h''.
              Ensures-bind (Stays m b) Goal
                (write_field m b packed field.desc (choose_out packed field.desc v)) _
                (write_field-Stays m b packed field.desc (choose_out packed field.desc v) ok small)
                (λ (s, m', b') h3 w. (b', refl, w)))
            (λ x. (b, refl, same-Within m b ok))))
