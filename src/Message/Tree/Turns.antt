-- ===== src/Message/Tree/Turns.antt =====
-- The turns of `lwpb_decoder_decode` (src/lwpb/core/decoder.c) on a message with messages inside it:
-- the key and the length of an inner message, a value, the end of an inner message, and the end.
use lwpb.Common.{
  ℕ, suc, ◌+◌, ◌-◌, ◌^◌, ◌≤◌, ◌<◌, ◌≡◌, refl, ap, ◌∙◌, arith, false, Option, none, some, List, [],
  ◌∷◌, ◌++◌, ◌==◌, ◌&&◌, take, length, length-append, ltb-true, leb-true, ==_false,
}
use lwpb.Types.{
  err_ok, ret, Schema, FieldRef, message, Value, WireValue, inside, outside, wt_string,
  is_packed_repeated,
}
use lwpb.Buf.{
  Memory, Buf, IsBuf, room, buf_init, buf_used, buf_used_lem, buf_left-eq-room, advance,
  advance-advance, IsBuf-advance,
}
use lwpb.Varint.Spec.{varint, length-varint, Holds, Holds-append}
use lwpb.Wire.{encode_value, decode_value, string_out}
use lwpb.Wire.RoundTrip.{load_out, IsValueOf}
use lwpb.Encoder.Field.{IsOutside}
use lwpb.Message.Decode.{bytes_of-positive}
use lwpb.Encoder.{field_key}
use lwpb.Decoder.{
  Handlers, read_wire, Frame, State, go, notify, notify_end, call_field, enter, open_frame,
  block_buf, dispatch, after_wire, field_turn, end_turn, turn, run,
}
use lwpb.Decoder.Field.{
  IsKnown, bytes_of, value_pos, delivered, field_turn_lem, read_key_lem, read_wire_lem,
}
use lwpb.Message.Tree.{node_key, node_bytes, length-node_bytes}

take-all : (bs : List ℕ) → take (length bs) bs ≡ bs
take-all [] = refl
take-all (b ∷ bs) = ap (λ (l : List ℕ). b ∷ l) (take-all bs)

decode_value-message :
    (w : WireValue) (field : FieldRef)
    → field.desc.typ ≡ message
    → decode_value field.desc.typ w ≡ none
unfolding decode_value
decode_value-message w field h = rw h refl

module _ {S : Type 0} (h : Handlers S) (m : Memory) (root : ℕ) (schema : Schema) where
  -- The decoder in a message of type `owner`, with the frames below.
  abbrev pub in_stack : Buf → ℕ → List Frame → Option FieldRef → WireValue → S → State S
  in_stack b owner fs fd w u = record {
    stack = record { buf = b; msg_desc = some owner } ∷ fs;
    packed = false;
    field_desc = fd;
    wire = w;
    user = u;
  }

  -- The buffer of a message of `n` bytes at `p`.
  abbrev pub inner_buf : ℕ → ℕ → Buf
  inner_buf p n = record { base = p; pos = p; end = p + n }

  -- A frame for the message that the wire value points to.
  open_message :
      (b : Buf) (owner i q n : ℕ) (fs : List Frame) (fd : Option FieldRef) (u : S) (msg : Option ℕ)
      → msg ≡ some i
      → length fs + 2 ≤ 32
      → q + n ≤ m.size
      → m.size < 2 ^ 64
      → let w : WireValue = record { word = n; ptr = inside q } in
        open_frame h m root (in_stack b owner fs fd w u) msg false
        ≡ ret (
            go (
              in_stack
                (inner_buf q n)
                i
                (record { buf = b; msg_desc = some owner } ∷ fs)
                fd
                w
                (notify h.msg_start (some i) u)))
  unfolding open_frame block_buf buf_init enter
  open_message b owner i q n fs fd u msg e deep inner small =
      let fresh : buf_used (inner_buf q n) ≡ 0 =
        buf_used_lem m (inner_buf q n) (omega arith) ∙ omega arith in
      rw (leb-true (suc (length fs) + 1) 32 (omega arith), leb-true (q + n) m.size inner, fresh, e)
        refl

  module _ (b : Buf) (owner : ℕ) (fs : List Frame) (fd : Option FieldRef) (w : WireValue) (u : S)
      (ok : IsBuf m b) where
    -- The turn on the key and the length of a message.
    pub node_turn :
        (field : FieldRef) (i : ℕ) (bs : List ℕ)
        → IsKnown schema owner field
        → field.desc.typ ≡ message
        → field.desc.msg_desc ≡ some i
        → length bs < 2 ^ 64
        → length fs + 2 ≤ 32
        → Holds m b.pos (node_bytes field bs)
        → length (node_bytes field bs) ≤ room b
        → let q = b.pos + length (node_key field) + length (varint (length bs)) in
          (w' : WireValue) × (turn h m root schema (in_stack b owner fs fd w u)
            ≡ ret (
                go (
                  in_stack
                    (inner_buf q (length bs))
                    i
                    (record {
                      buf = advance b (length (node_bytes field bs));
                      msg_desc = some owner;
                    }
                      ∷ fs)
                    (some field)
                    w'
                    (notify h.msg_start (some i) (call_field h.field (some root) field none u)))))
    unfolding turn field_turn after_wire dispatch
    node_turn field i bs known typ desc small deep at fits =
        let n = length bs in
        let key = node_key field in
        let out = string_out (outside bs) n in
        let all = take-all bs in
        let total = length-node_bytes field bs in
        let total' = length-append (varint n) bs in
        let pos1 = length-varint (field_key 2 field.desc.number) in
        let parts = Holds-append m b.pos key (varint n ++ bs) at in
        let b1 = advance b (length key) in
        let ok1 = IsBuf-advance m b (length key) ok (omega arith) in
        let q = b.pos + length key + length (varint n) in
        let w' : WireValue = record { word = n; ptr = inside q } in
        let key_read =
          read_key_lem m b w ok schema owner known.desc field.desc.number (some field) fd out
            known.has known.found known.small parts.0 (omega arith) in
        let at1 : Holds m b1.pos (varint n ++ take n bs) = unfold advance in rw all parts.1 in
        let same : length (varint n ++ take n bs) ≡ length (varint n) + n = rw all total' in
        let fits1 : length (varint n ++ take n bs) ≤ room b1 = unfold advance in omega arith in
        let moved : advance b1 (length (varint n ++ take n bs))
            ≡ advance b (length (node_bytes field bs)) =
          advance-advance b (length key) (length (varint n ++ take n bs))
          ∙ ap (λ (k : ℕ). advance b k) (omega arith) in
        let not_packed : (wt_string == wt_string && is_packed_repeated field.desc) ≡ false =
          known.unpacked in
        let wire_read : read_wire m b1 wt_string w
            ≡ ret (err_ok, advance b (length (node_bytes field bs)), w') =
          read_wire_lem m b1 w ok1 out small (omega arith) at1 fits1
          ∙ unfold advance load_out in ap (λ (c : Buf). ret (err_ok, c, w')) moved in
        (
          w',
          rw
              (
                buf_left-eq-room m b ok,
                ltb-true 0 (room b) (omega arith),
                key_read,
                wire_read,
                not_packed,
                decode_value-message w' field typ,
              )
              (open_message (advance b (length (node_bytes field bs))) owner i q n fs (some field)
                (call_field h.field (some root) field none u) field.desc.msg_desc desc deep
                (omega (arith, ok.end_le)) ok.small),
        )

    -- The turn on a value.
    pub leaf_turn :
        (field : FieldRef) (v : Value)
        → IsKnown schema owner field
        → IsValueOf field.desc.typ v
        → IsOutside (encode_value field.desc.typ v)
        → Holds m b.pos (bytes_of field v)
        → length (bytes_of field v) ≤ room b
        → (w' : WireValue) × (turn h m root schema (in_stack b owner fs fd w u)
            ≡ ret (
                go (
                  in_stack (advance b (length (bytes_of field v))) owner fs (some field) w' (
                    call_field h.field
                      (some owner)
                      field
                      (some (delivered (value_pos b.pos field v) v))
                      u))))
    unfolding turn
    leaf_turn field v known val o at fits =
        rw (buf_left-eq-room m b ok, ltb-true 0 (room b) (omega (arith, bytes_of-positive field v)))
          (field_turn_lem h m root schema owner (in_stack b owner fs fd w u) b fs field v refl known
            val o ok at fits)

    -- The turn at the end of a message inside another one, of which bytes have been read.
    pub pop_turn :
        (b' : Buf) (outer : ℕ)
        → room b ≡ 0
        → IsBuf m b'
        → b'.base < b'.pos
        → turn h m root schema
            (in_stack b owner (record { buf = b'; msg_desc = some outer } ∷ fs) fd w u)
          ≡ ret (go (in_stack b' outer fs fd w (notify_end h.msg_end false (some owner) u)))
    unfolding turn end_turn enter
    pop_turn b' outer empty ok' read =
        let used : (buf_used b' == 0) ≡ false =
          ==_false (buf_used b') 0 (omega (arith, buf_used_lem m b' ok')) in
        rw (buf_left-eq-room m b ok, empty, used) refl

  pub run_go :
      (k : ℕ) (s s' : State S)
      → turn h m root schema s ≡ ret (go s')
      → run h m root (suc k) schema s ≡ run h m root k schema s'
  unfolding run
  run_go k s s' e = rw e refl

  -- The turn at the end of the root message.
  pub finish_turn :
      (k : ℕ) (b : Buf) (fd : Option FieldRef) (w : WireValue) (u : S)
      → IsBuf m b
      → room b ≡ 0
      → run h m root (suc k) schema (in_stack b root [] fd w u)
        ≡ ret (err_ok, notify_end h.msg_end false (some root) u, b.pos - b.base)
  unfolding run turn end_turn
  finish_turn k b fd w u ok empty =
      let e : b.pos ≡ b.end = omega arith in
      rw (buf_left-eq-room m b ok, empty, buf_used_lem m b ok, e) refl
