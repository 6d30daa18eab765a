-- ===== src/Message/Decode.antt =====
-- `lwpb_decoder_decode` on a whole message, and the round trip through both sides.
use lwpb.Common.{
  ℕ, zero, suc, ◌+◌, ◌-◌, ◌^◌, ◌≤◌, ◌<◌, ◌≡◌, refl, ◌∙◌, arith, false, Option, none, some, [], ◌∷◌,
  length, length-append, ltb-true, leb-true,
}
use lwpb.Types.{err_ok, ret, Schema, FieldRef, Value, WireValue, max_depth}
use lwpb.Buf.{
  Memory, Buf, IsBuf, room, buf_init, buf_used, buf_used_lem, buf_left-eq-room, advance,
  IsBuf-advance,
}
use lwpb.Varint.Spec.{varint, length-varint, Holds, Holds-append, Holds-store, store, size-store}
use lwpb.Wire.{encode_value, wire_type_out}
use lwpb.Encoder.{field_key}
use lwpb.Encoder.Field.{in_message, payload, field_bytes}
use lwpb.Decoder.{
  Handlers, State, go, finished, notify, notify_end, call_field, enter, end_turn, turn, run, decode,
}
use lwpb.Decoder.Field.{bytes_of, value_pos, delivered, field_turn_lem}
use native.Mathlib.Nat.{pow-suc, one-le-pow}
use lwpb.Message.{Fields, message_bytes, IsMessage, add_fields, add_fields_lem}

pub bytes_of-positive : (field : FieldRef) (v : Value) → 1 ≤ length (bytes_of field v)
unfolding field_bytes
bytes_of-positive field v =
    let out = encode_value field.desc.typ v in
    let key = field_key (wire_type_out out) field.desc.number in
    omega (arith, length-append (varint key) (payload out), length-varint key)

pub pow-le : (k w : ℕ) → 1 ≤ w → w ≤ w ^ suc k
pow-le k w pos =
    let y = w ^ k in let p : 1 ≤ y = one-le-pow k w pos in rw (pow-suc w k) (grind arith)

-- There are no more fields than bytes.
length-message_bytes : (xs : Fields) → length xs ≤ length (message_bytes xs)
unfolding message_bytes
length-message_bytes [] = omega arith
length-message_bytes ((field, v) ∷ xs) = omega (
  arith,
  length-append (bytes_of field v) (message_bytes xs),
  bytes_of-positive field v,
  length-message_bytes xs,
)

module _ {S : Type 0} (h : Handlers S) (root : ℕ) (schema : Schema) where
  -- The handlers' state after the field handler has been called for each field in order, where the
  -- first one starts at `p`.
  abbrev pub events : ℕ → Fields → S → S
  events p [] u = u
  events p ((field, v) ∷ xs) u =
      events (p + length (bytes_of field v)) xs
        (call_field h.field (some root) field (some (delivered (value_pos p field v) v)) u)

  module _ (m : Memory) where
    -- The state of the decoder in a message that is not nested.
    abbrev in_root : Buf → Option FieldRef → WireValue → S → State S
    in_root b fd w u = record {
      stack = record { buf = b; msg_desc = some root } ∷ [];
      packed = false;
      field_desc = fd;
      wire = w;
      user = u;
    }

    turn_end :
        (b : Buf) (fd : Option FieldRef) (w : WireValue) (u : S)
        → IsBuf m b
        → room b ≡ 0
        → turn h m root schema (in_root b fd w u)
          ≡ ret (finished err_ok (notify_end h.msg_end false (some root) u) (b.end - b.base))
    unfolding turn end_turn
    turn_end b fd w u ok none_left =
        let e : b.pos ≡ b.end = omega arith in
        rw (buf_left-eq-room m b ok, none_left, buf_used_lem m b ok, e)

    turn_field :
        (b : Buf) (fd : Option FieldRef) (w : WireValue) (u : S) (field : FieldRef) (v : Value)
        (xs : Fields)
        → IsMessage schema root ((field, v) ∷ xs)
        → IsBuf m b
        → Holds m b.pos (bytes_of field v)
        → length (bytes_of field v) ≤ room b
        → (w' : WireValue) × (turn h m root schema (in_root b fd w u)
            ≡ ret (
                go (
                  in_root (advance b (length (bytes_of field v))) (some field) w' (
                    call_field h.field
                      (some root)
                      field
                      (some (delivered (value_pos b.pos field v) v))
                      u))))
    unfolding turn
    turn_field b fd w u field v xs (known, val, o, _) ok at fits =
        rw (buf_left-eq-room m b ok, ltb-true 0 (room b) (omega (arith, bytes_of-positive field v)))
          (field_turn_lem h m root schema root (in_root b fd w u) b [] field v refl known val o ok
            at fits)

    run_fields :
        (xs : Fields) (fuel : ℕ) (b : Buf) (fd : Option FieldRef) (w : WireValue) (u : S)
        → length xs < fuel
        → IsMessage schema root xs
        → IsBuf m b
        → Holds m b.pos (message_bytes xs)
        → room b ≡ length (message_bytes xs)
        → run h m root fuel schema (in_root b fd w u)
          ≡ ret (err_ok, notify_end h.msg_end false (some root) (events b.pos xs u), b.end - b.base)
    unfolding run message_bytes advance
    run_fields xs zero b fd w u more good ok at fits = absurd (omega arith)
    run_fields [] (suc fuel) b fd w u more good ok at fits = rw (turn_end b fd w u ok fits)
    run_fields ((field, v) ∷ xs) (suc fuel) b fd w u more good ok at fits =
        let bs = bytes_of field v in
        let total = length-append bs (message_bytes xs) in
        let parts = Holds-append m b.pos bs (message_bytes xs) at in
        let (w', first) = turn_field b fd w u field v xs good ok parts.0 (omega arith) in
        let u' =
          call_field h.field (some root) field (some (delivered (value_pos b.pos field v) v)) u in
        rw first (
          run_fields xs fuel (advance b (length bs)) (some field) w' u' (omega arith) good.3
            (IsBuf-advance m b (length bs) ok (omega arith)) parts.1 (omega arith))

    -- Take fields of the message type, each found by its descriptor under its number below 2^29,
    -- neither packed nor a message, with a value of its type whose bytes, if it has any, lie in an
    -- object of their own. On a memory below 2^64 bytes that holds exactly their encodings at the
    -- given position, `lwpb_decoder_decode` returns LWPB_ERR_OK and the length, after it has called
    -- the handlers for the start of the message, each field in order, and the end.
    pub decode_lem :
        (xs : Fields) (p len : ℕ) (garbage : WireValue) (user : S)
        → IsMessage schema root xs
        → p + len ≤ m.size
        → m.size < 2 ^ 64
        → Holds m p (message_bytes xs)
        → len ≡ length (message_bytes xs)
        → decode h m root schema p len garbage user
          ≡ ret (
            err_ok,
            notify_end h.msg_end false
                (some root)
                (events p xs (notify h.msg_start (some root) user)),
            len,
          )
    unfolding decode buf_init enter
    decode_lem xs p len garbage user good inner small at same =
        let b : Buf = record { base = p; pos = p; end = p + len } in
        let ok : IsBuf m b = omega arith in
        let none_used : buf_used b ≡ 0 = buf_used_lem m b ok ∙ omega arith in
        let all : p + len - p ≡ len = omega arith in
        let many : length xs < (m.size + 2) ^ max_depth =
          omega (arith, length-message_bytes xs, pow-le 31 (m.size + 2) (omega arith)) in
        rw (leb-true (p + len) m.size inner, none_used)
          (run_fields xs ((m.size + 2) ^ max_depth) b none garbage
              (notify h.msg_start (some root) user) many good ok at (omega arith)
            ∙ rw all)

  -- Take fields of the message type, each found by its descriptor under its number below 2^29,
  -- neither packed nor a message, with a value of its type whose bytes, if it has any, lie in an
  -- object of their own. If a well-formed buffer has room for their bytes, adding them one by one
  -- succeeds, and `lwpb_decoder_decode` on the bytes written returns LWPB_ERR_OK and their number,
  -- after it has called the message start handler, the field handler for each field in order with
  -- the value that was added, and the message end handler.
  pub decode-add_fields :
      (m : Memory) (xs : Fields) (b : Buf) (garbage : WireValue) (user : S)
      → IsMessage schema root xs
      → IsBuf m b
      → length (message_bytes xs) ≤ room b
      → (m' : Memory) × (b' : Buf) × (add_fields schema m (in_message b none root []) xs
          ≡ ret (err_ok, m', in_message b' none root []))
        × (decode h m' root schema b.pos (b'.pos - b.pos) garbage user
            ≡ ret (
              err_ok,
              notify_end h.msg_end false
                  (some root)
                  (events b.pos xs (notify h.msg_start (some root) user)),
              b'.pos - b.pos,
            ))
  decode-add_fields m xs b garbage user good ok fits =
      let bs = message_bytes xs in
      let m' = store m b.pos bs in
      let b' = advance b (length bs) in
      let e : b'.pos - b.pos ≡ length bs = unfold advance in omega arith in
      let smaller : m'.size < 2 ^ 64 = rw size-store ok.small in
      (
        m',
        b',
        add_fields_lem schema root none [] xs m b good ok fits,
        decode_lem m' xs b.pos (b'.pos - b.pos) garbage user good
            (omega (arith, size-store m b.pos bs)) smaller (Holds-store m b.pos bs) e,
      )
