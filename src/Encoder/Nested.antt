-- ===== src/Encoder/Nested.antt =====
-- `lwpb_encoder_nested_start`, `lwpb_encoder_nested_end` and the packed repeated pair: a frame is
-- written ten bytes behind its parent's position and moved into place when it ends.
use lwpb.Common.{
  ℕ, suc, ◌+◌, ◌-◌, ◌^◌, ◌≤◌, ◌<◌, ◌≡◌, refl, ap, ◌∙◌, sym, arith, List, ◌∷◌, ◌++◌, length, Bool,
  true, false, Option, none, some, ◌||◌, Bool-cases, inl, inr, ltb-true, ltb-false, leb-true,
}
use lwpb.Types.{
  err_ok, err_end_of_buf, ret, Schema, FieldDesc, FieldRef, FieldType, message, block, inside,
  is_message, is_packed_repeated, max_depth, read_block,
}
use lwpb.Buf.{Memory, Buf, IsBuf, room, buf_init, buf_used, advance, buf_left-eq-room}
use lwpb.Varint.{IsU64}
use lwpb.Varint.Spec.{varint, length-varint-le, store, size-store}
use lwpb.Varint.Encode.{stored_fits, encode_varint_lem}
use lwpb.Wire.{string_out, encode_value}
use lwpb.Copy.{load, length-load, load-store, mem_move_inside}
use lwpb.Encoder.{
  Encoder, Frame, reserve, write_value, write_field, field_key, top, frame_buf, push_stack_frame,
  pop_stack_frame, open_frame, close_frame, nested_start, nested_end, packed_repeated_start,
  packed_repeated_end, add_field, check_field, choose_out,
}
use lwpb.Encoder.Field.{
  done, done-append, IsBuf-store, room-advance, field_key-lt, IsFieldOf, in_message,
  check_member_ok,
}

-- A field that a frame of its own can be opened for.
abbrev pub IsFramed : FieldDesc → Type 0
IsFramed d = (is_message d.typ || is_packed_repeated d) ≡ true

-- Length and bytes of a block that stands in the memory behind the position.
write_block :
    (m : Memory) (b : Buf) (d : FieldDesc) (p n : ℕ)
    → IsBuf m b
    → IsU64 n
    → IsFramed d
    → p + n ≤ m.size
    → b.pos + length (varint n) ≤ p
    → length (varint n) + n ≤ room b
    → write_value m b d (string_out (inside p) n) ≡ done m b (varint n ++ load m p n)
unfolding write_value
write_block m b d p n ok small framed source behind fits =
    let m' = store m b.pos (varint n) in
    let b' = advance b (length (varint n)) in
    let ok' = IsBuf-store m b (varint n) ok (omega arith) in
    let space : n ≤ room b' = rw room-advance (omega arith) in
    let same : load m' p n ≡ load m p n = load-store m b.pos (varint n) p n behind in
    rw
      (
        encode_varint_lem m b n ok small,
        stored_fits m b (varint n) (omega arith),
        buf_left-eq-room m' b' ok',
        ltb-false (room b') n space,
        framed,
        mem_move_inside m' b'.pos p n (omega (arith, size-store m b.pos (varint n)))
            (omega (arith, size-store m b.pos (varint n))),
        same,
      )
      (ap (λ (k : ℕ). ret (err_ok, store m' b'.pos (load m p n), advance b' k))
          (sym (length-load m p n))
        ∙ done-append m b (varint n) (load m p n))

-- What the parent gets: the key of the field, the length, and the bytes of the frame.
unfoldable pub framed_bytes : Memory → FieldDesc → ℕ → ℕ → List ℕ
framed_bytes m d p n = varint (field_key 2 d.number) ++ (varint n ++ load m p n)

write_framed :
    (m : Memory) (b : Buf) (d : FieldDesc) (p n : ℕ)
    → IsBuf m b
    → n < 2 ^ 35
    → IsFramed d
    → p + n ≤ b.end
    → b.pos + reserve ≤ p
    → write_field m b false d (string_out (inside p) n) ≡ done m b (framed_bytes m d p n)
unfolding write_field framed_bytes
write_framed m b d p n ok small framed source behind =
    let key = field_key 2 d.number in
    let key_small = field_key-lt 2 d.number (omega arith) in
    let k = length-varint-le key (omega arith) in
    let l = length-varint-le n small in
    let same : load (store m b.pos (varint key)) p n ≡ load m p n =
      load-store m b.pos (varint key) p n (omega arith) in
    let rest =
      write_block (store m b.pos (varint key)) (advance b (length (varint key))) d p n
        (IsBuf-store m b (varint key) ok (omega arith)) (omega arith) framed
        (omega (arith, size-store m b.pos (varint key))) (unfold advance in omega arith)
        (rw room-advance (omega arith)) in
    rw
      (
        encode_varint_lem m b key ok (omega arith),
        stored_fits m b (varint key) (omega arith),
        rest,
        same,
      )
      (done-append m b (varint key) (varint n ++ load m p n))

encode_message :
    (t : FieldType) (p n : ℕ)
    → is_message t ≡ true
    → encode_value t (block (inside p) n) ≡ string_out (inside p) n
unfolding encode_value read_block
encode_message message p n h = refl
encode_message _ p n h = cc

choose_framed :
    (d : FieldDesc) (p n : ℕ)
    → IsFramed d
    → choose_out false d (block (inside p) n) ≡ string_out (inside p) n
unfolding choose_out read_block
choose_framed d p n framed = elim (Bool-cases (is_packed_repeated d)) [
  | inl yes_packed ↦ rw yes_packed
  | inr not_packed ↦ rw not_packed (encode_message d.typ p n (ground arith))
]

-- The frame that `open_frame` pushes behind the buffer `b`.
abbrev pub child_buf : Buf → ℕ → Buf
child_buf b n = record { base = b.pos + reserve; pos = b.pos + reserve + n; end = b.end }

-- An encoder with a frame for `field` open in a message of type `owner`, and `n` bytes in it.
abbrev pub in_frame :
    Buf → ℕ → FieldRef → Option ℕ → Option FieldRef → ℕ → List Frame → Bool → Encoder
in_frame b n field msg fd owner fs packed = record {
  stack =
      record { buf = some (child_buf b n); field_desc = some field; msg_desc = msg }
      ∷ record { buf = some b; field_desc = fd; msg_desc = some owner }
      ∷ fs;
  packed = packed;
}

module _ (m : Memory) (b : Buf) (field : FieldRef) (fd : Option FieldRef) (owner : ℕ)
    (fs : List Frame) (ok : IsBuf m b) (shallow : length fs + 2 ≤ max_depth) where
  open_frame_lem :
      (msg : Option ℕ) (packed : Bool)
      → reserve ≤ room b
      → open_frame m (in_message b fd owner fs) field msg packed
        ≡ ret (err_ok, in_frame b 0 field msg fd owner fs packed)
  unfolding open_frame top push_stack_frame frame_buf buf_init
  open_frame_lem msg packed fits =
      let e : b.pos + reserve + (room b - reserve) ≡ b.end = omega arith in
      let z : b.pos + reserve + 0 ≡ b.pos + reserve = omega arith in
      rw (
        leb-true (suc (length fs) + 1) max_depth (omega arith),
        buf_left-eq-room m b ok,
        ltb-false (room b) reserve fits,
        e,
        leb-true b.end m.size ok.end_le,
        z,
      )

  -- Where the reserve does not fit, the call fails and leaves a frame without a buffer.
  pub nested_start_full :
      is_message field.desc.typ ≡ true
      → room b < reserve
      → nested_start m (in_message b fd owner fs) field
        ≡ ret (
          err_end_of_buf,
          record {
            stack =
                record { buf = none; field_desc = some field; msg_desc = field.desc.msg_desc }
                ∷ (in_message b fd owner fs).stack;
            packed = false;
          },
        )
  unfolding nested_start open_frame top push_stack_frame frame_buf
  nested_start_full is_msg full = rw (
    is_msg,
    leb-true (suc (length fs) + 1) max_depth (omega arith),
    buf_left-eq-room m b ok,
    ltb-true (room b) reserve full,
  )

  -- `lwpb_encoder_nested_start` opens an empty frame ten bytes behind the position.
  pub nested_start_lem :
      is_message field.desc.typ ≡ true
      → reserve ≤ room b
      → nested_start m (in_message b fd owner fs) field
        ≡ ret (err_ok, in_frame b 0 field field.desc.msg_desc fd owner fs false)
  unfolding nested_start
  nested_start_lem is_msg fits = rw is_msg (open_frame_lem field.desc.msg_desc false fits)

  pub packed_repeated_start_lem :
      is_packed_repeated field.desc ≡ true
      → reserve ≤ room b
      → packed_repeated_start m (in_message b fd owner fs) field
        ≡ ret (err_ok, in_frame b 0 field none fd owner fs true)
  unfolding packed_repeated_start
  packed_repeated_start_lem is_packed fits = rw is_packed (open_frame_lem none true fits)

module _ (schema : Schema) (m : Memory) (b : Buf) (n : ℕ) (field : FieldRef) (msg : Option ℕ)
    (fd : Option FieldRef) (owner : ℕ) (fs : List Frame) where
  -- Memory and encoder after the frame's bytes have become a field of the parent.
  unfoldable pub closed : Memory × Encoder
  closed =
      let bs = framed_bytes m field.desc (b.pos + reserve) n in
      (store m b.pos bs, in_message (advance b (length bs)) fd owner fs)

  module _ (mem : IsFieldOf schema owner field) (ok : IsBuf m b) (small : n < 2 ^ 35)
      (framed : IsFramed field.desc) (fits : reserve + n ≤ room b) where
    add_framed :
        add_field schema m (in_message b fd owner fs) field (block (inside (b.pos + reserve)) n)
        ≡ ret (err_ok, closed.0, closed.1)
    unfolding add_field top frame_buf check_field closed
    add_framed = rw (
      ltb-true 0 (suc (length fs)) (omega arith),
      check_member_ok schema owner field mem,
      choose_framed field.desc (b.pos + reserve) n framed,
      write_framed m b field.desc (b.pos + reserve) n ok small framed (omega arith) (omega arith),
    )

    close_frame_lem :
        (packed : Bool)
        → close_frame schema m (in_frame b n field msg fd owner fs packed) false
          ≡ ret (err_ok, closed.0, closed.1)
    close_frame_lem packed =
        let used : buf_used (child_buf b n) ≡ n = unfold buf_used in omega arith in
        pops packed ∙ rw used add_framed
      where
        pops :
            (packed : Bool)
            → close_frame schema m (in_frame b n field msg fd owner fs packed) false
              ≡ add_field schema m
                  (in_message b fd owner fs)
                  field
                  (block (inside (b.pos + reserve)) (buf_used (child_buf b n)))
        pops packed =
            unfold close_frame top pop_stack_frame frame_buf in
            rw (ltb-true 0 (suc (length fs)) (omega arith))

    pub nested_end_lem :
        nested_end schema m (in_frame b n field msg fd owner fs false)
        ≡ ret (err_ok, closed.0, closed.1)
    unfolding nested_end
    nested_end_lem = close_frame_lem false

    -- For a frame of fewer than 2^35 bytes that was opened in packed mode for a field of the message
    -- below, a message or a packed repeated field, ten bytes behind that message's position in a
    -- well-formed buffer: `lwpb_encoder_packed_repeated_end` pops it, leaves packed mode, and
    -- appends key, length and the frame's bytes to the message below.
    pub packed_repeated_end_lem :
        packed_repeated_end schema m (in_frame b n field msg fd owner fs true)
        ≡ ret (err_ok, closed.0, closed.1)
    unfolding packed_repeated_end
    packed_repeated_end_lem = close_frame_lem true
