-- ===== src/Decoder/Unknown.antt =====
-- Fields whose number no descriptor of the message has. `field_desc` of `lwpb_decoder_decode` keeps
-- the last field that was found, so only the unknown fields before it are skipped.
use lwpb.Common.{
  ℕ, ◌+◌, ◌^◌, ◌≤◌, ◌<◌, ◌≡◌, refl, arith, false, none, some, List, ◌∷◌, ◌==◌, ◌&&◌, length,
  length-append, get_elem?,
}
use lwpb.Types.{ret, Schema, MsgDesc, FieldRef, Value, WireValue, is_packed_repeated, wt_string}
use lwpb.Buf.{Memory, Buf, IsBuf, room, advance, IsBuf-advance, advance-advance}
use lwpb.Varint.Spec.{varint, Holds, Holds-append}
use lwpb.Wire.{WireOut, wire_type_out, decode_value}
use lwpb.Wire.RoundTrip.{IsOut, load_out}
use lwpb.Encoder.{field_key}
use lwpb.Encoder.Field.{payload, IsOutside, field_bytes}
use lwpb.Decoder.{
  Handlers, Frame, State, go, find_field, call_field, field_turn, after_wire, dispatch,
}
use lwpb.Decoder.Field.{placed, read_key_lem, read_wire_lem}

module _ {S : Type 0} (h : Handlers S) (m : Memory) (root : ℕ) (schema : Schema) (owner : ℕ)
    (d : MsgDesc) (number : ℕ) (out : WireOut) where
  -- A field with the number stands at the position, and no descriptor has the number.
  abbrev pub UnknownAt : Buf → Type 0
  UnknownAt b =
      (get_elem? schema owner ≡ some d)
      × (find_field d.fields 0 owner number ≡ none)
      × (number < 2 ^ 29)
      × IsOut out
      × IsOutside out
      × IsBuf m b
      × Holds m b.pos (field_bytes number out)
      × (length (field_bytes number out) ≤ room b)

  -- What the decoder's wire value holds then.
  abbrev pub wire_after : WireValue → Buf → WireValue
  wire_after w b =
      load_out w (placed (b.pos + length (varint (field_key (wire_type_out out) number))) out)

  -- The state behind the field.
  abbrev pub passed : State S → Buf → List Frame → State S
  passed s b fs = record s {
    stack =
        record { buf = advance b (length (field_bytes number out)); msg_desc = some owner } ∷ fs;
    wire = wire_after s.wire b;
  }

  -- A field outside packed mode whose number (below 2^29) no descriptor of the message has, with a
  -- well-formed buffer that holds all of its bytes: if no field has been found so far, the turn of
  -- the decoder moves behind the field and calls no handler.
  pub unknown_skipped :
      (s : State S) (b : Buf) (fs : List Frame)
      → UnknownAt b
      → s.packed ≡ false
      → s.field_desc ≡ none
      → field_turn h m root schema s (record { buf = b; msg_desc = some owner }) fs
        ≡ ret (go (passed s b fs))
  unfolding field_turn field_bytes after_wire
  unknown_skipped s b fs (has, unknown, small, is_out, o, ok, at, fits) mode first =
      let key = varint (field_key (wire_type_out out) number) in
      let total = length-append key (payload out) in
      let parts = Holds-append m b.pos key (payload out) at in
      let b' = advance b (length key) in
      let ok' = IsBuf-advance m b (length key) ok (omega arith) in
      let here : b'.pos ≡ b.pos + length key = unfold advance in refl in
      rw
        (
          mode,
          first,
          read_key_lem m b s.wire ok schema owner d number none none out has unknown small parts.0
              (omega arith),
          read_wire_lem m b' s.wire ok' out is_out o (unfold advance in parts.1)
              (unfold advance in omega arith),
        )
        (rw (mode, advance-advance b (length key) (length (payload out)), total, here))

  -- A field outside packed mode whose number (below 2^29) no descriptor of the message has, with a
  -- well-formed buffer that holds all of its bytes: if a field that is not packed was found before
  -- and its type makes a value of the wire value, the turn of the decoder calls the field handler
  -- with that earlier field and this value.
  pub unknown_reported :
      (s : State S) (b : Buf) (fs : List Frame) (old : FieldRef) (v : Value)
      → UnknownAt b
      → s.packed ≡ false
      → s.field_desc ≡ some old
      → is_packed_repeated old.desc ≡ false
      → decode_value old.desc.typ (wire_after s.wire b) ≡ some v
      → field_turn h m root schema s (record { buf = b; msg_desc = some owner }) fs
        ≡ ret (
            go (record (passed s b fs) {
              user = call_field h.field (some owner) old (some v) s.user;
            }))
  unfolding field_turn field_bytes after_wire dispatch
  unknown_reported s b fs old v (has, unknown, small, is_out, o, ok, at, fits) mode before plain
        seen =
      let key = varint (field_key (wire_type_out out) number) in
      let total = length-append key (payload out) in
      let parts = Holds-append m b.pos key (payload out) at in
      let b' = advance b (length key) in
      let ok' = IsBuf-advance m b (length key) ok (omega arith) in
      let here : b'.pos ≡ b.pos + length key = unfold advance in refl in
      let not_packed : (wire_type_out out == wt_string && is_packed_repeated old.desc) ≡ false =
        ground (arith, plain) in
      rw
        (
          mode,
          before,
          read_key_lem m b s.wire ok schema owner d number none (some old) out has unknown small
              parts.0 (omega arith),
          read_wire_lem m b' s.wire ok' out is_out o (unfold advance in parts.1)
              (unfold advance in omega arith),
          here,
          not_packed,
          seen,
        )
        (rw (mode, advance-advance b (length key) (length (payload out)), total, here))
