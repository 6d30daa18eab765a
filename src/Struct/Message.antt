-- ===== src/Struct/Message.antt =====
-- `lwpb_struct_decoder_decode` (src/lwpb/utils/struct_decoder.c) on a message without messages in it.
use lwpb.Common.{
  ltb-true, false, ℕ, ◌+◌, ◌^◌, ◌≤◌, ◌<◌, ◌≡◌, refl, arith, Option, none, some, List, [], ◌∷◌,
  length, length-append, get_elem?, if◌then◌else◌, leb-true, ==_true,
}
use lwpb.Types.{err_ok, ret, Schema, Value, WireValue}
use lwpb.Buf.{Memory}
use lwpb.Varint.Spec.{varint, store, size-store, Holds, Holds-append}
use lwpb.Wire.{encode_value, wire_type_out}
use lwpb.Wire.RoundTrip.{IsValueOf}
use lwpb.Encoder.{field_key}
use lwpb.Encoder.Field.{payload, IsOutside, field_bytes}
use lwpb.Decoder.{Handlers, notify, notify_end, call_field}
use lwpb.Decoder.Field.{bytes_of, value_pos, delivered}
use lwpb.Message.{Fields, message_bytes, IsMessage}
use lwpb.Message.Decode.{events, decode_lem}
use lwpb.Struct.{
  StructMap, Maps, MapFieldRef, StructFrame, StructState, find_map_field, find_map, field_base,
  is_new, select_field, set_frame, unpack_field, handle_field, start_frame, handle_start,
  handle_end, struct_handlers, struct_decode,
}
use lwpb.Struct.Store.{field_image, IsSlot, store_value_lem}

-- Values with the fields of a struct map that take them.
abbrev pub Slots : Type 0
Slots = List (MapFieldRef × Value)

abbrev pub fields_of : Slots → Fields
fields_of [] = []
fields_of ((f, v) ∷ xs) = (f.field.field_desc, v) ∷ fields_of xs

-- The bytes that a value has in the structure.
abbrev pub image_of : MapFieldRef → Value → List ℕ
image_of f v = field_image f.field.field_desc.desc.typ f.field.len v

-- Values of one field that follow each other have the indices 0, 1, 2, ...
abbrev pub next_index : Option MapFieldRef → ℕ → MapFieldRef → ℕ
next_index last i f = if is_new last f then 0 else i

-- The object after the values have been stored in order, each at the next index of its field.
abbrev pub filled : ℕ → Option MapFieldRef → ℕ → Slots → Memory → Memory
filled base last i [] t = t
filled base last i ((f, v) ∷ xs) t =
    let j = next_index last i f in
    filled base (some f) (j + 1) xs (store t (field_base f.field base j) (image_of f v))

-- Each value's field is the one that the map has for its descriptor, has the size of its type, and
-- lies in an object of `size` bytes, at an index that can still move on.
abbrev pub IsMapped : StructMap → ℕ → ℕ → ℕ → Option MapFieldRef → ℕ → Slots → Type 0
IsMapped m map base size last i [] = Unit {0}
IsMapped m map base size last i ((f, v) ∷ xs) =
    let j = next_index last i f in
    (find_map_field m.fields 0 map f.field.field_desc ≡ ret f)
    × IsSlot f.field.field_desc.desc.typ f.field.len
    × (field_base f.field base j + length (image_of f v) ≤ size)
    × (j + 1 < 2 ^ 31)
    × IsMapped m map base size (some f) (j + 1) xs

module _ {U : Type 0} (maps : Maps) (input : Memory) (small : input.size < 2 ^ 64) where
  -- Inside the outermost message, where the last field and the next index are these.
  pub record InMap (map base : ℕ) (last : Option MapFieldRef) (i : ℕ) (s : StructState U)
      : Type 0 where
    pub level_one : s.level ≡ 1
    pub frame_same :
        s.stack 0 ≡ record { map = map; base = base; last_field = last; field_index = i }

  -- The state after a value has been stored at index `j` of a field.
  abbrev with_value : ℕ → ℕ → MapFieldRef → ℕ → Value → StructState U → StructState U
  with_value map base f j v s = record s {
    stack =
        set_frame s.stack 0
          (record { map = map; base = base; last_field = some f; field_index = j + 1 });
    target = store s.target (field_base f.field base j) (image_of f v);
  }

  module _ (msg : Option ℕ) (struct_map : StructMap) (map base : ℕ)
      (has : get_elem? maps map ≡ some struct_map) where
    handle_field_lem :
        (i p : ℕ) (last : Option MapFieldRef) (f : MapFieldRef) (v : Value) (s : StructState U)
        → find_map_field struct_map.fields 0 map f.field.field_desc ≡ ret f
        → IsSlot f.field.field_desc.desc.typ f.field.len
        → IsValueOf f.field.field_desc.desc.typ v
        → IsOutside (encode_value f.field.field_desc.desc.typ v)
        → Holds input p (payload (encode_value f.field.field_desc.desc.typ v))
        → p + length (payload (encode_value f.field.field_desc.desc.typ v)) < input.size
        → InMap map base last i s
        → let j = next_index last i f in
          field_base f.field base j + length (image_of f v) ≤ s.target.size
          → j + 1 < 2 ^ 31
          → handle_field maps input msg f.field.field_desc (some (delivered p v)) s
            ≡ ret (with_value map base f j v s)
    unfolding handle_field unpack_field select_field find_map
    handle_field_lem i p last f v s found size val o at inner now fits next =
        rw
          (
            now.level_one,
            now.frame_same,
            has,
            found,
            leb-true f.field.count f.field.count (omega arith),
            store_value_lem input s.target f.field (field_base f.field base (next_index last i f)) p
                small f.field.field_desc.desc.typ v val o size at inner fits,
            ltb-true (next_index last i f + 1) (2 ^ 31) next,
          )
          refl

  module _ (h : Handlers U) (schema : Schema) (struct_map : StructMap) (map base : ℕ)
      (has : get_elem? maps map ≡ some struct_map) where
    -- All calls of the field handler for the values of a message that stands at `p`.
    events_lem :
        (xs : Slots) (i p : ℕ) (last : Option MapFieldRef) (s : StructState U)
        → IsMapped struct_map map base s.target.size last i xs
        → IsMessage schema struct_map.msg_desc (fields_of xs)
        → Holds input p (message_bytes (fields_of xs))
        → p + length (message_bytes (fields_of xs)) < input.size
        → InMap map base last i s
        → (s' : StructState U) × (events
              (struct_handlers maps input h)
              struct_map.msg_desc
              schema
              p
              (fields_of xs)
              (ret s)
            ≡ ret s')
          × (s'.level ≡ 1)
          × (s'.target ≡ filled base last i xs s.target)
          × (s'.user ≡ events h struct_map.msg_desc schema p (fields_of xs) s.user)
    unfolding struct_handlers message_bytes field_bytes
    events_lem [] i p last s mapped good at inner now = (s, refl, now.level_one, refl, refl)
    events_lem ((f, v) ∷ xs) i p last s (found, slot, fits, next, mapped) (known, val, o, good) at
          inner now =
        let field = f.field.field_desc in
        let out = encode_value field.desc.typ v in
        let key = varint (field_key (wire_type_out out) field.desc.number) in
        let bs = bytes_of field v in
        let total = length-append bs (message_bytes (fields_of xs)) in
        let total' = length-append key (payload out) in
        let parts = Holds-append input p bs (message_bytes (fields_of xs)) at in
        let parts' = Holds-append input p key (payload out) parts.0 in
        let j = next_index last i f in
        let s1 = with_value map base f j v s in
        let s2 : StructState U = record s1 {
          user =
              call_field h.field (some struct_map.msg_desc) field
                (some (delivered (value_pos p field v) v)) s.user;
        } in
        let first =
          handle_field_lem (some struct_map.msg_desc) struct_map map base has i
            (value_pos p field v) last f v s found slot val o parts'.1 (omega arith) now fits
            next in
        let same = size-store s.target (field_base f.field base j) (image_of f v) in
        let rest =
          events_lem xs (j + 1) (p + length bs) (some f) s2 (rw same mapped) good parts.1
            (omega arith) (record { level_one = now.level_one; frame_same = refl }) in
        (rest.0, rw (events, first) rest.1, rest.2, rest.3, rest.4)

    -- On the encodings of values that the map takes, with a byte behind them in the object,
    -- `lwpb_struct_decoder_decode` succeeds, fills the target and calls the handlers of the user.
    pub struct_decode_lem :
        (xs : Slots) (old : ℕ → StructFrame) (target : Memory) (p len : ℕ) (garbage : WireValue)
        (user : U)
        → IsMapped struct_map map base target.size none 0 xs
        → IsMessage schema struct_map.msg_desc (fields_of xs)
        → Holds input p (message_bytes (fields_of xs))
        → len ≡ length (message_bytes (fields_of xs))
        → p + len < input.size
        → (s : StructState U) × (struct_decode maps input h schema old map base target p len garbage
              user
            ≡ ret (err_ok, s, len))
          × (s.target ≡ filled base none 0 xs target)
          × (s.user
              ≡ notify_end h.msg_end false (some struct_map.msg_desc) (
                  events h struct_map.msg_desc schema p
                    (fields_of xs)
                    (notify h.msg_start (some struct_map.msg_desc) user)))
    unfolding struct_decode find_map struct_handlers handle_start handle_end
    struct_decode_lem xs old target p len garbage user mapped good at all inner =
        let frame = start_frame map base in
        let s0 : StructState U = record {
          stack = set_frame old 0 frame;
          level = 0;
          target = target;
          user = user;
        } in
        let s1 : StructState U = record s0 {
          level = 1;
          user = notify h.msg_start (some struct_map.msg_desc) user;
        } in
        let (s2, run, level, t, u) =
          events_lem xs 0 p none s1 mapped good at (omega arith)
            (record { level_one = refl; frame_same = refl }) in
        (
          record s2 {
            level = 0;
            user = notify_end h.msg_end false (some struct_map.msg_desc) s2.user;
          },
          rw
              (
                has,
                decode_lem (struct_handlers maps input h) struct_map.msg_desc schema input
                    (fields_of xs) p len garbage (ret s0) good (omega arith) small at all,
              )
              (rw (find_map, has, ==_true struct_map.msg_desc struct_map.msg_desc refl, run, level)
                refl),
          t,
          rw u,
        )
