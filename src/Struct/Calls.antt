-- ===== src/Struct/Calls.antt =====
-- What the field handler of src/lwpb/utils/struct_decoder.c does at the edges: a field that the map
-- does not have, a string at the end of the input, and a message inside a message.
use lwpb.Common.{
  ◌≤◌, ℕ, suc, ◌+◌, ◌-◌, ◌*◌, ◌%◌, ◌^◌, ◌<◌, ◌≡◌, refl, arith, false, Option, none, some, List, [],
  ◌∷◌, get_elem?, leb-true, leb-false, ltb-true, ==_true, ==_false, sym, ltb-false, ltb,
}
use lwpb.Types.{
  ret, fault, ◌>>=◌, FieldType, FieldRef, same_field, Value, block, inside, message, string,
  read_block,
}
use lwpb.Buf.{Memory}
use lwpb.Copy.{fetch}
use lwpb.Common.{All}
use lwpb.Struct.{
  MapField, StructMap, Maps, MapFieldRef, StructFrame, StructState, find_map_field, find_map,
  select_field, set_frame, unpack_field, store_value, store_string, handle_field, inner_frame,
  handle_start, handle_end,
}
use lwpb.Struct.Message.{next_index}

-- No field of the map stands for the descriptor.
abbrev pub IsUnmapped : FieldRef → List MapField → Type 0
IsUnmapped field fs = All (λ (f : MapField). same_field f.field_desc field ≡ false) fs

find_map_field-fault :
    (fs : List MapField) (i map : ℕ) (field : FieldRef)
    → IsUnmapped field fs
    → find_map_field fs i map field ≡ fault
unfolding find_map_field
find_map_field-fault [] i map field h = refl
find_map_field-fault (f ∷ fs) i map field h = rw h.0 (find_map_field-fault fs (i + 1) map field h.1)

store_message :
    (input t : Memory) (typ : FieldType) (f : MapField) (dest : ℕ) (v : Option Value)
    → typ ≡ message
    → store_value input typ t f dest v ≡ ret (t, false)
unfolding store_value
store_message input t typ f dest v h = rw h refl

module _ {U : Type 0} (maps : Maps) (input : Memory) (m : StructMap) (map base i : ℕ)
    (last : Option MapFieldRef) (s : StructState U) (d : ℕ) where
  -- The current frame.
  abbrev pub IsCurrent : Type 0
  IsCurrent =
      (s.level ≡ suc d)
      × (d < 32)
      × (get_elem? maps map ≡ some m)
      × (s.stack d ≡ record { map = map; base = base; last_field = last; field_index = i })

  pub unmapped-fault :
      (msg : Option ℕ) (field : FieldRef) (v : Option Value)
      → IsCurrent
      → IsUnmapped field m.fields
      → handle_field maps input msg field v s ≡ fault
  unfolding handle_field find_map
  unmapped-fault msg field v (level, deep, has, frame) none_of =
      rw (level, ltb-true d 32 deep, frame, has, find_map_field-fault m.fields 0 map field none_of)
        refl

  -- The struct decoder's field handler, on a field that is a string shorter than its entry in the
  -- map and ends at the end of the input object, runs into undefined behaviour: it copies one byte
  -- more than the string has.
  pub text_at_end-fault :
      (msg : Option ℕ) (f : MapFieldRef) (p n : ℕ)
      → IsCurrent
      → find_map_field m.fields 0 map f.field.field_desc ≡ ret f
      → f.field.field_desc.desc.typ ≡ string
      → n < f.field.len
      → f.field.len < 2 ^ 64
      → p + n ≡ input.size
      → handle_field maps input msg f.field.field_desc (some (block (inside p) n)) s ≡ fault
  unfolding handle_field find_map unpack_field store_value store_string fetch select_field
      read_block
  text_at_end-fault msg f p n (level, deep, has, frame) found text short small ends =
      let same : (n + 1) % 2 ^ 64 ≡ n + 1 = omega arith in
      let short_of : ltb f.field.len (n + 1) ≡ false =
        ltb-false f.field.len (n + 1) (omega arith) in
      rw
        (
          level,
          ltb-true d 32 deep,
          frame,
          has,
          found,
          leb-true f.field.count f.field.count (omega arith),
          text,
          same,
        )
        (rw (short_of, leb-false (p + (n + 1)) input.size (omega arith)) refl)

  -- The frame behind a message in the frame, and the one in front.
  abbrev outer_frame : MapFieldRef → ℕ → StructFrame
  outer_frame f j = record { map = map; base = base; last_field = some f; field_index = j }

  abbrev element_frame : MapFieldRef → StructMap → ℕ → StructFrame
  element_frame f im j = record {
    map = f.field.len;
    base = base + f.field.ofs + im.struct_size * j;
    last_field = none;
    field_index = 0;
  }

  select_message :
      (msg : Option ℕ) (f : MapFieldRef)
      → IsCurrent
      → find_map_field m.fields 0 map f.field.field_desc ≡ ret f
      → f.field.field_desc.desc.typ ≡ message
      → handle_field maps input msg f.field.field_desc none s
        ≡ ret (record s { stack = set_frame s.stack d (outer_frame f (next_index last i f)) })
  unfolding handle_field find_map unpack_field select_field
  select_message msg f (level, deep, has, frame) found typ =
      let dest = base + f.field.ofs + f.field.len * next_index last i f % 2 ^ 64 in
      rw
        (
          level,
          ltb-true d 32 deep,
          frame,
          has,
          found,
          leb-true f.field.count f.field.count (omega arith),
          store_message input s.target f.field.field_desc.desc.typ f.field dest none typ,
        )
        refl

  start_message :
      (inner : ℕ) (f : MapFieldRef) (im : StructMap) (j : ℕ) (stack : ℕ → StructFrame)
      → stack d ≡ outer_frame f j
      → d < 31
      → get_elem? maps f.field.len ≡ some im
      → im.msg_desc ≡ inner
      → base + f.field.ofs + im.struct_size * j ≤ s.target.size
      → s.target.size < 2 ^ 64
      → j + 1 < 2 ^ 31
      → handle_start maps input inner (record s { stack = stack; level = suc d })
        ≡ ret (record s {
          stack =
              set_frame (set_frame stack d (outer_frame f (j + 1))) (suc d) (element_frame f im j);
          level = suc d + 1;
        })
  unfolding handle_start inner_frame find_map
  start_message inner f im j stack frame room has desc fits small next =
      let n = im.struct_size * j in
      let whole : n % 2 ^ 64 ≡ n = omega arith in
      rw
        (
          ltb-true (suc d) 32 (omega arith),
          frame,
          has,
          whole,
          leb-true (base + f.field.ofs + n) s.target.size fits,
          ltb-true (j + 1) (2 ^ 31) next,
          ==_true (suc d) (suc d) refl,
        )
        (rw (has, ==_true im.msg_desc inner desc) refl)

  -- In a frame of the struct decoder at depth below 31, take a field that is a message, with its
  -- entry in the map, at an index (0 for a new field, else one more than the last) below 2^31 - 1,
  -- and let the base of the frame plus the entry's offset and the struct size times the index not
  -- lie past the end of a target object below 2^64 bytes. The calls for it keep the target and the
  -- user's state: the field handler and then the message start handler set up the inner frame at
  -- that place; the message end handler then returns to the outer frame, where the index has moved
  -- on.
  pub message_frame :
      (msg inner : ℕ) (f : MapFieldRef) (im : StructMap)
      → IsCurrent
      → d < 31
      → find_map_field m.fields 0 map f.field.field_desc ≡ ret f
      → f.field.field_desc.desc.typ ≡ message
      → get_elem? maps f.field.len ≡ some im
      → im.msg_desc ≡ inner
      → base + f.field.ofs + im.struct_size * next_index last i f ≤ s.target.size
      → s.target.size < 2 ^ 64
      → next_index last i f + 1 < 2 ^ 31
      → let j = next_index last i f in
        (s' : StructState U) × ((handle_field maps input (some msg) f.field.field_desc none s
            >>= handle_start maps input inner)
          ≡ ret s')
        × (s'.level ≡ s.level + 1)
        × (s'.stack (suc d) ≡ record {
          map = f.field.len;
          base = base + f.field.ofs + im.struct_size * j;
          last_field = none;
          field_index = 0;
        })
        × (s'.target ≡ s.target)
        × (s'.user ≡ s.user)
        × (s'' : StructState U) × (handle_end maps input inner s' ≡ ret s'')
        × (s''.level ≡ s.level)
        × (s''.stack d
            ≡ record { map = map; base = base; last_field = some f; field_index = j + 1 })
  unfolding handle_field find_map unpack_field store_value select_field handle_start handle_end
      inner_frame
  message_frame msg inner f im now room found typ has_inner desc fits small next =
      let j = next_index last i f in
      let stack = set_frame s.stack d (outer_frame f j) in
      let s' : StructState U = record s {
        stack =
            set_frame (set_frame stack d (outer_frame f (j + 1))) (suc d) (element_frame f im j);
        level = suc d + 1;
      } in
      let up : suc d + 1 - 1 ≡ suc d = omega arith in
      let same = ==_true d d refl in
      (
        s',
        rw
            (
              select_message (some msg) f now found typ,
              now.0,
              start_message inner f im j stack (rw same refl) room has_inner desc fits small next,
            )
            refl,
        omega arith,
        rw (==_true (suc d) (suc d) refl) refl,
        refl,
        refl,
        record s' { level = suc d },
        rw (ltb-true 0 (suc d + 1) (omega arith), up) refl,
        sym now.0,
        rw (==_false d (suc d) (omega arith), same) refl,
      )
