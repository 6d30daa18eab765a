-- ===== src/Tests/Structs.antt =====
-- The struct decoder at concrete inputs: a structure with room for two numbers, a text and two inner
-- structures.
use lwpb.Common.{ℕ, ◌-◌, ◌≡◌, refl, arith, none, some, List, [], ◌∷◌}
use lwpb.Types.{err_ok, ret, fault, ◌>>=◌, block, inside}
use lwpb.Buf.{Memory}
use lwpb.Encoder.Field.{in_message}
use lwpb.Message.{add_fields}
use lwpb.Struct.{
  MapField, StructMap, Maps, StructFrame, StructState, find_map_field, struct_decode, handle_field,
  handle_start, handle_end,
}
use lwpb.Struct.Message.{Slots, filled, IsMapped}
use lwpb.Struct.Calls.{text_at_end-fault, message_frame}
use lwpb.Struct.RoundTrip.{struct_decode-add_fields}
use lwpb.Tests.{schema, count, name, child, mem, buf, three_hundred, hi, garbage, log}
use lwpb.Tests.Messages.{two_fields, two_fields-IsMessage, two_fields-length, buf-IsBuf}

abbrev count_slot : MapField
count_slot = record { field_desc = count; ofs = 0; len = 8; count = 2 }

abbrev name_slot : MapField
name_slot = record { field_desc = name; ofs = 16; len = 16; count = 1 }

abbrev child_slot : MapField
child_slot = record { field_desc = child; ofs = 32; len = 1; count = 2 }

abbrev outer_map : StructMap
outer_map = record {
  msg_desc = 0;
  struct_size = 48;
  fields = count_slot ∷ name_slot ∷ child_slot ∷ [];
}

abbrev inner_map : StructMap
inner_map = record { msg_desc = 1; struct_size = 8; fields = [] }

abbrev maps : Maps
maps = outer_map ∷ inner_map ∷ []

abbrev slots : Slots
slots =
    (record { map = 0; index = 0; field = count_slot }, three_hundred)
    ∷ (record { map = 0; index = 1; field = name_slot }, hi)
    ∷ []

abbrev structure : Memory
structure = record { size = 48; byte = λ p. 0 }

abbrev old : ℕ → StructFrame
old i = record { map = 0; base = 0; last_field = none; field_index = 0 }

slots-IsMapped : IsMapped outer_map 0 0 48 none 0 slots
unfolding find_map_field
slots-IsMapped =
    (refl, refl, omega arith, omega arith, (refl, omega arith, omega arith, omega arith, tt))

struct_decode-add_fields_example :
    (m : Memory) × (b : _) × (s : StructState (List ℕ)) × (add_fields schema mem
        (in_message buf none 0 [])
        two_fields
      ≡ ret (err_ok, m, in_message b none 0 []))
    × (struct_decode maps m log schema old 0 0 structure 0 (b.pos - 0) garbage []
        ≡ ret (err_ok, s, b.pos - 0))
    × (s.target ≡ filled 0 none 0 slots structure)
struct_decode-add_fields_example =
    struct_decode-add_fields log schema maps outer_map 0 0 slots old mem structure buf garbage []
      refl slots-IsMapped two_fields-IsMessage buf-IsBuf (omega (arith, two_fields-length))

-- Inside the outermost message, before its first field.
abbrev begun : StructState (List ℕ)
begun = record { stack = old; level = 1; target = structure; user = [] }

text_at_end-fault_example :
    handle_field maps mem (some 0) name (some (block (inside 62) 2)) begun ≡ fault
unfolding find_map_field
text_at_end-fault_example =
    text_at_end-fault maps mem outer_map 0 0 0 none begun 0 (some 0)
      (record { map = 0; index = 1; field = name_slot }) 62 2 (refl, omega arith, refl, refl) refl
      refl (omega arith) (omega arith) refl

message_frame_example :
    (s' : StructState (List ℕ)) × ((handle_field maps mem (some 0) child none begun
        >>= handle_start maps mem 1)
      ≡ ret s')
    × (s'.level ≡ 2)
    × (s'.stack 1 ≡ record { map = 1; base = 32; last_field = none; field_index = 0 })
    × (s'.target ≡ structure)
    × (s'.user ≡ [])
    × (s'' : StructState (List ℕ)) × (handle_end maps mem 1 s' ≡ ret s'')
    × (s''.level ≡ 1)
    × (s''.stack 0 ≡ record {
      map = 0;
      base = 0;
      last_field = some (record { map = 0; index = 2; field = child_slot });
      field_index = 1;
    })
unfolding find_map_field
message_frame_example =
    message_frame maps mem outer_map 0 0 0 none begun 0 0 1
      (record { map = 0; index = 2; field = child_slot }) inner_map (refl, omega arith, refl, refl)
      (omega arith) refl refl refl refl (omega arith) (omega arith) (omega arith)
