-- ===== src/Struct.antt =====
-- src/lwpb/utils/struct_decoder.c and include/lwpb/utils/struct_map.h: decoding into a C structure.
-- The structure lies in one data object, `target`; pointers of a decoded value stand in the input.
-- `depth` is kept as `level`, which is one more, so that level 0 is depth -1. A pointer to a struct
-- map is a position in the table of all maps, also where it is stored in `len`.
pub mod Calls
pub mod Message
pub mod RoundTrip
pub mod Store
use lwpb.Common.{
  ℕ, zero, suc, ◌+◌, ◌-◌, ◌*◌, ◌/◌, ◌%◌, ◌^◌, Bool, true, false, not, ◌&&◌, Option, none, some,
  List, [], ◌∷◌, ◌++◌, ◌==◌, ltb, leb, get_elem?, if◌then◌else◌,
}
use lwpb.Types.{
  Err, Run, ret, fault, ◌>>=◌, ◌>>◌, assert, require, some_or_fault, Schema, FieldRef, same_field,
  FieldType, double, float, int64, uint64, int32, fixed64, fixed32, bool, string, group, message,
  bytes, uint32, enum, sfixed32, sfixed64, sint32, sint64, Value, read_word32, read_word64,
  read_block, Ptr, WireValue, max_depth,
}
use lwpb.Buf.{Memory, write}
use lwpb.Fixed.{write_all, four_bytes}
use lwpb.Copy.{fetch}
use lwpb.Decoder.{Handlers, decode}
use lwpb.Decoder

-- `struct lwpb_struct_map_field`
pub record MapField : Type 0 where
  pub field_desc : FieldRef
  pub ofs : ℕ
  pub len : ℕ
  pub count : ℕ

-- `struct lwpb_struct_map`: the fields up to the one without a descriptor.
pub record StructMap : Type 0 where
  pub msg_desc : ℕ
  pub struct_size : ℕ
  pub fields : List MapField

abbrev pub Maps : Type 0
Maps = List StructMap

-- `&map->fields[index]`, with what it points to.
pub record MapFieldRef : Type 0 where
  pub map : ℕ
  pub index : ℕ
  pub field : MapField

abbrev pub same_map_field : MapFieldRef → MapFieldRef → Bool
same_map_field a b = (a.map == b.map) && (a.index == b.index)

-- `struct lwpb_struct_decoder_stack_frame`
pub record StructFrame : Type 0 where
  pub map : ℕ
  pub base : ℕ
  pub last_field : Option MapFieldRef
  pub field_index : ℕ

-- The part of `struct lwpb_struct_decoder` that decoding changes, with the object that holds the
-- structure and the state of the user's handlers.
pub record StructState (U : Type 0) : Type 0 where
  pub stack : ℕ → StructFrame
  pub level : ℕ
  pub target : Memory
  pub user : U

-- The loop of `find_map_field`, which has no `return` for a field that it does not find.
unfoldable pub find_map_field : List MapField → ℕ → ℕ → FieldRef → Run MapFieldRef
find_map_field [] i map field = fault
find_map_field (f ∷ fs) i map field =
    if same_field f.field_desc field
    then ret (record { map = map; index = i; field = f })
    else find_map_field fs (i + 1) map field

unfoldable pub find_map : Maps → ℕ → Run StructMap
find_map maps i = some_or_fault (get_elem? maps i)

-- FIELD_BASE, where the product is a `size_t`. The pointer must not leave its object, which is
-- required where a value is stored at it.
abbrev pub field_base : MapField → ℕ → ℕ → ℕ
field_base f base index = base + f.ofs + f.len * index % 2 ^ 64

-- `field_index++` on an int.
abbrev pub next_int : ℕ → Run ℕ
next_int i = require (ltb (i + 1) (2 ^ 31)) >> ret (i + 1)

-- `((char *) dest)[len - 1] = '\0'`, where `len - 1` is a `size_t`.
abbrev put_last : Memory → ℕ → ℕ → Run Memory
put_last t dest len = write t (dest + (len + 2 ^ 64 - 1) % 2 ^ 64) 0

abbrev pub smaller : ℕ → ℕ → ℕ
smaller a b = if ltb a b then a else b

-- The stores of the `switch` in `unpack_field`: the object after them, and whether the field index
-- moves. The value is `none` for NULL.
module _ (input : Memory) where
  unfoldable pub store_number : Memory → MapField → ℕ → ℕ → Option (List ℕ) → Run (Memory × Bool)
  store_number t f dest size none = fault
  store_number t f dest size (some bs) =
      assert (f.len == size)
      >> (require (leb dest t.size) >> write_all t dest bs >>= λ t'. ret (t', true))

  unfoldable pub store_string : Memory → MapField → ℕ → Option (Ptr × ℕ) → Run (Memory × Bool)
  store_string t f dest none = fault
  store_string t f dest (some (str, len)) =
      let n = smaller f.len ((len + 1) % 2 ^ 64) in
      fetch input str n >>= λ bs. require (leb dest t.size) >> write_all t dest bs >>= λ t'.
      put_last t' dest n >>= λ t''. ret (t'', true)

  unfoldable pub store_bytes : Memory → MapField → ℕ → Option (Ptr × ℕ) → Run (Memory × Bool)
  store_bytes t f dest none = fault
  store_bytes t f dest (some (data_ptr, len)) = fetch input data_ptr (smaller f.len len) >>= λ bs.
      require (leb dest t.size) >> write_all t dest bs >>= λ t'. ret (t', true)

  abbrev four : Option ℕ → Option (List ℕ)
  four none = none
  four (some x) = some (four_bytes x)

  abbrev eight : Option ℕ → Option (List ℕ)
  eight none = none
  eight (some x) = some (four_bytes x ++ four_bytes (x / 2 ^ 32))

  -- A value that is needed, of which `v` is a pointer.
  abbrev read_with : {A : Type 0} → (Value → Option A) → Option Value → Option A
  read_with f none = none
  read_with f (some v) = f v

  unfoldable pub store_value :
      FieldType → Memory → MapField → ℕ → Option Value → Run (Memory × Bool)
  unfolding store_number store_string store_bytes
  store_value double t f dest v = store_number t f dest 8 (eight (read_with read_word64 v))
  store_value float t f dest v = store_number t f dest 4 (four (read_with read_word32 v))
  store_value int32 t f dest v = store_number t f dest 4 (four (read_with read_word32 v))
  store_value sint32 t f dest v = store_number t f dest 4 (four (read_with read_word32 v))
  store_value sfixed32 t f dest v = store_number t f dest 4 (four (read_with read_word32 v))
  store_value uint32 t f dest v = store_number t f dest 4 (four (read_with read_word32 v))
  store_value fixed32 t f dest v = store_number t f dest 4 (four (read_with read_word32 v))
  store_value int64 t f dest v = store_number t f dest 8 (eight (read_with read_word64 v))
  store_value sint64 t f dest v = store_number t f dest 8 (eight (read_with read_word64 v))
  store_value sfixed64 t f dest v = store_number t f dest 8 (eight (read_with read_word64 v))
  store_value uint64 t f dest v = store_number t f dest 8 (eight (read_with read_word64 v))
  store_value fixed64 t f dest v = store_number t f dest 8 (eight (read_with read_word64 v))
  store_value bool t f dest v = store_number t f dest 4 (four (read_with read_word32 v))
  store_value enum t f dest v = store_number t f dest 4 (four (read_with read_word32 v))
  store_value string t f dest v = store_string t f dest (read_with read_block v)
  store_value bytes t f dest v = store_bytes t f dest (read_with read_block v)
  store_value message t f dest v = ret (t, false)
  store_value group t f dest v = ret (t, false)

-- `field != frame->last_field`
abbrev is_new : Option MapFieldRef → MapFieldRef → Bool
is_new none f = true
is_new (some g) f = not (same_map_field f g)

-- Reset of the field index when a new field is encountered.
unfoldable pub select_field : StructFrame → MapFieldRef → StructFrame
select_field frame f = record frame {
  last_field = some f;
  field_index = if is_new frame.last_field f then 0 else frame.field_index;
}

abbrev pub set_frame : (ℕ → StructFrame) → ℕ → StructFrame → ℕ → StructFrame
set_frame stack d frame i = if i == d then frame else stack i

-- The frame of a message inside a message, and the outer frame behind it. The structure's object has
-- `size` bytes.
unfoldable pub inner_frame : Maps → ℕ → StructFrame → Run (StructFrame × StructFrame)
inner_frame maps size outer = elim outer.last_field [
  | none ↦ fault
  | some f ↦
      (find_map maps f.field.len >>= λ map.
      let base = outer.base + f.field.ofs + map.struct_size * outer.field_index % 2 ^ 64 in
      require (leb base size)
      >> (next_int outer.field_index >>= λ index. ret (
        record { map = f.field.len; base = base; last_field = none; field_index = 0 },
        record outer { field_index = index },
      )))
]

abbrev pub start_frame : ℕ → ℕ → StructFrame
start_frame map base = record { map = map; base = base; last_field = none; field_index = 0 }

module _ {U : Type 0} (maps : Maps) (input : Memory) where
  -- `&sdecoder->stack[sdecoder->depth]`
  abbrev pub current : StructState U → Run ℕ
  current s = elim s.level [ zero ↦ fault | suc d ↦ (require (ltb d max_depth) >> ret d) ]

  -- `unpack_field`. Its test `field->count >= field->count` always holds.
  unfoldable pub unpack_field : StructState U → ℕ → MapFieldRef → Option Value → Run (StructState U)
  unpack_field s d f v =
      let frame = select_field (s.stack d) f in
      let stay : StructState U = record s { stack = set_frame s.stack d frame } in
      let dest = field_base f.field frame.base frame.field_index in
      let stored = store_value input f.field.field_desc.desc.typ s.target f.field dest v in
      if leb f.field.count f.field.count
      then (stored >>= λ (t, moves).
          (if moves then next_int frame.field_index else ret frame.field_index) >>= λ index.
          ret (record s {
            stack = set_frame s.stack d (record frame { field_index = index });
            target = t;
          }))
      else ret stay

  -- `sdecoder_field_handler`, up to the user's handler.
  unfoldable pub handle_field :
      Option ℕ → FieldRef → Option Value → StructState U → Run (StructState U)
  handle_field msg field v s = current s >>= λ d. find_map maps (s.stack d).map >>= λ map.
      find_map_field map.fields 0 (s.stack d).map field >>= λ f. unpack_field s d f v

  -- `sdecoder_msg_start_handler`, up to the user's handler: `depth` moves, and above 0 the frame is
  -- set up.
  unfoldable pub handle_start : ℕ → StructState U → Run (StructState U)
  handle_start msg s =
      require (ltb s.level max_depth)
      >> ((elim s.level [
        | zero ↦ ret s.stack
        | suc d ↦
            (inner_frame maps s.target.size (s.stack d) >>= λ (frame, outer).
            ret (set_frame (set_frame s.stack d outer) (suc d) frame))
      ])
          >>= λ stack. find_map maps (stack s.level).map >>= λ map.
              assert (map.msg_desc == msg) >> ret (record s { stack = stack; level = s.level + 1 }))

  -- `sdecoder_msg_end_handler`, up to the user's handler. Only depth 0 and above are ever left.
  unfoldable pub handle_end : ℕ → StructState U → Run (StructState U)
  handle_end msg s = require (ltb 0 s.level) >> ret (record s { level = s.level - 1 })

  -- `lwpb_struct_decoder_init` and the functions that set handlers: the decoder's handlers, each with
  -- the user's handler behind it. A handler that faults or aborts ends the state there.
  unfoldable pub struct_handlers : Handlers U → Handlers (Run (StructState U))
  struct_handlers h = record {
    msg_start = some (λ msg s. s >>= handle_start msg >>= λ s'.
        ret (record s' { user = Decoder.call h.msg_start msg s'.user }));
    msg_end = some (λ packed msg s. s >>= handle_end msg >>= λ s'.
        ret (record s' { user = Decoder.call_end h.msg_end packed msg s'.user }));
    field = some (λ msg field v s. s >>= handle_field msg field v >>= λ s'.
        ret (record s' { user = Decoder.call_field h.field msg field v s'.user }));
  }

  -- `lwpb_struct_decoder_decode`. The rest of the stack holds what was there before.
  unfoldable pub struct_decode :
      Handlers U
      → Schema
      → (ℕ → StructFrame)
      → ℕ
      → ℕ
      → Memory
      → ℕ
      → ℕ
      → WireValue
      → U
      → Run (Err × StructState U × ℕ)
  struct_decode h schema old map base target p len garbage user =
      let s : StructState U = record {
        stack = set_frame old 0 (start_frame map base);
        level = 0;
        target = target;
        user = user;
      } in
      find_map maps map >>= λ struct_map.
      decode (struct_handlers h) input struct_map.msg_desc schema p len garbage (ret s)
      >>= λ (e, r, used). r >>= λ s'. ret (e, s', used)
