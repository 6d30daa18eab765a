-- ===== src/Python/Decoder/Field.antt =====
-- `field_handler` of python/decoder.c as a whole, on a heap whose objects have kinds.
use lwpb.Common.{
  ℕ, ◌+◌, ◌^◌, ◌≤◌, ◌<◌, ◌≡◌, refl, sym, ◌∙◌, arith, inl, inr, Option, none, some, List, [], ◌++◌,
  length, length-append, take, leb-true, ltb-true,
}
use lwpb.Types.{
  is_repeated, FieldType, double, float, int64, uint64, int32, fixed64, fixed32, bool, string,
  message, bytes, uint32, enum, sfixed32, sfixed64, sint32, sint64, FieldRef, Schema, Value, word32,
  word64, block, inside, outside, read_word32, read_word64, read_block, ret,
}
use lwpb.Buf.{Memory}
use lwpb.Varint.Spec.{varint}
use lwpb.Copy.{fetch, load, length-take}
use lwpb.Wire.{encode_value}
use lwpb.Wire.RoundTrip.{IsValueOf}
use lwpb.Encoder.Field.{IsOutside, payload}
use lwpb.Decoder.Field.{IsKnown, delivered}
use lwpb.Python.Objects.{HeapObj, list, dict, text, item_of, lwpb_to_py}
use lwpb.Python.Objects.Typed.{
  Kind, dict_of, list_of, value_of, kind_at, IsScalar, element_kind, field_kind, Kinds, HasKind,
  HasKind-Extends, Extends-refl, Typed, with_kind,
}
use lwpb.Python.Decoder.{Context, allocate, dict_for, list_or_new, keep}
use lwpb.Python.Decoder.Keep.{
  label-cases, IsNamed, Step, Step-trans, allocate-Step, set_item-Step, append-Step, item-cases,
}

-- A type with values has no dicts.
pub value-kind :
    (t : FieldType) (o : Option ℕ) (v : Value) → IsValueOf t v → kind_at t o ≡ value_of t
value-kind message o v val = absurd val
value-kind _ o v val = refl

module _ (m : Memory) (from_float : ℕ → ℕ) where
  text_value :
      (bs : List ℕ) (p n : ℕ)
      → m.size < 2 ^ 63
      → n ≤ length bs
      → p + length (varint n ++ take n bs) ≤ m.size
      → (s : List ℕ) × (fetch m (inside (p + length (varint n))) n ≡ ret s)
  unfolding fetch
  text_value bs p n size o fits =
      let part = length-take n bs o in
      let total = length-append (varint n) (take n bs) in
      let q = p + length (varint n) in (load m q n, rw (leb-true (q + n) m.size (omega arith)) refl)

  block_small :
      (bs : List ℕ) (p n : ℕ)
      → m.size < 2 ^ 63
      → n ≤ length bs
      → p + length (varint n ++ take n bs) ≤ m.size
      → n < 2 ^ 63
  block_small bs p n size o fits =
      omega (arith, length-take n bs o, length-append (varint n) (take n bs))

  -- A value as the decoder delivers it becomes an object of its type.
  pub lwpb_to_py-IsScalar :
      (t : FieldType) (v : Value) (p : ℕ)
      → m.size < 2 ^ 63
      → IsValueOf t v
      → IsOutside (encode_value t v)
      → p + length (payload (encode_value t v)) ≤ m.size
      → (o : HeapObj) × (lwpb_to_py m from_float t (delivered p v) ≡ ret (some o, none))
        × IsScalar t o
  unfolding lwpb_to_py encode_value read_word32 read_word64 read_block
  lwpb_to_py-IsScalar double (word64 x) p size val o fits = (_, refl, tt)
  lwpb_to_py-IsScalar float (word32 x) p size val o fits = (_, refl, tt)
  lwpb_to_py-IsScalar int64 (word64 x) p size val o fits = (_, refl, tt)
  lwpb_to_py-IsScalar uint64 (word64 x) p size val o fits = (_, refl, tt)
  lwpb_to_py-IsScalar int32 (word32 x) p size val o fits = (_, refl, tt)
  lwpb_to_py-IsScalar fixed64 (word64 x) p size val o fits = (_, refl, tt)
  lwpb_to_py-IsScalar fixed32 (word32 x) p size val o fits = (_, refl, tt)
  lwpb_to_py-IsScalar bool (word32 x) p size val o fits = (_, refl, tt)
  lwpb_to_py-IsScalar uint32 (word32 x) p size val o fits = (_, refl, tt)
  lwpb_to_py-IsScalar enum (word32 x) p size val o fits = (_, refl, tt)
  lwpb_to_py-IsScalar sfixed32 (word32 x) p size val o fits = (_, refl, tt)
  lwpb_to_py-IsScalar sfixed64 (word64 x) p size val o fits = (_, refl, tt)
  lwpb_to_py-IsScalar sint32 (word32 x) p size val o fits = (_, refl, tt)
  lwpb_to_py-IsScalar sint64 (word64 x) p size val o fits = (_, refl, tt)
  lwpb_to_py-IsScalar string (block (outside bs) n) p size val o fits =
      let (s, run) = text_value bs p n size o fits in
      (text s, rw (ltb-true n (2 ^ 63) (block_small bs p n size o fits), run) refl, tt)
  lwpb_to_py-IsScalar bytes (block (outside bs) n) p size val o fits =
      let (s, run) = text_value bs p n size o fits in
      (text s, rw (ltb-true n (2 ^ 63) (block_small bs p n size o fits), run) refl, tt)
  lwpb_to_py-IsScalar string (block (inside q) n) p size val o fits = absurd o
  lwpb_to_py-IsScalar bytes (block (inside q) n) p size val o fits = absurd o
  lwpb_to_py-IsScalar _ v p size val o fits = absurd val

  module _ (schema : Schema) (field_name : FieldRef → List ℕ)
      (named : IsNamed schema field_name) where
    -- A step that gives the address of an object of the kind.
    abbrev pub Gives : Kinds → Context → Kind → ℕ × Context → Type 0
    Gives kinds c k r =
        (kinds' : Kinds) × Step schema field_name kinds c kinds' r.1
        × HasKind kinds' r.1.heap.next r.0 k

    pub dict_for-Gives :
        (kinds : Kinds) (c : Context) (top owner i : ℕ) (field : FieldRef)
        → Typed schema field_name kinds c.heap
        → c.exception ≡ none
        → HasKind kinds c.heap.next top (dict_of owner)
        → IsKnown schema owner field
        → element_kind field ≡ dict_of i
        → Gives kinds c
            (dict_of i)
            (dict_for m from_float field_name (is_repeated field.desc.label) field top c)
    dict_for-Gives kinds c top owner i field typed quiet dict_top known inner =
        let fresh = allocate-Step schema field_name kinds c (dict_of i) (dict []) typed quiet tt in
        elim (label-cases field) [
          | inl (rep, k) ↦ rw rep (_, fresh.0, fresh.1)
          | inr (rep, k) ↦
              (elim (item-cases schema field_name named kinds c.heap top owner field typed dict_top
                known) [
                  | inl found ↦ rw (rep, found) (_, fresh.0, fresh.1)
                  | inr (p, found, has) ↦
                      rw (rep, found)
                        (
                          kinds,
                          (typed, Extends-refl kinds c.heap.next, refl, quiet),
                          (has.0, has.1 ∙ k ∙ inner),
                        )
                ])
        ]

    list_or_new-Gives :
        (kinds : Kinds) (c : Context) (top owner : ℕ) (field : FieldRef)
        → Typed schema field_name kinds c.heap
        → c.exception ≡ none
        → HasKind kinds c.heap.next top (dict_of owner)
        → IsKnown schema owner field
        → field_kind field ≡ list_of field
        → Gives kinds c (list_of field) (
            list_or_new m from_float field_name field top
              (item_of (c.heap.object top) (field_name field))
              c)
    list_or_new-Gives kinds c top owner field typed quiet dict_top known k =
        elim (item-cases schema field_name named kinds c.heap top owner field typed dict_top
          known) [
            | inr (p, found, has) ↦
                rw found
                  (kinds, (typed, Extends-refl kinds c.heap.next, refl, quiet), (has.0, has.1 ∙ k))
            | inl found ↦
                (let (step, has) =
                    allocate-Step schema field_name kinds c (list_of field) (list []) typed quiet
                      tt in
                  let kinds' = with_kind schema field_name kinds c.heap.next (list_of field) in
                  let c' = (allocate (list []) c).1 in
                  let (typed', ext, stack, quiet') = step in
                  let stored =
                    set_item-Step schema field_name kinds' c' top owner field c.heap.next typed'
                      quiet'
                      (HasKind-Extends kinds kinds' c.heap.next c'.heap.next top (dict_of owner) ext
                        dict_top)
                      known (has.0, has.1 ∙ sym k) in
                  rw found (
                    kinds',
                    Step-trans schema field_name kinds kinds' kinds' c c' _ step stored,
                    HasKind-Extends kinds' kinds' c'.heap.next _ c.heap.next (list_of field)
                        stored.1 has,
                  ))
          ]

    -- Storing an object under its field's name.
    pub keep-Step :
        (kinds : Kinds) (c : Context) (top owner : ℕ) (field : FieldRef) (p : ℕ)
        → Typed schema field_name kinds c.heap
        → c.exception ≡ none
        → HasKind kinds c.heap.next top (dict_of owner)
        → IsKnown schema owner field
        → HasKind kinds c.heap.next p (element_kind field)
        → (kinds' : Kinds) × Step schema field_name kinds c kinds'
            (keep m from_float field_name (is_repeated field.desc.label) field top p c)
    keep-Step kinds c top owner field p typed quiet dict_top known has = elim (label-cases field) [
      | inr (rep, k) ↦ rw rep (
        kinds,
        set_item-Step schema field_name kinds c top owner field p typed quiet dict_top known
            (has.0, has.1 ∙ sym k),
      )
      | inl (rep, k) ↦
          (let (kinds', step, has_list) =
              list_or_new-Gives kinds c top owner field typed quiet dict_top known k in
            let c' =
              (list_or_new m from_float field_name field top
                (item_of (c.heap.object top) (field_name field)) c).1 in
            let (typed', ext, stack, quiet') = step in
            rw rep (
              kinds',
              Step-trans schema field_name kinds kinds' kinds' c c' _ step (
                  append-Step schema field_name kinds' c' _ field p typed' quiet' has_list (
                    HasKind-Extends kinds kinds' c.heap.next c'.heap.next p (element_kind field) ext
                      has)),
            ))
    ]
