-- ===== src/Python/Decoder/Keep.antt =====
-- The steps of `field_handler` of python/decoder.c on a heap whose objects have kinds.
use lwpb.Common.{
  ℕ, ◌≡◌, refl, ◌∙◌, true, false, ◌⊎◌, inl, inr, Option, none, some, List, [], ◌∷◌, ◌++◌,
}
use lwpb.Types.{is_repeated, Label, optional, required, repeated, FieldRef, Schema}
use lwpb.Decoder.Field.{IsKnown}
use lwpb.Python.Objects.{
  HeapObj, list, dict, Heap, alloc, update, find_key, set_key, item_of, with_item, with_element,
}
use lwpb.Python.Objects.Typed.{
  Kind, AllEntries, dict_of, list_of, element_kind, labelled, field_kind, Kinds, HasKind, Extends,
  EntryOf, IsObject, Typed, with_kind, Extends-refl, Extends-trans, with_kind-Extends,
  with_kind_new, alloc-Typed, update-Typed, find_key-AllEntries, set_key-AllEntries,
  append-AllItems,
}
use lwpb.Python.Decoder.{Context, become, set_item, append}

pub label-cases :
    (field : FieldRef)
    → ((is_repeated field.desc.label ≡ true) × (field_kind field ≡ list_of field))
      ⊎ ((is_repeated field.desc.label ≡ false) × (field_kind field ≡ element_kind field))
label-cases field = by_label field.desc.label field
  where
    by_label :
        (l : Label) (f : FieldRef)
        → ((is_repeated l ≡ true) × (labelled l f ≡ list_of f))
          ⊎ ((is_repeated l ≡ false) × (labelled l f ≡ element_kind f))
    by_label repeated f = inl (refl, refl)
    by_label optional f = inr (refl, refl)
    by_label required f = inr (refl, refl)

-- Fields of a message type with the same name are the same.
abbrev pub IsNamed : Schema → (FieldRef → List ℕ) → Type 0
IsNamed schema field_name =
    (i : ℕ) (f g : FieldRef)
    → IsKnown schema i f
    → IsKnown schema i g
    → field_name f ≡ field_name g
    → f ≡ g

module _ (schema : Schema) (field_name : FieldRef → List ℕ) where
  -- A step that sets no exception, and changes nothing on the stack.
  abbrev pub Step : Kinds → Context → Kinds → Context → Type 0
  Step kinds c kinds' c' =
      Typed schema field_name kinds' c'.heap
      × Extends kinds c.heap.next kinds' c'.heap.next
      × (c'.stack ≡ c.stack)
      × (c'.exception ≡ none)

  pub Step-trans :
      (k1 k2 k3 : Kinds) (c1 c2 c3 : Context)
      → Step k1 c1 k2 c2
      → Step k2 c2 k3 c3
      → Step k1 c1 k3 c3
  Step-trans k1 k2 k3 c1 c2 c3 (t2, e2, s2, x2) (t3, e3, s3, x3) =
      (t3, Extends-trans k1 k2 k3 c1.heap.next c2.heap.next c3.heap.next e2 e3, s3 ∙ s2, x3)

  pub allocate-Step :
      (kinds : Kinds) (c : Context) (k : Kind) (o : HeapObj)
      → Typed schema field_name kinds c.heap
      → c.exception ≡ none
      → IsObject schema field_name kinds c.heap.next k o
      → Step kinds c
          (with_kind schema field_name kinds c.heap.next k)
          (record c { heap = alloc o c.heap })
        × HasKind
            (with_kind schema field_name kinds c.heap.next k)
            (alloc o c.heap).next
            c.heap.next
            k
  unfolding alloc
  allocate-Step kinds c k o typed quiet is = (
    (
      alloc-Typed schema field_name kinds c.heap k o typed is,
      with_kind-Extends schema field_name kinds c.heap.next k,
      refl,
      quiet,
    ),
    with_kind_new schema field_name kinds c.heap.next k,
  )

  become-Step :
      (kinds : Kinds) (c : Context) (p : ℕ) (k : Kind) (o : HeapObj)
      → Typed schema field_name kinds c.heap
      → c.exception ≡ none
      → kinds p ≡ k
      → IsObject schema field_name kinds c.heap.next k o
      → Step kinds c kinds (become p (some o) c)
  unfolding update
  become-Step kinds c p k o typed quiet has is = (
    update-Typed schema field_name kinds c.heap p k o typed has is,
    Extends-refl kinds c.heap.next,
    refl,
    quiet,
  )

  -- What the heap has at an address, by its kind.
  object_at :
      (kinds : Kinds) (heap : Heap) (p : ℕ) (k : Kind)
      → Typed schema field_name kinds heap
      → HasKind kinds heap.next p k
      → IsObject schema field_name kinds heap.next k (heap.object p)
  object_at kinds heap p k typed (lt, has) = rw has at (typed p lt)

  pub set_item-Step :
      (kinds : Kinds) (c : Context) (top owner : ℕ) (field : FieldRef) (p : ℕ)
      → Typed schema field_name kinds c.heap
      → c.exception ≡ none
      → HasKind kinds c.heap.next top (dict_of owner)
      → IsKnown schema owner field
      → HasKind kinds c.heap.next p (field_kind field)
      → Step kinds c kinds (set_item top (field_name field) p c)
  set_item-Step kinds c top owner field p typed quiet dict_top known has =
      by_object (c.heap.object top) (object_at kinds c.heap top (dict_of owner) typed dict_top)
    where
      by_object :
          (o : HeapObj)
          → IsObject schema field_name kinds c.heap.next (dict_of owner) o
          → Step kinds c kinds (become top (with_item o (field_name field) p) c)
      by_object (dict entries) is =
          become-Step kinds c top (dict_of owner) (dict (set_key entries (field_name field) p))
            typed quiet dict_top.1
            (set_key-AllEntries (EntryOf schema field_name kinds c.heap.next owner) entries
              (field_name field) p is (field, known, refl, has))
      by_object _ is = absurd is

  pub append-Step :
      (kinds : Kinds) (c : Context) (xs : ℕ) (field : FieldRef) (p : ℕ)
      → Typed schema field_name kinds c.heap
      → c.exception ≡ none
      → HasKind kinds c.heap.next xs (list_of field)
      → HasKind kinds c.heap.next p (element_kind field)
      → Step kinds c kinds (append xs p c)
  append-Step kinds c xs field p typed quiet list_xs has =
      by_object (c.heap.object xs) (object_at kinds c.heap xs (list_of field) typed list_xs)
    where
      by_object :
          (o : HeapObj)
          → IsObject schema field_name kinds c.heap.next (list_of field) o
          → Step kinds c kinds (become xs (with_element o p) c)
      by_object (list elements) is =
          become-Step kinds c xs (list_of field) (list (elements ++ p ∷ [])) typed quiet list_xs.1 (
            append-AllItems (λ a. HasKind kinds c.heap.next a (element_kind field)) elements p is
              has)
      by_object _ is = absurd is

  module _ (named : IsNamed schema field_name) where
    -- What a dict has under a field's name is of the field's kind.
    pub item-cases :
        (kinds : Kinds) (heap : Heap) (top owner : ℕ) (field : FieldRef)
        → Typed schema field_name kinds heap
        → HasKind kinds heap.next top (dict_of owner)
        → IsKnown schema owner field
        → (item_of (heap.object top) (field_name field) ≡ none)
          ⊎ ((p : ℕ) × (item_of (heap.object top) (field_name field) ≡ some p)
              × HasKind kinds heap.next p (field_kind field))
    item-cases kinds heap top owner field typed dict_top known =
        by_object (heap.object top) (object_at kinds heap top (dict_of owner) typed dict_top)
      where
        by_found :
            (entries : List (List ℕ × ℕ)) (o : Option ℕ)
            → AllEntries (EntryOf schema field_name kinds heap.next owner) entries
            → find_key entries (field_name field) ≡ o
            → (o ≡ none) ⊎ ((p : ℕ) × (o ≡ some p) × HasKind kinds heap.next p (field_kind field))
        by_found entries none is found = inl refl
        by_found entries (some p) is found =
            let (g, g_known, same, has) =
              find_key-AllEntries (EntryOf schema field_name kinds heap.next owner) entries
                (field_name field) p is found in
            let e : g ≡ field = named owner g field g_known known same in inr (p, refl, rw e at has)

        by_object :
            (o : HeapObj)
            → IsObject schema field_name kinds heap.next (dict_of owner) o
            → (item_of o (field_name field) ≡ none)
              ⊎ ((p : ℕ) × (item_of o (field_name field) ≡ some p)
                  × HasKind kinds heap.next p (field_kind field))
        by_object (dict entries) is = by_found entries (find_key entries (field_name field)) is refl
        by_object _ is = absurd is
