-- ===== src/Python/Objects/Typed.antt =====
-- Heaps whose objects have kinds: a dict for a message type, a list for a field, or a value.
use lwpb.Common.{
  ℕ, suc, ◌≤◌, ◌<◌, ◌≡◌, refl, sym, ◌∙◌, arith, true, false, ◌==◌, ==_true, ==_false, Option, some,
  List, [], ◌∷◌, ◌++◌, Bool-cases, inl, inr, if◌then◌else◌,
}
use lwpb.Types.{
  FieldType, double, float, int64, uint64, int32, fixed64, fixed32, bool, string, message, bytes,
  uint32, enum, sfixed32, sfixed64, sint32, sint64, FieldRef, Label, repeated, Schema,
}
use lwpb.Decoder.Field.{IsKnown}
use lwpb.Python.{same_str}
use lwpb.Python.Objects.{
  HeapObj, number, real, truth, text, list, dict, Heap, alloc, update, find_key, set_key,
}

pub data Kind : Type 0 where
  dict_of : ℕ → Kind
  list_of : FieldRef → Kind
  value_of : FieldType → Kind

abbrev pub kind_at : FieldType → Option ℕ → Kind
kind_at message (some i) = dict_of i
kind_at t o = value_of t

-- The kind of an element of a field, and of what a dict has for it.
abbrev pub element_kind : FieldRef → Kind
element_kind field = kind_at field.desc.typ field.desc.msg_desc

abbrev pub labelled : Label → FieldRef → Kind
labelled repeated field = list_of field
labelled _ field = element_kind field

abbrev pub field_kind : FieldRef → Kind
field_kind field = labelled field.desc.label field

-- The object that a value of a type becomes.
abbrev pub IsScalar : FieldType → HeapObj → Type 0
IsScalar double (real x) = Unit {0}
IsScalar float (real x) = Unit {0}
IsScalar bool (truth b) = Unit {0}
IsScalar string (text s) = Unit {0}
IsScalar bytes (text s) = Unit {0}
IsScalar int64 (number n) = Unit {0}
IsScalar uint64 (number n) = Unit {0}
IsScalar int32 (number n) = Unit {0}
IsScalar fixed64 (number n) = Unit {0}
IsScalar fixed32 (number n) = Unit {0}
IsScalar uint32 (number n) = Unit {0}
IsScalar enum (number n) = Unit {0}
IsScalar sfixed32 (number n) = Unit {0}
IsScalar sfixed64 (number n) = Unit {0}
IsScalar sint32 (number n) = Unit {0}
IsScalar sint64 (number n) = Unit {0}
IsScalar _ _ = ⊥

-- All elements of a list, and all entries of a dict.
abbrev pub AllItems : (ℕ → Type 0) → List ℕ → Type 0
AllItems P [] = Unit {0}
AllItems P (a ∷ as') = P a × AllItems P as'

abbrev pub AllEntries : (List ℕ → ℕ → Type 0) → List (List ℕ × ℕ) → Type 0
AllEntries P [] = Unit {0}
AllEntries P ((k, a) ∷ rest) = P k a × AllEntries P rest

AllItems-map :
    (P Q : ℕ → Type 0) (xs : List ℕ) → ((a : ℕ) → P a → Q a) → AllItems P xs → AllItems Q xs
AllItems-map P Q [] f h = tt
AllItems-map P Q (a ∷ as') f (h, t) = (f a h, AllItems-map P Q as' f t)

AllEntries-map :
    (P Q : List ℕ → ℕ → Type 0) (es : List (List ℕ × ℕ))
    → ((k : List ℕ) (a : ℕ) → P k a → Q k a)
    → AllEntries P es
    → AllEntries Q es
AllEntries-map P Q [] f h = tt
AllEntries-map P Q ((k, a) ∷ rest) f (h, t) = (f k a h, AllEntries-map P Q rest f t)

pub append-AllItems :
    (P : ℕ → Type 0) (xs : List ℕ) (a : ℕ) → AllItems P xs → P a → AllItems P (xs ++ a ∷ [])
append-AllItems P [] a h p = (p, tt)
append-AllItems P (x ∷ xs) a (h, t) p = (h, append-AllItems P xs a t p)

same_str-≡ : (a b : List ℕ) → same_str a b ≡ true → a ≡ b
same_str-≡ [] [] h = refl
same_str-≡ [] (b ∷ bs) h = cc
same_str-≡ (a ∷ as') [] h = cc
same_str-≡ (a ∷ as') (b ∷ bs) h = elim (Bool-cases (a == b)) [
  | inl e ↦
      (let rest = same_str-≡ as' bs (rw e at h) in
        let first : a ≡ b = ground (arith, e) in rw (first, rest) refl)
  | inr e ↦ (let no : false ≡ true = rw e at h in cc)
]

pub find_key-AllEntries :
    (P : List ℕ → ℕ → Type 0) (es : List (List ℕ × ℕ)) (key : List ℕ) (v : ℕ)
    → AllEntries P es
    → find_key es key ≡ some v
    → P key v
unfolding find_key
find_key-AllEntries P [] key v h found = cc
find_key-AllEntries P ((k, a) ∷ rest) key v (h, t) found = elim (Bool-cases (same_str k key)) [
  | inl e ↦
      (let found' : some a ≡ some v = rw e at found in
        let here : a ≡ v = cc in rw (sym here, sym (same_str-≡ k key e)) h)
  | inr e ↦ find_key-AllEntries P rest key v t (rw e at found)
]

pub set_key-AllEntries :
    (P : List ℕ → ℕ → Type 0) (es : List (List ℕ × ℕ)) (key : List ℕ) (v : ℕ)
    → AllEntries P es
    → P key v
    → AllEntries P (set_key es key v)
unfolding set_key
set_key-AllEntries P [] key v h p = (p, tt)
set_key-AllEntries P ((k, a) ∷ rest) key v (h, t) p = elim (Bool-cases (same_str k key)) [
  | inl e ↦ rw e (rw (same_str-≡ k key e) p, t)
  | inr e ↦ rw e (h, set_key-AllEntries P rest key v t p)
]

abbrev pub Kinds : Type 0
Kinds = ℕ → Kind

abbrev pub HasKind : Kinds → ℕ → ℕ → Kind → Type 0
HasKind kinds next a k = (a < next) × (kinds a ≡ k)

-- All objects below `next'` that had a kind still have it.
abbrev pub Extends : Kinds → ℕ → Kinds → ℕ → Type 0
Extends kinds next kinds' next' = (next ≤ next') × ((a : ℕ) → a < next → kinds' a ≡ kinds a)

pub HasKind-Extends :
    (kinds kinds' : Kinds) (next next' a : ℕ) (k : Kind)
    → Extends kinds next kinds' next'
    → HasKind kinds next a k
    → HasKind kinds' next' a k
HasKind-Extends kinds kinds' next next' a k (le, same) (lt, has) = (omega arith, same a lt ∙ has)

pub Extends-refl : (kinds : Kinds) (next : ℕ) → Extends kinds next kinds next
Extends-refl kinds next = (omega arith, λ a lt. refl)

pub Extends-trans :
    (k1 k2 k3 : Kinds) (n1 n2 n3 : ℕ)
    → Extends k1 n1 k2 n2
    → Extends k2 n2 k3 n3
    → Extends k1 n1 k3 n3
Extends-trans k1 k2 k3 n1 n2 n3 (le, same) (le', same') =
    (omega arith, λ a lt. same' a (omega arith) ∙ same a lt)

module _ (schema : Schema) (field_name : FieldRef → List ℕ) where
  -- A dict for a message type has under each key what a field of that name takes.
  abbrev pub EntryOf : Kinds → ℕ → ℕ → List ℕ → ℕ → Type 0
  EntryOf kinds next owner key a =
      (field : FieldRef) × IsKnown schema owner field
      × (field_name field ≡ key)
      × HasKind kinds next a (field_kind field)

  abbrev pub IsObject : Kinds → ℕ → Kind → HeapObj → Type 0
  IsObject kinds next (dict_of i) (dict entries) = AllEntries (EntryOf kinds next i) entries
  IsObject kinds next (list_of field) (list xs) =
      AllItems (λ a. HasKind kinds next a (element_kind field)) xs
  IsObject kinds next (value_of t) o = IsScalar t o
  IsObject kinds next _ _ = ⊥

  abbrev pub Typed : Kinds → Heap → Type 0
  Typed kinds heap = (a : ℕ) → a < heap.next → IsObject kinds heap.next (kinds a) (heap.object a)

  IsObject-Extends :
      (kinds kinds' : Kinds) (next next' : ℕ) (k : Kind) (o : HeapObj)
      → Extends kinds next kinds' next'
      → IsObject kinds next k o
      → IsObject kinds' next' k o
  IsObject-Extends kinds kinds' next next' (dict_of i) (dict entries) e h =
      AllEntries-map (EntryOf kinds next i) (EntryOf kinds' next' i) entries
        (λ key a (field, known, same, has).
          (field, known, same, HasKind-Extends kinds kinds' next next' a (field_kind field) e has))
        h
  IsObject-Extends kinds kinds' next next' (list_of field) (list xs) e h =
      AllItems-map (λ a. HasKind kinds next a (element_kind field))
        (λ a. HasKind kinds' next' a (element_kind field)) xs
        (λ a has. HasKind-Extends kinds kinds' next next' a (element_kind field) e has) h
  IsObject-Extends kinds kinds' next next' (value_of t) o e h = h
  IsObject-Extends kinds kinds' next next' (dict_of i) _ e h = absurd h
  IsObject-Extends kinds kinds' next next' (list_of field) _ e h = absurd h

  -- A new object gets a kind.
  abbrev pub with_kind : Kinds → ℕ → Kind → Kinds
  with_kind kinds next k = λ a. if a == next then k else kinds a

  pub with_kind-Extends :
      (kinds : Kinds) (next : ℕ) (k : Kind) → Extends kinds next (with_kind kinds next k) (suc next)
  with_kind-Extends kinds next k =
      (omega arith, λ a lt. rw (==_false a next (λ e. omega (arith, e))) refl)

  pub with_kind_new :
      (kinds : Kinds) (next : ℕ) (k : Kind) → HasKind (with_kind kinds next k) (suc next) next k
  with_kind_new kinds next k = (omega arith, rw (==_true next next refl) refl)

  pub alloc-Typed :
      (kinds : Kinds) (heap : Heap) (k : Kind) (o : HeapObj)
      → Typed kinds heap
      → IsObject kinds heap.next k o
      → Typed (with_kind kinds heap.next k) (alloc o heap)
  unfolding alloc
  alloc-Typed kinds heap k o typed is a lt =
      let kinds' = with_kind kinds heap.next k in
      let next' = suc heap.next in
      let e = with_kind-Extends kinds heap.next k in
      elim (Bool-cases (a == heap.next)) [
        | inl h ↦ rw h (IsObject-Extends kinds kinds' heap.next next' k o e is)
        | inr h ↦
            (let below : a < heap.next = ground (arith, h, lt) in
              rw h (
                IsObject-Extends kinds kinds' heap.next next' (kinds a) (heap.object a) e
                  (typed a below)))
      ]

  pub update-Typed :
      (kinds : Kinds) (heap : Heap) (p : ℕ) (k : Kind) (o : HeapObj)
      → Typed kinds heap
      → kinds p ≡ k
      → IsObject kinds heap.next k o
      → Typed kinds (update p o heap)
  unfolding update
  update-Typed kinds heap p k o typed has is a lt = elim (Bool-cases (a == p)) [
    | inl h ↦ (let e : a ≡ p = ground (arith, h) in rw (h, e, has) is)
    | inr h ↦ rw h (typed a lt)
  ]
