-- ===== src/Struct/Store.antt =====
-- What `unpack_field` of src/lwpb/utils/struct_decoder.c stores for a value.
use mathlib.Core.Path.{fun_ext}
use lwpb.Common.{
  ℕ, zero, suc, ◌+◌, ◌-◌, ◌/◌, ◌%◌, ◌^◌, ◌≤◌, ◌<◌, ◌≡◌, refl, ap, arith, true, some, List, [], ◌∷◌,
  ◌++◌, length, length-append, take, leb-true,
}
use lwpb.Types.{
  ret, FieldType, double, float, int64, uint64, int32, fixed64, fixed32, bool, string, group,
  message, bytes, uint32, enum, sfixed32, sfixed64, sint32, sint64, Value, word32, word64, block,
  inside, outside, read_word32, read_word64, read_block,
}
use lwpb.Buf.{Memory, put, write_lem}
use lwpb.Varint.Spec.{varint, store, store-append, size-store, Holds, Holds-append}
use lwpb.Fixed.{four_bytes}
use lwpb.Fixed.Laws.{bytes32, bytes64, write_all_lem, mask_byte}
use lwpb.Wire.{encode_value}
use lwpb.Wire.RoundTrip.{IsValueOf}
use lwpb.Copy.{fetch, load, load-Holds, length-take}
use lwpb.Encoder.Field.{IsOutside, payload}
use lwpb.Decoder.Field.{delivered}
use lwpb.Struct.{MapField, store_number, store_bytes, store_string, store_value, smaller}

-- What the structure keeps of a block: bytes are cut to the size of the map, and a string is cut
-- so that a 0 fits behind it.
abbrev pub block_image : FieldType → ℕ → List ℕ → ℕ → List ℕ
block_image string len bs n = take (smaller len (n + 1) - 1) bs ++ 0 ∷ []
block_image _ len bs n = take (smaller len n) bs

-- The bytes of a value of a field of the given size in the structure.
abbrev pub field_image : FieldType → ℕ → Value → List ℕ
field_image typ len (word32 x) = bytes32 x
field_image typ len (word64 x) = bytes64 x
field_image typ len (block (outside bs) n) = block_image typ len bs n
field_image typ len (block (inside p) n) = []

-- The sizes that a map may give a field of a type other than a message.
abbrev pub IsSlot : FieldType → ℕ → Type 0
IsSlot double len = len ≡ 8
IsSlot float len = len ≡ 4
IsSlot int64 len = len ≡ 8
IsSlot uint64 len = len ≡ 8
IsSlot int32 len = len ≡ 4
IsSlot fixed64 len = len ≡ 8
IsSlot fixed32 len = len ≡ 4
IsSlot bool len = len ≡ 4
IsSlot string len = 1 ≤ len
IsSlot group len = ⊥
IsSlot message len = ⊥
IsSlot bytes len = Unit {0}
IsSlot uint32 len = len ≡ 4
IsSlot enum len = len ≡ 4
IsSlot sfixed32 len = len ≡ 4
IsSlot sfixed64 len = len ≡ 8
IsSlot sint32 len = len ≡ 4
IsSlot sint64 len = len ≡ 8

smaller-le : (a b : ℕ) → (smaller a b ≤ a) × (smaller a b ≤ b)
smaller-le a b = ground arith

Holds-take :
    (m : Memory) (p k n : ℕ) (bs : List ℕ) → k ≤ n → Holds m p (take n bs) → Holds m p (take k bs)
Holds-take m p zero n bs h at = tt
Holds-take m p (suc k) zero bs h at = absurd (omega arith)
Holds-take m p (suc k) (suc n) [] h at = tt
Holds-take m p (suc k) (suc n) (b ∷ bs) h at =
    (at.0, Holds-take m (p + 1) k n bs (omega arith) at.1)

-- The first bytes of a block that stands in memory.
load-take :
    (m : Memory) (p k n : ℕ) (bs : List ℕ)
    → k ≤ n
    → n ≤ length bs
    → Holds m p (take n bs)
    → load m p k ≡ take k bs
load-take m p k n bs h le at =
    let e = length-take k bs (omega arith) in
    let l = load-Holds m p (take k bs) (Holds-take m p k n bs h at) in rw e at l

load-last : (m : Memory) (p n : ℕ) → load m p (suc n) ≡ load m p n ++ m.byte (p + n) ∷ []
unfolding load
load-last m p zero = let e : p + 0 ≡ p = omega arith in rw e
load-last m p (suc n) =
    let e : p + suc n ≡ p + 1 + n = omega arith in
    rw e (ap (λ (l : List ℕ). m.byte p ∷ l) (load-last m (p + 1) n))

-- Only the second of two stores to one byte lasts.
put-put : (m : Memory) (p x y : ℕ) → put (put m p x) p y ≡ put m p y
unfolding put
put-put m p x y = ap (λ (f : ℕ → ℕ). record m { byte = f }) (fun_ext λ i. ground arith)

store-put_last :
    (t : Memory) (dest : ℕ) (bs : List ℕ) (x y : ℕ)
    → put (store t dest (bs ++ x ∷ [])) (dest + length bs) y ≡ store t dest (bs ++ y ∷ [])
unfolding store
store-put_last t dest bs x y =
    rw (store-append t dest bs (x ∷ []), store-append t dest bs (y ∷ []))
      (put-put (store t dest bs) (dest + length bs) x y)

module _ (input t : Memory) (f : MapField) (dest : ℕ) where
  store_word32 :
      (x : ℕ)
      → f.len ≡ 4
      → dest + 4 ≤ t.size
      → store_number input t f dest 4 (some (four_bytes x)) ≡ ret (store t dest (bytes32 x), true)
  unfolding store_number
  store_word32 x size fits =
      simp mask_byte
        (rw (size, leb-true dest t.size (omega arith), write_all_lem t dest (bytes32 x) fits))

  store_word64 :
      (x : ℕ)
      → f.len ≡ 8
      → dest + 8 ≤ t.size
      → store_number input t f dest 8 (some (four_bytes x ++ four_bytes (x / 2 ^ 32)))
        ≡ ret (store t dest (bytes64 x), true)
  unfolding store_number
  store_word64 x size fits =
      simp mask_byte
        (rw (size, leb-true dest t.size (omega arith), write_all_lem t dest (bytes64 x) fits))

  module _ (p : ℕ) (bs : List ℕ) (n : ℕ) (le : n ≤ length bs) (at : Holds input p (take n bs)) where
    store_block :
        p + n ≤ input.size
        → dest + smaller f.len n ≤ t.size
        → store_bytes input t f dest (some (inside p, n))
          ≡ ret (store t dest (take (smaller f.len n) bs), true)
    unfolding store_bytes fetch
    store_block inner fits =
        let k = smaller f.len n in
        let below = smaller-le f.len n in
        rw (
          leb-true (p + k) input.size (omega arith),
          load-take input p k n bs below.1 le at,
          leb-true dest t.size (omega arith),
          write_all_lem t dest (take k bs) (omega (arith, length-take k bs (omega arith))),
        )

    -- The byte behind the string is read as well, and a 0 replaces it.
    store_text :
        p + n < input.size
        → input.size < 2 ^ 64
        → 1 ≤ f.len
        → dest + smaller f.len (n + 1) ≤ t.size
        → store_string input t f dest (some (inside p, n))
          ≡ ret (store t dest (take (smaller f.len (n + 1) - 1) bs ++ 0 ∷ []), true)
    unfolding store_string fetch
    store_text inner small pos fits =
        let k = smaller f.len (n + 1) - 1 in
        let below = smaller-le f.len (n + 1) in
        let above : 1 ≤ smaller f.len (n + 1) = ground arith in
        let whole : smaller f.len (n + 1) ≡ suc k = omega arith in
        let back : suc k - 1 ≡ k = omega arith in
        let len : length (take k bs) ≡ k = length-take k bs (omega arith) in
        let xs = take k bs ++ input.byte (p + k) ∷ [] in
        let same : (n + 1) % 2 ^ 64 ≡ n + 1 = omega arith in
        let last : (suc k + 2 ^ 64 - 1) % 2 ^ 64 ≡ length (take k bs) = omega arith in
        let total : length xs ≡ k + 1 =
          omega (arith, length-append (take k bs) (input.byte (p + k) ∷ [])) in
        rw
          (
            same,
            whole,
            back,
            leb-true (p + suc k) input.size (omega arith),
            load-last input p k,
            load-take input p k n bs (omega arith) le at,
            leb-true dest t.size (omega arith),
            write_all_lem t dest xs (omega arith),
            last,
            write_lem (store t dest xs) (dest + length (take k bs)) 0
                (omega (arith, size-store t dest xs)),
            store-put_last t dest (take k bs) (input.byte (p + k)) 0,
          )
          refl

-- The case of `unpack_field` for the type of a field with any other type than message, on the value
-- that the decoder gives to the field handler.
module _ (input t : Memory) (f : MapField) (dest p : ℕ) (small : input.size < 2 ^ 64) where
  pub store_value_lem :
      (typ : FieldType) (v : Value)
      → IsValueOf typ v
      → IsOutside (encode_value typ v)
      → IsSlot typ f.len
      → Holds input p (payload (encode_value typ v))
      → p + length (payload (encode_value typ v)) < input.size
      → dest + length (field_image typ f.len v) ≤ t.size
      → store_value input typ t f dest (some (delivered p v))
        ≡ ret (store t dest (field_image typ f.len v), true)
  unfolding store_value encode_value read_word32 read_word64 read_block
  store_value_lem double (word64 x) val o size at inner fits =
      store_word64 input t f dest x size fits
  store_value_lem float (word32 x) val o size at inner fits =
      store_word32 input t f dest x size fits
  store_value_lem int64 (word64 x) val o size at inner fits =
      store_word64 input t f dest x size fits
  store_value_lem uint64 (word64 x) val o size at inner fits =
      store_word64 input t f dest x size fits
  store_value_lem int32 (word32 x) val o size at inner fits =
      store_word32 input t f dest x size fits
  store_value_lem fixed64 (word64 x) val o size at inner fits =
      store_word64 input t f dest x size fits
  store_value_lem fixed32 (word32 x) val o size at inner fits =
      store_word32 input t f dest x size fits
  store_value_lem bool (word32 x) val o size at inner fits = store_word32 input t f dest x size fits
  store_value_lem uint32 (word32 x) val o size at inner fits =
      store_word32 input t f dest x size fits
  store_value_lem enum (word32 x) val o size at inner fits = store_word32 input t f dest x size fits
  store_value_lem sfixed32 (word32 x) val o size at inner fits =
      store_word32 input t f dest x size fits
  store_value_lem sfixed64 (word64 x) val o size at inner fits =
      store_word64 input t f dest x size fits
  store_value_lem sint32 (word32 x) val o size at inner fits =
      store_word32 input t f dest x size fits
  store_value_lem sint64 (word64 x) val o size at inner fits =
      store_word64 input t f dest x size fits
  store_value_lem bytes (block (inside q) n) val o size at inner fits = absurd o
  store_value_lem bytes (block (outside bs) n) val o size at inner fits =
      let parts = Holds-append input p (varint n) (take n bs) at in
      let total = length-append (varint n) (take n bs) in
      let taken = length-take n bs o in
      let kept = length-take (smaller f.len n) bs (omega (arith, smaller-le f.len n)) in
      store_block input t f dest (p + length (varint n)) bs n o parts.1 (omega arith) (omega arith)
  store_value_lem string (block (inside q) n) val o size at inner fits = absurd o
  store_value_lem string (block (outside bs) n) val o size at inner fits =
      let parts = Holds-append input p (varint n) (take n bs) at in
      let total = length-append (varint n) (take n bs) in
      let taken = length-take n bs o in
      let k = smaller f.len (n + 1) in
      let above : 1 ≤ k = ground arith in
      let kept = length-take (k - 1) bs (omega (arith, smaller-le f.len (n + 1))) in
      let ended = length-append (take (k - 1) bs) (0 ∷ []) in
      store_text input t f dest (p + length (varint n)) bs n o parts.1 (omega arith) small size
        (omega arith)
  store_value_lem _ v val o size at inner fits = absurd val
