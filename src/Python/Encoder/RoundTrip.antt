-- ===== src/Python/Encoder/RoundTrip.antt =====
-- `Encoder_encode` (python/encoder.c) as a whole, and `lwpb_decoder_decode` on its string.
use lwpb.Common.{
  false, ℕ, zero, suc, ◌+◌, ◌^◌, ◌≤◌, ◌<◌, ◌≡◌, refl, arith, true, Bool, none, some, List, [], ◌∷◌,
  length, get_elem?, leb-false, leb-true,
}
use lwpb.Types.{err_ok, ret, Schema, WireValue}
use lwpb.Buf.{Memory}
use lwpb.Copy.{fetch, load-Holds}
use lwpb.Varint.Spec.{store, size-store, Holds-store}
use lwpb.Encoder2.{Encoder2, start2}
use lwpb.Encoder2.Field.{unpacked}
use lwpb.Decoder.{Handlers, notify, notify_end, decode}
use lwpb.Message.Tree.{Tree, tree_bytes, IsTree, IsShallow, tree_events}
use lwpb.Message.Tree.Encode.{length-tree_bytes-le}
use lwpb.Message.Tree.Decode.{decode-tree}
use lwpb.Python.{py_dict, Entries, Runtime}
use lwpb.Python.Encoder.{encoder_encode, zeros}
use lwpb.Python.Encoder.Dict.{DictOf, counted, needs-le-counted}
use lwpb.Python.Encoder.Count.{count_dict}
use lwpb.Python.Encoder.Write.{write_dict}

pub get_elem?-lt {ℓ} :
    {A : Type ℓ} (xs : List A) (i : ℕ) {a : A} → get_elem? xs i ≡ some a → i < length xs
get_elem?-lt [] i h = cc
get_elem?-lt (x ∷ xs) zero h = omega arith
get_elem?-lt (x ∷ xs) (suc i) h = omega (arith, get_elem?-lt xs i h)

known-message :
    (rt : Runtime) (schema : Schema) (field_name : ℕ → ℕ → List ℕ) (fuel msgnum : ℕ)
    (dict : Entries) (t : Tree)
    → DictOf rt schema field_name fuel msgnum (py_dict dict) t
    → msgnum < length schema
known-message rt schema field_name zero msgnum dict t h = absurd h
known-message rt schema field_name (suc fuel) msgnum dict t (fields, known, _) =
    get_elem?-lt schema msgnum known

-- Bytes.
pub encoder_encode-dict :
    (rt : Runtime) (schema : Schema) (field_name : ℕ → ℕ → List ℕ) (calloc : ℕ → Bool) (fuel : ℕ)
    (enc : Encoder2) (dict : Entries) (msgnum : ℕ) (t : Tree)
    → DictOf rt schema field_name fuel msgnum (py_dict dict) t
    → IsTree schema msgnum t
    → counted t < 2 ^ 35
    → calloc (counted t) ≡ true
    → encoder_encode rt schema field_name calloc fuel enc dict msgnum
      ≡ ret (some (tree_bytes t), none, unpacked)
unfolding encoder_encode start2 fetch
encoder_encode-dict rt schema field_name calloc fuel enc dict msgnum t of good small allocated =
    let n = length (tree_bytes t) in
    let enough = needs-le-counted t in
    let short = length-tree_bytes-le t (omega arith) in
    let (m', run, at, kept) =
      write_dict rt schema field_name none fuel msgnum (py_dict dict) t (zeros (counted t)) 0 of
        good (omega arith) (omega arith) in
    rw
      (
        leb-false (length schema) msgnum (known-message rt schema field_name fuel msgnum dict t of),
        count_dict rt schema field_name (zeros 0) none fuel msgnum (py_dict dict) t of good
            (omega arith),
        allocated,
        run,
        leb-true (0 + n) m'.size (omega (arith, kept.0)),
        load-Holds m' 0 (tree_bytes t) at,
      )
      refl

-- Let a Python dict stand for a message: each field that it has, outside packed mode, has one value
-- or a list of fewer than 2^32 values, each of which is converted without an exception or is, for a
-- field that is a message, such a dict. Let the message be as the decoder needs it (fields found by
-- their descriptors under numbers below 2^29, values of their types, at most 31 messages inside each
-- other), its counted length be below 2^35, and `calloc` succeed. Then `Encoder.encode` of the
-- Python bindings, which counts and then writes into what it has allocated, returns a string without
-- an exception, out of packed mode; and wherever a memory below 2^64 bytes has room and the string
-- is stored, `lwpb_decoder_decode` returns LWPB_ERR_OK and its length, after it has called the
-- handlers for just the entries of that message, in their order.
pub decode-encoder_encode :
    {S : Type 0} (h : Handlers S) (rt : Runtime) (schema : Schema) (field_name : ℕ → ℕ → List ℕ)
    (calloc : ℕ → Bool) (fuel : ℕ) (enc : Encoder2) (dict : Entries) (msgnum : ℕ) (t : Tree)
    (m : Memory) (p : ℕ) (garbage : WireValue) (user : S)
    → DictOf rt schema field_name fuel msgnum (py_dict dict) t
    → IsTree schema msgnum t
    → IsShallow 31 t
    → counted t < 2 ^ 35
    → calloc (counted t) ≡ true
    → p + length (tree_bytes t) ≤ m.size
    → m.size < 2 ^ 64
    → (string : List ℕ) × (encoder_encode rt schema field_name calloc fuel enc dict msgnum
        ≡ ret (some string, none, unpacked))
      × (decode h (store m p string) msgnum schema p (length string) garbage user
          ≡ ret (
            err_ok,
            notify_end h.msg_end false
                (some msgnum)
                (tree_events h msgnum (some msgnum) p t (notify h.msg_start (some msgnum) user)),
            length string,
          ))
decode-encoder_encode h rt schema field_name calloc fuel enc dict msgnum t m p garbage user of good
      shallow small allocated fits size =
    let bs = tree_bytes t in
    let kept = size-store m p bs in
    (
      bs,
      encoder_encode-dict rt schema field_name calloc fuel enc dict msgnum t of good small
          allocated,
      decode-tree h (store m p bs) msgnum schema t p (length bs) garbage user good shallow
          (omega (arith, kept)) (omega (arith, kept)) (Holds-store m p bs) refl,
    )
