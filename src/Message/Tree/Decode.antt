-- ===== src/Message/Tree/Decode.antt =====
-- `lwpb_decoder_decode` (src/lwpb/core/decoder.c) on messages with messages inside them.
use lwpb.Common.{
  false, ℕ, zero, suc, ◌+◌, ◌-◌, ◌^◌, ◌≤◌, ◌<◌, ◌≡◌, refl, ap, sym, ◌∙◌, arith, Option, none, some,
  List, [], ◌∷◌, ◌++◌, length, length-append, leb-true,
}
use lwpb.Types.{err_ok, ret, Schema, FieldRef, message, Value, WireValue}
use lwpb.Buf.{
  Memory, Buf, IsBuf, room, buf_init, buf_used, buf_used_lem, advance, advance-advance,
  IsBuf-advance,
}
use lwpb.Varint.Spec.{varint, length-varint, Holds, Holds-append}
use lwpb.Wire.{encode_value}
use lwpb.Wire.RoundTrip.{IsValueOf}
use lwpb.Encoder.Field.{IsOutside}
use lwpb.Message.Decode.{bytes_of-positive, pow-le}
use lwpb.Encoder.{field_key}
use lwpb.Decoder.{Handlers, Frame, notify, notify_end, call_field, enter, run, decode}
use lwpb.Decoder.Field.{IsKnown, bytes_of, value_pos, delivered}
use lwpb.Message.Tree.Turns.{
  in_stack, inner_buf, node_turn, leaf_turn, pop_turn, run_go, finish_turn,
}
use lwpb.Message.Tree.{
  inner_pos, Tree, done, leaf, node, node_key, node_bytes, tree_bytes, IsTree, IsShallow,
  tree_events, turns, length-node_bytes,
}

module _ {S : Type 0} (h : Handlers S) (m : Memory) (root : ℕ) (schema : Schema) where
  -- So many turns take the decoder from one place in a message to another, with the user's state.
  abbrev Walked : ℕ → List Frame → Buf → Option FieldRef → WireValue → S → ℕ → Buf → S → Type 0
  Walked owner fs b fd w u n b' u' =
      (fd' : Option FieldRef) × (w' : WireValue) × ((k : ℕ)
        → run h m root (n + k) schema (in_stack h m root schema b owner fs fd w u)
          ≡ run h m root k schema (in_stack h m root schema b' owner fs fd' w' u'))

  -- One walk after another.
  both :
      (owner : ℕ) (fs : List Frame) (b b1 b2 b3 : Buf) (fd : Option FieldRef) (w : WireValue)
      (u u1 u2 u3 : S) (n n' total : ℕ) (first : Walked owner fs b fd w u n b1 u1)
      → Walked owner fs b1 first.0 first.1 u1 n' b2 u2
      → total ≡ n + n'
      → b2 ≡ b3
      → u2 ≡ u3
      → Walked owner fs b fd w u total b3 u3
  both owner fs b b1 b2 b3 fd w u u1 u2 u3 n n' total (fd1, w1, first) (fd2, w2, rest) sum moved
        same =
      (
        fd2,
        w2,
        λ k.
            let e : total + k ≡ n + (n' + k) = omega arith in
            rw (e, ← moved, ← same) (first (n' + k) ∙ rest k),
      )

  -- A value.
  leaf_walk :
      (owner : ℕ) (fs : List Frame) (b : Buf) (fd : Option FieldRef) (w : WireValue) (u : S)
      (field : FieldRef) (v : Value)
      → IsBuf m b
      → IsKnown schema owner field
      → IsValueOf field.desc.typ v
      → IsOutside (encode_value field.desc.typ v)
      → Holds m b.pos (bytes_of field v)
      → length (bytes_of field v) ≤ room b
      → Walked owner fs b fd w u 1
          (advance b (length (bytes_of field v)))
          (call_field h.field (some owner) field (some (delivered (value_pos b.pos field v) v)) u)
  leaf_walk owner fs b fd w u field v ok known val o at fits =
      let (w1, first) =
        leaf_turn h m root schema b owner fs fd w u ok field v known val o at fits in
      (
        some field,
        w1,
        λ k.
            let e : 1 + k ≡ suc k = omega arith in
            rw e (
              run_go h m root schema k (in_stack h m root schema b owner fs fd w u)
                (in_stack h m root schema (advance b (length (bytes_of field v))) owner fs
                  (some field) w1
                  (call_field h.field (some owner) field
                    (some (delivered (value_pos b.pos field v) v)) u))
                first),
      )

  -- An inner message, whose entries are walked.
  node_walk :
      (owner : ℕ) (fs : List Frame) (b : Buf) (fd : Option FieldRef) (w : WireValue) (u u2 : S)
      (field : FieldRef) (i n : ℕ) (bs : List ℕ)
      → IsBuf m b
      → IsKnown schema owner field
      → field.desc.typ ≡ message
      → field.desc.msg_desc ≡ some i
      → length bs < 2 ^ 64
      → length fs + 2 ≤ 32
      → Holds m b.pos (node_bytes field bs)
      → length (node_bytes field bs) ≤ room b
      → let q : ℕ = b.pos + length (node_key field) + length (varint (length bs)) in
        let b1 = advance b (length (node_bytes field bs)) in
        let u1 = notify h.msg_start (some i) (call_field h.field (some root) field none u) in
        ((w1 : WireValue)
          → Walked i
              (record { buf = b1; msg_desc = some owner } ∷ fs)
              (inner_buf h m root schema q (length bs))
              (some field)
              w1
              u1
              n
              (advance (inner_buf h m root schema q (length bs)) (length bs))
              u2)
        → Walked owner fs b fd w u (suc (n + 1)) b1 (notify_end h.msg_end false (some i) u2)
  node_walk owner fs b fd w u u2 field i n bs ok known typ desc small deep at fits walked =
      let q : ℕ = b.pos + length (node_key field) + length (varint (length bs)) in
      let whole = length-node_bytes field bs in
      let key = length-varint (field_key 2 field.desc.number) in
      let b1 = advance b (length (node_bytes field bs)) in
      let b2 = inner_buf h m root schema q (length bs) in
      let fs1 : List Frame = record { buf = b1; msg_desc = some owner } ∷ fs in
      let u1 = notify h.msg_start (some i) (call_field h.field (some root) field none u) in
      let ok1 = IsBuf-advance m b (length (node_bytes field bs)) ok (omega arith) in
      let ok3 : IsBuf m (advance b2 (length bs)) = unfold advance in omega (arith, ok1) in
      let (w1, first) =
        node_turn h m root schema b owner fs fd w u ok field i bs known typ desc small deep at
          fits in
      let (fd2, w2, inside_run) = walked w1 in
      let popped =
        pop_turn h m root schema (advance b2 (length bs)) i fs fd2 w2 u2 ok3 b1 owner
          (unfold advance in omega arith) ok1 (unfold advance in omega arith) in
      (
        fd2,
        w2,
        λ k.
            let e : suc (n + 1) + k ≡ suc (n + suc k) = omega arith in
            rw e (
              run_go h m root schema (n + suc k) (in_stack h m root schema b owner fs fd w u)
                (in_stack h m root schema b2 i fs1 (some field) w1 u1) first
              ∙ inside_run (suc k)
              ∙ run_go h m root schema k
                  (in_stack h m root schema (advance b2 (length bs)) i fs1 fd2 w2 u2)
                  (in_stack h m root schema b1 owner fs fd2 w2
                    (notify_end h.msg_end false (some i) u2))
                  popped),
      )

  -- All entries of a message in a frame.
  walk :
      (t : Tree) (d owner : ℕ) (b : Buf) (fs : List Frame) (fd : Option FieldRef) (w : WireValue)
      (u : S)
      → length fs + d < 32
      → IsTree schema owner t
      → IsShallow d t
      → IsBuf m b
      → Holds m b.pos (tree_bytes t)
      → length (tree_bytes t) ≤ room b
      → Walked owner fs b fd w u
          (turns t)
          (advance b (length (tree_bytes t)))
          (tree_events h root (some owner) b.pos t u)
  unfolding tree_bytes
  walk done d owner b fs fd w u deep good shallow ok at fits = (
    fd,
    w,
    λ k.
        let z : 0 + k ≡ k = omega arith in
        let z' : b.pos + 0 ≡ b.pos = omega arith in unfold advance in rw (z, z') refl,
  )
  walk (leaf field v rest) d owner b fs fd w u deep (known, val, o, good) shallow ok at fits =
      let bs = bytes_of field v in
      let total = length-append bs (tree_bytes rest) in
      let parts = Holds-append m b.pos bs (tree_bytes rest) at in
      let b1 = advance b (length bs) in
      let u1 =
        call_field h.field (some owner) field (some (delivered (value_pos b.pos field v) v)) u in
      let first = leaf_walk owner fs b fd w u field v ok known val o parts.0 (omega arith) in
      let next =
        walk rest d owner b1 fs first.0 first.1 u1 deep good shallow
          (IsBuf-advance m b (length bs) ok (omega arith)) (unfold advance in parts.1)
          (unfold advance in omega arith) in
      let moved =
        advance-advance b (length bs) (length (tree_bytes rest)) ∙ ap (advance b) (sym total) in
      both owner fs b b1 (advance b1 (length (tree_bytes rest)))
        (advance b (length (bs ++ tree_bytes rest))) fd w u u1
        (tree_events h root (some owner) b1.pos rest u1)
        (tree_events h root (some owner) (b.pos + length bs) rest u1) 1 (turns rest)
        (suc (turns rest)) first next (omega arith) moved (unfold advance in refl)
  walk (node field inner rest) zero owner b fs fd w u deep good shallow ok at fits = absurd shallow
  walk (node field inner rest) (suc d) owner b fs fd w u deep
        (known, typ, small, (i, desc, good), good') (shallow, shallow') ok at fits =
      let bs = tree_bytes inner in
      let nb = node_bytes field bs in
      let total = length-append nb (tree_bytes rest) in
      let parts = Holds-append m b.pos nb (tree_bytes rest) at in
      let q : ℕ = inner_pos b.pos field inner in
      let b1 = advance b (length nb) in
      let b2 = inner_buf h m root schema q (length bs) in
      let whole = length-node_bytes field bs in
      let ok1 = IsBuf-advance m b (length nb) ok (omega arith) in
      let ok2 : IsBuf m b2 = omega arith in
      let inner_at =
        (Holds-append m (b.pos + length (node_key field)) (varint (length bs)) bs
          (Holds-append m b.pos (node_key field) (varint (length bs) ++ bs) parts.0).1).1 in
      let u1 = notify h.msg_start (some i) (call_field h.field (some root) field none u) in
      let u2 = tree_events h root (some i) q inner u1 in
      let u3 = notify_end h.msg_end false (some i) u2 in
      let first =
        node_walk owner fs b fd w u u2 field i (turns inner) bs ok known typ desc small
          (omega arith) parts.0 (omega arith)
          (λ w1.
            walk inner d i b2 (record { buf = b1; msg_desc = some owner } ∷ fs) (some field) w1 u1
              (omega arith) good shallow ok2 inner_at (omega arith)) in
      let next =
        walk rest (suc d) owner b1 fs first.0 first.1 u3 deep good' shallow' ok1
          (unfold advance in parts.1) (unfold advance in omega arith) in
      let moved =
        advance-advance b (length nb) (length (tree_bytes rest)) ∙ ap (advance b) (sym total) in
      let same =
        ap
          (λ (o : Option ℕ). tree_events h root (some owner) (b.pos + length nb) rest (
            notify_end h.msg_end false o (
              tree_events h root o q inner
                (notify h.msg_start o (call_field h.field (some root) field none u)))))
          (sym desc) in
      both owner fs b b1 (advance b1 (length (tree_bytes rest)))
        (advance b (length (nb ++ tree_bytes rest))) fd w u u3
        (tree_events h root (some owner) b1.pos rest u3) _ (suc (turns inner + 1)) (turns rest)
        (suc (turns inner + suc (turns rest))) first next (omega arith) moved
        (unfold advance in same)

  -- Each turn reads a byte at least.
  turns-le : (t : Tree) → turns t ≤ length (tree_bytes t)
  unfolding tree_bytes
  turns-le done = omega arith
  turns-le (leaf field v rest) = omega (
    arith,
    length-append (bytes_of field v) (tree_bytes rest),
    bytes_of-positive field v,
    turns-le rest,
  )
  turns-le (node field inner rest) = omega (
    arith,
    length-append (node_bytes field (tree_bytes inner)) (tree_bytes rest),
    length-node_bytes field (tree_bytes inner),
    length-varint (field_key 2 field.desc.number),
    length-varint (length (tree_bytes inner)),
    turns-le inner,
    turns-le rest,
  )

  -- Take a message with messages inside it, at most 31 inside each other, each entry a value or a
  -- message of a field that its message type has, outside packed mode, found by its descriptor under
  -- its number below 2^29, with a value of its type whose bytes, if it has any, lie in an object of
  -- their own, or with an inner message of fewer than 2^64 bytes. On a memory below 2^64 bytes that
  -- holds exactly its encoding at the given position, `lwpb_decoder_decode` returns LWPB_ERR_OK and
  -- the length, after it has called the handlers in the order of the bytes: the start of the root
  -- message, the field handler for each value with its own message type, for each inner message the
  -- field handler with the root message type and no value, the start, the inner entries and the end,
  -- and last the end of the root message.
  pub decode-tree :
      (t : Tree) (p len : ℕ) (garbage : WireValue) (user : S)
      → IsTree schema root t
      → IsShallow 31 t
      → p + len ≤ m.size
      → m.size < 2 ^ 64
      → Holds m p (tree_bytes t)
      → len ≡ length (tree_bytes t)
      → decode h m root schema p len garbage user
        ≡ ret (
          err_ok,
          notify_end h.msg_end false
              (some root)
              (tree_events h root (some root) p t (notify h.msg_start (some root) user)),
          len,
        )
  unfolding decode buf_init enter
  decode-tree t p len garbage user good shallow inner small at same =
      let b : Buf = record { base = p; pos = p; end = p + len } in
      let ok : IsBuf m b = omega arith in
      let none_used : buf_used b ≡ 0 = buf_used_lem m b ok ∙ omega arith in
      let many : turns t < (m.size + 2) ^ 32 =
        omega (arith, turns-le t, pow-le 31 (m.size + 2) (omega arith)) in
      let (fd, w, walked) =
        walk t 31 root b [] none garbage (notify h.msg_start (some root) user) (omega arith) good
          shallow ok at (omega arith) in
      let left = (m.size + 2) ^ 32 - suc (turns t) in
      let e : (m.size + 2) ^ 32 ≡ turns t + suc left = omega arith in
      let user' = tree_events h root (some root) p t (notify h.msg_start (some root) user) in
      let n = length (tree_bytes t) in
      let ok' : IsBuf m (advance b n) = IsBuf-advance m b n ok (omega arith) in
      let empty : room (advance b n) ≡ 0 = unfold advance in omega arith in
      let read : (advance b n).pos - (advance b n).base ≡ len = unfold advance in omega arith in
      rw (leb-true (p + len) m.size inner, none_used, e)
        (walked (suc left)
          ∙ finish_turn h m root schema left (advance b n) fd w user' ok' empty
          ∙ ap (λ (c : ℕ). ret (err_ok, notify_end h.msg_end false (some root) user', c)) read)
