-- ===== src/Message/Tree/Encode.antt =====
-- Messages with messages inside them, written with the stack encoder of src/lwpb/core/encoder.c:
-- `lwpb_encoder_add_field` for a value; for a message `lwpb_encoder_nested_start`, its entries, and
-- `lwpb_encoder_nested_end`. The memory between a message's bytes and the end of the buffer is not
-- said to be kept: the encoder writes inner messages there first.
use lwpb.Common.{
  ℕ, zero, suc, ◌+◌, ◌^◌, ◌≤◌, ◌<◌, ◌≡◌, refl, ap, ◌∙◌, arith, false, Option, some, List, [], ◌∷◌,
  ◌++◌, length, length-append, inl,
}
use lwpb.Types.{Err, err_ok, Run, ret, ◌>>=◌, Schema, FieldRef, message, max_depth}
use lwpb.Buf.{Memory, Buf, IsBuf, room, advance, IsBuf-advance, IsBuf-resize}
use lwpb.Varint.Spec.{
  length-varint-le, Holds, Holds-store, append-Holds, store, store_outside, size-store,
}
use lwpb.Copy.{load-Holds}
use lwpb.Encoder.{Encoder, Frame, reserve, field_key, add_field, nested_start, nested_end}
use lwpb.Encoder.Field.{in_message, field_key-lt}
use lwpb.Encoder.Nested.{in_frame, closed, framed_bytes, nested_start_lem, nested_end_lem}
use lwpb.Message.{known-IsFieldOf, add_known_field}
use lwpb.Decoder.Field.{IsKnown, bytes_of}
use lwpb.Message.Tree.{
  Tree, done, leaf, node, node_bytes, tree_bytes, IsTree, IsShallow, length-node_bytes,
}

abbrev pub Result : Type 0
Result = Run (Err × Memory × Encoder)

-- The calls go on up to the first error.
abbrev pub on_ok : Result → (Memory → Encoder → Result) → Result
on_ok r next = r >>= λ (err, m, e). elim err [ err_ok ↦ next m e | other ↦ ret (other, m, e) ]

unfoldable pub add_tree : Schema → Memory → Encoder → Tree → Result
add_tree schema m e done = ret (err_ok, m, e)
add_tree schema m e (leaf field v rest) =
    on_ok (add_field schema m e field v) (λ m' e'. add_tree schema m' e' rest)
add_tree schema m e (node field inner rest) =
    on_ok (nested_start m e field >>= λ (err, e'). ret (err, m, e')) (λ m1 e1.
      on_ok (add_tree schema m1 e1 inner)
        (λ m2 e2. on_ok (nested_end schema m2 e2) (λ m3 e3. add_tree schema m3 e3 rest)))

-- Room that is enough: each message is first written ten bytes behind its place.
abbrev pub needs : Tree → ℕ
needs done = 0
needs (leaf field v rest) = length (bytes_of field v) + needs rest
needs (node field inner rest) = reserve + needs inner + needs rest

pub length-node_bytes-le :
    (field : FieldRef) (bs : List ℕ)
    → length bs < 2 ^ 35
    → length (node_bytes field bs) ≤ reserve + length bs
length-node_bytes-le field bs h =
    let lt = field_key-lt 2 field.desc.number (omega arith) in
    omega (
      arith,
      length-node_bytes field bs,
      length-varint-le (field_key 2 field.desc.number) (omega arith),
      length-varint-le (length bs) h,
    )

pub length-tree_bytes-le : (t : Tree) → needs t < 2 ^ 35 → length (tree_bytes t) ≤ needs t
unfolding tree_bytes
length-tree_bytes-le done h = omega arith
length-tree_bytes-le (leaf field v rest) h = omega (
  arith,
  length-append (bytes_of field v) (tree_bytes rest),
  length-tree_bytes-le rest (omega arith),
)
length-tree_bytes-le (node field inner rest) h =
    let below = length-tree_bytes-le inner (omega arith) in
    omega (
      arith,
      length-append (node_bytes field (tree_bytes inner)) (tree_bytes rest),
      length-node_bytes-le field (tree_bytes inner) (omega arith),
      length-tree_bytes-le rest (omega arith),
    )

-- What stands below `q` is the same in both memories.
abbrev pub Kept : Memory → Memory → ℕ → Type 0
Kept m m' q = (m'.size ≡ m.size) × ((p : ℕ) → p < q → m'.byte p ≡ m.byte p)

pub Kept-trans :
    (m1 m2 m3 : Memory) (q q' : ℕ) → q ≤ q' → Kept m1 m2 q → Kept m2 m3 q' → Kept m1 m3 q
Kept-trans m1 m2 m3 q q' le (s, f) (s', f') = (s' ∙ s, λ p h. f' p (omega arith) ∙ f p h)

pub Kept-store : (m : Memory) (q p : ℕ) (bs : List ℕ) → q ≤ p → Kept m (store m p bs) q
Kept-store m q p bs h = (size-store m p bs, λ r lt. store_outside m p bs r (inl (omega arith)))

Holds-Kept :
    (m m' : Memory) (p q : ℕ) (bs : List ℕ)
    → Kept m m' q
    → p + length bs ≤ q
    → Holds m p bs
    → Holds m' p bs
Holds-Kept m m' p q [] kept le at = tt
Holds-Kept m m' p q (b ∷ bs) kept le at =
    (kept.1 p (omega arith) ∙ at.0, Holds-Kept m m' (p + 1) q bs kept (omega arith) at.1)

-- Bytes that have been written, and more behind them.
pub Holds-Kept-append :
    (m m1 m' : Memory) (p : ℕ) (xs ys : List ℕ)
    → Holds m1 p xs
    → Kept m m1 p
    → Holds m' (p + length xs) ys
    → Kept m1 m' (p + length xs)
    → Holds m' p (xs ++ ys) × Kept m m' p
Holds-Kept-append m m1 m' p xs ys at kept at' kept' = (
  append-Holds m' p xs ys (Holds-Kept m1 m' p (p + length xs) xs kept' (omega arith) at) at',
  Kept-trans m m1 m' p (p + length xs) (omega arith) kept kept',
)

module _ (schema : Schema) where
  -- The encoder has written the entries, and nothing in front of them has changed.
  abbrev pub Written : Memory → Buf → Option FieldRef → ℕ → List Frame → Tree → Type 0
  Written m b fd owner fs t =
      (m' : Memory) × (add_tree schema m (in_message b fd owner fs) t
        ≡ ret (err_ok, m', in_message (advance b (length (tree_bytes t))) fd owner fs))
      × Holds m' b.pos (tree_bytes t)
      × Kept m m' b.pos

  -- Bytes at the position, and the entries behind them.
  then_rest :
      (m m1 : Memory) (b : Buf) (fd : Option FieldRef) (owner : ℕ) (fs : List Frame) (bs : List ℕ)
      (rest : Tree)
      → Holds m1 b.pos bs
      → Kept m m1 b.pos
      → Written m1 (advance b (length bs)) fd owner fs rest
      → (m' : Memory) × (add_tree schema m1 (in_message (advance b (length bs)) fd owner fs) rest
          ≡ ret (err_ok, m', in_message (advance b (length (bs ++ tree_bytes rest))) fd owner fs))
        × Holds m' b.pos (bs ++ tree_bytes rest)
        × Kept m m' b.pos
  unfolding advance
  then_rest m m1 b fd owner fs bs rest at kept (m', run, at', kept') =
      let both = Holds-Kept-append m m1 m' b.pos bs (tree_bytes rest) at kept at' kept' in
      let moved : b.pos + length bs + length (tree_bytes rest)
          ≡ b.pos + length (bs ++ tree_bytes rest) =
        omega (arith, length-append bs (tree_bytes rest)) in
      (
        m',
        run ∙ ap (λ (p : ℕ). ret (err_ok, m', in_message (record b { pos = p }) fd owner fs)) moved,
        both.0,
        both.1,
      )

  -- The frame of an inner message at its start.
  abbrev start_buf : Buf → Buf
  start_buf b = record { base = b.pos + reserve; pos = b.pos + reserve; end = b.end }

  start_lem :
      (m : Memory) (b : Buf) (fd : Option FieldRef) (owner i : ℕ) (fs : List Frame)
      (field : FieldRef)
      → IsBuf m b
      → length fs + 2 ≤ max_depth
      → field.desc.typ ≡ message
      → field.desc.msg_desc ≡ some i
      → reserve ≤ room b
      → nested_start m (in_message b fd owner fs) field
        ≡ ret (
          err_ok,
          in_message
              (start_buf b)
              (some field)
              i
              (record { buf = some b; field_desc = fd; msg_desc = some owner } ∷ fs),
        )
  start_lem m b fd owner i fs field ok shallow typ desc fits =
      let z : b.pos + reserve + 0 ≡ b.pos + reserve = omega arith in
      nested_start_lem m b field fd owner fs ok shallow (rw typ refl) fits
      ∙ ap (λ (o : Option ℕ). ret (err_ok, in_frame b 0 field o fd owner fs false)) desc
      ∙ rw z

  -- The end of an inner message whose bytes are `bs`.
  end_lem :
      (m : Memory) (b : Buf) (fd : Option FieldRef) (owner i : ℕ) (fs : List Frame)
      (field : FieldRef) (bs : List ℕ)
      → IsKnown schema owner field
      → IsBuf m b
      → field.desc.typ ≡ message
      → length bs < 2 ^ 35
      → reserve + length bs ≤ room b
      → Holds m (b.pos + reserve) bs
      → nested_end schema m (
          in_message
            (advance (start_buf b) (length bs))
            (some field)
            i
            (record { buf = some b; field_desc = fd; msg_desc = some owner } ∷ fs))
        ≡ ret (
          err_ok,
          store m b.pos (node_bytes field bs),
          in_message (advance b (length (node_bytes field bs))) fd owner fs,
        )
  unfolding closed framed_bytes advance
  end_lem m b fd owner i fs field bs known ok typ small fits at =
      let result =
        nested_end_lem schema m b (length bs) field (some i) fd owner fs
          (known-IsFieldOf schema owner field known) ok small (rw typ refl) fits in
      let result' = rw (load-Holds m (b.pos + reserve) bs at) at result in result'

  pub add_tree_lem :
      (t : Tree) (d owner : ℕ) (m : Memory) (b : Buf) (fd : Option FieldRef) (fs : List Frame)
      → length fs + d < 32
      → IsTree schema owner t
      → IsShallow d t
      → IsBuf m b
      → room b < 2 ^ 35
      → needs t ≤ room b
      → Written m b fd owner fs t
  unfolding add_tree tree_bytes
  add_tree_lem done d owner m b fd fs deep good shallow ok small fits = (
    m,
    unfold advance in (let e : b.pos + 0 ≡ b.pos = omega arith in rw e refl),
    tt,
    (refl, λ p h. refl),
  )
  add_tree_lem (leaf field v rest) d owner m b fd fs deep (known, val, o, good) shallow ok small
        fits =
      let bs = bytes_of field v in
      let m1 = store m b.pos bs in
      let b1 = advance b (length bs) in
      let ok1 =
        IsBuf-resize m m1 b1 (size-store m b.pos bs)
          (IsBuf-advance m b (length bs) ok (omega arith)) in
      let (m', run, at, kept) =
        then_rest m m1 b fd owner fs bs rest (Holds-store m b.pos bs)
          (Kept-store m b.pos b.pos bs (omega arith))
          (add_tree_lem rest d owner m1 b1 fd fs deep good shallow ok1
            (unfold advance in omega arith) (unfold advance in omega arith)) in
      (
        m',
        rw (add_known_field schema owner fd fs field v m b known val o ok (omega arith)) run,
        at,
        kept,
      )
  add_tree_lem (node field inner rest) zero owner m b fd fs deep good shallow ok small fits =
      absurd shallow
  add_tree_lem (node field inner rest) (suc d) owner m b fd fs deep
        (known, typ, _, (i, desc, good), good') (shallow, shallow') ok small fits =
      let bs = tree_bytes inner in
      let nb = node_bytes field bs in
      let fs1 : List Frame = record { buf = some b; field_desc = fd; msg_desc = some owner } ∷ fs in
      let short = length-tree_bytes-le inner (omega arith) in
      let whole = length-node_bytes-le field bs (omega arith) in
      let (m2, inside_run, at, kept) =
        add_tree_lem inner d i m (start_buf b) (some field) fs1 (omega arith) good shallow
          (omega arith) (omega arith) (omega arith) in
      let m3 = store m2 b.pos nb in
      let b1 = advance b (length nb) in
      let ok2 = IsBuf-resize m m2 b kept.0 ok in
      let ok3 =
        IsBuf-resize m2 m3 b1 (size-store m2 b.pos nb)
          (IsBuf-advance m2 b (length nb) ok2 (omega arith)) in
      let kept2 : Kept m m2 b.pos = (kept.0, λ p h. kept.1 p (omega arith)) in
      let kept3 =
        Kept-trans m m2 m3 b.pos b.pos (omega arith) kept2
          (Kept-store m2 b.pos b.pos nb (omega arith)) in
      let (m', run, at', kept') =
        then_rest m m3 b fd owner fs nb rest (Holds-store m2 b.pos nb) kept3 (
          add_tree_lem rest (suc d) owner m3 b1 fd fs deep good' shallow' ok3
            (unfold advance in omega arith) (unfold advance in omega arith)) in
      (
        m',
        rw
            (
              start_lem m b fd owner i fs field ok (omega arith) typ desc (omega arith),
              inside_run,
              end_lem m2 b fd owner i fs field bs known ok2 typ (omega arith) (omega arith) at,
            )
            run,
        at',
        kept',
      )
