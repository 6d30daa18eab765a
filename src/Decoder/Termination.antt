-- ===== src/Decoder/Termination.antt =====
-- `lwpb_decoder_decode` ends on every input: each turn takes a byte from the top frame or pops it,
-- and there are at most LWPB_MAX_DEPTH frames.
use lwpb.Common.{
  ℕ, zero, suc, ◌+◌, ◌-◌, ◌*◌, ◌^◌, ◌≤◌, ◌<◌, ◌≡◌, ◌≢◌, refl, ◌∙◌, arith, Bool, true, false, Option,
  none, some, List, [], ◌∷◌, ltb, leb, ◌==◌, length, ◌&&◌, inl, inr, ◌⊎◌, Bool-cases,
}
use lwpb.Types.{
  Err, err_ok, ret, fault, stuck, Schema, FieldRef, is_packed_repeated, inside, outside, WireValue,
  max_depth, wt_string,
}
use lwpb.Buf.{Memory, Buf, buf_init, buf_used, buf_left}
use lwpb.Ensures.{Ensures, Ensures-if, Ensures-bind, Ensures-assert, Ensures-option, Ensures-err}
use lwpb.Wire.{decode_value}
use lwpb.Decoder.{
  Handlers, Frame, State, Turn, go, finished, read_key, read_wire, block_buf, notify_end,
  call_field, enter, open_frame, dispatch, after_wire, field_turn, end_turn, turn, run, enough,
  decode,
}
use lwpb.Decoder.Reads.{Known, Moved, read_key-Moved, read_wire-Moved}
use native.Mathlib.Nat.{pow-suc, one-le-pow}

lift : (a b y : ℕ) → b < a → b * y + y ≤ a * y
lift a b y h = grind arith

-- A turn trades one of a frame's units for a whole new frame.
trade :
    (a b r w x rest : ℕ) → 1 ≤ x → r < w → b < a → r * x + (b * (x * w) + rest) < a * (x * w) + rest
trade a b r w x rest pos h k =
    let p = lift w r x h in
    let q = lift a b (x * w) k in let c : w * x ≡ x * w = grind arith in omega arith

module _ {S : Type 0} (h : Handlers S) (m : Memory) (root : ℕ) where
  -- What a frame at depth `d` can still cost.
  abbrev cost : ℕ → Frame → ℕ
  cost d f = (m.size + 1 - f.buf.pos) * (m.size + 2) ^ (max_depth - d)

  abbrev weight : List Frame → ℕ
  weight [] = 0
  weight (f ∷ fs) = cost (length fs + 1) f + weight fs

  abbrev InMemory : List Frame → Type 0
  InMemory [] = Unit {0}
  InMemory (f ∷ fs) = (f.buf.pos ≤ m.size) × InMemory fs

  abbrev IsStack : List Frame → Type 0
  IsStack fs = InMemory fs × (length fs ≤ max_depth)

  -- A turn that goes on leaves a good stack that weighs less.
  abbrev Lighter : ℕ → Turn S → Type 0
  Lighter w (go s) = IsStack s.stack × (weight s.stack < w)
  Lighter w (finished e u n) = Unit {0}

  enter-stack : (s : State S) → (enter h m root s).stack ≡ s.stack
  unfolding enter
  enter-stack s = parts s.stack
    where
      parts : (fs : List Frame) → (enter h m root (record s { stack = fs })).stack ≡ fs
      parts [] = refl
      parts (f ∷ fs) =
          unfold enter in elim (Bool-cases (buf_used f.buf == 0)) [ inl e ↦ rw e | inr e ↦ rw e ]

  Lighter-enter : (w : ℕ) (s : State S) → Lighter w (go s) → Lighter w (go (enter h m root s))
  Lighter-enter w s l = rw (enter-stack s) l

  block_buf-Ensures : (w : WireValue) → Ensures (λ (b : Buf). b.pos ≤ m.size) (block_buf m w)
  unfolding block_buf buf_init
  block_buf-Ensures w =
      elim w.ptr
        as (λ p.
          Ensures (λ (b : Buf). b.pos ≤ m.size)
            (elim p [ inside p ↦ buf_init m p w.word | outside bs ↦ fault ])) [
              | inside p ↦
                  Ensures-if (λ (b : Buf). b.pos ≤ m.size) (leb (p + w.word) m.size) _ _
                    (λ k. ground arith) (λ _. tt)
              | outside bs ↦ tt
            ]

  positive : (k : ℕ) → 1 ≤ (m.size + 2) ^ k
  positive k = one-le-pow k (m.size + 2) (omega arith)

  -- A new frame on top costs less than the byte that has been taken from the one below.
  push-lighter :
      (b c : Buf) (f : Frame) (msg msg' : Option ℕ) (fs : List Frame)
      → b.pos ≤ m.size
      → c.pos ≤ m.size
      → f.buf.pos < b.pos
      → length fs + 2 ≤ max_depth
      → weight (record { buf = c; msg_desc = msg' } ∷ record { buf = b; msg_desc = msg } ∷ fs)
        < weight (f ∷ fs)
  push-lighter b c f msg msg' fs hb hc forward deep =
      let x = (m.size + 2) ^ (max_depth - (length fs + 2)) in
      let e : max_depth - (length fs + 1) ≡ suc (max_depth - (length fs + 2)) = omega arith in
      let n : suc (length fs) + 1 ≡ length fs + 2 = omega arith in
      rw (n, e, pow-suc)
        (trade (m.size + 1 - f.buf.pos) (m.size + 1 - b.pos) (m.size + 1 - c.pos) (m.size + 2) x
          (weight fs) (positive (max_depth - (length fs + 2))) (omega arith) (omega arith))

  advance-lighter :
      (b : Buf) (f : Frame) (msg : Option ℕ) (fs : List Frame)
      → b.pos ≤ m.size
      → f.buf.pos < b.pos
      → weight (record { buf = b; msg_desc = msg } ∷ fs) < weight (f ∷ fs)
  advance-lighter b f msg fs hb forward =
      let y = (m.size + 2) ^ (max_depth - (length fs + 1)) in
      let p = positive (max_depth - (length fs + 1)) in
      let q = lift (m.size + 1 - f.buf.pos) (m.size + 1 - b.pos) y (omega arith) in omega arith

  pop-lighter : (f : Frame) (fs : List Frame) → f.buf.pos ≤ m.size → weight fs < weight (f ∷ fs)
  pop-lighter f fs k =
      let y = (m.size + 2) ^ (max_depth - (length fs + 1)) in
      let p = positive (max_depth - (length fs + 1)) in
      let q = lift (m.size + 1 - f.buf.pos) 0 y (omega arith) in omega arith

  open_frame-Lighter :
      (s : State S) (msg : Option ℕ) (packed : Bool) (b : Buf) (f : Frame) (msg' : Option ℕ)
      (fs : List Frame)
      → s.stack ≡ record { buf = b; msg_desc = msg' } ∷ fs
      → InMemory fs
      → b.pos ≤ m.size
      → f.buf.pos < b.pos
      → Ensures (Lighter (weight (f ∷ fs))) (open_frame h m root s msg packed)
  unfolding open_frame
  open_frame-Lighter s msg packed b f msg' fs at good hb forward = rw at (
      Ensures-assert (Lighter (weight (f ∷ fs))) (leb (suc (length fs) + 1) max_depth) _ (λ deep.
        Ensures-bind _ _ (block_buf m s.wire) _ (block_buf-Ensures s.wire) (λ c _ hc.
          Lighter-enter (weight (f ∷ fs)) _ (
            ((hc, (hb, good)), ground arith),
            push-lighter b c f msg' msg fs hb hc forward (ground arith),
          ))))

  module _ (b : Buf) (f : Frame) (msg : Option ℕ) (fs : List Frame) (good : IsStack (f ∷ fs))
      (hb : b.pos ≤ m.size) (forward : f.buf.pos < b.pos) where
    abbrev advanced : List Frame
    advanced = record { buf = b; msg_desc = msg } ∷ fs

    go-Lighter : (s : State S) → s.stack ≡ advanced → Lighter (weight (f ∷ fs)) (go s)
    go-Lighter s at = rw at (((hb, good.0.1), good.1), advance-lighter b f msg fs hb forward)

    dispatch-Lighter :
        (s : State S) (msg' : Option ℕ) (wire_type : ℕ) (field : FieldRef)
        → s.stack ≡ advanced
        → Ensures (Lighter (weight (f ∷ fs))) (dispatch h m root s msg' wire_type field)
    unfolding dispatch
    dispatch-Lighter s msg' wire_type field at =
        Ensures-if (Lighter (weight (f ∷ fs)))
          (wire_type == wt_string && is_packed_repeated field.desc) _ _
          (λ _. open_frame-Lighter s msg' true b f msg fs at good.0.1 hb forward)
          (λ _.
            Ensures-option (Lighter (weight (f ∷ fs))) (decode_value field.desc.typ s.wire) _ _
              (open_frame-Lighter
                (record s { user = call_field h.field (some root) field none s.user })
                field.desc.msg_desc s.packed b f msg fs at good.0.1 hb forward)
              (λ v.
                go-Lighter (record s { user = call_field h.field msg' field (some v) s.user }) at))

    after_wire-Lighter :
        (s : State S) (msg' : Option ℕ) (wire_type : ℕ)
        → s.stack ≡ advanced
        → Ensures (Lighter (weight (f ∷ fs))) (after_wire h m root s msg' wire_type)
    unfolding after_wire
    after_wire-Lighter s msg' wire_type at =
        Ensures-option (Lighter (weight (f ∷ fs))) s.field_desc _ _ (go-Lighter s at)
          (λ field. dispatch-Lighter s msg' wire_type field at)

  Moved-success :
      (b : Buf) (wt : ℕ) (e : Err) (b' : Buf)
      → e ≡ err_ok
      → Moved m b wt e b'
      → (b.pos ≤ b'.pos) × (b'.pos ≤ m.size) × (Known wt → b.pos < b'.pos)
  Moved-success b wt e b' ok h = rw ok at h

  -- Key and value together take a byte at least.
  further :
      (f k b : Buf) (wt : ℕ)
      → f.pos ≤ k.pos
      → Known wt ⊎ (f.pos < k.pos)
      → k.pos ≤ b.pos
      → (Known wt → k.pos < b.pos)
      → f.pos < b.pos
  further f k b wt le (inl known) le' strict = omega (arith, strict known)
  further f k b wt le (inr forward) le' strict = omega arith

  field_turn-Lighter :
      (schema : Schema) (s : State S) (f : Frame) (fs : List Frame)
      → IsStack (f ∷ fs)
      → Ensures (Lighter (weight (f ∷ fs))) (field_turn h m root schema s f fs)
  unfolding field_turn
  field_turn-Lighter schema s f fs good =
      Ensures-bind _ _ (read_key m schema f s.packed s.field_desc) _
        (read_key-Moved m schema f s.field_desc good.0.0 s.packed)
        (λ k _ moved.
          Ensures-err (Lighter (weight (f ∷ fs))) k.status _ (λ e. ret (finished e s.user 0))
            (λ ok.
              let at = moved ok in
              Ensures-bind _ _ (read_wire m k.buf k.wire_type s.wire) _
                (read_wire-Moved m k.buf s.wire k.wire_type at.1)
                (λ r _ there.
                  Ensures-err (Lighter (weight (f ∷ fs))) r.0 _ (λ e. ret (finished e s.user 0))
                    (λ e.
                      let far = Moved-success k.buf k.wire_type r.0 r.1 e there in
                      after_wire-Lighter r.1 f f.msg_desc fs good far.1
                        (further f.buf k.buf r.1 k.wire_type at.0 at.2 far.0 far.2)
                        (record s {
                          stack = record { buf = r.1; msg_desc = f.msg_desc } ∷ fs;
                          field_desc = k.field;
                          wire = r.2;
                        })
                        f.msg_desc k.wire_type refl)
                    (λ _. tt)))
            (λ _. tt))

  end_turn-Lighter :
      (s : State S) (f : Frame) (fs : List Frame)
      → IsStack (f ∷ fs)
      → Lighter (weight (f ∷ fs)) (end_turn h m root s f fs)
  unfolding end_turn
  end_turn-Lighter s f [] good = tt
  end_turn-Lighter s f (g ∷ fs) good =
      Lighter-enter (weight (f ∷ g ∷ fs))
        (record s {
          stack = g ∷ fs;
          packed = false;
          user = notify_end h.msg_end s.packed f.msg_desc s.user;
        })
        ((good.0.1, omega arith), pop-lighter f (g ∷ fs) good.0.0)

  turn-Lighter :
      (schema : Schema) (s : State S)
      → IsStack s.stack
      → Ensures (Lighter (weight s.stack)) (turn h m root schema s)
  turn-Lighter schema s good = parts s.stack good
    where
      parts :
          (fs : List Frame)
          → IsStack fs
          → Ensures (Lighter (weight fs)) (turn h m root schema (record s { stack = fs }))
      parts [] ok = unfold turn in tt
      parts (f ∷ fs) ok =
          unfold turn in
          Ensures-if (Lighter (weight (f ∷ fs))) (ltb 0 (buf_left f.buf)) _ _
            (λ _. field_turn-Lighter schema (record s { stack = f ∷ fs }) f fs ok)
            (λ _. end_turn-Lighter (record s { stack = f ∷ fs }) f fs ok)

  turns :
      (fuel : ℕ) (schema : Schema) (w : ℕ)
      → w < suc fuel
      → ((s : State S)
          → IsStack s.stack
          → weight s.stack < fuel
          → Ensures (λ _. Unit {0}) (run h m root fuel schema s))
      → (t : Turn S) → Lighter w t
      → Ensures
          (λ _. Unit {0})
          (elim t [ go s' ↦ run h m root fuel schema s' | finished e u n ↦ ret (e, u, n) ])
  turns fuel schema w light rest (go s) l = rest s l.0 (omega arith)
  turns fuel schema w light rest (finished e u n) l = tt

  run-Ensures :
      (fuel : ℕ) (schema : Schema) (s : State S)
      → IsStack s.stack
      → weight s.stack < fuel
      → Ensures (λ _. Unit {0}) (run h m root fuel schema s)
  unfolding run
  run-Ensures zero schema s good light = absurd (omega arith)
  run-Ensures (suc fuel) schema s good light =
      Ensures-bind _ _ (turn h m root schema s) _ (turn-Lighter schema s good) (λ t _ lighter.
        turns fuel schema (weight s.stack) light (run-Ensures fuel schema) t lighter)

  first-light : (p : ℕ) → (m.size + 1 - p) * (m.size + 2) ^ 31 + 0 < (m.size + 2) ^ max_depth
  first-light p =
      let y = (m.size + 2) ^ 31 in
      let q = lift (m.size + 2) (m.size + 1 - p) y (omega arith) in
      let c : (m.size + 2) ^ max_depth ≡ (m.size + 2) * y = pow-suc (m.size + 2) 31 ∙ grind arith in
      rw c (omega (arith, positive 31))

  decode-Ensures :
      (schema : Schema) (p len : ℕ) (garbage : WireValue) (user : S)
      → Ensures (λ _. Unit {0}) (decode h m root schema p len garbage user)
  unfolding decode block_buf
  decode-Ensures schema p len garbage user =
      Ensures-bind _ _ (buf_init m p len) _
        (block_buf-Ensures (record { word = len; ptr = inside p }))
        (λ b _ inner.
          let s : State S = record {
            stack = record { buf = b; msg_desc = some root } ∷ [];
            packed = false;
            field_desc = none;
            wire = garbage;
            user = user;
          } in
          let first =
            Lighter-enter (enough h m root) s (((inner, tt), omega arith), first-light b.pos) in
          run-Ensures (enough h m root) schema (enter h m root s) first.0 first.1)

  -- `lwpb_decoder_decode` ends on every memory, position, length, schema and set of handlers: the
  -- model never runs out of the fuel (size + 2)^32.
  pub decode_ends :
      (schema : Schema) (p len : ℕ) (garbage : WireValue) (user : S)
      → decode h m root schema p len garbage user ≢ stuck
  decode_ends schema p len garbage user = λ e. rw e at (decode-Ensures schema p len garbage user)
