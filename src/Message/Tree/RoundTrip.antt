-- ===== src/Message/Tree/RoundTrip.antt =====
-- Messages with messages inside them through both sides: the stack encoder of
-- src/lwpb/core/encoder.c, and `lwpb_decoder_decode` of src/lwpb/core/decoder.c on its bytes.
use lwpb.Common.{false, ℕ, ◌+◌, ◌-◌, ◌^◌, ◌≤◌, ◌<◌, ◌≡◌, arith, none, some, [], length}
use lwpb.Types.{err_ok, ret, Schema, WireValue}
use lwpb.Buf.{Memory, Buf, IsBuf, room, advance}
use lwpb.Encoder.Field.{in_message}
use lwpb.Decoder.{Handlers, notify, notify_end, decode}
use lwpb.Message.Tree.{Tree, tree_bytes, IsTree, IsShallow, tree_events}
use lwpb.Message.Tree.Decode.{decode-tree}
use lwpb.Message.Tree.Encode.{add_tree, add_tree_lem, needs, length-tree_bytes-le}

-- Take a message with messages inside it, at most 31 inside each other, each entry a value or a
-- message of a field that its message type has, outside packed mode, found by its descriptor under
-- its number below 2^29, with a value of its type whose bytes, if it has any, lie in an object of
-- their own, or with an inner message of fewer than 2^64 bytes. If a well-formed buffer has fewer
-- than 2^35 bytes left, and room for the bytes of all values and ten more for each message, then
-- adding the values with `lwpb_encoder_add_field` and the messages with `lwpb_encoder_nested_start`
-- and `lwpb_encoder_nested_end` succeeds, and `lwpb_decoder_decode` on the bytes written returns
-- LWPB_ERR_OK and their number, after it has called the handlers in the order of the entries: the
-- start of the root message, the field handler for each value with its own message type, for each
-- inner message the field handler with the root message type and no value, the start, the inner
-- entries and the end, and last the end of the root message.
pub decode-add_tree :
    {S : Type 0} (h : Handlers S) (root : ℕ) (schema : Schema) (m : Memory) (t : Tree) (b : Buf)
    (garbage : WireValue) (user : S)
    → IsTree schema root t
    → IsShallow 31 t
    → IsBuf m b
    → room b < 2 ^ 35
    → needs t ≤ room b
    → (m' : Memory) × (b' : Buf) × (add_tree schema m (in_message b none root []) t
        ≡ ret (err_ok, m', in_message b' none root []))
      × (decode h m' root schema b.pos (b'.pos - b.pos) garbage user
          ≡ ret (
            err_ok,
            notify_end h.msg_end false
                (some root)
                (tree_events h root (some root) b.pos t (notify h.msg_start (some root) user)),
            b'.pos - b.pos,
          ))
decode-add_tree h root schema m t b garbage user good shallow ok small fits =
    let (m', run, at, kept) =
      add_tree_lem schema t 31 root m b none [] (omega arith) good shallow ok small fits in
    let b' = advance b (length (tree_bytes t)) in
    let e : b'.pos - b.pos ≡ length (tree_bytes t) = unfold advance in omega arith in
    let short = length-tree_bytes-le t (omega arith) in
    let smaller : m'.size < 2 ^ 64 = rw kept.0 ok.small in
    let inner : b.pos + (b'.pos - b.pos) ≤ m'.size = omega (arith, kept.0, ok.end_le, ok.pos_le) in
    (
      m',
      b',
      run,
      decode-tree h m' root schema t b.pos (b'.pos - b.pos) garbage user good shallow inner smaller
          at e,
    )
