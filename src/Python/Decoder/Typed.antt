-- ===== src/Python/Decoder/Typed.antt =====
-- python/decoder.c on whole messages: the dict that `Decoder.decode` returns.
use lwpb.Common.{ℕ, ◌^◌, ◌<◌, ◌≡◌, ◌∙◌, none, some, List, ◌∷◌}
use lwpb.Types.{FieldRef, Schema, Run, ret}
use lwpb.Buf.{Memory}
use lwpb.Decoder.{Handlers}
use lwpb.Message.Tree.{Tree}
use lwpb.Python.Objects.Typed.{dict_of, Kinds, HasKind, HasKind-Extends, Typed}
use lwpb.Python.Decoder.{Context, field_handler, msg_end_handler}
use lwpb.Python.Decoder.Keep.{IsNamed, Step}

module _ (m : Memory) (from_float : ℕ → ℕ) (schema : Schema) (field_name : FieldRef → List ℕ)
    (named : IsNamed schema field_name) (size : m.size < 2 ^ 63) where
  -- A run of a handler that makes such a step.
  abbrev Steps : Kinds → Context → Run Context → Type 0
  Steps kinds c u =
      (c' : Context) × (u ≡ ret c') × (kinds' : Kinds) × Step schema field_name kinds c kinds' c'

  -- The top of the stack is a dict for the message type.
  record On (kinds : Kinds) (c : Context) (owner : ℕ) : Type 0 where
    pub top : ℕ
    pub below : List ℕ
    pub stacked : c.stack ≡ top ∷ below
    pub is_dict : HasKind kinds c.heap.next top (dict_of owner)
    pub typed : Typed schema field_name kinds c.heap
    pub quiet : c.exception ≡ none

  abbrev On-Step :
      (kinds kinds' : Kinds) (c c' : Context) (owner : ℕ)
      → On kinds c owner
      → Step schema field_name kinds c kinds' c'
      → On kinds' c' owner
  On-Step kinds kinds' c c' owner on (typed, ext, stack, quiet) = record {
    top = on.top;
    below = on.below;
    stacked = stack ∙ on.stacked;
    is_dict =
        HasKind-Extends kinds kinds' c.heap.next c'.heap.next on.top (dict_of owner) ext on.is_dict;
    typed = typed;
    quiet = quiet;
  }

  abbrev py_handlers : Handlers (Run Context)
  py_handlers = record {
    msg_start = some (λ msg u. u);
    msg_end = some (msg_end_handler m from_float field_name);
    field = some (field_handler m from_float field_name);
  }
