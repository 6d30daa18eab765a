-- ===== src/Message/Tree/Concat.antt =====
-- The entries of one message behind those of another.
use lwpb.Common.{ℕ, ◌+◌, ◌≡◌, refl, sym, arith, ◌++◌}
use lwpb.Types.{Schema}
use lwpb.Decoder.Field.{bytes_of}
use lwpb.Message.Tree.{Tree, done, leaf, node, node_bytes, tree_bytes, IsTree}
use lwpb.Message.Tree.Encode.{needs}
use mathlib.Core.List.{append_assoc}

abbrev pub concat : Tree → Tree → Tree
concat done u = u
concat (leaf field v rest) u = leaf field v (concat rest u)
concat (node field inner rest) u = node field inner (concat rest u)

pub tree_bytes-concat : (t u : Tree) → tree_bytes (concat t u) ≡ tree_bytes t ++ tree_bytes u
unfolding tree_bytes
tree_bytes-concat done u = refl
tree_bytes-concat (leaf field v rest) u =
    rw (tree_bytes-concat rest u)
      (sym (append_assoc (bytes_of field v) (tree_bytes rest) (tree_bytes u)))
tree_bytes-concat (node field inner rest) u =
    rw (tree_bytes-concat rest u)
      (sym (append_assoc (node_bytes field (tree_bytes inner)) (tree_bytes rest) (tree_bytes u)))

pub needs-concat : (t u : Tree) → needs (concat t u) ≡ needs t + needs u
needs-concat done u = omega arith
needs-concat (leaf field v rest) u = omega (arith, needs-concat rest u)
needs-concat (node field inner rest) u = omega (arith, needs-concat rest u)

pub IsTree-concat :
    (schema : Schema) (owner : ℕ) (t u : Tree)
    → IsTree schema owner (concat t u)
    → IsTree schema owner t × IsTree schema owner u
IsTree-concat schema owner done u good = (tt, good)
IsTree-concat schema owner (leaf field v rest) u (known, val, o, good) =
    let (l, r) = IsTree-concat schema owner rest u good in ((known, val, o, l), r)
IsTree-concat schema owner (node field inner rest) u (known, typ, small, inside, good) =
    let (l, r) = IsTree-concat schema owner rest u good in ((known, typ, small, inside, l), r)
