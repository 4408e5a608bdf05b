-- ===== src/Hir/LoopVar/Tests.antt =====
-- Concrete blocks. An expression is the list of its paths, each a list of segments.
use yarte.Base.{Bool, true, false, List, [], ◌∷◌, some, Str, codes, map, ◌||◌, ◌≡◌, refl}
use yarte.Parser.Result.{ok}
use yarte.Parser.Syntax.{S, Span, Node, Helper, Nodes, nil, cons}
use yarte.Hir.Rust.{path}
use yarte.Hir.Path.{ExprPath}
use yarte.Hir.LoopVar.{Reader, find_loop_var}
use yarte.Hir.LoopVar.Mentions.{
  AllNamed, none_left, next_named, named, HasNames, Readable, NodesReadable,
}
use yarte.Hir.LoopVar.Mentioned.{any, of_loop, of_inner, mentioned}
use yarte.Hir.LoopVar.Variables.{find_loop_var-mentioned}

-- Names with a first segment.
abbrev Segments : Type 0
Segments = Str × List Str

abbrev to_path : Segments → ExprPath
to_path (s, ss) = record {
  qself = false;
  attributes = false;
  leading_colon = false;
  segments = s ∷ ss;
}

abbrev at_zero : Span
at_zero = record { lo = 0; hi = 0 }

abbrev plain : Bool × Bool
plain = (false, false)

abbrev Block : Type 0
Block = Nodes (List Segments) (List Segments)

abbrev name : Str → S (List Segments)
name s = record { t = (s, []) ∷ []; span = at_zero }

abbrev expr : S (List Segments) → Block → Block
expr e ns = cons (Node.expr plain e) at_zero ns

-- `{{> p this}}`.
abbrev scoped : Block → Block
scoped ns =
    cons
      (Node.partial (record {
        ws = plain;
        path = record { t = codes "p"; span = at_zero };
        args = record { t = ((codes "this", []) ∷ []) ∷ []; span = at_zero };
      }))
      at_zero ns

abbrev reader : Reader (List Segments) (List Segments)
reader = record {
  kind = λ _. path;
  paths = map to_path;
  local_paths = map to_path;
  resolve_partial = λ _ s. s;
  ctx = λ _. some nil;
}

map-AllNamed : (ss : List Segments) → AllNamed (map to_path ss)
map-AllNamed [] = none_left
map-AllNamed (s ∷ ss) = next_named (named refl) (map-AllNamed ss)

reader-HasNames : HasNames reader
reader-HasNames = record { exprs = map-AllNamed; locals = map-AllNamed }

-- `{{# with x}}{{ super::index }}{{/with}}` in a loop.
abbrev in_with : Block
in_with =
    cons
      (Node.helper (
        Helper.with_scope plain plain (name (codes "x"))
          (expr (record { t = (codes "super", codes "index" ∷ []) ∷ []; span = at_zero }) nil)))
      at_zero nil

find_loop_var-mentioned_example :
    find_loop_var reader 0 [] in_with
    ≡ ok (
        any of_loop (mentioned reader 0 0 [] in_with)
        || any of_inner (mentioned reader 0 0 [] in_with))
unfolding Readable NodesReadable
find_loop_var-mentioned_example =
    find_loop_var-mentioned reader reader-HasNames 0 [] in_with ((tt, tt), tt)

-- It is a variable of the loop.
in_with-mentioned : any of_loop (mentioned reader 0 0 [] in_with) ≡ true
unfolding any of_loop mentioned yarte.Hir.LoopVar.Mentioned.counts
in_with-mentioned = refl

in_with-find : find_loop_var reader 0 [] in_with ≡ ok true
unfolding find_loop_var yarte.Hir.LoopVar.visit_paths yarte.Hir.Path.is_super
in_with-find = refl

-- `{{> p this}}{{ index }}`: the index is not found.
behind_partial-find :
    find_loop_var reader 1 [] (scoped (expr (name (codes "index")) nil)) ≡ ok false
unfolding find_loop_var yarte.Hir.LoopVar.find_partial
behind_partial-find = refl

-- `{{ index }}{{> p this}}`.
in_front-find : find_loop_var reader 1 [] (expr (name (codes "index")) (scoped nil)) ≡ ok true
unfolding find_loop_var yarte.Hir.LoopVar.visit_paths
in_front-find = refl
