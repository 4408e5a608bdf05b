-- ===== src/Dom/Tree.antt =====
-- The tree that yarte_dom/src/serialize.rs takes out of the sink of yarte_dom/src/sink.rs.
pub mod Merged
mod Tests
use yarte.Base.{
  ℕ, zero, suc, Bool, true, false, ◌&&◌, List, [], ◌∷◌, ◌++◌, Option, none, some, ◌==◌,
  if◌then◌else◌, Str, codes, str_eq,
}
use yarte.Parser.Result.{Result, ok, panic, out_of_fuel, ◌>>=◌}
use yarte.Dom.Sink.{ParseElement, mark, node, text, document, Sink, get, is_yarte_tag}
use yarte.Dom.Names.{QualName, is_html}
use yarte.Dom.Serialize.{TreeElement, Trees, nil, cons}

-- `tree.push`.
abbrev pub tree_push : Trees → TreeElement → Trees
tree_push nil t = cons t nil
tree_push (cons u ts) t = cons u (tree_push ts t)

-- A text is appended to the last element where that is a text, and is a new element where not.
unfoldable pub push_text : Trees → Str → Trees
push_text nil s = cons (TreeElement.text s) nil
push_text (cons (TreeElement.text last) nil) s = cons (TreeElement.text (last ++ s)) nil
push_text (cons t nil) s = cons t (cons (TreeElement.text s) nil)
push_text (cons t (cons u ts)) s = cons t (push_text (cons u ts) s)

-- The body of the loop in `get_children`; `deeper` is the call for the children of a node.
unfoldable pub add_child : (List ℕ → Result Trees) → Trees → Option ParseElement → Result Trees
unfolding push_text
add_child deeper tree none = panic
add_child deeper tree (some (text s)) = ok (push_text tree s)
add_child deeper tree (some (node name attrs children _)) = do
  ts ← deeper children
  ok (tree_push tree (TreeElement.node name attrs ts))
add_child deeper tree (some (mark s)) = ok (tree_push tree (TreeElement.mark s))
add_child deeper tree (some (document _)) = panic

-- The loop of `get_children`.
unfoldable pub add_children : (List ℕ → Result Trees) → Sink → List ℕ → Trees → Result Trees
unfolding add_child
add_children deeper sink [] tree = ok tree
add_children deeper sink (c ∷ cs) tree =
    add_child deeper tree (get sink.nodes c) >>= add_children deeper sink cs

-- `get_children`, with one unit of fuel for each level of the tree.
unfoldable pub get_children : ℕ → Sink → List ℕ → Result Trees
unfolding add_children
get_children zero sink children = add_children (λ _. out_of_fuel) sink children nil
get_children (suc f) sink children = add_children (get_children f sink) sink children nil

-- `Tree::from`, on the nodes of the sink from the first on.
unfoldable pub tree_of : ℕ → Sink → List (ℕ × ParseElement) → Result Trees
unfolding get_children
tree_of f sink [] = ok nil
tree_of f sink ((_, document children) ∷ _) = do
  ts ← get_children f sink children
  ok (cons TreeElement.doctype ts)
tree_of f sink ((_, node name attrs children _) ∷ _) = do
  ts ← get_children f sink children
  ok (if is_yarte_tag name then ts else cons (TreeElement.node name attrs ts) nil)
tree_of f sink ((_, text s) ∷ _) = ok (cons (TreeElement.text s) nil)
tree_of f sink ((_, mark s) ∷ _) = ok (cons (TreeElement.mark s) nil)

unfoldable pub from : ℕ → Sink → Result Trees
unfolding tree_of
from f sink = tree_of f sink sink.nodes
