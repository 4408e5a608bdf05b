-- ===== src/Dom/Tree/Merged/Whole.antt =====
-- A sink that holds a tree is taken out and serialized without a panic.
use yarte.Base.{
  ℕ, ◌≤◌, Bool, false, List, [], ◌∷◌, some, ◌⊎◌, inl, inr, ◌≡◌, refl, ap, ◌∙◌, Str, if◌then◌else◌,
  arith, Bool-cases,
}
use yarte.Parser.Result.{ok, ◌>>=◌}
use yarte.Dom.Names.{QualName}
use yarte.Dom.Serializer.{is_void}
use yarte.Dom.Serialize.{TreeElement, Trees, nil, cons, serialize}
use yarte.Dom.Serialize.Sound.Total.{ElementFits, NodesFit, serialize-ok}
use yarte.Dom.Sink.{ParseElement, document, node, text, mark, Sink, get, is_yarte_tag}
use yarte.Dom.Tree.{get_children, tree_of, from}
use yarte.Dom.Tree.Merged.{Builds, children_of, IsTree, Children-le, void-nil, get_children-Builds}

get-first :
    (id : ℕ) (e : ParseElement) (nodes : List (ℕ × ParseElement))
    → get ((id, e) ∷ nodes) id ≡ some e
get-first id e nodes = ground arith

module _ (sink : Sink) (rank : ℕ → ℕ) (built : IsTree sink rank) (f : ℕ)
    (bound : (id : ℕ) (e : ParseElement) → get sink.nodes id ≡ some e → rank id ≤ f) where
  below_first :
      (id : ℕ) (e : ParseElement)
      → get sink.nodes id ≡ some e
      → Builds (children_of e) (get_children f sink (children_of e))
  below_first id e h =
      get_children-Builds sink rank built f (children_of e)
        (Children-le sink rank (rank id) f (children_of e) (bound id e h) (built.lower id e h))

  node_tree-NodesFit :
      (name : QualName) (attrs : List (QualName × Str)) (cs : List ℕ) (ts : Trees)
      → (is_void name ≡ false) ⊎ (cs ≡ [])
      → (cs ≡ [] → ts ≡ nil)
      → NodesFit false ts
      → NodesFit false (if is_yarte_tag name then ts else cons (TreeElement.node name attrs ts) nil)
  unfolding NodesFit ElementFits
  node_tree-NodesFit name attrs cs ts v empty fits = elim (Bool-cases (is_yarte_tag name)) [
    | inl h ↦ rw h fits
    | inr h ↦ rw h ((void-nil name cs ts v empty, fits), tt)
  ]

  tree_of-NodesFit :
      (nodes : List (ℕ × ParseElement))
      → sink.nodes ≡ nodes
      → (ts : Trees) × (tree_of f sink nodes ≡ ok ts) × NodesFit false ts
  unfolding tree_of NodesFit ElementFits
  tree_of-NodesFit [] e = (nil, refl, tt)
  tree_of-NodesFit ((id, document children) ∷ nodes) e =
      let (ts, p, fits, _) =
        below_first id (document children)
          (ap (λ l. get l id) e ∙ get-first id (document children) nodes) in
      (
        cons TreeElement.doctype ts,
        ap (λ r. r >>= λ ts. ok (cons TreeElement.doctype ts)) p,
        (refl, fits),
      )
  tree_of-NodesFit ((id, node name attrs children parent) ∷ nodes) e =
      let first = ap (λ l. get l id) e ∙ get-first id (node name attrs children parent) nodes in
      let (ts, p, fits, empty) = below_first id (node name attrs children parent) first in
      (
        (if is_yarte_tag name then ts else cons (TreeElement.node name attrs ts) nil),
        ap
            (λ r. r >>= λ ts.
              ok (if is_yarte_tag name then ts else cons (TreeElement.node name attrs ts) nil))
            p,
        node_tree-NodesFit name attrs children ts
            (built.void id (node name attrs children parent) first) empty fits,
      )
  tree_of-NodesFit ((id, text s) ∷ nodes) e = (cons (TreeElement.text s) nil, refl, (refl, tt))
  tree_of-NodesFit ((id, mark s) ∷ nodes) e = (cons (TreeElement.mark s) nil, refl, (tt, tt))

  -- Let the nodes of the sink form a tree of height at most `f`, in which no element that has no
  -- content by its name has children. Then the tree is taken out with the fuel `f`, and its
  -- serialization ends with a text and does not panic.
  pub from-serialize :
      (wasm : Bool) → (out : Str) × ((from f sink >>= λ ts. serialize ts wasm) ≡ ok out)
  unfolding from
  from-serialize wasm =
      let (ts, p, fits) = tree_of-NodesFit sink.nodes refl in
      let (out, q) = serialize-ok ts wasm fits in
      (out, ap (λ r. r >>= λ ts. serialize ts wasm) p ∙ q)
