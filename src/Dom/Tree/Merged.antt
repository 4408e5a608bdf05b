-- ===== src/Dom/Tree/Merged.antt =====
-- The tree taken out of a sink is one that the serializer takes.
pub mod Whole
use yarte.Base.{
  ℕ, zero, suc, ◌≤◌, Bool, true, false, List, [], ◌∷◌, ◌++◌, Option, none, some, ◌⊎◌, inl, inr, ◌≡◌,
  refl, sym, ap, ◌∙◌, Str, codes, if◌then◌else◌, arith, Bool-cases, ◌==◌,
}
use yarte.Parser.Result.{Result, ok, panic, out_of_fuel, ◌>>=◌}
use yarte.Dom.Names.{QualName}
use yarte.Dom.Serializer.{is_void}
use yarte.Dom.Serialize.{TreeElement, Trees, nil, cons, serialize}
use yarte.Dom.Serialize.Sound.Total.{leaves, ElementFits, NodesFit, serialize-ok}
use yarte.Dom.Sink.{ParseElement, document, node, text, mark, Sink, get, is_yarte_tag}
use yarte.Dom.Tree.{tree_push, push_text, add_child, add_children, get_children, tree_of, from}

-- An element that may be the child of another.
abbrev pub IsChild : Option ParseElement → Type 0
IsChild none = ⊥
IsChild (some (document _)) = ⊥
IsChild (some _) = Unit

-- The children are in the sink and stand below `n`.
abbrev pub Children : Sink → (ℕ → ℕ) → ℕ → List ℕ → Type 0
Children sink rank n [] = Unit
Children sink rank n (c ∷ cs) =
    (suc (rank c) ≤ n) × IsChild (get sink.nodes c) × Children sink rank n cs

abbrev pub children_of : ParseElement → List ℕ
children_of (node _ _ children _) = children
children_of (document children) = children
children_of _ = []

abbrev pub VoidIsEmpty : ParseElement → Type 0
VoidIsEmpty (node name _ children _) = (is_void name ≡ false) ⊎ (children ≡ [])
VoidIsEmpty _ = Unit

-- The sink holds a tree: children are in it, are no documents and stand below their parents. The
-- elements without content by their names have no children.
pub record IsTree (sink : Sink) (rank : ℕ → ℕ) : Type 0 where
  pub lower :
      (id : ℕ) (e : ParseElement)
      → get sink.nodes id ≡ some e
      → Children sink rank (rank id) (children_of e)
  pub void : (id : ℕ) (e : ParseElement) → get sink.nodes id ≡ some e → VoidIsEmpty e

pub Children-le :
    (sink : Sink) (rank : ℕ → ℕ) (m n : ℕ) (cs : List ℕ)
    → m ≤ n
    → Children sink rank m cs
    → Children sink rank n cs
Children-le sink rank m n [] h k = tt
Children-le sink rank m n (c ∷ cs) h (a, b, k) = (omega arith, b, Children-le sink rank m n cs h k)

-- An element that fits anywhere fits behind the others.
tree_push-NodesFit :
    (ts : Trees) (t : TreeElement) (waits : Bool)
    → ((w : Bool) → ElementFits w t)
    → NodesFit waits ts
    → NodesFit waits (tree_push ts t)
unfolding NodesFit
tree_push-NodesFit nil t waits fit h = (fit waits, tt)
tree_push-NodesFit (cons u ts) t waits fit (a, h) =
    (a, tree_push-NodesFit ts t (leaves waits u) fit h)

push_text-cons :
    (ts : Trees) (t : TreeElement) (s : Str) (waits : Bool)
    → NodesFit waits (cons t ts)
    → NodesFit waits (push_text (cons t ts) s)
unfolding NodesFit ElementFits push_text
push_text-cons nil (TreeElement.text _) s waits h = h
push_text-cons nil (TreeElement.node _ _ _) s waits (h, _) = (h, (refl, tt))
push_text-cons nil TreeElement.doctype s waits (h, _) = (h, (h, tt))
push_text-cons nil (TreeElement.mark _) s waits (h, _) = (h, (refl, tt))
push_text-cons (cons u ts) t s waits (a, h) = (a, push_text-cons ts u s (leaves waits t) h)

push_text-NodesFit : (ts : Trees) (s : Str) → NodesFit false ts → NodesFit false (push_text ts s)
unfolding NodesFit ElementFits push_text
push_text-NodesFit nil s h = (refl, tt)
push_text-NodesFit (cons t ts) s h = push_text-cons ts t s false h

-- A run that builds a tree, empty where there are no children.
abbrev pub Builds : List ℕ → Result Trees → Type 0
Builds cs r = (ts : Trees) × (r ≡ ok ts) × NodesFit false ts × (cs ≡ [] → ts ≡ nil)

pub void-nil :
    (name : QualName) (cs : List ℕ) (ts : Trees)
    → (is_void name ≡ false) ⊎ (cs ≡ [])
    → (cs ≡ [] → ts ≡ nil)
    → (is_void name ≡ false) ⊎ (ts ≡ nil)
void-nil name cs ts (inl h) k = inl h
void-nil name cs ts (inr h) k = inr (k h)

module _ (sink : Sink) (rank : ℕ → ℕ) (built : IsTree sink rank) where
  module _ (n : ℕ) (deeper : List ℕ → Result Trees)
      (below : (m : ℕ) (cs : List ℕ)
        → suc m ≤ n
        → Children sink rank m cs
        → Builds cs (deeper cs)) where
    add_child-Builds :
        (c : ℕ) (tree : Trees) (o : Option ParseElement)
        → get sink.nodes c ≡ o
        → suc (rank c) ≤ n
        → IsChild o
        → NodesFit false tree
        → (ts : Trees) × (add_child deeper tree o ≡ ok ts) × NodesFit false ts
    unfolding add_child ElementFits
    add_child-Builds c tree none e r k h = absurd k
    add_child-Builds c tree (some (text s)) e r k h =
        (push_text tree s, refl, push_text-NodesFit tree s h)
    add_child-Builds c tree (some (node name attrs children p)) e r k h =
        let (ts, q, fits, empty) =
          below (rank c) children r (built.lower c (node name attrs children p) e) in
        (
          tree_push tree (TreeElement.node name attrs ts),
          ap (λ x. x >>= λ ts. ok (tree_push tree (TreeElement.node name attrs ts))) q,
          tree_push-NodesFit tree (TreeElement.node name attrs ts) false
              (λ w. (
                void-nil name children ts (built.void c (node name attrs children p) e) empty,
                fits,
              ))
              h,
        )
    add_child-Builds c tree (some (mark s)) e r k h = (
      tree_push tree (TreeElement.mark s),
      refl,
      tree_push-NodesFit tree (TreeElement.mark s) false (λ w. tt) h,
    )
    add_child-Builds c tree (some (document cs)) e r k h = absurd k

    add_children-Builds :
        (cs : List ℕ) (tree : Trees)
        → Children sink rank n cs
        → NodesFit false tree
        → (ts : Trees) × (add_children deeper sink cs tree ≡ ok ts) × NodesFit false ts
    unfolding add_children
    add_children-Builds [] tree k h = (tree, refl, h)
    add_children-Builds (c ∷ cs) tree (r, is, k) h =
        let (t1, p1, h1) = add_child-Builds c tree (get sink.nodes c) refl r is h in
        let (t2, p2, h2) = add_children-Builds cs t1 k h1 in
        (t2, ap (λ x. x >>= add_children deeper sink cs) p1 ∙ p2, h2)

    all-Builds :
        (cs : List ℕ) → Children sink rank n cs → Builds cs (add_children deeper sink cs nil)
    unfolding add_children NodesFit
    all-Builds [] k = (nil, refl, tt, λ _. refl)
    all-Builds (c ∷ cs) k =
        let (ts, p, h) = add_children-Builds (c ∷ cs) nil k tt in (ts, p, h, λ e. cc)

  pub get_children-Builds :
      (f : ℕ) (cs : List ℕ) → Children sink rank f cs → Builds cs (get_children f sink cs)
  unfolding get_children
  get_children-Builds zero cs k =
      all-Builds 0 (λ _. out_of_fuel) (λ m cs h. absurd (omega arith)) cs k
  get_children-Builds (suc f) cs k =
      all-Builds (suc f) (get_children f sink)
        (λ m cs h k. get_children-Builds f cs (Children-le sink rank m f cs (omega arith) k)) cs k
