-- ===== src/Dom/Tree/Tests.antt =====
-- A concrete sink.
use yarte.Base.{
  false, ℕ, ◌≤◌, zero, suc, true, List, [], ◌∷◌, some, ◌⊎◌, inl, inr, ◌≡◌, refl, subst, Str, codes,
  arith,
}
use yarte.Parser.Result.{ok, ◌>>=◌}
use yarte.Dom.Names.{QualName, html}
use yarte.Dom.Serialize.{Trees, serialize}
use yarte.Dom.Sink.{ParseElement, document, node, text, Sink, get}
use yarte.Dom.Tree.{from}
use yarte.Dom.Tree.Merged.{Children, children_of, VoidIsEmpty, IsTree}
use yarte.Dom.Tree.Merged.Whole.{from-serialize}

abbrev name : Str → QualName
name s = record { ns = html; local = s }

-- Two texts side by side, and white space that waits in front of an element without content.
abbrev sink : Sink
sink = record {
  count = 5;
  fragment = false;
  err = [];
  nodes =
      (0, document (1 ∷ []))
      ∷ (1, node (name (codes "p")) [] (2 ∷ 3 ∷ 4 ∷ []) (some 0))
      ∷ (2, text (codes "a "))
      ∷ (3, text (codes " b "))
      ∷ (4, node (name (codes "br")) [] [] (some 1))
      ∷ [];
}

abbrev rank : ℕ → ℕ
rank zero = 2
rank (suc zero) = 1
rank _ = 0

abbrev Each : (ℕ → ParseElement → Type 0) → List (ℕ × ParseElement) → Type 0
Each P [] = Unit
Each P ((k, e) ∷ nodes) = P k e × Each P nodes

get-cases :
    (k id : ℕ) (e' e : ParseElement) (nodes : List (ℕ × ParseElement))
    → get ((k, e') ∷ nodes) id ≡ some e
    → ((k ≡ id) × (e' ≡ e)) ⊎ (get nodes id ≡ some e)
get-cases k id e' e nodes h = ground arith

each-get :
    (P : ℕ → ParseElement → Type 0) (nodes : List (ℕ × ParseElement)) (id : ℕ) (e : ParseElement)
    → Each P nodes
    → get nodes id ≡ some e
    → P id e
each-get P [] id e ps h = absurd (cc)
each-get P ((k, e') ∷ nodes) id e (p, ps) h = elim (get-cases k id e' e nodes h) [
  | inl (q, r) ↦ subst (λ i. P i e) q (subst (λ x. P k x) r p)
  | inr g ↦ each-get P nodes id e ps g
]

sink-IsTree : IsTree sink rank
sink-IsTree = record {
  lower = λ id e h.
      each-get (λ id e. Children sink rank (rank id) (children_of e)) sink.nodes id e
        (
          (omega arith, tt, tt),
          ((omega arith, tt, (omega arith, tt, (omega arith, tt, tt))), (tt, (tt, (tt, tt)))),
        )
        h;
  void = λ id e h.
      each-get (λ id e. VoidIsEmpty e) sink.nodes id e (tt, (inl refl, (tt, (tt, (inr refl, tt)))))
        h;
}

rank-bound : (id : ℕ) (e : ParseElement) → get sink.nodes id ≡ some e → rank id ≤ 2
rank-bound id e h =
    each-get (λ id e. rank id ≤ 2) sink.nodes id e
      (omega arith, (omega arith, (omega arith, (omega arith, (omega arith, tt))))) h

from-serialize_example : (out : Str) × ((from 2 sink >>= λ ts. serialize ts true) ≡ ok out)
from-serialize_example = from-serialize sink rank sink-IsTree 2 rank-bound true

sink-serialize :
    (from 2 sink >>= λ ts. serialize ts true) ≡ ok (codes "<!DOCTYPE html><p>a  b <br></p>")
unfolding from serialize yarte.Dom.Serialize.serialize_nodes yarte.Dom.Serializer.write_doctype
    yarte.Dom.Writer.new yarte.Dom.Serializer.start_elem yarte.Dom.Serializer.write_text
    yarte.Parser.Trim.trim yarte.Parser.Cursor.is_ws yarte.Dom.Serializer.end_elem
    yarte.Dom.Serializer.end
sink-serialize = refl
